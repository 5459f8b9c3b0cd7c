-- ===== src/Exchange/Rest/Json.antt =====
-- exchange/okx/rest_client.py: the values that a response carries, and how they are read. What
-- Python's library does to a value is a parameter.
use Prim.Native.Char.{Char}
use okx_hft_executor.Prelude.{
  ℕ, String, Bool, true, false, not, Option, none, some, str_eq, if◌then◌else◌, get_or, List,
}
use okx_hft_executor.Prelude.Int.{pos}
use okx_hft_executor.Decimal.{Decimal, TickSize}
use okx_hft_executor.Exchange.Errors.{other_exception, Result, ok, raise}

-- What `json.loads` answers; a number is kept by its text.
mutual
  pub data Json : Type 0 where
    null : Json
    text : String → Json
    number : String → Bool → Json
    flag : Bool → Json
    array : Items → Json
    object : Fields → Json

  pub data Items : Type 0 where
    nil : Items
    cons : Json → Items → Items

  pub data Fields : Type 0 where
    end : Fields
    field : String → Json → Fields → Fields

-- The calls of Python's library: `str(v)`, `Decimal(v)` and `int(str(v))`, where they do not
-- raise, the decimal with its exponent, `s.strip()`, `ch.isalnum()`, and `urlencode`.
pub record Library : Type 0 where
  pub str_of : Json → String
  pub decimal_of : Json → Option Decimal
  pub tick_of : Json → Option TickSize
  pub int_of : Json → Option ℕ
  pub strip : String → String
  pub isalnum : Char → Bool
  pub urlencode : List (String × String) → String

infixl 5 ◌>>=◌
abbrev pub ◌>>=◌ {ℓ κ} : {A : Type ℓ} {B : Type κ} → Result A → (A → Result B) → Result B
ok a >>= f = f a
raise e >>= f = raise e

-- `str(v)`; of a text it is the text.
abbrev pub py_str : Library → Json → String
py_str lib (text s) = s
py_str lib v = lib.str_of v

-- `if v`; a number comes with whether it is zero.
abbrev pub is_true : Json → Bool
is_true null = false
is_true (text s) = not (str_eq s "")
is_true (number n is_zero) = not is_zero
is_true (flag b) = b
is_true (array nil) = false
is_true (array (cons v vs)) = true
is_true (object end) = false
is_true (object (field k v fs)) = true

unfoldable pub get_field : String → Fields → Option Json
get_field k end = none
get_field k (field j v fs) = if str_eq j k then some v else get_field k fs

-- `v.get(k)` of a value that has to be a dictionary
unfoldable pub get : String → Json → Result (Option Json)
unfolding get_field
get k (object fs) = ok (get_field k fs)
get k v = raise (other_exception "no attribute 'get'")

-- `None` for a key that is missing
abbrev pub or_null : Option Json → Json
or_null none = null
or_null (some v) = v

-- `for item in v`, where each item is used as a dictionary
unfoldable pub items_of : Json → Result Items
items_of (array vs) = ok vs
items_of (text s) = if str_eq s "" then ok nil else raise (other_exception "no attribute 'get'")
items_of (object end) = ok nil
items_of (object (field k v fs)) = raise (other_exception "no attribute 'get'")
items_of v = raise (other_exception "not iterable")

-- `v[0]` of a value that has to be a list
unfoldable pub first_of : Json → Result Json
first_of (array (cons v vs)) = ok v
first_of v = raise (other_exception "no item 0")

module _ (lib : Library) where
  abbrev decimal_or_raise : Option Decimal → Result Decimal
  decimal_or_raise none = raise (other_exception "InvalidOperation")
  decimal_or_raise (some x) = ok x

  -- `Decimal(v)`
  unfoldable pub decimal : Json → Result Decimal
  decimal v = decimal_or_raise (lib.decimal_of v)

  abbrev optional : Result Decimal → Result (Option Decimal)
  optional (ok x) = ok (some x)
  optional (raise e) = raise e

  -- `_to_decimal`
  unfoldable pub to_decimal : Json → Result (Option Decimal)
  unfolding decimal
  to_decimal null = ok none
  to_decimal (text s) = if str_eq s "" then ok none else optional (decimal (text s))
  to_decimal v = optional (decimal v)

  -- `_parse_ms_timestamp`
  unfoldable pub parse_ms_timestamp : Json → Option ℕ
  parse_ms_timestamp null = none
  parse_ms_timestamp (text s) = if str_eq s "" then none else lib.int_of (text s)
  parse_ms_timestamp v = lib.int_of v

  abbrev int_or_raise : Option ℕ → Result ℕ
  int_or_raise none = raise (other_exception "invalid literal for int()")
  int_or_raise (some n) = ok n

  -- `int(v)`
  unfoldable pub int : Json → Result ℕ
  int v = int_or_raise (lib.int_of v)

  -- `str(item.get(k, d))`
  unfoldable pub text_field : String → String → Json → Result String
  unfolding get
  text_field k d item = get k item >>= λ v. ok (py_str lib (get_or v (text d)))

  -- `_to_decimal(item.get(k))`
  unfoldable pub optional_field : String → Json → Result (Option Decimal)
  unfolding get to_decimal
  optional_field k item = get k item >>= λ v. to_decimal (or_null v)

  -- `_to_decimal(item.get(k)) or Decimal("0")`
  unfoldable pub decimal_field : String → Json → Result Decimal
  unfolding optional_field
  decimal_field k item = optional_field k item >>= λ x. ok (get_or x (pos 0))
