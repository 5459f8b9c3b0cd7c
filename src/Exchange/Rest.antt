-- ===== src/Exchange/Rest.antt =====
-- exchange/okx/rest_client.py: what becomes of a client order id before it is sent. `isalnum`, of
-- the text library, is an argument.
pub mod Texts
pub mod Json
pub mod Call
pub mod Parse
pub mod Market
pub mod Client
pub mod Refusals
pub mod Reported
use Prim.Native.Char.{Char, code}
use Prim.Native.String.append
use okx_hft_executor.Prelude.{
  ℕ, zero, suc, String, ◌<>◌, Bool, false, str_eq, starts_with, if◌then◌else◌, ◌≡◌, ◌≢◌, refl,
  arith, inl, inr, Bool-cases,
}
use mathlib.Core.Path.{subst, subst⁻¹}
use text.Mathlib.TextEquality.{starts_with_iff}

-- `"".join(ch for ch in cl_ord_id if ch.isalnum())`
unfoldable pub keep_alnum : (Char → Bool) → String → String
keep_alnum isalnum String.[] = String.[]
keep_alnum isalnum (String.◌∷◌ c s) =
    let rest = keep_alnum isalnum s in if isalnum c then String.◌∷◌ c rest else rest

-- `s[:n]`
unfoldable pub take_chars : ℕ → String → String
take_chars zero s = String.[]
take_chars (suc n) String.[] = String.[]
take_chars (suc n) (String.◌∷◌ c s) = String.◌∷◌ c (take_chars n s)

unfoldable pub normalize_cl_ord_id : (Char → Bool) → String → String
normalize_cl_ord_id isalnum cl_ord_id =
    let normalized = keep_alnum isalnum cl_ord_id in
    take_chars 32 (if str_eq normalized "" then "ord" else normalized)

-- No character is "-".
abbrev NoDash : String → Type 0
NoDash String.[] = Unit
NoDash (String.◌∷◌ c s) = (code c ≢ 45) × NoDash s

keep_alnum-NoDash :
    (isalnum : Char → Bool)
    → ((c : Char) → code c ≡ 45 → isalnum c ≡ false)
    → (s : String) → NoDash (keep_alnum isalnum s)
unfolding keep_alnum
keep_alnum-NoDash f h String.[] = tt
keep_alnum-NoDash f h (String.◌∷◌ c s) = elim (Bool-cases (f c)) [
  | inl keeps ↦ rw keeps (λ dash. absurd (cc (h c dash, keeps)), keep_alnum-NoDash f h s)
  | inr drops ↦ rw drops (keep_alnum-NoDash f h s)
]

take_chars-NoDash : (n : ℕ) (s : String) → NoDash s → NoDash (take_chars n s)
unfolding take_chars
take_chars-NoDash zero s h = tt
take_chars-NoDash (suc n) String.[] h = tt
take_chars-NoDash (suc n) (String.◌∷◌ c s) (h, hs) = (h, take_chars-NoDash n s hs)

normalize-NoDash :
    (isalnum : Char → Bool) (s : String)
    → ((c : Char) → code c ≡ 45 → isalnum c ≡ false)
    → NoDash (normalize_cl_ord_id isalnum s)
unfolding normalize_cl_ord_id
normalize-NoDash f s h = take_chars-NoDash 32 _ (elim (Bool-cases (str_eq (keep_alnum f s) "")) [
  | inl e ↦ rw e (omega arith, (omega arith, (omega arith, tt)))
  | inr e ↦ rw e (keep_alnum-NoDash f h s)
])

NoDash-prefix : (t s : String) → NoDash (t <> s) → NoDash t
NoDash-prefix String.[] s h = tt
NoDash-prefix (String.◌∷◌ c t) s h =
    let (first, rest) = subst NoDash (append.cons c t s) h in (first, NoDash-prefix t s rest)

-- A client order id that was normalized never starts with "rb-", whatever its characters were,
-- where "-" is no letter and no digit.
pub normalize_cl_ord_id-starts_with :
    (isalnum : Char → Bool) (s : String)
    → ((c : Char) → code c ≡ 45 → isalnum c ≡ false)
    → starts_with (normalize_cl_ord_id isalnum s) "rb-" ≡ false
normalize_cl_ord_id-starts_with f s h =
    elim (Bool-cases (starts_with (normalize_cl_ord_id f s) "rb-")) [
      | inl swept ↦
          (let (u, path) = (starts_with_iff (normalize_cl_ord_id f s) "rb-").0 swept in
            let kept : NoDash ("rb-" <> u) = subst⁻¹ NoDash path (normalize-NoDash f s h) in
            let (_, (_, (third, _))) = NoDash-prefix "rb-" u kept in absurd (third refl))
      | inr kept ↦ kept
    ]
