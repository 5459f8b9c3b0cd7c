-- ===== src/Exchange/Errors.antt =====
-- What a call may raise, and the error texts that the executor tells apart
-- (app/orchestrator.py).
use okx_hft_executor.Prelude.{String, Bool, ◌≡◌, refl, ◌⊎◌, inl, inr, ◌||◌, contains_text}

-- `RuntimeError(text)`, or any other exception with its text
pub data Exn : Type 0 where
  runtime_error : String → Exn
  other_exception : String → Exn

pub data Result {ℓ} (A : Type ℓ) : Type ℓ where
  ok : A → Result A
  raise : Exn → Result A

pub Result-cases {ℓ} :
    {A : Type ℓ} (r : Result A) → ((a : A) × (r ≡ ok a)) ⊎ ((e : Exn) × (r ≡ raise e))
Result-cases (ok a) = inl (a, refl)
Result-cases (raise e) = inr (e, refl)

-- `str(exc)`
abbrev pub text_of : Exn → String
text_of (runtime_error text) = text
text_of (other_exception text) = text

unfoldable pub is_okx_price_limit_error : Exn → Bool
is_okx_price_limit_error exc = contains_text "sCode=51006" (text_of exc)

unfoldable pub is_okx_reduce_sync_error : Exn → Bool
is_okx_reduce_sync_error exc =
    contains_text "sCode=51169" (text_of exc) || contains_text "sCode=51170" (text_of exc)

unfoldable pub is_okx_cancel_already_done_error : Exn → Bool
is_okx_cancel_already_done_error exc = contains_text "sCode=51400" (text_of exc)
