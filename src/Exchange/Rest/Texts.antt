-- ===== src/Exchange/Rest/Texts.antt =====
-- A text that is put together from three parts contains the middle one.
use Prim.Native.Nat.{compare as compare_ℕ, Ordering}
use Prim.Native.Char.{code, len_utf8}
use Prim.Native.String.append
use Prim.Native.String.find
use Prim.Native.String.len
use Prim.Native.String.{len, find, same, begins}
use mathlib.Core.Path.{subst⁻¹}
use text.Mathlib.TextFind.{begins_cases}
use okx_hft_executor.Prelude.{
  ℕ, ◌+◌, ◌≤◌, ◌≡◌, refl, sym, ap, ◌∙◌, String, ◌<>◌, true, arith, inl, inr, contains_text,
}

compare_self : (n : ℕ) → compare_ℕ n n ≡ Ordering.eq
compare_self n = ground arith

begins-prefix : (s t v : String) (y n : ℕ) → s ≡ t <> v → begins s t y n ≡ y
begins-prefix s String.[] v y n e = refl
begins-prefix s (String.◌∷◌ d t) v y n e =
    subst⁻¹ (λ s. begins s (String.◌∷◌ d t) y n ≡ y) (e ∙ append.cons d t v)
      (rw (compare_self (code d), same) (begins-prefix (t <> v) t v y n refl))

find-prefix : (s t v : String) → s ≡ t <> v → find s t ≡ 0
find-prefix String.[] t v e = find.nil t ∙ begins-prefix String.[] t v 0 1 e
find-prefix (String.◌∷◌ c s) t v e =
    find.cons c s t ∙ begins-prefix (String.◌∷◌ c s) t v 0 (len_utf8 c + find s t) e

find-le-len : (u t v : String) → find (u <> (t <> v)) t ≤ len (u <> (t <> v))
find-le-len String.[] t v =
    subst⁻¹ (λ s. find s t ≤ len s) (append.nil (t <> v))
      (omega (arith, find-prefix (t <> v) t v refl))
find-le-len (String.◌∷◌ c u) t v =
    let s = u <> (t <> v) in
    subst⁻¹ (λ s. find s t ≤ len s) (append.cons c u (t <> v))
      (elim (begins_cases (String.◌∷◌ c s) t 0 (len_utf8 c + find s t)) [
        | inl at_once ↦ omega (arith, find.cons c s t, at_once.0)
        | inr later ↦ omega (arith, find.cons c s t, later, len.cons c s, find-le-len u t v)
      ])

pub contains_text-append : (u t v : String) → contains_text t (u <> (t <> v)) ≡ true
contains_text-append u t v = ground (arith, find-le-len u t v)

pub <>_assoc : (a b c : String) → (a <> b) <> c ≡ a <> (b <> c)
<>_assoc String.[] b c = ap (λ t. t <> c) (append.nil b) ∙ sym (append.nil (b <> c))
<>_assoc (String.◌∷◌ x a) b c =
    ap (λ t. t <> c) (append.cons x a b)
    ∙ (append.cons x (a <> b) c
        ∙ (ap (λ t. String.◌∷◌ x t) (<>_assoc a b c) ∙ sym (append.cons x a (b <> c))))
