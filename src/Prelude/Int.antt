-- ===== src/Prelude/Int.antt =====
-- Signed integers over the native numbers, under the library's names (its ℤ stands on the unary ℕ).
-- `omega` and `ground` read sums and orders through the two parts of an integer.
use native.Mathlib.Nat.{mul-le-mul_left, mul-le-mul_right}
use okx_hft_executor.Prelude.{
  ℕ, suc, ◌+◌, ◌-◌, ◌*◌, ◌≤◌, ◌<◌, ◌≡◌, ap, Bool, true, false, arith, ltb, leb, if◌then◌else◌, ◌&&◌,
}

-- `negsuc n` is -(n + 1).
pub data ℤ : Type 0 where
  pos : ℕ → ℤ
  negsuc : ℕ → ℤ

abbrev pub pos_part : ℤ → ℕ
pos_part (pos n) = n
pos_part (negsuc n) = 0

abbrev pub neg_part : ℤ → ℕ
neg_part (pos n) = 0
neg_part (negsuc n) = suc n

-- a - b, as an integer.
abbrev pub sub_ℕ : ℕ → ℕ → ℤ
sub_ℕ a b = if leb b a then pos (a - b) else negsuc (b - a - 1)

infixl 65 ◌+ℤ◌ ◌-ℤ◌
infixl 70 ◌*ℤ◌
infix 50 ◌≤ℤ◌ ◌<ℤ◌
unfoldable pub ◌+ℤ◌ : ℤ → ℤ → ℤ
a +ℤ b = sub_ℕ (pos_part a + pos_part b) (neg_part a + neg_part b)

unfoldable pub ◌-ℤ◌ : ℤ → ℤ → ℤ
a -ℤ b = sub_ℕ (pos_part a + neg_part b) (neg_part a + pos_part b)

unfoldable pub ◌*ℤ◌ : ℤ → ℤ → ℤ
a *ℤ b =
    sub_ℕ (pos_part a * pos_part b + neg_part a * neg_part b)
      (pos_part a * neg_part b + neg_part a * pos_part b)

abbrev pub ◌≤ℤ◌ : ℤ → ℤ → Type 0
a ≤ℤ b = pos_part a + neg_part b ≤ pos_part b + neg_part a

abbrev pub ◌<ℤ◌ : ℤ → ℤ → Type 0
a <ℤ b = pos_part a + neg_part b < pos_part b + neg_part a

abbrev pub ltb_ℤ : ℤ → ℤ → Bool
ltb_ℤ a b = ltb (pos_part a + neg_part b) (pos_part b + neg_part a)

abbrev pub leb_ℤ : ℤ → ℤ → Bool
leb_ℤ a b = leb (pos_part a + neg_part b) (pos_part b + neg_part a)

-- `x == 0`
abbrev pub is_zero_ℤ : ℤ → Bool
is_zero_ℤ a = leb_ℤ a (pos 0) && leb_ℤ (pos 0) a

unfoldable pub neg_ℤ : ℤ → ℤ
neg_ℤ a = sub_ℕ (neg_part a) (pos_part a)

unfoldable pub abs : ℤ → ℤ
abs a = pos (pos_part a + neg_part a)

abbrev pub min_ℤ : ℤ → ℤ → ℤ
min_ℤ a b = if ltb_ℤ b a then b else a

abbrev pub max_ℤ : ℤ → ℤ → ℤ
max_ℤ a b = if ltb_ℤ a b then b else a

-- With these the operations can stay shut.
pub +ℤ_parts :
    (a b : ℤ)
    → pos_part (a +ℤ b) + neg_part a + neg_part b ≡ neg_part (a +ℤ b) + pos_part a + pos_part b
unfolding ◌+ℤ◌
+ℤ_parts a b = ground arith

pub -ℤ_parts :
    (a b : ℤ)
    → pos_part (a -ℤ b) + neg_part a + pos_part b ≡ neg_part (a -ℤ b) + pos_part a + neg_part b
unfolding ◌-ℤ◌
-ℤ_parts a b = ground arith

pub neg_ℤ_parts : (a : ℤ) → pos_part (neg_ℤ a) + pos_part a ≡ neg_part (neg_ℤ a) + neg_part a
unfolding neg_ℤ
neg_ℤ_parts a = ground arith

pub *ℤ_parts :
    (a b : ℤ)
    → pos_part (a *ℤ b) + (pos_part a * neg_part b + neg_part a * pos_part b)
      ≡ neg_part (a *ℤ b) + (pos_part a * pos_part b + neg_part a * neg_part b)
unfolding ◌*ℤ◌
*ℤ_parts a b = ground arith

pub eq_of_parts : (a b : ℤ) → pos_part a + neg_part b ≡ pos_part b + neg_part a → a ≡ b
eq_of_parts a b h = ground arith

pub ruleset int_laws = (arith, +ℤ_parts, -ℤ_parts, neg_ℤ_parts, eq_of_parts)

pub *ℤ_nonneg : (a b : ℤ) → pos 0 ≤ℤ a → pos 0 ≤ℤ b → pos 0 ≤ℤ a *ℤ b
unfolding ◌*ℤ◌
*ℤ_nonneg a b h k = grind arith

-- A product grows with its first factor when the second is not negative.
pub *ℤ_mono : (a b c : ℤ) → a ≤ℤ b → pos 0 ≤ℤ c → a *ℤ c ≤ℤ b *ℤ c
*ℤ_mono a b (pos c) h k =
    let m : (pos_part a + neg_part b) * c ≤ (pos_part b + neg_part a) * c = mul-le-mul_right c h in
    omega (arith, *ℤ_parts a (pos c), *ℤ_parts b (pos c), m)
*ℤ_mono a b (negsuc c) h k = absurd (omega arith)

-- A difference of factors, multiplied out.
pub sub_mul : (a b c : ℤ) → (a -ℤ b) *ℤ c ≡ a *ℤ c -ℤ b *ℤ c
sub_mul a b c =
    let p : (pos_part (a -ℤ b) + neg_part a + pos_part b) * pos_part c
        ≡ (neg_part (a -ℤ b) + pos_part a + neg_part b) * pos_part c =
      ap (λ (t : ℕ). t * pos_part c) (-ℤ_parts a b) in
    let q : (pos_part (a -ℤ b) + neg_part a + pos_part b) * neg_part c
        ≡ (neg_part (a -ℤ b) + pos_part a + neg_part b) * neg_part c =
      ap (λ (t : ℕ). t * neg_part c) (-ℤ_parts a b) in
    eq_of_parts _ _ (
      omega
        (arith, p, q, *ℤ_parts (a -ℤ b) c, *ℤ_parts a c, *ℤ_parts b c, -ℤ_parts (a *ℤ c) (b *ℤ c)))

pub add_mul : (a b c : ℤ) → (a +ℤ b) *ℤ c ≡ a *ℤ c +ℤ b *ℤ c
add_mul a b c =
    let p : (pos_part (a +ℤ b) + neg_part a + neg_part b) * pos_part c
        ≡ (neg_part (a +ℤ b) + pos_part a + pos_part b) * pos_part c =
      ap (λ (t : ℕ). t * pos_part c) (+ℤ_parts a b) in
    let q : (pos_part (a +ℤ b) + neg_part a + neg_part b) * neg_part c
        ≡ (neg_part (a +ℤ b) + pos_part a + pos_part b) * neg_part c =
      ap (λ (t : ℕ). t * neg_part c) (+ℤ_parts a b) in
    eq_of_parts _ _ (
      omega
        (arith, p, q, *ℤ_parts (a +ℤ b) c, *ℤ_parts a c, *ℤ_parts b c, +ℤ_parts (a *ℤ c) (b *ℤ c)))

pub mul_add : (a b c : ℤ) → a *ℤ (b +ℤ c) ≡ a *ℤ b +ℤ a *ℤ c
mul_add a b c =
    let p : pos_part a * (pos_part (b +ℤ c) + neg_part b + neg_part c)
        ≡ pos_part a * (neg_part (b +ℤ c) + pos_part b + pos_part c) =
      ap (λ (t : ℕ). pos_part a * t) (+ℤ_parts b c) in
    let q : neg_part a * (pos_part (b +ℤ c) + neg_part b + neg_part c)
        ≡ neg_part a * (neg_part (b +ℤ c) + pos_part b + pos_part c) =
      ap (λ (t : ℕ). neg_part a * t) (+ℤ_parts b c) in
    eq_of_parts _ _ (
      omega
        (arith, p, q, *ℤ_parts a (b +ℤ c), *ℤ_parts a b, *ℤ_parts a c, +ℤ_parts (a *ℤ b) (a *ℤ c)))

pub *ℤ_mono_right : (a b c : ℤ) → pos 0 ≤ℤ a → b ≤ℤ c → a *ℤ b ≤ℤ a *ℤ c
*ℤ_mono_right (pos a) b c h k =
    let m : a * (pos_part b + neg_part c) ≤ a * (pos_part c + neg_part b) = mul-le-mul_left a k in
    omega (arith, *ℤ_parts (pos a) b, *ℤ_parts (pos a) c, m)
*ℤ_mono_right (negsuc a) b c h k = absurd (omega arith)
