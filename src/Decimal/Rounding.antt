-- ===== src/Decimal/Rounding.antt =====
-- What rounding to a tick's last digit does to a price.
use native.Mathlib.Nat.{div-add-mod, mul-div_cancel, mul-mod_left}
use okx_hft_executor.Prelude.{ℕ, ◌+◌, ◌*◌, ◌≤◌, ◌<◌, ◌≡◌, arith}
use okx_hft_executor.Prelude.Int.{pos, negsuc, pos_part, neg_part, ◌≤ℤ◌, ◌+ℤ◌}
use okx_hft_executor.Decimal.{Decimal, TickSize, half_even, quantize}

-- Rounding is off by at most half a place, in either direction.
pub half_even_near :
    (n q : ℕ)
    → 0 < q
    → (2 * n ≤ 2 * (half_even n q * q) + q) × (2 * (half_even n q * q) ≤ 2 * n + q)
unfolding half_even
half_even_near n q h = grind (arith, div-add-mod n q)

-- A multiple of the place is left alone.
pub half_even_exact : (k q : ℕ) → 0 < q → half_even (k * q) q ≡ k
unfolding half_even
half_even_exact k q h = ground (arith, mul-div_cancel k h, mul-mod_left k q)

-- Rounding to a place above 0 moves a value by at most half a place.
pub quantize_near :
    (x : Decimal) (tick : TickSize)
    → 0 < tick.place
    → (x +ℤ x ≤ℤ quantize x tick +ℤ quantize x tick +ℤ pos tick.place)
      × (quantize x tick +ℤ quantize x tick ≤ℤ x +ℤ x +ℤ pos tick.place)
unfolding quantize ◌+ℤ◌
quantize_near (pos n) tick h = ground (arith, half_even_near n tick.place h)
quantize_near (negsuc n) tick h = ground (arith, half_even_near (n + 1) tick.place h)

-- `x` is a whole number of places of the tick.
abbrev pub IsAligned : Decimal → TickSize → Type 0
IsAligned x tick = (k : ℕ) × (pos_part x + neg_part x ≡ k * tick.place)

-- A whole number of places above 0 is left alone by rounding.
pub quantize_exact :
    (x : Decimal) (tick : TickSize) → 0 < tick.place → IsAligned x tick → quantize x tick ≡ x
unfolding quantize
quantize_exact (pos n) tick h (k, e) =
    let e' : n ≡ k * tick.place = omega arith in rw (e', half_even_exact k tick.place h)
quantize_exact (negsuc n) tick h (k, e) =
    let e' : n + 1 ≡ k * tick.place = omega arith in
    rw (e', half_even_exact k tick.place h) (rw (← e') (ground arith))
