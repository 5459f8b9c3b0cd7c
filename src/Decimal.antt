-- ===== src/Decimal.antt =====
-- The decimals of the program: prices, sizes, fees and rates are whole numbers of quanta, the
-- least decimal digit that any input carries. Sums, differences and orders are exact, and so is a
-- product, which counts quanta of quanta. What is left of `decimal.Decimal` is `quantize`.
pub mod Rounding
use okx_hft_executor.Prelude.{ℕ, ◌+◌, ◌*◌, ◌/◌, ◌%◌, Bool, ltb, ◌==◌, if◌then◌else◌}
use okx_hft_executor.Prelude.Int.{ℤ, pos, negsuc, sub_ℕ, ◌*ℤ◌}

abbrev pub Decimal : Type 0
Decimal = ℤ

-- The number of quanta in 1, by which products of different degrees are compared.
unfoldable pub quanta_per_unit : ℕ
quanta_per_unit = 1_000_000_000_000

-- A tick size: its amount, and the quanta in one unit of its last written digit (0.05 has the
-- place of 0.01). `quantize` reads only the latter.
pub record TickSize : Type 0 where
  pub amount : Decimal
  pub place : ℕ

-- A quotient that is kept as a fraction, where the program divides and rounds to 28 digits.
pub record Ratio : Type 0 where
  pub num : ℤ
  pub den : ℤ

-- ROUND_HALF_EVEN on a magnitude: how many places it is rounded to
unfoldable pub half_even : ℕ → ℕ → ℕ
half_even n q =
    let k = n / q in
    let r = 2 * (n % q) in
    if ltb r q then k else if ltb q r then k + 1 else if k % 2 == 0 then k else k + 1

-- `x.quantize(tick_size)`
unfoldable pub quantize : Decimal → TickSize → Decimal
unfolding half_even
quantize (pos n) tick = pos (half_even n tick.place * tick.place)
quantize (negsuc n) tick = sub_ℕ 0 (half_even (n + 1) tick.place * tick.place)

-- `tick_size * Decimal(n)`
pub ticks : TickSize → ℕ → Decimal
ticks tick n = tick.amount *ℤ pos n
