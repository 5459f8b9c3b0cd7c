-- ===== src/Position/Exits.antt =====
-- When a position is left, and what that means for its result.
use okx_hft_executor.Prelude.{
  ℕ, ◌+◌, ◌<◌, ◌≤◌, ◌≡◌, ◌↔◌, ◌⊎◌, true, String, Option, none, some, arith,
}
use okx_hft_executor.Prelude.Int.{
  ℤ, pos, ◌≤ℤ◌, ◌+ℤ◌, ◌-ℤ◌, ◌*ℤ◌, *ℤ_mono, +ℤ_parts, sub_mul, int_laws,
}
use okx_hft_executor.Decimal.{Decimal, TickSize, ticks}
use okx_hft_executor.Strategy.{StrategyConfig, PositionSide, long, short, seconds}
use okx_hft_executor.Position.{
  ActivePosition, ExitReason, tp, sl, timeout, build_active_position, check_exit_reason,
  should_use_market_exit, calc_gross_pnl,
}

-- What a reason to leave, or to stay, says of the time and of the gross result at the price seen:
-- `target` and `limit` are the profit and the loss that the configuration asks for.
abbrev pub Booked : Option ExitReason → ActivePosition → ℕ → ℤ → ℤ → ℤ → Type 0
Booked (some timeout) p now gross target limit = p.timeout_at ≤ now
Booked (some tp) p now gross target limit = (now < p.timeout_at) × (target ≤ℤ gross)
Booked (some sl) p now gross target limit = (now < p.timeout_at) × (gross +ℤ limit ≤ℤ pos 0)
Booked none p now gross target limit =
    (now < p.timeout_at) × (gross ≤ℤ target) × (pos 0 ≤ℤ gross +ℤ limit)

-- The same difference the other way round, multiplied: the two products cancel.
opposite_products : (a b c : ℤ) → (a -ℤ b) *ℤ c +ℤ (b -ℤ a) *ℤ c ≡ pos 0
opposite_products a b c = rw (sub_mul a b c, sub_mul b a c) (omega int_laws)

-- A price that is at least `d` above `e`, or at most, in money.
gain_above :
    (e price d size : ℤ) → pos 0 ≤ℤ size → e +ℤ d ≤ℤ price → d *ℤ size ≤ℤ (price -ℤ e) *ℤ size
gain_above e price d size h k = *ℤ_mono d (price -ℤ e) size (omega int_laws) h

gain_below :
    (e price d size : ℤ) → pos 0 ≤ℤ size → price ≤ℤ e +ℤ d → (price -ℤ e) *ℤ size ≤ℤ d *ℤ size
gain_below e price d size h k = *ℤ_mono (price -ℤ e) d size (omega int_laws) h

loss_above :
    (e price d size : ℤ) → pos 0 ≤ℤ size → price ≤ℤ e -ℤ d → d *ℤ size ≤ℤ (e -ℤ price) *ℤ size
loss_above e price d size h k = *ℤ_mono d (e -ℤ price) size (omega int_laws) h

loss_below :
    (e price d size : ℤ) → pos 0 ≤ℤ size → e -ℤ d ≤ℤ price → (e -ℤ price) *ℤ size ≤ℤ d *ℤ size
loss_below e price d size h k = *ℤ_mono (e -ℤ price) d size (omega int_laws) h

-- The reason at any price and time is right about the money: "tp" books at least the configured
-- profit, "sl" at least the configured loss, "timeout" wins over both, and without a reason the
-- result lies between the two; on both sides of the market, for a size that is not negative.
pub check_exit_reason-Booked :
    (id name : String) (side : PositionSide) (entry_price : Decimal) (entry_ts : ℕ) (size : Decimal)
    (tick : TickSize) (c : StrategyConfig) (price : Decimal) (now : ℕ)
    → pos 0 ≤ℤ size
    → let p = build_active_position id name side entry_price entry_ts size tick c in
      Booked
        (check_exit_reason p price now)
        p
        now
        (calc_gross_pnl p price)
        (ticks tick c.take_profit_ticks *ℤ size)
        (ticks tick c.stop_loss_ticks *ℤ size)
unfolding build_active_position check_exit_reason calc_gross_pnl
check_exit_reason-Booked id name long e ts size tick c price now h =
    let t = ticks tick c.take_profit_ticks in
    let l = ticks tick c.stop_loss_ticks in
    ground (
      arith,
      gain_above e price t size h,
      gain_below e price t size h,
      loss_above e price l size h,
      loss_below e price l size h,
      opposite_products price e size,
      +ℤ_parts ((price -ℤ e) *ℤ size) (l *ℤ size),
      +ℤ_parts ((price -ℤ e) *ℤ size) ((e -ℤ price) *ℤ size),
    )
check_exit_reason-Booked id name short e ts size tick c price now h =
    let t = ticks tick c.take_profit_ticks in
    let l = ticks tick c.stop_loss_ticks in
    ground (
      arith,
      gain_above e price l size h,
      gain_below e price l size h,
      loss_above e price t size h,
      loss_below e price t size h,
      opposite_products price e size,
      +ℤ_parts ((e -ℤ price) *ℤ size) (l *ℤ size),
      +ℤ_parts ((price -ℤ e) *ℤ size) ((e -ℤ price) *ℤ size),
    )

-- The market fallback, when it is enabled, is taken exactly when the maker attempts are used up
-- or the grace after the timeout is over; disabled, it is never taken.
pub should_use_market_exit_iff :
    (p : ActivePosition) (now : ℕ) (c : StrategyConfig)
    → (should_use_market_exit p now c ≡ true) ↔ (
        (c.exit_market_fallback_enabled ≡ true)
        × ((c.exit_maker_max_attempts ≤ p.exit_maker_attempts)
            ⊎ (p.timeout_at + seconds c.exit_market_grace_sec ≤ now)))
unfolding should_use_market_exit
should_use_market_exit_iff p now c = ground arith
