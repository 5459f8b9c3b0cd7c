-- ===== src/Position/Prices.antt =====
-- The prices at which maker orders are placed, and when a resting order is out of date.
use okx_hft_executor.Prelude.{ℕ, ◌<◌, ◌≡◌, ◌↔◌, ◌⊎◌, true, arith}
use okx_hft_executor.Prelude.Int.{pos, ◌≤ℤ◌, ◌<ℤ◌, ◌+ℤ◌, +ℤ_parts, -ℤ_parts, min_ℤ, max_ℤ}
use okx_hft_executor.Decimal.{Decimal, TickSize, ticks}
use okx_hft_executor.Decimal.Rounding.{IsAligned, quantize_near, quantize_exact}
use okx_hft_executor.Exchange.{OrderSide, buy, sell, other_side}
use okx_hft_executor.Strategy.{long, short}
use okx_hft_executor.Position.{
  ActivePosition, clamp_maker_price_to_limits, maker_price_for_side, is_exit_order_price_stale,
  is_probable_exit_order,
}

-- What a maker price keeps: a buy stays at or below the touch and the upper limit, a sell at or
-- above the touch and the lower limit, and one of the two is met.
abbrev pub Respects : OrderSide → Decimal → Decimal → Decimal → Decimal → Decimal → Type 0
Respects buy bid ask buy_lmt sell_lmt p = (p ≤ℤ bid) × (p ≤ℤ buy_lmt) × ((p ≡ bid) ⊎ (p ≡ buy_lmt))
Respects _ bid ask buy_lmt sell_lmt p = (ask ≤ℤ p) × (sell_lmt ≤ℤ p) × ((p ≡ ask) ⊎ (p ≡ sell_lmt))

-- The price that `_resolve_maker_price` comes to with limits keeps to the touch and to the
-- exchange's price band, when the book and the band are whole places of a tick whose place is
-- above 0.
pub clamp-maker_price :
    (side : OrderSide) (bid ask buy_lmt sell_lmt : Decimal) (tick : TickSize)
    → 0 < tick.place
    → IsAligned bid tick
    → IsAligned ask tick
    → IsAligned buy_lmt tick
    → IsAligned sell_lmt tick
    → Respects side bid ask buy_lmt sell_lmt (
        clamp_maker_price_to_limits side
          (maker_price_for_side side bid ask tick)
          buy_lmt
          sell_lmt
          tick)
unfolding clamp_maker_price_to_limits maker_price_for_side
clamp-maker_price buy bid ask buy_lmt sell_lmt tick h ab aa al ah =
    ground (arith, quantize_exact bid tick h ab, quantize_exact buy_lmt tick h al)
clamp-maker_price sell bid ask buy_lmt sell_lmt tick h ab aa al ah =
    ground (arith, quantize_exact ask tick h aa, quantize_exact sell_lmt tick h ah)
clamp-maker_price other_side bid ask buy_lmt sell_lmt tick h ab aa al ah =
    ground (arith, quantize_exact ask tick h aa, quantize_exact sell_lmt tick h ah)

-- Whatever the price and the limits are, for a tick whose place is above 0, rounding takes the
-- price outside the band by at most half a place.
pub clamp-near :
    (price buy_lmt sell_lmt : Decimal) (tick : TickSize)
    → 0 < tick.place
    → let low = clamp_maker_price_to_limits buy price buy_lmt sell_lmt tick in
      let high = clamp_maker_price_to_limits sell price buy_lmt sell_lmt tick in
      (low +ℤ low ≤ℤ buy_lmt +ℤ buy_lmt +ℤ pos tick.place)
      × (sell_lmt +ℤ sell_lmt ≤ℤ high +ℤ high +ℤ pos tick.place)
unfolding clamp_maker_price_to_limits
clamp-near price buy_lmt sell_lmt tick h = (
  ground (
    arith,
    quantize_near (min_ℤ price buy_lmt) tick h,
    +ℤ_parts price price,
    +ℤ_parts buy_lmt buy_lmt,
    +ℤ_parts (price +ℤ price) (pos tick.place),
    +ℤ_parts (buy_lmt +ℤ buy_lmt) (pos tick.place),
  ),
  ground (
    arith,
    quantize_near (max_ℤ price sell_lmt) tick h,
    +ℤ_parts price price,
    +ℤ_parts sell_lmt sell_lmt,
  ),
)

-- An exit order is stale exactly when stale ticks are configured and the touch at which it should
-- rest has moved away from it by more than that many: upwards for the sell that closes a long
-- position, downwards for the buy that closes a short one. An order on the position's own side is
-- never stale.
pub is_exit_order_price_stale_iff :
    (p : ActivePosition) (side : OrderSide) (price bid ask : Decimal) (n : ℕ) (tick : TickSize)
    → (is_exit_order_price_stale p side price bid ask n tick ≡ true) ↔ (
        (0 < n)
        × (is_probable_exit_order p side ≡ true)
        × (((p.side ≡ long) × (price +ℤ ticks tick n <ℤ ask))
            ⊎ ((p.side ≡ short) × (bid +ℤ ticks tick n <ℤ price))))
unfolding is_exit_order_price_stale is_probable_exit_order
is_exit_order_price_stale_iff p side price bid ask n tick = ground (
  arith,
  -ℤ_parts ask price,
  -ℤ_parts price bid,
  +ℤ_parts price (ticks tick n),
  +ℤ_parts bid (ticks tick n),
)
