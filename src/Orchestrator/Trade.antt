-- ===== src/Orchestrator/Trade.antt =====
-- A trade from the fill of its entry to the fill of its exit.
use okx_hft_executor.Prelude.{
  ℕ, ◌<>◌, ◌≡◌, refl, ◌∙◌, Bool, true, false, Option, none, some, ◌∷◌, if◌then◌else◌, arith, ◌⊎◌,
}
use okx_hft_executor.Prelude.Int.{pos, ◌+ℤ◌, ◌-ℤ◌, ◌*ℤ◌, ltb_ℤ, is_zero_ℤ}
use okx_hft_executor.Decimal.{Decimal}
use okx_hft_executor.Exchange.{OkxOrder, ExchangeClient}
use okx_hft_executor.Position.{ActiveOrder, entry, exit, is_buy, build_active_position}
use okx_hft_executor.Strategy.{long, short}
use okx_hft_executor.Accounting.{calc_gross_pnl, of_notional}
use okx_hft_executor.Finalize.{TradeResult}
use okx_hft_executor.Orchestrator.World.{Deployment, World}
use okx_hft_executor.Orchestrator.Final.{on_filled, fill_price_of, filled_size}
use okx_hft_executor.Orchestrator.Closing.{trades, on_filled-closes, on_filled-opens}

-- The exchange reports no such price.
abbrev pub IsAbsent : Option Decimal → Type 0
IsAbsent none = Unit
IsAbsent (some px) = is_zero_ℤ px ≡ true

abbrev pub IsPrice : Option Decimal → Decimal → Type 0
IsPrice reported px = (reported ≡ some px) × (is_zero_ℤ px ≡ false)

-- The price that a filled order was filled at: the average of its fills; where that is not
-- reported, the price of the order; where that is not reported either, the last price.
abbrev pub IsPaid : OkxOrder → Decimal → Decimal → Type 0
IsPaid o last px =
    IsPrice o.avg_px px ⊎ IsAbsent o.avg_px × (IsPrice o.px px ⊎ IsAbsent o.px × (last ≡ px))

-- The size that was filled, or the configured one where none is reported
abbrev pub IsFilled : OkxOrder → Decimal → Decimal → Type 0
IsFilled o configured size =
    (ltb_ℤ (pos 0) o.fill_sz ≡ true) × (o.fill_sz ≡ size)
    ⊎ (ltb_ℤ (pos 0) o.fill_sz ≡ false) × (configured ≡ size)

IsPaid-fill_price_of :
    (o : OkxOrder) (last px : Decimal) → IsPaid o last px → fill_price_of o last ≡ px
IsPaid-fill_price_of o last px h = ground (arith, h)

IsFilled-filled_size :
    (o : OkxOrder) (configured size : Decimal)
    → IsFilled o configured size
    → filled_size o configured ≡ size
IsFilled-filled_size o configured size h = ground (arith, h)

gross_of_side :
    (b : Bool) (px px' size : Decimal)
    → calc_gross_pnl (if b then long else short) px px' size
      ≡ (if b then (px' -ℤ px) *ℤ size else (px -ℤ px') *ℤ size)
unfolding calc_gross_pnl
gross_of_side true px px' size = refl
gross_of_side false px px' size = refl

-- The trade that a buy or a sell of a size at a price, and its exit at another, comes to
pub record IsTraded {X : ExchangeClient} (o : OkxOrder) (size px exit_px : Decimal)
    (opened_at closed_at : ℕ) (w w' : World X) : Type 0 where
  pub trade : TradeResult
  pub stored : trades w'.journal ≡ trade ∷ trades w.journal
  pub gross :
      trade.gross_pnl ≡ (if is_buy o.side then (exit_px -ℤ px) *ℤ size else (px -ℤ exit_px) *ℤ size)
  pub balanced : trade.net_pnl +ℤ trade.fees ≡ of_notional trade.gross_pnl
  pub timed : (trade.opened_at ≡ opened_at) × (trade.closed_at ≡ closed_at)
  pub flat : (w'.active_position ≡ none) × (w'.active_order ≡ none)

-- Whatever the exchange answers otherwise: an entry order that is filled and, with the position as
-- it then is, an exit order that is filled come to one trade that is stored, for the size that the
-- entry was filled with, with the difference of the two prices that were paid as its gross result,
-- signed by the side of the entry, and with the times of the two fills; net result and fees add up
-- to the gross result, and no position and no order is left in hand.
pub on_filled-trades :
    (X : ExchangeClient) (d : Deployment) (t t' : ℕ) (a a' : ActiveOrder) (o o' : OkxOrder)
    (last last' px px' size : Decimal) (w v : World X)
    → a.purpose ≡ entry
    → a'.purpose ≡ exit
    → IsPaid o last px
    → IsFilled o d.exec_cfg.order_size size
    → IsPaid o' last' px'
    → v.active_position ≡ (on_filled X d t a o last w).1.active_position
    → IsTraded o size px px' t t' v (on_filled X d t' a' o' last' v).1
unfolding build_active_position
on_filled-trades X d t t' a a' o o' last last' px px' size w v e e' paid sized paid' same =
    let opened = on_filled-opens X d t a o last w e in
    let p =
      build_active_position ("pos" <> ("-" <> d.uuid4_hex w.draws)) a.strategy_name
        (if is_buy o.side then long else short) (fill_price_of o last) t
        (filled_size o d.exec_cfg.order_size) d.tick_size d.config in
    let closed = on_filled-closes X d t' a' o' last' p v e' (same ∙ opened.0) in
    let r = closed.0 in
    let cost = IsPaid-fill_price_of o last px paid in
    let cost' = IsPaid-fill_price_of o' last' px' paid' in
    let filled = IsFilled-filled_size o d.exec_cfg.order_size size sized in
    record {
      trade = r.trade;
      stored = r.stored;
      gross = r.priced ∙ rw (cost, cost', filled) (gross_of_side (is_buy o.side) px px' size);
      balanced = r.balanced;
      timed = r.timed;
      flat = (closed.1, closed.2);
    }
