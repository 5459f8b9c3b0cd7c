-- ===== src/Orchestrator/Final.antt =====
-- The branches of the loop for an order that is filled, or canceled or rejected.
use okx_hft_executor.Prelude.{
  ℕ, ◌+◌, String, true, false, Option, none, some, if◌then◌else◌, get_or,
}
use okx_hft_executor.Prelude.Int.{pos, ltb_ℤ, is_zero_ℤ}
use okx_hft_executor.Decimal.{Decimal}
use okx_hft_executor.Exchange.{
  OrderState, live, partially_filled, filled, canceled, rejected, other_state, OkxOrder,
  ExchangeClient,
}
use okx_hft_executor.Strategy.{long, short, on_position_closed}
use okx_hft_executor.Position.{
  ActivePosition, ActiveOrder, Purpose, entry, exit, is_buy, build_active_position,
}
use okx_hft_executor.Lifecycle.{
  Tracker, new_tracker, on_entry_fill, bind_position, on_exit_fill, on_exit_maker_attempt_failed,
}
use okx_hft_executor.Orchestrator.World.{
  Deployment, M, ◌>>=◌, ◌>>◌, gets, modify, skip, store, set_position, set_order, set_has_open,
  set_has_order, on_lifecycle, new_client_order_id, or_decimal, or_price, save_order,
  save_position_open, save_service_event,
}
use okx_hft_executor.Orchestrator.Calls.{finalize_closed_trade}

-- `order.state`, as the text that is stored
abbrev pub state_text : OrderState → String
state_text live = "live"
state_text partially_filled = "partially_filled"
state_text filled = "filled"
state_text canceled = "canceled"
state_text rejected = "rejected"
state_text other_state = ""

-- `order.fill_sz if order.fill_sz > 0 else default`
abbrev pub filled_size : OkxOrder → Decimal → Decimal
filled_size order default = if ltb_ℤ (pos 0) order.fill_sz then order.fill_sz else default

-- `store.get_trade_lifecycle().entry_signal_id if store.get_trade_lifecycle() else client_id`
abbrev pub entry_signal : Option Tracker → String → Option String
entry_signal none client_id = some client_id
entry_signal (some t) client_id = t.entry_signal_id

-- `float(px) if px else None`
abbrev pub price_or_none : Option Decimal → Option Decimal
price_or_none none = none
price_or_none (some px) = if is_zero_ℤ px then none else some px

abbrev pub exit_close_source : Tracker → String
exit_close_source lc =
    if lc.exit_market_fallback_used then "executor_market_fallback" else "executor_maker"

abbrev pub attempt_failed : ActivePosition → ActivePosition
attempt_failed p = record p { exit_maker_attempts = p.exit_maker_attempts + 1 }

-- `fill_price`
abbrev pub fill_price_of : OkxOrder → Decimal → Decimal
fill_price_of order last = or_price order.avg_px (or_price order.px last)

module _ (X : ExchangeClient) (d : Deployment) (now : ℕ) where
  -- An entry order was filled.
  unfoldable pub open_position : ActiveOrder → OkxOrder → Decimal → M X (Unit {0})
  open_position active order fill_price = do
    position_id ← new_client_order_id d.uuid4_hex "pos"
    let p =
        build_active_position position_id active.strategy_name
          (if is_buy order.side then long else short) fill_price now
          (filled_size order d.exec_cfg.order_size) d.tick_size d.config
    set_position (some p)
    set_has_open true
    store (save_service_event p.strategy_name "entry_filled")
    lifecycle ← gets (λ w. w.lifecycle)
    store (save_position_open p (entry_signal lifecycle active.client_id) (some active.client_id))
    on_lifecycle (λ t.
        bind_position (on_entry_fill t fill_price (some order.ord_id) (some active.client_id) now)
          p.position_id)

  -- An exit order was filled, with a position at hand.
  unfoldable pub close_position : ActiveOrder → OkxOrder → Decimal → ActivePosition → M X (Unit {0})
  close_position active order fill_price p = do
    found ← gets (λ w. w.lifecycle)
    let lc = get_or found new_tracker
    let close_source = exit_close_source lc
    let lc' =
        on_exit_fill lc fill_price (some order.ord_id) (some active.client_id) lc.exit_order_type
          now close_source
    on_lifecycle (λ _. lc')
    finalize_closed_trade X d p lc' fill_price now lc'.exit_trigger_reason close_source
    store (save_service_event p.strategy_name "position_closed")
    modify (λ w. record w { strategy = on_position_closed d.config w.strategy now })
    set_position none
    set_has_open false

  -- What is done for the filled order's purpose: an exit without a position changes nothing.
  unfoldable pub fill_purpose :
      Purpose → Option ActivePosition → ActiveOrder → OkxOrder → Decimal → M X (Unit {0})
  fill_purpose entry p active order fill_price = open_position active order fill_price
  fill_purpose exit none active order fill_price = skip
  fill_purpose exit (some p) active order fill_price = close_position active order fill_price p

  unfoldable pub on_filled : ActiveOrder → OkxOrder → Decimal → M X (Unit {0})
  on_filled active order last = do
    let fill_price = fill_price_of order last
    position ← gets (λ w. w.active_position)
    fill_purpose active.purpose position active order fill_price
    store (
        save_order
          (record {
            local_order_id = active.client_id;
            exchange_order_id = order.ord_id;
            side = order.side;
            order_type = "post_only";
            price = some fill_price;
            size = filled_size order order.sz;
            status = state_text order.state;
            filled_at = some now;
            signal_id = none;
            position_id = none;
            parent_order_id_local = none;
            reduce_only = false;
          })
          now)
    set_order none
    set_has_order false

  -- An exit that was not filled counts as a failed attempt; for anything else the trade ends.
  abbrev pub not_filled : Purpose → Option ActivePosition → ActiveOrder → M X (Unit {0})
  not_filled exit (some p) active = do
    on_lifecycle on_exit_maker_attempt_failed
    set_position (some (attempt_failed p))
    store (save_service_event active.strategy_name "exit_not_filled")
  not_filled _ p active = do
    modify (λ w. record w { lifecycle = none })
    store (save_service_event active.strategy_name "entry_not_filled")

  unfoldable pub on_canceled : ActiveOrder → OkxOrder → M X (Unit {0})
  on_canceled active order = do
    position ← gets (λ w. w.active_position)
    not_filled active.purpose position active
    store (
        save_order
          (record {
            local_order_id = active.client_id;
            exchange_order_id = order.ord_id;
            side = order.side;
            order_type = d.exec_cfg.ord_type;
            price = price_or_none (or_decimal order.avg_px order.px);
            size = order.sz;
            status = state_text order.state;
            filled_at = none;
            signal_id = none;
            position_id = none;
            parent_order_id_local = none;
            reduce_only = false;
          })
          now)
    set_order none
