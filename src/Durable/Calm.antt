-- ===== src/Durable/Calm.antt =====
-- The coroutines of the loop that leave the position and the book of positions alone.
use okx_hft_executor.Prelude.{
  ℕ, String, Bool, true, false, Option, none, some, List, [], ◌∷◌, arith, inl, inr, Option-cases,
}
use okx_hft_executor.Decimal.{Decimal}
use okx_hft_executor.Exchange.{OrderSide, OkxOrder, ExchangeClient}
use okx_hft_executor.Exchange.Errors.{Exn, Result-cases}
use okx_hft_executor.Strategy.{BaselineSignal}
use okx_hft_executor.Position.{ActivePosition, ActiveOrder, ExitReason, expected_exit_side}
use okx_hft_executor.Lifecycle.{Tracker}
use okx_hft_executor.Orchestrator.World.{Deployment, World, StrategyLoopControl}
use okx_hft_executor.Orchestrator.Calls.{
  resolve_maker_price, cancel_order_best_effort, verify_order_canceled, sweep_order,
  sweep_untracked_executor_orders, resolve_fee_breakdown,
}
use okx_hft_executor.Orchestrator.Resting.{stale_reprice, adopt_reprice, price_anew, cancel_first}
use okx_hft_executor.Orchestrator.Enter.{
  side_of_signal, decide, adopt_entry, place_entry, try_entry, submit_entry, log_skipped,
  without_position,
}
use okx_hft_executor.Orchestrator.Leave.{place_exit, adopt_exit}
use okx_hft_executor.Orchestrator.Iteration.{
  read_snapshot, sweep_if_idle, iteration_failed, read_market,
}
use okx_hft_executor.Store.Book.{Book}
use okx_hft_executor.Durable.{IsCalm}

module _ (X : ExchangeClient) (d : Deployment) (b : Book) where
  pub resolve_maker_price-IsCalm :
      (side : OrderSide) (quotes : Option (Decimal × Decimal)) (w : World X)
      → IsCalm b w (resolve_maker_price X d side quotes w).1
  unfolding resolve_maker_price
  resolve_maker_price-IsCalm side none w = ground arith
  resolve_maker_price-IsCalm side (some q) w = ground arith

  pub cancel_order_best_effort-IsCalm :
      (a : ActiveOrder) (w : World X) → IsCalm b w (cancel_order_best_effort X d a w).1
  unfolding cancel_order_best_effort
  cancel_order_best_effort-IsCalm a w = ground arith

  pub verify_order_canceled-IsCalm :
      (a : ActiveOrder) (w : World X) → IsCalm b w (verify_order_canceled X d a w).1
  unfolding verify_order_canceled
  verify_order_canceled-IsCalm a w = ground arith

  sweep_order-IsCalm : (order : OkxOrder) (w : World X) → IsCalm b w (sweep_order X d order w).1
  unfolding sweep_order
  sweep_order-IsCalm order w = ground arith

  pub sweep-IsCalm :
      (orders : List OkxOrder) (w : World X)
      → IsCalm b w (sweep_untracked_executor_orders X d orders w).1
  unfolding sweep_untracked_executor_orders
  sweep-IsCalm [] w = ground arith
  sweep-IsCalm (o ∷ os) w =
      ground (arith, sweep_order-IsCalm o w, sweep-IsCalm os (sweep_order X d o w).1)

  pub resolve_fee_breakdown-IsCalm :
      (t : Tracker) (entry_px exit_px size : Decimal) (w : World X)
      → IsCalm b w (resolve_fee_breakdown X d t entry_px exit_px size w).1
  unfolding resolve_fee_breakdown
  resolve_fee_breakdown-IsCalm t entry_px exit_px size w = elim (Option-cases X.get_order_fills) [
    | inl lacks ↦ rw lacks (ground arith)
    | inr (get, e) ↦ rw e (ground arith)
  ]

  pub stale_reprice-IsCalm :
      (now : ℕ) (a : ActiveOrder) (o : OkxOrder) (w : World X)
      → IsCalm b w (stale_reprice X d now a o w).1
  unfolding stale_reprice
  stale_reprice-IsCalm now a o w = ground arith

  pub price_anew-IsCalm :
      (now : ℕ) (a : ActiveOrder) (w : World X) → IsCalm b w (price_anew X d now a w).1
  unfolding price_anew
  price_anew-IsCalm now a w = elim (Result-cases (X.get_best_bid_ask w.exchange).0) [
    | inl (quotes, eq) ↦ ground (
      arith,
      resolve_maker_price-IsCalm a.side (some quotes)
          (record w { exchange = (X.get_best_bid_ask w.exchange).1 }),
    )
    | inr (exc, eq) ↦ ground arith
  ]

  pub cancel_first-IsCalm :
      (now : ℕ) (a : ActiveOrder) (w : World X) → IsCalm b w (cancel_first X d now a w).1
  unfolding cancel_first
  cancel_first-IsCalm now a w = ground (arith, cancel_order_best_effort-IsCalm a w)

  pub adopt_reprice-IsCalm :
      (now : ℕ) (a : ActiveOrder) (price : Decimal) (client_id order_id : String) (w : World X)
      → IsCalm b w (adopt_reprice X d now a price client_id order_id w).1
  unfolding adopt_reprice
  adopt_reprice-IsCalm now a price client_id order_id w = ground arith

  decide-IsCalm : (now : ℕ) (w : World X) → IsCalm b w (decide X d now w).1
  unfolding decide
  decide-IsCalm now w = ground arith

  adopt_entry-IsCalm :
      (now : ℕ) (s : BaselineSignal) (price : Decimal) (id : String) (w : World X)
      → IsCalm b w (adopt_entry X d now s price id w).1
  unfolding adopt_entry
  adopt_entry-IsCalm now s price id w = ground arith

  place_entry-IsCalm :
      (now : ℕ) (s : BaselineSignal) (w : World X) → IsCalm b w (place_entry X d now s w).1
  unfolding place_entry
  place_entry-IsCalm now s w =
      ground (arith, resolve_maker_price-IsCalm (side_of_signal s.side) none w)

  try_entry-IsCalm :
      (now : ℕ) (s : BaselineSignal) (w : World X) → IsCalm b w (try_entry X d now s w).1
  unfolding try_entry
  try_entry-IsCalm now s w = ground (arith, place_entry-IsCalm now s w)

  submit_entry-IsCalm :
      (now : ℕ) (s : BaselineSignal) (w : World X) → IsCalm b w (submit_entry X d now s w).1
  unfolding submit_entry
  submit_entry-IsCalm now s w =
      let T = try_entry X d now s w in
      elim (Result-cases T.0) [
        | inl (inl (price, id), eq) ↦
            ground (arith, try_entry-IsCalm now s w, adopt_entry-IsCalm now s price id T.1)
        | inl (inr flow, eq) ↦ ground (arith, try_entry-IsCalm now s w)
        | inr (exc, eq) ↦ ground (arith, try_entry-IsCalm now s w)
      ]

  log_skipped-IsCalm : (now : ℕ) (w : World X) → IsCalm b w (log_skipped X d now w).1
  unfolding log_skipped
  log_skipped-IsCalm now w = ground arith

  pub without_position-IsCalm :
      (now : ℕ) (c : Option StrategyLoopControl) (healthy fresh : Bool) (w : World X)
      → IsCalm b w (without_position X d now c healthy fresh w).1
  unfolding without_position
  without_position-IsCalm now c healthy fresh w =
      let q = decide-IsCalm now w in
      elim (Result-cases (decide X d now w).0) [
        | inl (signal, eq) ↦ ground (
          arith,
          q,
          log_skipped-IsCalm now w,
          submit_entry-IsCalm now signal (decide X d now w).1,
        )
        | inr (exc, eq) ↦ ground (arith, q, log_skipped-IsCalm now w)
      ]

  pub place_exit-IsCalm :
      (now : ℕ) (p : ActivePosition) (last : Decimal) (use_market : Bool) (id : String)
      (w : World X)
      → IsCalm b w (place_exit X d now p last use_market id w).1
  unfolding place_exit
  place_exit-IsCalm now p last true id w = ground arith
  place_exit-IsCalm now p last false id w =
      ground (arith, resolve_maker_price-IsCalm (expected_exit_side p) none w)

  pub adopt_exit-IsCalm :
      (now : ℕ) (p : ActivePosition) (reason : ExitReason) (use_market : Bool) (id : String)
      (price : Decimal) (order_id : String) (w : World X)
      → IsCalm b w (adopt_exit X d now p reason use_market id price order_id w).1
  unfolding adopt_exit
  adopt_exit-IsCalm now p reason use_market id price order_id w = ground arith

  pub read_snapshot-IsCalm : (w : World X) → IsCalm b w (read_snapshot X d w).1
  unfolding read_snapshot
  read_snapshot-IsCalm w = ground arith

  pub sweep_if_idle-IsCalm :
      (orders : List OkxOrder) (o : Option ActiveOrder) (p : Option ActivePosition) (w : World X)
      → IsCalm b w (sweep_if_idle X d orders o p w).1
  unfolding sweep_if_idle
  sweep_if_idle-IsCalm orders o p w = ground (arith, sweep-IsCalm orders w)

  pub iteration_failed-IsCalm : (e : Exn) (w : World X) → IsCalm b w (iteration_failed X d e w).1
  unfolding iteration_failed
  iteration_failed-IsCalm e w = ground arith

  pub read_market-IsCalm : (w : World X) → IsCalm b w (read_market X d w).1
  unfolding read_market
  read_market-IsCalm w = ground arith
