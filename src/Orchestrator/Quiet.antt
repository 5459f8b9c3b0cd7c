-- ===== src/Orchestrator/Quiet.antt =====
-- The coroutines that neither place an order nor touch the position and the order in hand.
use okx_hft_executor.Prelude.{
  ℕ, suc, ◌≡◌, String, Option, none, some, List, [], ◌∷◌, if◌then◌else◌, arith, inl, inr,
  Option-cases, option_map, get_or,
}
use okx_hft_executor.Decimal.{Decimal}
use okx_hft_executor.Exchange.{OrderSide, OkxOrder, ExchangeClient}
use okx_hft_executor.Position.{ActivePosition, ActiveOrder}
use okx_hft_executor.Lifecycle.{Tracker, new_tracker}
use okx_hft_executor.Orchestrator.World.{
  Deployment, World, IsOk, Request, limit_post_only, market, cancel,
}
use okx_hft_executor.Orchestrator.Calls.{
  resolve_maker_price, cancel_order_best_effort, verify_order_canceled, sweep_order,
  sweep_untracked_executor_orders, resolve_fee_breakdown, finalize_closed_trade, reconciled,
  finalize_reconciled_close,
}

-- How many orders were placed, and how many of them may open a position.
abbrev pub placed : List Request → ℕ
placed [] = 0
placed (limit_post_only _ _ _ _ _ ∷ qs) = suc (placed qs)
placed (market _ _ _ _ ∷ qs) = suc (placed qs)
placed (cancel _ ∷ qs) = placed qs

abbrev pub opening : List Request → ℕ
opening [] = 0
opening (limit_post_only _ _ _ _ reduce_only ∷ qs) =
    let rest = opening qs in if reduce_only then rest else suc rest
opening (market _ _ _ reduce_only ∷ qs) =
    let rest = opening qs in if reduce_only then rest else suc rest
opening (cancel _ ∷ qs) = opening qs

pub record Quiet {X : ExchangeClient} (w w' : World X) : Type 0 where
  pub same_position : w'.active_position ≡ w.active_position
  pub same_order : w'.active_order ≡ w.active_order
  pub same_placed : placed w'.sent ≡ placed w.sent
  pub same_opening : opening w'.sent ≡ opening w.sent

pub Quiet-trans : {X : ExchangeClient} (u v w : World X) → Quiet u v → Quiet v w → Quiet u w
Quiet-trans u v w p q = ground arith

module _ (X : ExchangeClient) (d : Deployment) where
  pub resolve_maker_price-Quiet :
      (side : OrderSide) (quotes : Option (Decimal × Decimal)) (w : World X)
      → Quiet w (resolve_maker_price X d side quotes w).1
  unfolding resolve_maker_price
  resolve_maker_price-Quiet side none w = ground arith
  resolve_maker_price-Quiet side (some q) w = ground arith

  pub cancel_order_best_effort-Quiet :
      (a : ActiveOrder) (w : World X) → Quiet w (cancel_order_best_effort X d a w).1
  unfolding cancel_order_best_effort
  cancel_order_best_effort-Quiet a w = ground arith

  pub verify_order_canceled-Quiet :
      (a : ActiveOrder) (w : World X) → Quiet w (verify_order_canceled X d a w).1
  unfolding verify_order_canceled
  verify_order_canceled-Quiet a w = ground arith

  sweep_order-Quiet :
      (order : OkxOrder) (w : World X)
      → Quiet w (sweep_order X d order w).1 × IsOk (sweep_order X d order w)
  unfolding sweep_order
  sweep_order-Quiet order w = ground arith

  pub sweep-Quiet :
      (orders : List OkxOrder) (w : World X)
      → Quiet w (sweep_untracked_executor_orders X d orders w).1
        × IsOk (sweep_untracked_executor_orders X d orders w)
  unfolding sweep_untracked_executor_orders
  sweep-Quiet [] w = ground arith
  sweep-Quiet (o ∷ os) w =
      ground (arith, sweep_order-Quiet o w, sweep-Quiet os (sweep_order X d o w).1)

  pub resolve_fee_breakdown-Quiet :
      (t : Tracker) (entry_px exit_px size : Decimal) (w : World X)
      → Quiet w (resolve_fee_breakdown X d t entry_px exit_px size w).1
        × IsOk (resolve_fee_breakdown X d t entry_px exit_px size w)
  unfolding resolve_fee_breakdown
  resolve_fee_breakdown-Quiet t entry_px exit_px size w = elim (Option-cases X.get_order_fills) [
    | inl lacks ↦ rw lacks (ground arith)
    | inr (get, e) ↦ rw e (ground arith)
  ]

  pub finalize_closed_trade-Quiet :
      (p : ActivePosition) (t : Tracker) (exit_price : Decimal) (closed_at : ℕ)
      (raw : Option String) (source : String) (w : World X)
      → Quiet w (finalize_closed_trade X d p t exit_price closed_at raw source w).1
        × IsOk (finalize_closed_trade X d p t exit_price closed_at raw source w)
  unfolding finalize_closed_trade
  finalize_closed_trade-Quiet p t exit_price closed_at raw source w =
      ground (arith, resolve_fee_breakdown-Quiet t p.entry_price exit_price p.size w)

  pub finalize_reconciled_close-Quiet :
      (p : ActivePosition) (exit_price : Decimal) (closed_at : ℕ) (w : World X)
      → Quiet w (finalize_reconciled_close X d p exit_price closed_at w).1
        × IsOk (finalize_reconciled_close X d p exit_price closed_at w)
  unfolding finalize_reconciled_close
  finalize_reconciled_close-Quiet p exit_price closed_at w =
      let lifecycle = option_map (reconciled exit_price closed_at) w.lifecycle in
      ground (
        arith,
        finalize_closed_trade-Quiet p
            (get_or lifecycle (reconciled exit_price closed_at new_tracker)) exit_price closed_at
            (some "reconcile") "okx_reconcile" (record w { lifecycle = lifecycle }),
      )
