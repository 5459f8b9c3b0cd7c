-- ===== src/Orchestrator/Sent.antt =====
-- Calls that send no request: pricing, fees and the reconciled close of a position.
use okx_hft_executor.Prelude.{
  ℕ, ◌≡◌, String, Option, none, some, ◌∷◌, arith, inl, inr, Option-cases, option_map, get_or,
}
use okx_hft_executor.Decimal.{Decimal}
use okx_hft_executor.Exchange.{OrderSide, ExchangeClient}
use okx_hft_executor.Exchange.Errors.{Exn, runtime_error, other_exception}
use okx_hft_executor.Position.{ActivePosition}
use okx_hft_executor.Lifecycle.{Tracker, new_tracker}
use okx_hft_executor.Orchestrator.World.{Deployment, World, save_service_event}
use okx_hft_executor.Orchestrator.Calls.{
  resolve_maker_price, resolve_fee_breakdown, finalize_closed_trade, reconciled,
  finalize_reconciled_close,
}
use okx_hft_executor.Orchestrator.Resting.{close_if_flat}
use okx_hft_executor.Orchestrator.Leave.{exit_rejected}

module _ (X : ExchangeClient) (d : Deployment) where
  pub resolve_maker_price-sent :
      (side : OrderSide) (quotes : Option (Decimal × Decimal)) (w : World X)
      → (resolve_maker_price X d side quotes w).1.sent ≡ w.sent
  unfolding resolve_maker_price
  resolve_maker_price-sent side none w = ground arith
  resolve_maker_price-sent side (some q) w = ground arith

  fees-sent :
      (t : Tracker) (entry_px exit_px size : Decimal) (w : World X)
      → (resolve_fee_breakdown X d t entry_px exit_px size w).1.sent ≡ w.sent
  unfolding resolve_fee_breakdown
  fees-sent t entry_px exit_px size w = elim (Option-cases X.get_order_fills) [
    | inl lacks ↦ rw lacks (ground arith)
    | inr (get, e) ↦ rw e (ground arith)
  ]

  finalize_closed_trade-sent :
      (p : ActivePosition) (t : Tracker) (exit_price : Decimal) (closed_at : ℕ)
      (raw : Option String) (source : String) (w : World X)
      → (finalize_closed_trade X d p t exit_price closed_at raw source w).1.sent ≡ w.sent
  unfolding finalize_closed_trade
  finalize_closed_trade-sent p t exit_price closed_at raw source w =
      ground (arith, fees-sent t p.entry_price exit_price p.size w)

  finalize_reconciled_close-sent :
      (p : ActivePosition) (exit_price : Decimal) (closed_at : ℕ) (w : World X)
      → (finalize_reconciled_close X d p exit_price closed_at w).1.sent ≡ w.sent
  unfolding finalize_reconciled_close
  finalize_reconciled_close-sent p exit_price closed_at w =
      let lifecycle = option_map (reconciled exit_price closed_at) w.lifecycle in
      ground (
        arith,
        finalize_closed_trade-sent p
            (get_or lifecycle (reconciled exit_price closed_at new_tracker)) exit_price closed_at
            (some "reconcile") "okx_reconcile" (record w { lifecycle = lifecycle }),
      )

module _ (X : ExchangeClient) (d : Deployment) (now : ℕ) where
  close_if_flat-sent :
      (p : ActivePosition) (last : Decimal) (w : World X)
      → (close_if_flat X d now p last w).1.sent ≡ w.sent
  unfolding close_if_flat
  close_if_flat-sent p last w = ground (
    arith,
    finalize_reconciled_close-sent X d p last now
        (record w { exchange = (X.get_positions w.exchange).1 }),
  )

  pub exit_rejected-sent :
      (p : ActivePosition) (last : Decimal) (e : Exn) (w : World X)
      → (exit_rejected X d now p last e w).1.sent ≡ w.sent
  unfolding exit_rejected
  exit_rejected-sent p last (other_exception text) w = ground arith
  exit_rejected-sent p last (runtime_error text) w = ground (
    arith,
    close_if_flat-sent p last
        (record w { journal = save_service_event p.strategy_name "exit_sync_lost" ∷ w.journal }),
  )
