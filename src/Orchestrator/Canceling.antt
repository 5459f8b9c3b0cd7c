-- ===== src/Orchestrator/Canceling.antt =====
-- What becomes of an order that the executor cancels before it places it again.
use okx_hft_executor.Prelude.{◌≡◌, ◌+◌, String, true, arith, inl, inr, ℕ}
use okx_hft_executor.Decimal.{Decimal}
use okx_hft_executor.Exchange.{ExchangeClient}
use okx_hft_executor.Exchange.Errors.{
  runtime_error, ok, raise, is_okx_cancel_already_done_error, Result-cases,
}
use okx_hft_executor.Position.{ActiveOrder}
use okx_hft_executor.Orchestrator.World.{Deployment, World, Flow, fall}
use okx_hft_executor.Orchestrator.Calls.{resolve_maker_price, cancel_order_best_effort}
use okx_hft_executor.Orchestrator.Resting.{
  place_again, adopt_reprice, submit_reprice, price_anew, cancel_first, reprice,
}
use okx_hft_executor.Orchestrator.Quiet.{placed}
use okx_hft_executor.Orchestrator.Managed.{place_again-Placed, price_anew-Quiet, cancel_first-Quiet}

module _ (X : ExchangeClient) (d : Deployment) where
  -- The cancel either lets the repricing go on or raises: it never ends the iteration.
  cancel_first-goes_on :
      (now : ℕ) (a : ActiveOrder) (flow : Flow) (w : World X)
      → (cancel_first X d now a w).0 ≡ ok flow
      → flow ≡ fall
  unfolding cancel_first cancel_order_best_effort
  cancel_first-goes_on now a flow w e = ground arith

  submit_reprice-placed :
      (now : ℕ) (a : ActiveOrder) (last price : Decimal) (id : String) (w : World X)
      → placed (submit_reprice X d now a last price id w).1.sent ≡ placed w.sent + 1
  unfolding submit_reprice adopt_reprice
  submit_reprice-placed now a last price id w =
      let P = place_again X d now a last price id w in
      let sent = place_again-Placed X d now a last price id w in
      elim (Result-cases P.0) [
        | inl (inl order_id, eq) ↦ ground (arith, sent)
        | inl (inr flow, eq) ↦ ground (arith, sent)
        | inr (exc, eq) ↦ ground (arith, sent)
      ]

  price_anew-ok :
      (now : ℕ) (a : ActiveOrder) (quotes : Decimal × Decimal) (w : World X) (s : X.State)
      → X.get_best_bid_ask w.exchange ≡ (ok quotes, s)
      → (at : Decimal × String) × ((price_anew X d now a w).0 ≡ ok at)
        × (placed (price_anew X d now a w).1.sent ≡ placed w.sent)
  unfolding price_anew resolve_maker_price
  price_anew-ok now a quotes w s e = elim (Result-cases (price_anew X d now a w).0) [
    | inl (at, eq) ↦ (at, eq, (price_anew-Quiet X d now a w).same_placed)
    | inr (exc, eq) ↦ ground arith
  ]

  -- Where the exchange answers the cancel with the error that the order is already done (filled
  -- ones included) and quotes its touch, repricing still sends the replacement.
  pub reprice-already_done :
      (now : ℕ) (a : ActiveOrder) (last : Decimal) (text : String) (quotes : Decimal × Decimal)
      (w : World X) (s₁ s₂ : X.State)
      → X.cancel_order_by_client_id a.client_id w.exchange ≡ (raise (runtime_error text), s₁)
      → is_okx_cancel_already_done_error (runtime_error text) ≡ true
      → X.get_best_bid_ask s₁ ≡ (ok quotes, s₂)
      → placed (reprice X d now a last w).1.sent ≡ placed w.sent + 1
  unfolding reprice cancel_first cancel_order_best_effort
  reprice-already_done now a last text quotes w s₁ s₂ c done q =
      let C = cancel_first X d now a w in
      let went_on : C.0 ≡ ok fall = ground arith in
      let at : C.1.exchange ≡ s₁ = ground arith in
      let N = price_anew X d now a C.1 in
      let r = price_anew-ok now a quotes C.1 s₂ (rw at q) in
      ground (
        arith,
        went_on,
        cancel_first-Quiet X d now a w,
        r,
        submit_reprice-placed now a last r.0.0 r.0.1 N.1,
      )
