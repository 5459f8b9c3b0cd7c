-- ===== src/Durable/Managing.antt =====
-- Managing the order in hand keeps the position in hand in the book.
use okx_hft_executor.Prelude.{ℕ, String, Option, none, some, ◌∷◌, arith, inl, inr, Option-cases}
use okx_hft_executor.Decimal.{Decimal}
use okx_hft_executor.Exchange.{OkxOrder, ExchangeClient}
use okx_hft_executor.Exchange.Errors.{Exn, runtime_error, other_exception, Result-cases}
use okx_hft_executor.Position.{ActivePosition, ActiveOrder}
use okx_hft_executor.Orchestrator.World.{Deployment, World, limit_post_only, save_service_event}
use okx_hft_executor.Orchestrator.Calls.{cancel_order_best_effort, verify_order_canceled}
use okx_hft_executor.Orchestrator.Quiet.{finalize_reconciled_close-Quiet}
use okx_hft_executor.Orchestrator.Managed.{attempt}
use okx_hft_executor.Orchestrator.Resting.{
  close_if_flat, close_local, reduce_sync_lost, reprice_rejected, stale_reprice, place_again,
  submit_reprice, price_anew, cancel_first, reprice, give_up, on_resting,
}
use okx_hft_executor.Store.Book.{Book}
use okx_hft_executor.Durable.{IsStored, IsCalm-IsStored}
use okx_hft_executor.Durable.Calm.{
  cancel_order_best_effort-IsCalm, verify_order_canceled-IsCalm, stale_reprice-IsCalm,
  price_anew-IsCalm, cancel_first-IsCalm, adopt_reprice-IsCalm,
}

module _ (X : ExchangeClient) (d : Deployment) (b : Book) (now : ℕ) where
  pub close_if_flat-IsStored :
      (p : ActivePosition) (last : Decimal) (w : World X)
      → IsStored b w
      → IsStored b (close_if_flat X d now p last w).1
  unfolding close_if_flat
  close_if_flat-IsStored p last w h = ground (
    arith,
    finalize_reconciled_close-Quiet X d p last now
        (record w { exchange = (X.get_positions w.exchange).1 }),
  )

  close_local-IsStored :
      (p : Option ActivePosition) (last : Decimal) (w : World X)
      → IsStored b w
      → IsStored b (close_local X d now p last w).1
  unfolding close_local
  close_local-IsStored none last w h = h
  close_local-IsStored (some p) last w h = close_if_flat-IsStored p last w h

  reprice_rejected-IsStored :
      (a : ActiveOrder) (last : Decimal) (e : Exn) (w : World X)
      → IsStored b w
      → IsStored b (reprice_rejected X d now a last e w).1
  unfolding reprice_rejected reduce_sync_lost
  reprice_rejected-IsStored a last (other_exception text) w h = h
  reprice_rejected-IsStored a last (runtime_error text) w h =
      let v : World X = record w {
        active_order = none;
        journal = save_service_event a.strategy_name "exit_sync_lost" ∷ w.journal;
      } in
      let kept : IsStored b v = h in
      ground (arith, h, close_local-IsStored w.active_position last v kept)

  place_again-IsStored :
      (a : ActiveOrder) (last price : Decimal) (id : String) (w : World X)
      → IsStored b w
      → IsStored b (place_again X d now a last price id w).1
  unfolding place_again
  place_again-IsStored a last price id w h =
      let v : World X = record w {
        exchange = (attempt X d now a price id w).1;
        sent = limit_post_only a.side a.size price id a.reduce_only ∷ w.sent;
      } in
      let kept : IsStored b v = h in
      elim (Result-cases (attempt X d now a price id w).0) [
        | inl (order_id, e) ↦ ground (arith, h)
        | inr (exc, e) ↦ ground (arith, reprice_rejected-IsStored a last exc v kept)
      ]

  submit_reprice-IsStored :
      (a : ActiveOrder) (last price : Decimal) (id : String) (w : World X)
      → IsStored b w
      → IsStored b (submit_reprice X d now a last price id w).1
  unfolding submit_reprice
  submit_reprice-IsStored a last price id w h =
      let P = place_again X d now a last price id w in
      let kept : IsStored b P.1 = place_again-IsStored a last price id w h in
      elim (Result-cases P.0) [
        | inl (inl order_id, eq) ↦
            (let adopted =
                IsCalm-IsStored b P.1 _ (adopt_reprice-IsCalm X d b now a price id order_id P.1)
                  kept in
              ground (arith, adopted))
        | inl (inr flow, eq) ↦ ground (arith, kept)
        | inr (exc, eq) ↦ ground (arith, kept)
      ]

  reprice-IsStored :
      (a : ActiveOrder) (last : Decimal) (w : World X)
      → IsStored b w
      → IsStored b (reprice X d now a last w).1
  unfolding reprice
  reprice-IsStored a last w h =
      let C = cancel_first X d now a w in
      let N = price_anew X d now a C.1 in
      let canceled : IsStored b C.1 =
        IsCalm-IsStored b w C.1 (cancel_first-IsCalm X d b now a w) h in
      let priced : IsStored b N.1 =
        IsCalm-IsStored b C.1 N.1 (price_anew-IsCalm X d b now a C.1) canceled in
      elim (Result-cases N.0) [
        | inl ((price, id), eq) ↦
            ground (arith, canceled, priced, submit_reprice-IsStored a last price id N.1 priced)
        | inr (exc, eq) ↦ ground (arith, canceled, priced)
      ]

  give_up-IsStored :
      (a : ActiveOrder) (w : World X) → IsStored b w → IsStored b (give_up X d now a w).1
  unfolding give_up
  give_up-IsStored a w h =
      let C = cancel_order_best_effort X d a w in
      let V = verify_order_canceled X d a C.1 in
      let canceled : IsStored b C.1 =
        IsCalm-IsStored b w C.1 (cancel_order_best_effort-IsCalm X d b a w) h in
      let verified : IsStored b V.1 =
        IsCalm-IsStored b C.1 V.1 (verify_order_canceled-IsCalm X d b a C.1) canceled in
      elim (Option-cases V.1.active_position) [
        | inl gone ↦ ground (arith, canceled, verified, gone)
        | inr (p, e) ↦ ground (arith, canceled, verified, e)
      ]

  pub on_resting-IsStored :
      (a : ActiveOrder) (o : OkxOrder) (last : Decimal) (w : World X)
      → IsStored b w
      → IsStored b (on_resting X d now a o last w).1
  unfolding on_resting
  on_resting-IsStored a o last w h =
      let S = stale_reprice X d now a o w in
      let kept : IsStored b S.1 =
        IsCalm-IsStored b w S.1 (stale_reprice-IsCalm X d b now a o w) h in
      ground (arith, kept, reprice-IsStored a last S.1 kept, give_up-IsStored a S.1 kept)
