-- ===== src/Durable/Leaving.antt =====
-- Leaving a position, and what follows a filled or canceled order, keep the position in hand in
-- the book.
use text.Mathlib.TextPositions.{eq_refl}
use okx_hft_executor.Prelude.{
  ℕ, refl, String, Bool, Option, none, some, ◌∷◌, arith, inl, inr, Option-cases,
}
use okx_hft_executor.Decimal.{Decimal}
use okx_hft_executor.Exchange.{OkxOrder, ExchangeClient}
use okx_hft_executor.Exchange.Errors.{Exn, runtime_error, other_exception, Result-cases}
use okx_hft_executor.Position.{
  ActivePosition, ActiveOrder, Purpose, entry, exit, ExitReason, check_exit_reason,
  build_active_position,
}
use okx_hft_executor.Orchestrator.World.{Deployment, World, save_service_event}
use okx_hft_executor.Orchestrator.Leave.{
  place_exit, exit_rejected, try_exit, submit_exit, leave, with_position,
}
use okx_hft_executor.Orchestrator.Final.{
  open_position, fill_purpose, on_filled, on_canceled, fill_price_of,
}
use okx_hft_executor.Orchestrator.Ended.{close_position-sent}
use okx_hft_executor.Durable.Managing.{close_if_flat-IsStored}
use okx_hft_executor.Store.Book.{Book}
use okx_hft_executor.Durable.{IsStored, IsCalm-IsStored}
use okx_hft_executor.Durable.Calm.{place_exit-IsCalm, adopt_exit-IsCalm}

module _ (X : ExchangeClient) (d : Deployment) (b : Book) (now : ℕ) where
  exit_rejected-IsStored :
      (p : ActivePosition) (last : Decimal) (e : Exn) (w : World X)
      → IsStored b w
      → IsStored b (exit_rejected X d now p last e w).1
  unfolding exit_rejected
  exit_rejected-IsStored p last (other_exception text) w h = h
  exit_rejected-IsStored p last (runtime_error text) w h =
      let v : World X = record w {
        journal = save_service_event p.strategy_name "exit_sync_lost" ∷ w.journal;
      } in
      let kept : IsStored b v = h in
      ground (arith, h, close_if_flat-IsStored X d b now p last v kept)

  try_exit-IsStored :
      (p : ActivePosition) (last : Decimal) (m : Bool) (id : String) (w : World X)
      → IsStored b w
      → IsStored b (try_exit X d now p last m id w).1
  unfolding try_exit
  try_exit-IsStored p last m id w h =
      let P = place_exit X d now p last m id w in
      let kept : IsStored b P.1 =
        IsCalm-IsStored b w P.1 (place_exit-IsCalm X d b now p last m id w) h in
      elim (Result-cases P.0) [
        | inl (at, eq) ↦ ground (arith, kept)
        | inr (exc, eq) ↦ ground (arith, exit_rejected-IsStored p last exc P.1 kept)
      ]

  submit_exit-IsStored :
      (p : ActivePosition) (last : Decimal) (r : ExitReason) (m : Bool) (id : String) (w : World X)
      → IsStored b w
      → IsStored b (submit_exit X d now p last r m id w).1
  unfolding submit_exit
  submit_exit-IsStored p last r m id w h =
      let T = try_exit X d now p last m id w in
      let kept : IsStored b T.1 = try_exit-IsStored p last m id w h in
      elim (Result-cases T.0) [
        | inl (inl (price, order_id), eq) ↦
            (let adopted =
                IsCalm-IsStored b T.1 _ (adopt_exit-IsCalm X d b now p r m id price order_id T.1)
                  kept in
              ground (arith, adopted))
        | inl (inr flow, eq) ↦ ground (arith, kept)
        | inr (exc, eq) ↦ ground (arith, kept)
      ]

  leave-IsStored :
      (p : ActivePosition) (last : Decimal) (r : ExitReason) (w : World X)
      → IsStored b w
      → IsStored b (leave X d now p last r w).1
  unfolding leave
  leave-IsStored p last r w h = submit_exit-IsStored p last r _ _ _ h

  pub with_position-IsStored :
      (p : ActivePosition) (last : Decimal) (w : World X)
      → IsStored b w
      → IsStored b (with_position X d now p last w).1
  unfolding with_position
  with_position-IsStored p last w h = elim (Option-cases (check_exit_reason p last now)) [
    | inl none_due ↦ ground (arith, none_due, h)
    | inr (reason, e) ↦ ground (arith, e, leave-IsStored p last reason w h)
  ]

  open_position-IsStored :
      (a : ActiveOrder) (o : OkxOrder) (px : Decimal) (w : World X)
      → IsStored b (open_position X d now a o px w).1
  unfolding open_position build_active_position
  open_position-IsStored a o px w = rw eq_refl refl

  fill_purpose-IsStored :
      (u : Purpose) (p : Option ActivePosition) (a : ActiveOrder) (o : OkxOrder) (px : Decimal)
      (w : World X)
      → IsStored b w
      → IsStored b (fill_purpose X d now u p a o px w).1
  unfolding fill_purpose
  fill_purpose-IsStored entry p a o px w h = open_position-IsStored a o px w
  fill_purpose-IsStored exit none a o px w h = h
  fill_purpose-IsStored exit (some p) a o px w h =
      ground (arith, close_position-sent X d now a o px p w)

  pub on_filled-IsStored :
      (a : ActiveOrder) (o : OkxOrder) (last : Decimal) (w : World X)
      → IsStored b w
      → IsStored b (on_filled X d now a o last w).1
  unfolding on_filled
  on_filled-IsStored a o last w h =
      ground
        (arith, fill_purpose-IsStored a.purpose w.active_position a o (fill_price_of o last) w h)

  pub on_canceled-IsStored :
      (a : ActiveOrder) (o : OkxOrder) (w : World X)
      → IsStored b w
      → IsStored b (on_canceled X d now a o w).1
  unfolding on_canceled
  on_canceled-IsStored a o w h = elim (Option-cases w.active_position) [
    | inl gone ↦ ground (arith, gone)
    | inr (p, e) ↦ ground (arith, h, e)
  ]
