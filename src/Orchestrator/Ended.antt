-- ===== src/Orchestrator/Ended.antt =====
-- What a filled, canceled or rejected order leaves behind.
use okx_hft_executor.Prelude.{ℕ, ◌≡◌, Option, none, some, arith, option_map, get_or}
use okx_hft_executor.Decimal.{Decimal}
use okx_hft_executor.Exchange.{OkxOrder, ExchangeClient}
use okx_hft_executor.Exchange.Errors.{Result}
use okx_hft_executor.Position.{ActivePosition, ActiveOrder, Purpose, entry, exit}
use okx_hft_executor.Lifecycle.{new_tracker, on_exit_fill}
use okx_hft_executor.Orchestrator.World.{Deployment, World, IsOk}
use okx_hft_executor.Orchestrator.Quiet.{placed, opening, finalize_closed_trade-Quiet}
use okx_hft_executor.Orchestrator.Final.{
  fill_purpose, open_position, close_position, on_filled, on_canceled, exit_close_source,
  fill_price_of,
}

-- No request is sent, nothing is raised, and no order is in hand.
pub record Ended {A : Type 0} {X : ExchangeClient} (w : World X) (r : Result A × World X)
    : Type 0 where
  pub no_order : r.1.active_order ≡ none
  pub no_placed : placed r.1.sent ≡ placed w.sent
  pub no_opening : opening r.1.sent ≡ opening w.sent
  pub no_raise : IsOk r

module _ (X : ExchangeClient) (d : Deployment) (now : ℕ) where
  open_position-sent :
      (a : ActiveOrder) (o : OkxOrder) (px : Decimal) (w : World X)
      → ((open_position X d now a o px w).1.sent ≡ w.sent) × IsOk (open_position X d now a o px w)
  unfolding open_position
  open_position-sent a o px w = ground arith

  pub close_position-sent :
      (a : ActiveOrder) (o : OkxOrder) (px : Decimal) (p : ActivePosition) (w : World X)
      → (placed (close_position X d now a o px p w).1.sent ≡ placed w.sent)
        × (opening (close_position X d now a o px p w).1.sent ≡ opening w.sent)
        × ((close_position X d now a o px p w).1.active_position ≡ none)
        × IsOk (close_position X d now a o px p w)
  unfolding close_position
  close_position-sent a o px p w =
      let lc = get_or w.lifecycle new_tracker in
      let source = exit_close_source lc in
      let lc' =
        on_exit_fill lc px (some o.ord_id) (some a.client_id) lc.exit_order_type now source in
      ground (
        arith,
        finalize_closed_trade-Quiet X d p lc' px now lc'.exit_trigger_reason source
            (record w { lifecycle = option_map (λ _. lc') w.lifecycle }),
      )

  fill_purpose-sent :
      (u : Purpose) (p : Option ActivePosition) (a : ActiveOrder) (o : OkxOrder) (px : Decimal)
      (w : World X)
      → (placed (fill_purpose X d now u p a o px w).1.sent ≡ placed w.sent)
        × (opening (fill_purpose X d now u p a o px w).1.sent ≡ opening w.sent)
        × IsOk (fill_purpose X d now u p a o px w)
  unfolding fill_purpose
  fill_purpose-sent entry p a o px w = ground (arith, open_position-sent a o px w)
  fill_purpose-sent exit none a o px w = ground arith
  fill_purpose-sent exit (some p) a o px w = ground (arith, close_position-sent a o px p w)

  pub on_filled-Ended :
      (a : ActiveOrder) (o : OkxOrder) (last : Decimal) (w : World X)
      → Ended w (on_filled X d now a o last w)
  unfolding on_filled
  on_filled-Ended a o last w =
      ground (arith, fill_purpose-sent a.purpose w.active_position a o (fill_price_of o last) w)

  pub on_canceled-Ended :
      (a : ActiveOrder) (o : OkxOrder) (w : World X) → Ended w (on_canceled X d now a o w)
  unfolding on_canceled
  on_canceled-Ended a o w = ground arith
