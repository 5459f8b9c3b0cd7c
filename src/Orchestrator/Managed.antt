-- ===== src/Orchestrator/Managed.antt =====
-- What managing the order in hand does to it, to the position, and to the requests sent.
use okx_hft_executor.Prelude.{
  ℕ, ◌+◌, ◌≤◌, ◌≡◌, refl, String, Bool, true, false, Option, none, some, ◌∷◌, if◌then◌else◌, arith,
  ◌⊎◌, inl, inr, ◌≢◌,
}
use okx_hft_executor.Decimal.{Decimal}
use okx_hft_executor.Exchange.{OkxOrder, ExchangeClient}
use okx_hft_executor.Exchange.Errors.{
  Exn, runtime_error, other_exception, Result, ok, raise, Result-cases,
}
use okx_hft_executor.Position.{
  ActivePosition, ActiveOrder, Purpose, entry, exit, expected_exit_side,
}
use okx_hft_executor.Orchestrator.World.{
  Deployment, World, limit_post_only, Flow, fall, again, stop, no_pause, save_service_event,
}
use okx_hft_executor.Orchestrator.Quiet.{
  placed, opening, Quiet, resolve_maker_price-Quiet, cancel_order_best_effort-Quiet,
  verify_order_canceled-Quiet, finalize_reconciled_close-Quiet,
}
use okx_hft_executor.Orchestrator.Resting.{
  close_if_flat, close_local, reduce_sync_lost, reprice_rejected, stale_reprice, adopt_reprice,
  place_again, submit_reprice, price_anew, cancel_first, reprice, give_up, on_resting,
}
use okx_hft_executor.Orchestrator.Calls.{cancel_order_best_effort}

-- An order for an exit closes the position in hand: it is on the opposite side, for the whole
-- size, and reduce-only. An order for an entry is not reduce-only.
abbrev pub Fits : Purpose → ActiveOrder → Option ActivePosition → Type 0
Fits entry o p = o.reduce_only ≡ false
Fits exit o none = ⊥
Fits exit o (some p) = (o.side ≡ expected_exit_side p) × (o.reduce_only ≡ true) × (o.size ≡ p.size)

abbrev pub OrderFits : Option ActiveOrder → Option ActivePosition → Type 0
OrderFits none p = Unit
OrderFits (some o) p = Fits o.purpose o p

-- How many orders that may open a position an order in hand can still cause.
abbrev pub openings_of : ActiveOrder → ℕ
openings_of a = if a.reduce_only then 0 else 1

abbrev pub openings_in_hand : Option ActiveOrder → ℕ
openings_in_hand none = 0
openings_in_hand (some a) = openings_of a

-- The iteration does not end the loop.
abbrev pub is_stop : Result Flow → Bool
is_stop (ok (stop reason)) = true
is_stop _ = false

pub record Managed {X : ExchangeClient} (a : ActiveOrder) (w : World X) (r : Result Flow × World X)
    : Type 0 where
  pub fits : OrderFits r.1.active_order r.1.active_position
  pub placed_le : placed r.1.sent ≤ placed w.sent + 1
  pub opening_le : opening r.1.sent ≤ opening w.sent + openings_of a
  pub left_le : openings_in_hand r.1.active_order ≤ openings_of a
  pub runs_on : is_stop r.0 ≡ false
  pub settled : r.0 ≡ ok fall → r.1.active_order ≡ none → placed r.1.sent ≡ placed w.sent

module _ (X : ExchangeClient) (d : Deployment) (now : ℕ) where
  stale_reprice-Quiet :
      (a : ActiveOrder) (o : OkxOrder) (w : World X) → Quiet w (stale_reprice X d now a o w).1
  unfolding stale_reprice
  stale_reprice-Quiet a o w = ground arith

  -- The local position is closed or kept; no order is placed.
  pub close_if_flat-kept :
      (p : ActivePosition) (last : Decimal) (w : World X)
      → (placed (close_if_flat X d now p last w).1.sent ≡ placed w.sent)
        × (opening (close_if_flat X d now p last w).1.sent ≡ opening w.sent)
        × ((close_if_flat X d now p last w).1.active_order ≡ w.active_order)
        × ((close_if_flat X d now p last w).0 ≡ ok (again no_pause))
  unfolding close_if_flat
  close_if_flat-kept p last w = ground (
    arith,
    finalize_reconciled_close-Quiet X d p last now
        (record w { exchange = (X.get_positions w.exchange).1 }),
  )

  give_up-Managed :
      (a : ActiveOrder) (w : World X)
      → w.active_order ≡ some a
      → OrderFits (some a) w.active_position
      → Managed a w (give_up X d now a w)
  unfolding give_up
  give_up-Managed a w e h =
      let v = (cancel_order_best_effort X d a w).1 in
      ground (arith, cancel_order_best_effort-Quiet X d a w, verify_order_canceled-Quiet X d a v)

  close_local-kept :
      (p : Option ActivePosition) (last : Decimal) (w : World X)
      → (placed (close_local X d now p last w).1.sent ≡ placed w.sent)
        × (opening (close_local X d now p last w).1.sent ≡ opening w.sent)
        × ((close_local X d now p last w).1.active_order ≡ w.active_order)
        × ((close_local X d now p last w).0 ≡ ok (again no_pause))
  unfolding close_local
  close_local-kept none last w = ground arith
  close_local-kept (some p) last w = close_if_flat-kept p last w

  -- How a rejected replacement ends: the order in hand is dropped and the next iteration follows,
  -- or the error is passed on and nothing has changed.
  abbrev Dropped : World X → Result Flow × World X → Type 0
  Dropped w (ok flow, w') = (w'.active_order ≡ none) × (flow ≡ again no_pause)
  Dropped w (raise e, w') =
      (w'.active_order ≡ w.active_order) × (w'.active_position ≡ w.active_position)

  reprice_rejected-Dropped :
      (a : ActiveOrder) (last : Decimal) (e : Exn) (w : World X)
      → Dropped w (reprice_rejected X d now a last e w)
        × (placed (reprice_rejected X d now a last e w).1.sent ≡ placed w.sent)
        × (opening (reprice_rejected X d now a last e w).1.sent ≡ opening w.sent)
  unfolding reprice_rejected reduce_sync_lost
  reprice_rejected-Dropped a last (other_exception text) w = ground arith
  reprice_rejected-Dropped a last (runtime_error text) w = ground (
    arith,
    close_local-kept w.active_position last (record w {
      active_order = none;
      journal = save_service_event a.strategy_name "exit_sync_lost" ∷ w.journal;
    }),
  )

  -- The replacement is sent once. It is in the book, or the order in hand is dropped and the
  -- iteration ends, or the error is passed on and nothing has changed.
  abbrev pub Placed : World X → Result (String ⊎ Flow) × World X → Type 0
  Placed w (ok (inl id), w') =
      (w'.active_order ≡ w.active_order) × (w'.active_position ≡ w.active_position)
  Placed w (ok (inr flow), w') = (w'.active_order ≡ none) × (flow ≡ again no_pause)
  Placed w (raise e, w') =
      (w'.active_order ≡ w.active_order) × (w'.active_position ≡ w.active_position)

  abbrev pub attempt : ActiveOrder → Decimal → String → World X → Result String × X.State
  attempt a price id w = X.place_limit_post_only a.side a.size price id a.reduce_only w.exchange

  pub place_again-Placed :
      (a : ActiveOrder) (last price : Decimal) (id : String) (w : World X)
      → Placed w (place_again X d now a last price id w)
        × (placed (place_again X d now a last price id w).1.sent ≡ placed w.sent + 1)
        × (opening (place_again X d now a last price id w).1.sent ≡ opening w.sent + openings_of a)
  unfolding place_again
  place_again-Placed a last price id w = elim (Result-cases (attempt a price id w).0) [
    | inl (order_id, e) ↦ ground arith
    | inr (exc, e) ↦ ground (
      arith,
      reprice_rejected-Dropped a last exc (record w {
        exchange = (attempt a price id w).1;
        sent = limit_post_only a.side a.size price id a.reduce_only ∷ w.sent;
      }),
    )
  ]

  Fits-record :
      (u : Purpose) (a : ActiveOrder) (order_id client_id : String) (p : Option ActivePosition)
      → Fits u a p
      → Fits u (record a { order_id = order_id; client_id = client_id; last_reprice_at = now }) p
  Fits-record entry a order_id client_id p h = h
  Fits-record exit a order_id client_id none h = h
  Fits-record exit a order_id client_id (some p) h = h

  pub adopt_reprice-Managed :
      (a : ActiveOrder) (price : Decimal) (client_id order_id : String) (w : World X)
      → OrderFits (some a) w.active_position
      → let w' = (adopt_reprice X d now a price client_id order_id w).1 in
        OrderFits w'.active_order w'.active_position
        × (placed w'.sent ≡ placed w.sent)
        × (opening w'.sent ≡ opening w.sent)
        × (w'.active_order ≢ none)
        × (openings_in_hand w'.active_order ≡ openings_of a)
        × (is_stop (adopt_reprice X d now a price client_id order_id w).0 ≡ false)
  unfolding adopt_reprice
  adopt_reprice-Managed a price client_id order_id w h = (
    Fits-record a.purpose a order_id client_id w.active_position h,
    refl,
    refl,
    λ e. cc,
    refl,
    refl,
  )

  submit_reprice-Managed :
      (a : ActiveOrder) (last price : Decimal) (id : String) (w : World X)
      → w.active_order ≡ some a
      → OrderFits (some a) w.active_position
      → Managed a w (submit_reprice X d now a last price id w)
  unfolding submit_reprice
  submit_reprice-Managed a last price id w e h =
      let P = place_again X d now a last price id w in
      let sent = place_again-Placed a last price id w in
      elim (Result-cases P.0) [
        | inl (inl order_id, eq) ↦
            ground (arith, sent, adopt_reprice-Managed a price id order_id P.1)
        | inl (inr flow, eq) ↦ ground (arith, sent)
        | inr (exc, eq) ↦ ground (arith, sent)
      ]

  pub price_anew-Quiet : (a : ActiveOrder) (w : World X) → Quiet w (price_anew X d now a w).1
  unfolding price_anew
  price_anew-Quiet a w = elim (Result-cases (X.get_best_bid_ask w.exchange).0) [
    | inl (quotes, eq) ↦ ground (
      arith,
      resolve_maker_price-Quiet X d a.side (some quotes)
          (record w { exchange = (X.get_best_bid_ask w.exchange).1 }),
    )
    | inr (exc, eq) ↦ ground arith
  ]

  pub cancel_first-Quiet :
      (a : ActiveOrder) (w : World X)
      → Quiet w (cancel_first X d now a w).1 × (is_stop (cancel_first X d now a w).0 ≡ false)
  unfolding cancel_first
  cancel_first-Quiet a w = ground (arith, cancel_order_best_effort-Quiet X d a w)

  reprice-Managed :
      (a : ActiveOrder) (last : Decimal) (w : World X)
      → w.active_order ≡ some a
      → OrderFits (some a) w.active_position
      → Managed a w (reprice X d now a last w)
  unfolding reprice
  reprice-Managed a last w e h =
      let C = cancel_first X d now a w in
      let N = price_anew X d now a C.1 in
      let q = cancel_first-Quiet a w in
      let r = price_anew-Quiet a C.1 in
      elim (Result-cases N.0) [
        | inl ((price, id), eq) ↦ ground (arith, q, r, submit_reprice-Managed a last price id N.1)
        | inr (exc, eq) ↦ ground (arith, q, r)
      ]

  -- Managing an order that rests in the book, on every branch, errors included.
  pub on_resting-Managed :
      (a : ActiveOrder) (o : OkxOrder) (last : Decimal) (w : World X)
      → w.active_order ≡ some a
      → OrderFits (some a) w.active_position
      → Managed a w (on_resting X d now a o last w)
  unfolding on_resting
  on_resting-Managed a o last w e h =
      let S = stale_reprice X d now a o w in
      ground (arith, stale_reprice-Quiet a o w, reprice-Managed a last S.1, give_up-Managed a S.1)
