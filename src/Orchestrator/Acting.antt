-- ===== src/Orchestrator/Acting.antt =====
-- What an iteration does when no order is in hand: enter, or leave.
use okx_hft_executor.Prelude.{
  ℕ, ◌+◌, ◌≤◌, ◌≡◌, refl, String, ◌<>◌, Bool, true, false, Option, none, some, ◌∷◌, if◌then◌else◌,
  arith, ◌⊎◌, inl, inr, Option-cases, option_map,
}
use okx_hft_executor.Decimal.{Decimal}
use okx_hft_executor.Exchange.{ExchangeClient}
use okx_hft_executor.Exchange.Errors.{
  Exn, runtime_error, other_exception, Result, ok, raise, Result-cases,
}
use okx_hft_executor.Strategy.{BaselineSignal}
use okx_hft_executor.Position.{
  ActivePosition, expected_exit_side, ExitReason, should_use_market_exit, check_exit_reason,
}
use okx_hft_executor.Lifecycle.{on_exit_trigger}
use okx_hft_executor.Orchestrator.World.{
  StrategyLoopControl, Deployment, World, Flow, save_service_event,
}
use okx_hft_executor.Orchestrator.Quiet.{placed, opening, Quiet, resolve_maker_price-Quiet}
use okx_hft_executor.Orchestrator.Managed.{OrderFits, openings_in_hand, is_stop, close_if_flat-kept}
use okx_hft_executor.Orchestrator.Enter.{
  is_draining, side_of_signal, decide, log_skipped, adopt_entry, place_entry, try_entry,
  submit_entry, without_position,
}
use okx_hft_executor.Orchestrator.Leave.{
  place_exit, exit_rejected, try_exit, adopt_exit, submit_exit, leave, with_position, reason_text,
}

-- What a step without an order in hand leads to: `n` bounds the orders that may open a position.
pub record Acted {X : ExchangeClient} (n : ℕ) (w : World X) (r : Result Flow × World X)
    : Type 0 where
  pub fits : OrderFits r.1.active_order r.1.active_position
  pub placed_le : placed r.1.sent ≤ placed w.sent + 1
  pub opening_le : opening r.1.sent ≤ opening w.sent + n
  pub left_le : openings_in_hand r.1.active_order ≤ n
  pub stops_flat : is_stop r.0 ≡ true → (r.1.active_order ≡ none) × (r.1.active_position ≡ none)

module _ (X : ExchangeClient) (d : Deployment) (now : ℕ) where
  place_entry-Quiet :
      (s : BaselineSignal) (w : World X)
      → let w' = (place_entry X d now s w).1 in
        (w'.active_order ≡ w.active_order)
        × (w'.active_position ≡ w.active_position)
        × (placed w'.sent ≤ placed w.sent + 1)
        × (opening w'.sent ≤ opening w.sent + 1)
  unfolding place_entry
  place_entry-Quiet s w =
      ground (arith, resolve_maker_price-Quiet X d (side_of_signal s.side) none w)

  submit_entry-Acted :
      (s : BaselineSignal) (w : World X)
      → w.active_order ≡ none
      → Acted 1 w (submit_entry X d now s w)
  unfolding submit_entry try_entry adopt_entry
  submit_entry-Acted s w e = ground (arith, place_entry-Quiet s w)

  decide-Quiet : (w : World X) → Quiet w (decide X d now w).1
  unfolding decide
  decide-Quiet w = ground arith

  log_skipped-Quiet : (w : World X) → Quiet w (log_skipped X d now w).1
  unfolding log_skipped
  log_skipped-Quiet w = ground arith

  -- Without a position: at most one order is placed, and none while the loop drains.
  pub without_position-Acted :
      (c : Option StrategyLoopControl) (healthy fresh : Bool) (w : World X)
      → w.active_order ≡ none
      → w.active_position ≡ none
      → Acted (if is_draining c then 0 else 1) w (without_position X d now c healthy fresh w)
  unfolding without_position
  without_position-Acted c healthy fresh w e flat =
      let q = decide-Quiet w in
      elim (Result-cases (decide X d now w).0) [
        | inl (signal, eq) ↦
            ground (arith, q, log_skipped-Quiet w, submit_entry-Acted signal (decide X d now w).1)
        | inr (exc, eq) ↦ ground (arith, q, log_skipped-Quiet w)
      ]

  place_exit-Quiet :
      (p : ActivePosition) (last : Decimal) (m : Bool) (id : String) (w : World X)
      → let w' = (place_exit X d now p last m id w).1 in
        (w'.active_order ≡ w.active_order)
        × (w'.active_position ≡ w.active_position)
        × (placed w'.sent ≤ placed w.sent + 1)
        × (opening w'.sent ≡ opening w.sent)
  unfolding place_exit
  place_exit-Quiet p last true id w = ground arith
  place_exit-Quiet p last false id w =
      ground (arith, resolve_maker_price-Quiet X d (expected_exit_side p) none w)

  exit_rejected-kept :
      (p : ActivePosition) (last : Decimal) (e : Exn) (w : World X)
      → let w' = (exit_rejected X d now p last e w).1 in
        (w'.active_order ≡ w.active_order)
        × (placed w'.sent ≡ placed w.sent)
        × (opening w'.sent ≡ opening w.sent)
        × (is_stop (exit_rejected X d now p last e w).0 ≡ false)
  unfolding exit_rejected
  exit_rejected-kept p last (other_exception text) w = ground arith
  exit_rejected-kept p last (runtime_error text) w = ground (
    arith,
    close_if_flat-kept X d now p last
        (record w { journal = save_service_event p.strategy_name "exit_sync_lost" ∷ w.journal }),
  )

  -- Either the order was placed, with the position as it was, or no order is in hand.
  abbrev pub Tried : World X → Result ((Decimal × String) ⊎ Flow) × World X → Type 0
  Tried w (ok (inl at), w') =
      (w'.active_order ≡ w.active_order) × (w'.active_position ≡ w.active_position)
  Tried w (ok (inr flow), w') = (w'.active_order ≡ w.active_order) × (is_stop (ok flow) ≡ false)
  Tried w (raise e, w') = w'.active_order ≡ w.active_order

  pub try_exit-Tried :
      (p : ActivePosition) (last : Decimal) (m : Bool) (id : String) (w : World X)
      → Tried w (try_exit X d now p last m id w)
        × (placed (try_exit X d now p last m id w).1.sent ≤ placed w.sent + 1)
        × (opening (try_exit X d now p last m id w).1.sent ≡ opening w.sent)
  unfolding try_exit
  try_exit-Tried p last m id w =
      let P = place_exit X d now p last m id w in
      let q = place_exit-Quiet p last m id w in
      elim (Result-cases P.0) [
        | inl (at, eq) ↦ ground (arith, q)
        | inr (exc, eq) ↦ ground (arith, q, exit_rejected-kept p last exc P.1)
      ]

  adopt_exit-Acted :
      (p : ActivePosition) (reason : ExitReason) (m : Bool) (id : String) (price : Decimal)
      (order_id : String) (w : World X)
      → w.active_position ≡ some p
      → Acted 0 w (adopt_exit X d now p reason m id price order_id w)
  unfolding adopt_exit
  adopt_exit-Acted p reason m id price order_id w h = record {
    fits = rw h (refl, refl, refl);
    placed_le = omega arith;
    opening_le = omega arith;
    left_le = omega arith;
    stops_flat = λ e. cc;
  }

  adopt_exit-sent :
      (p : ActivePosition) (reason : ExitReason) (m : Bool) (id : String) (price : Decimal)
      (order_id : String) (w : World X)
      → ((adopt_exit X d now p reason m id price order_id w).1.sent ≡ w.sent)
        × (is_stop (adopt_exit X d now p reason m id price order_id w).0 ≡ false)
  unfolding adopt_exit
  adopt_exit-sent p reason m id price order_id w = (refl, refl)

  submit_exit-Acted :
      (p : ActivePosition) (last : Decimal) (reason : ExitReason) (m : Bool) (id : String)
      (w : World X)
      → w.active_order ≡ none
      → w.active_position ≡ some p
      → Acted 0 w (submit_exit X d now p last reason m id w)
  unfolding submit_exit
  submit_exit-Acted p last reason m id w e h =
      let T = try_exit X d now p last m id w in
      let q = try_exit-Tried p last m id w in
      elim (Result-cases T.0) [
        | inl (inl (price, order_id), eq) ↦ ground (
          arith,
          q,
          adopt_exit-sent p reason m id price order_id T.1,
          adopt_exit-Acted p reason m id price order_id T.1,
        )
        | inl (inr flow, eq) ↦ ground (arith, q)
        | inr (exc, eq) ↦ ground (arith, q)
      ]

  leave-Acted :
      (p : ActivePosition) (last : Decimal) (reason : ExitReason) (w : World X)
      → w.active_order ≡ none
      → w.active_position ≡ some p
      → Acted 0 w (leave X d now p last reason w)
  unfolding leave
  leave-Acted p last reason w e h =
      let m = should_use_market_exit p now d.config in
      let v : World X = record w {
        lifecycle = option_map (λ t. on_exit_trigger t (reason_text reason)) w.lifecycle;
        draws = w.draws + 1;
      } in
      let id = (if m then "exit-mkt" else "exit") <> ("-" <> d.uuid4_hex w.draws) in
      ground (arith, submit_exit-Acted p last reason m id v)

  pub with_position-Acted :
      (p : ActivePosition) (last : Decimal) (w : World X)
      → w.active_order ≡ none
      → w.active_position ≡ some p
      → Acted 0 w (with_position X d now p last w)
  unfolding with_position
  with_position-Acted p last w e h = elim (Option-cases (check_exit_reason p last now)) [
    | inl stays ↦ rw (stays, with_position) (ground arith)
    | inr (reason, eq) ↦ rw (eq, with_position) (leave-Acted p last reason w e h)
  ]
