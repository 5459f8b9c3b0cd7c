-- ===== src/Orchestrator/Exiting.antt =====
-- The orders that leave a position: what is sent to the exchange, and what is then in hand.
use okx_hft_executor.Prelude.{
  ℕ, ◌+◌, ◌≡◌, refl, ap, sym, ◌∙◌, String, ◌<>◌, Bool, true, false, none, some, ◌∷◌, if◌then◌else◌,
  ◌⊎◌, inl, inr, Option-cases, option_map,
}
use okx_hft_executor.Decimal.{Decimal}
use okx_hft_executor.Exchange.{ExchangeClient}
use okx_hft_executor.Exchange.Errors.{Result, ok, raise}
use okx_hft_executor.Position.{
  ActivePosition, expected_exit_side, ExitReason, should_use_market_exit, check_exit_reason,
}
use okx_hft_executor.Lifecycle.{on_exit_trigger}
use okx_hft_executor.Orchestrator.World.{
  Deployment, World, catch, Flow, send, pure, ◌>>=◌, limit_post_only, market, cancel,
}
use okx_hft_executor.Orchestrator.Calls.{resolve_maker_price}
use okx_hft_executor.Orchestrator.Acting.{Tried, try_exit-Tried}
use okx_hft_executor.Orchestrator.Sent.{resolve_maker_price-sent, exit_rejected-sent}
use okx_hft_executor.Orchestrator.Asked.{
  IsLeaving, WasSent, Attempted, TriedToSend, step_cases, IsAsked-IsClosing, sent_still, given_up,
}
use okx_hft_executor.Orchestrator.Leave.{
  place_exit, exit_rejected, try_exit, adopt_exit, submit_exit, leave, with_position, reason_text,
}

module _ (X : ExchangeClient) (d : Deployment) (now : ℕ) where
  place_exit-WasSent :
      (p : ActivePosition) (last : Decimal) (m : Bool) (id : String) (w : World X)
      → Attempted p id w (place_exit X d now p last m id w)
  unfolding place_exit
  place_exit-WasSent p last true id w =
      let side = expected_exit_side p in
      let q = market side p.size id true in
      step_cases (Attempted p id w) (send q (X.place_market_order side p.size id true))
        (λ order_id. pure (last, order_id)) w (λ _ _. (q, refl, (refl, refl, refl, refl)))
        (λ _ _. inr (q, refl, (refl, refl, refl, refl)))
  place_exit-WasSent p last false id w =
      let side = expected_exit_side p in
      let R = resolve_maker_price X d side none w in
      let same = resolve_maker_price-sent X d side none w in
      let request = λ (price : Decimal). limit_post_only side p.size price id true in
      let place = λ (price : Decimal).
        send {X = X} (request price) (X.place_limit_post_only side p.size price id true) in
      let sent : (price : Decimal) → WasSent p id w (place price R.1).1 =
        λ price. (request price, ap (λ s. request price ∷ s) same, (refl, refl, refl, refl)) in
      step_cases (Attempted p id w) (resolve_maker_price X d side none)
        (λ price. place price >>= λ order_id. pure (price, order_id)) w
        (λ price _.
          step_cases (Attempted p id w) (place price) (λ order_id. pure (price, order_id)) R.1
            (λ _ _. sent price) (λ _ _. inr (sent price)))
        (λ _ _. inl same)

  try_exit-TriedToSend :
      (p : ActivePosition) (last : Decimal) (m : Bool) (id : String) (w : World X)
      → TriedToSend p id w (try_exit X d now p last m id w)
  unfolding try_exit
  try_exit-TriedToSend p last m id w =
      let T = place_exit X d now p last m id w in go T.0 T.1 (place_exit-WasSent p last m id w)
    where
      go :
          (r : Result (Decimal × String)) (v : World X)
          → Attempted p id w (r, v)
          → TriedToSend p id w (
              catch {X = X}
                (λ _.
                  ((λ _. (r, v)) >>= λ placed.
                  pure {X = X} {A = (Decimal × String) ⊎ Flow} (inl placed))
                    w)
                (λ exc. (do flow ← exit_rejected X d now p last exc; pure (inr flow)))
                w)
      go (ok at) v sent = sent
      go (raise e) v sent =
          let s = exit_rejected-sent X d now p last e v in
          let kept = sent_still p id w v (exit_rejected X d now p last e v).1 s sent in
          step_cases (TriedToSend p id w) (exit_rejected X d now p last e) (λ flow. pure (inr flow))
            v (λ _ _. kept) (λ _ _. kept)

  adopt_exit-IsLeaving :
      (p : ActivePosition) (reason : ExitReason) (m : Bool) (id : String) (price : Decimal)
      (order_id : String) (w v : World X)
      → v.active_position ≡ some p
      → WasSent p id w v
      → IsLeaving p w (adopt_exit X d now p reason m id price order_id v).1
  unfolding adopt_exit
  adopt_exit-IsLeaving p reason m id price order_id w v h
        (market side size client_id reduce_only, e, asked) =
      inr (
        market side size client_id reduce_only,
        e,
        IsAsked-IsClosing p id (market side size client_id reduce_only) asked,
        (sym asked.0, sym asked.1, sym asked.2, sym asked.3),
        inr h,
      )
  adopt_exit-IsLeaving p reason m id price order_id w v h
        (limit_post_only side size price' client_id reduce_only, e, asked) =
      inr (
        limit_post_only side size price' client_id reduce_only,
        e,
        IsAsked-IsClosing p id (limit_post_only side size price' client_id reduce_only) asked,
        (sym asked.0, sym asked.1, sym asked.2, sym asked.3),
        inr h,
      )
  adopt_exit-IsLeaving p reason m id price order_id w v h (cancel _, e, asked) = elim asked [ ]

  submit_exit-IsLeaving :
      (p : ActivePosition) (last : Decimal) (reason : ExitReason) (m : Bool) (id : String)
      (w : World X)
      → w.active_order ≡ none
      → w.active_position ≡ some p
      → IsLeaving p w (submit_exit X d now p last reason m id w).1
  unfolding submit_exit
  submit_exit-IsLeaving p last reason m id w e h =
      let T = try_exit X d now p last m id w in
      go T.0 T.1 (try_exit-TriedToSend p last m id w) (try_exit-Tried X d now p last m id w).0
    where
      go :
          (r : Result ((Decimal × String) ⊎ Flow)) (v : World X)
          → TriedToSend p id w (r, v)
          → Tried X d now w (r, v)
          → IsLeaving p w
              (((λ _. (r, v)) >>= λ placed. elim placed [
                | inl (price, order_id) ↦ adopt_exit X d now p reason m id price order_id
                | inr flow ↦ pure {X = X} flow
              ])
                w).1
      go (ok (inl (price, order_id))) v sent (same, stays) =
          adopt_exit-IsLeaving p reason m id price order_id w v (stays ∙ h) sent
      go (ok (inr flow)) v sent (same, _) = given_up p id w v sent (same ∙ e)
      go (raise exc) v sent same = given_up p id w v sent (same ∙ e)

  leave-IsLeaving :
      (p : ActivePosition) (last : Decimal) (reason : ExitReason) (w : World X)
      → w.active_order ≡ none
      → w.active_position ≡ some p
      → IsLeaving p w (leave X d now p last reason w).1
  unfolding leave
  leave-IsLeaving p last reason w e h =
      let m = should_use_market_exit p now d.config in
      submit_exit-IsLeaving p last reason m
        ((if m then "exit-mkt" else "exit") <> ("-" <> d.uuid4_hex w.draws))
        (record w {
          lifecycle = option_map (λ t. on_exit_trigger t (reason_text reason)) w.lifecycle;
          draws = w.draws + 1;
        })
        e h

  -- With a position and no order in hand, whatever the exchange answers: without a reason to leave,
  -- nothing changes; with one, either nothing is sent and no order is in hand, or exactly one
  -- request is sent, which is reduce-only, for the size of the position, and a sell for a long
  -- position and a buy for a short one. An order that is then in hand has the
  -- client id, side, size and reduce-only flag of the request, and the position in hand is still
  -- the same.
  pub with_position-leaves :
      (p : ActivePosition) (last : Decimal) (w : World X)
      → w.active_order ≡ none
      → w.active_position ≡ some p
      → let w' = (with_position X d now p last w).1 in
        (check_exit_reason p last now ≡ none) × (w' ≡ w)
        ⊎ (reason : ExitReason) × (check_exit_reason p last now ≡ some reason) × IsLeaving p w w'
  unfolding with_position
  with_position-leaves p last w e h = elim (Option-cases (check_exit_reason p last now)) [
    | inl stays ↦ rw (stays, with_position) (inl (refl, refl))
    | inr (reason, eq) ↦
        rw (eq, with_position) (inr (reason, refl, leave-IsLeaving p last reason w e h))
  ]
