-- ===== src/Durable/Loop.antt =====
-- An iteration and the whole loop keep the position in hand in the book.
use text.Mathlib.TextPositions.{eq_refl}
use okx_hft_executor.Prelude.{
  ℕ, ◌+◌, refl, Bool, true, Option, none, some, List, [], ◌∷◌, arith, inl, inr, Option-cases,
}
use okx_hft_executor.Decimal.{Decimal}
use okx_hft_executor.Exchange.{
  OrderState, live, partially_filled, filled, canceled, rejected, other_state, OkxOrder,
  ExchangeClient,
}
use okx_hft_executor.Exchange.Errors.{Result-cases}
use okx_hft_executor.Position.{ActivePosition, ActiveOrder}
use okx_hft_executor.Reconcile.{reconcile_exchange_position_if_needed}
use okx_hft_executor.Orchestrator.World.{Deployment, World, fall, again, stop}
use okx_hft_executor.Orchestrator.Enter.{without_position}
use okx_hft_executor.Orchestrator.Iteration.{
  Reading, Limits, snapshot, read_snapshot, sweep_if_idle, take_over, inst_positions, on_state,
  manage_order, act, body, is_market_data_fresh, iteration_failed, read_market, guarded_body,
  iteration, run,
}
use okx_hft_executor.Store.Book.{Book}
use okx_hft_executor.Durable.{IsStored, IsCalm-IsStored}
use okx_hft_executor.Durable.Calm.{
  read_snapshot-IsCalm, sweep_if_idle-IsCalm, without_position-IsCalm, iteration_failed-IsCalm,
  read_market-IsCalm,
}
use okx_hft_executor.Durable.Managing.{on_resting-IsStored}
use okx_hft_executor.Durable.Leaving.{
  on_filled-IsStored, on_canceled-IsStored, with_position-IsStored,
}

module _ (X : ExchangeClient) (d : Deployment) (b : Book) where
  take_over-IsStored :
      (p q : Option ActivePosition) (w : World X)
      → IsStored b w
      → IsStored b (take_over X d p q w).1
  unfolding take_over
  take_over-IsStored none q w h = h
  take_over-IsStored (some p) (some q) w h = h
  take_over-IsStored (some p) none w h = rw eq_refl refl

  snapshot-IsStored : (now : ℕ) (w : World X) → IsStored b w → IsStored b (snapshot X d now w).1
  unfolding snapshot
  snapshot-IsStored now w h =
      let R = read_snapshot X d w in
      let read : IsStored b R.1 = IsCalm-IsStored b w R.1 (read_snapshot-IsCalm X d b w) h in
      elim (Result-cases R.0) [
        | inr (exc, eq) ↦ ground (arith, read)
        | inl ((orders, positions), eq) ↦
            (let S = sweep_if_idle X d orders R.1.active_order R.1.active_position R.1 in
              let swept : IsStored b S.1 =
                IsCalm-IsStored b R.1 S.1
                  (sweep_if_idle-IsCalm X d b orders R.1.active_order R.1.active_position R.1)
                  read in
              let found =
                reconcile_exchange_position_if_needed R.1.active_position
                  (inst_positions d.inst_id positions) d.strategy_name d.tick_size d.config now in
              ground (arith, swept, take_over-IsStored found R.1.active_position S.1 swept))
      ]

  on_state-IsStored :
      (now : ℕ) (st : OrderState) (a : ActiveOrder) (o : OkxOrder) (last : Decimal) (w : World X)
      → IsStored b w
      → IsStored b (on_state X d now st a o last w).1
  unfolding on_state
  on_state-IsStored now filled a o last w h =
      ground (arith, on_filled-IsStored X d b now a o last w h)
  on_state-IsStored now canceled a o last w h =
      ground (arith, on_canceled-IsStored X d b now a o w h)
  on_state-IsStored now rejected a o last w h =
      ground (arith, on_canceled-IsStored X d b now a o w h)
  on_state-IsStored now live a o last w h = on_resting-IsStored X d b now a o last w h
  on_state-IsStored now partially_filled a o last w h = on_resting-IsStored X d b now a o last w h
  on_state-IsStored now other_state a o last w h = h

  manage_order-IsStored :
      (now : ℕ) (last : Decimal) (w : World X)
      → IsStored b w
      → IsStored b (manage_order X d now last w).1
  unfolding manage_order
  manage_order-IsStored now last w h = elim (Option-cases w.active_order) [
    | inl idle ↦ ground (arith, idle, h)
    | inr (a, e) ↦
        (let G = X.get_order a.order_id w.exchange in
          let v : World X = record w { exchange = G.1 } in
          let asked : IsStored b v = h in
          elim (Result-cases G.0) [
            | inr (exc, eq) ↦ ground (arith, e, eq, asked)
            | inl (none, eq) ↦ ground (arith, e, eq, asked)
            | inl (some o, eq) ↦
                ground (arith, e, eq, on_state-IsStored now o.state a o last v asked)
          ])
  ]

  act-IsStored :
      (r : Reading) (last : Decimal) (healthy fresh : Bool) (w : World X)
      → IsStored b w
      → IsStored b (act X d r last healthy fresh w).1
  unfolding act
  act-IsStored r last healthy fresh w h =
      let entered : IsStored b (without_position X d r.now r.control_later healthy fresh w).1 =
        IsCalm-IsStored b w _ (without_position-IsCalm X d b r.now r.control_later healthy fresh w)
          h in
      elim (Option-cases w.active_order) [
        | inr (a, e) ↦ ground (arith, e, h)
        | inl idle ↦ elim (Option-cases w.active_position) [
          | inl flat ↦ ground (arith, idle, flat, entered)
          | inr (p, e) ↦ ground (arith, idle, e, with_position-IsStored X d b r.now p last w h)
        ]
      ]

  body-IsStored :
      (r : Reading) (last : Decimal) (fresh : Bool) (w : World X)
      → IsStored b w
      → IsStored b (body X d r last fresh w).1
  unfolding body
  body-IsStored r last fresh w h =
      let S = snapshot X d r.now w in
      let snapped : IsStored b S.1 = snapshot-IsStored r.now w h in
      let R = manage_order X d r.now last S.1 in
      let managed : IsStored b R.1 = manage_order-IsStored r.now last S.1 snapped in
      let acted = act-IsStored r last true fresh R.1 managed in
      elim (Result-cases S.0) [
        | inr (exc, eq) ↦ ground (arith, snapped)
        | inl (u, eq) ↦ elim (Result-cases R.0) [
          | inr (exc, eq') ↦ ground (arith, managed)
          | inl (again pause, eq') ↦ ground (arith, managed)
          | inl (stop reason, eq') ↦ ground (arith, managed)
          | inl (fall, eq') ↦ ground (arith, acted)
        ]
      ]

  guarded_body-IsStored :
      (r : Reading) (w : World X) → IsStored b w → IsStored b (guarded_body X d r w).1
  unfolding guarded_body
  guarded_body-IsStored r w h =
      let K = read_market X d w in
      let read : IsStored b K.1 = IsCalm-IsStored b w K.1 (read_market-IsCalm X d b w) h in
      elim (Result-cases K.0) [
        | inr (exc, eq) ↦ ground (arith, read)
        | inl (none, eq) ↦ ground (arith, read)
        | inl (some t, eq) ↦
            (let fresh = is_market_data_fresh t.ts_ms r.now in
              let B = body X d r t.last fresh K.1 in
              let done : IsStored b B.1 = body-IsStored r t.last fresh K.1 read in
              elim (Result-cases B.0) [
                | inl (flow, eq') ↦ ground (arith, done)
                | inr (exc, eq') ↦ ground (
                  arith,
                  IsCalm-IsStored b B.1 (iteration_failed X d exc B.1).1
                      (iteration_failed-IsCalm X d b exc B.1) done,
                )
              ])
      ]

  iteration-IsStored :
      (limits : Limits) (count : ℕ) (r : Reading) (w : World X)
      → IsStored b w
      → IsStored b (iteration X d limits count r w).1
  unfolding iteration
  iteration-IsStored limits count r w h = ground (arith, h, guarded_body-IsStored r w h)

  pub run-IsStored :
      (limits : Limits) (count : ℕ) (rs : List Reading) (w : World X)
      → IsStored b w
      → IsStored b (run X d limits count rs w).1
  unfolding run
  run-IsStored limits count [] w h = h
  run-IsStored limits count (r ∷ rs) w h =
      let I = iteration X d limits (count + 1) r w in
      let one : IsStored b I.1 = iteration-IsStored limits (count + 1) r w h in
      ground (arith, one, run-IsStored limits (count + 1) rs I.1 one)
