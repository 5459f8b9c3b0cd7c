-- ===== src/Orchestrator/Turns.antt =====
-- What an iteration, and the whole loop, keep to whatever the exchange answers.
use okx_hft_executor.Prelude.{
  ℕ, ◌+◌, ◌≤◌, ◌≡◌, refl, Bool, true, false, Option, none, some, List, [], ◌∷◌, if◌then◌else◌,
  arith, inl, inr, Option-cases, length,
}
use okx_hft_executor.Decimal.{Decimal}
use okx_hft_executor.Exchange.{ExchangeClient}
use okx_hft_executor.Exchange.Errors.{Exn, Result, Result-cases}
use okx_hft_executor.Orchestrator.World.{
  StrategyLoopControl, Deployment, World, IsOk, Flow, fall, again, stop, drain_completed,
}
use okx_hft_executor.Orchestrator.Quiet.{placed, opening, Quiet}
use okx_hft_executor.Orchestrator.Managed.{OrderFits, openings_in_hand, is_stop}
use okx_hft_executor.Orchestrator.Enter.{is_draining}
use okx_hft_executor.Orchestrator.Safety.{
  snapshot-Snapped, Fits-position, manage_order-Handled, act-waits, act-Acted,
}
use okx_hft_executor.Orchestrator.Iteration.{
  Reading, Limits, stop_check, snapshot, manage_order, is_market_data_fresh, body, iteration_failed,
  read_market, guarded_body, iteration, run,
}

-- How many new entries the control lets an iteration start.
abbrev pub new_entries : Option StrategyLoopControl → ℕ
new_entries c = if is_draining c then 0 else 1

-- What an iteration leads to.
pub record Turned {A : Type 0} {X : ExchangeClient} (n : ℕ) (w : World X) (r : A × World X)
    : Type 0 where
  pub fits : OrderFits r.1.active_order r.1.active_position
  pub placed_le : placed r.1.sent ≤ placed w.sent + 1
  pub opening_le : opening r.1.sent ≤ opening w.sent + n
  pub left_le : openings_in_hand r.1.active_order ≤ n

-- Where the body ends the loop, nothing is in hand.
abbrev StopsFlat : {X : ExchangeClient} → Result Flow × World X → Type 0
StopsFlat r = is_stop r.0 ≡ true → (r.1.active_order ≡ none) × (r.1.active_position ≡ none)

module _ (X : ExchangeClient) (d : Deployment) where
  body-Turned :
      (r : Reading) (last : Decimal) (fresh : Bool) (w : World X)
      → OrderFits w.active_order w.active_position
      → Turned
          (openings_in_hand w.active_order + new_entries r.control_later)
          w
          (body X d r last fresh w)
        × StopsFlat (body X d r last fresh w)
  unfolding body
  body-Turned r last fresh w h =
      let S = snapshot X d r.now w in
      let s = snapshot-Snapped X d r.now w in
      let kept : OrderFits S.1.active_order S.1.active_position = rw s.order_kept (
        Fits-position X d w.active_order w.active_position S.1.active_position h s.position_kept) in
      let m = manage_order-Handled X d r.now last S.1 kept in
      let R = manage_order X d r.now last S.1 in
      let same : openings_in_hand S.1.active_order ≡ openings_in_hand w.active_order =
        rw s.order_kept refl in
      elim (Result-cases S.0) [
        | inr (exc, eq) ↦ ground (arith, s)
        | inl (u, eq) ↦ elim (Result-cases R.0) [
          | inr (exc, eq') ↦ ground (arith, s, m)
          | inl (again pause, eq') ↦ ground (arith, s, m)
          | inl (stop reason, eq') ↦ ground (arith, s, m)
          | inl (fall, eq') ↦ elim (Option-cases R.1.active_order) [
            | inl gone ↦ ground (arith, s, m, act-Acted X d r last true fresh R.1 gone)
            | inr (o, held) ↦ ground (arith, s, m, act-waits X d r last true fresh o R.1 held)
          ]
        ]
      ]

  iteration_failed-Quiet :
      (e : Exn) (w : World X)
      → Quiet w (iteration_failed X d e w).1
        × IsOk (iteration_failed X d e w)
        × (is_stop (iteration_failed X d e w).0 ≡ false)
  unfolding iteration_failed
  iteration_failed-Quiet e w = ground arith

  read_market-Quiet : (w : World X) → Quiet w (read_market X d w).1 × IsOk (read_market X d w)
  unfolding read_market
  read_market-Quiet w = ground arith

  -- No error of the exchange is raised out of an iteration: neither by reading the market nor by
  -- its body. An error of the store, which can be raised there, is not modelled.
  pub guarded_body-IsOk : (r : Reading) (w : World X) → IsOk (guarded_body X d r w)
  unfolding guarded_body
  guarded_body-IsOk r w =
      let K = read_market X d w in
      elim (Result-cases K.0) [
        | inr (exc, eq) ↦ ground (arith, read_market-Quiet w)
        | inl (none, eq) ↦ ground arith
        | inl (some t, eq) ↦
            (let B = body X d r t.last (is_market_data_fresh t.ts_ms r.now) K.1 in
              elim (Result-cases B.0) [
                | inl (flow, eq') ↦ ground arith
                | inr (exc, eq') ↦ ground (arith, iteration_failed-Quiet exc B.1)
              ])
      ]

  guarded_body-Turned :
      (r : Reading) (w : World X)
      → OrderFits w.active_order w.active_position
      → Turned
          (openings_in_hand w.active_order + new_entries r.control_later)
          w
          (guarded_body X d r w)
        × IsOk (guarded_body X d r w)
        × StopsFlat (guarded_body X d r w)
  unfolding guarded_body
  guarded_body-Turned r w h =
      let K = read_market X d w in
      let q = read_market-Quiet w in
      let kept : OrderFits K.1.active_order K.1.active_position =
        rw (q.0.same_order, q.0.same_position) h in
      let same : openings_in_hand K.1.active_order ≡ openings_in_hand w.active_order =
        rw q.0.same_order refl in
      elim (Result-cases K.0) [
        | inr (exc, eq) ↦ ground (arith, q)
        | inl (none, eq) ↦ ground (arith, q)
        | inl (some t, eq) ↦
            (let fresh = is_market_data_fresh t.ts_ms r.now in
              let B = body X d r t.last fresh K.1 in
              let b = body-Turned r t.last fresh K.1 kept in
              elim (Result-cases B.0) [
                | inl (flow, eq') ↦ ground (arith, q, b)
                | inr (exc, eq') ↦
                    (let F = iteration_failed X d exc B.1 in
                      let f = iteration_failed-Quiet exc B.1 in
                      let fits : OrderFits F.1.active_order F.1.active_position =
                        rw (f.0.same_order, f.0.same_position) b.0.fits in
                      ground (arith, q, fits, b, f))
              ])
      ]

  -- Whatever the exchange answers or raises, an iteration that starts with the order in hand,
  -- if there is one, fitting the position in hand ends so and sends at most one request that
  -- places an order. It sends no request that may open a position but for the order in hand,
  -- if that may open one, and for a new entry, unless the loop drains; the order then in hand
  -- is counted likewise.
  pub iteration-Turned :
      (limits : Limits) (count : ℕ) (r : Reading) (w : World X)
      → OrderFits w.active_order w.active_position
      → Turned
          (openings_in_hand w.active_order + new_entries r.control_later)
          w
          (iteration X d limits count r w)
  unfolding iteration
  iteration-Turned limits count r w h = ground (arith, guarded_body-Turned r w h)

  -- Whatever the exchange answers or raises, a run of the loop that starts with the order in
  -- hand, if there is one, fitting the position in hand ends so, and sends at most one request
  -- that places an order for each of its readings.
  pub run-fits :
      (limits : Limits) (count : ℕ) (rs : List Reading) (w : World X)
      → OrderFits w.active_order w.active_position
      → OrderFits
          (run X d limits count rs w).1.active_order
          (run X d limits count rs w).1.active_position
        × (placed (run X d limits count rs w).1.sent ≤ placed w.sent + length rs)
  unfolding run
  run-fits limits count [] w h = ground arith
  run-fits limits count (r ∷ rs) w h =
      let t = iteration-Turned limits (count + 1) r w h in
      let I = iteration X d limits (count + 1) r w in
      ground (arith, t, run-fits limits (count + 1) rs I.1 t.fits)

  -- An iteration that completes a drain, and starts with the order in hand, if there is one,
  -- fitting the position in hand, leaves no order and no position in hand.
  pub iteration-drained :
      (limits : Limits) (count : ℕ) (r : Reading) (w : World X)
      → OrderFits w.active_order w.active_position
      → (iteration X d limits count r w).0 ≡ stop drain_completed
      → ((iteration X d limits count r w).1.active_order ≡ none)
        × ((iteration X d limits count r w).1.active_position ≡ none)
  unfolding iteration stop_check
  iteration-drained limits count r w h e =
      let G = guarded_body X d r w in ground (arith, guarded_body-Turned r w h)
