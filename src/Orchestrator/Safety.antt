-- ===== src/Orchestrator/Safety.antt =====
-- What the parts of an iteration keep to: the snapshot, the order in hand, and what follows.
use okx_hft_executor.Prelude.{
  ℕ, ◌+◌, ◌≤◌, ◌≡◌, refl, Bool, false, Option, none, some, List, if◌then◌else◌, arith, ◌⊎◌, inl,
  inr, Option-cases,
}
use okx_hft_executor.Decimal.{Decimal}
use okx_hft_executor.Exchange.{
  OrderState, live, partially_filled, filled, canceled, rejected, other_state, OkxOrder,
  ExchangeClient,
}
use okx_hft_executor.Exchange.Errors.{Result, ok, Result-cases}
use okx_hft_executor.Position.{ActivePosition, ActiveOrder, Purpose, entry, exit}
use okx_hft_executor.Reconcile.{reconcile_exchange_position_if_needed}
use okx_hft_executor.Orchestrator.World.{Deployment, World, Flow, fall, again, loop_sleep}
use okx_hft_executor.Orchestrator.Quiet.{placed, opening, Quiet, sweep-Quiet}
use okx_hft_executor.Orchestrator.Managed.{
  Fits, OrderFits, openings_in_hand, is_stop, Managed, on_resting-Managed,
}
use okx_hft_executor.Orchestrator.Ended.{on_filled-Ended, on_canceled-Ended}
use okx_hft_executor.Orchestrator.Acting.{Acted, without_position-Acted, with_position-Acted}
use okx_hft_executor.Orchestrator.Enter.{is_draining}
use okx_hft_executor.Orchestrator.Iteration.{
  inst_positions, Reading, take_over, read_snapshot, sweep_if_idle, snapshot, on_state,
  manage_order, act,
}

-- A position is taken over only where there was none; all else stays.
pub record Snapped {X : ExchangeClient} (w w' : World X) : Type 0 where
  pub order_kept : w'.active_order ≡ w.active_order
  pub position_kept : (w'.active_position ≡ w.active_position) ⊎ (w.active_position ≡ none)
  pub placed_kept : placed w'.sent ≡ placed w.sent
  pub opening_kept : opening w'.sent ≡ opening w.sent

module _ (X : ExchangeClient) (d : Deployment) where
  take_over-Snapped :
      (r p : Option ActivePosition) (w : World X)
      → w.active_position ≡ p
      → Snapped w (take_over X d r p w).1
  unfolding take_over
  take_over-Snapped (some r) none w e = ground arith
  take_over-Snapped _ _ w e = ground arith

  read_snapshot-Quiet : (w : World X) → Quiet w (read_snapshot X d w).1
  unfolding read_snapshot
  read_snapshot-Quiet w = ground arith

  sweep_if_idle-Quiet :
      (orders : List OkxOrder) (o : Option ActiveOrder) (p : Option ActivePosition) (w : World X)
      → Quiet w (sweep_if_idle X d orders o p w).1
  unfolding sweep_if_idle
  sweep_if_idle-Quiet orders o p w = ground (arith, sweep-Quiet X d orders w)

  pub snapshot-Snapped : (now : ℕ) (w : World X) → Snapped w (snapshot X d now w).1
  unfolding snapshot
  snapshot-Snapped now w =
      let R = read_snapshot X d w in
      let q = read_snapshot-Quiet w in
      elim (Result-cases R.0) [
        | inl ((orders, positions), eq) ↦
            (let v = R.1 in
              let S = sweep_if_idle X d orders v.active_order v.active_position v in
              ground (
                arith,
                q,
                sweep_if_idle-Quiet orders v.active_order v.active_position v,
                take_over-Snapped
                    (reconcile_exchange_position_if_needed v.active_position
                      (inst_positions d.inst_id positions) d.strategy_name d.tick_size d.config now)
                    v.active_position S.1,
              ))
        | inr (exc, eq) ↦ ground (arith, q)
      ]

  pub Fits-position :
      (o : Option ActiveOrder) (p p' : Option ActivePosition)
      → OrderFits o p
      → (p' ≡ p) ⊎ (p ≡ none)
      → OrderFits o p'
  Fits-position none p p' h e = tt
  Fits-position (some o) p p' h e = by_purpose o.purpose o p p' h e
    where
      by_purpose :
          (u : Purpose) (o : ActiveOrder) (p p' : Option ActivePosition)
          → Fits u o p
          → (p' ≡ p) ⊎ (p ≡ none)
          → Fits u o p'
      by_purpose entry o p p' h e = h
      by_purpose exit o none p' h e = absurd h
      by_purpose exit o (some p) p' h (inl same) = rw same h
      by_purpose exit o (some p) p' h (inr gone) = absurd (cc gone)

  -- An order in hand was managed, or there is none.
  pub record Handled (w : World X) (r : Result Flow × World X) : Type 0 where
    pub fits : OrderFits r.1.active_order r.1.active_position
    pub placed_le : placed r.1.sent ≤ placed w.sent + 1
    pub opening_le : opening r.1.sent ≤ opening w.sent + openings_in_hand w.active_order
    pub left_le : openings_in_hand r.1.active_order ≤ openings_in_hand w.active_order
    pub runs_on : is_stop r.0 ≡ false
    pub settled : r.0 ≡ ok fall → r.1.active_order ≡ none → placed r.1.sent ≡ placed w.sent

  on_state-Managed :
      (now : ℕ) (s : OrderState) (a : ActiveOrder) (o : OkxOrder) (last : Decimal) (w : World X)
      → w.active_order ≡ some a
      → OrderFits (some a) w.active_position
      → Managed a w (on_state X d now s a o last w)
  unfolding on_state
  on_state-Managed now filled a o last w e h = ground (arith, on_filled-Ended X d now a o last w)
  on_state-Managed now canceled a o last w e h = ground (arith, on_canceled-Ended X d now a o w)
  on_state-Managed now rejected a o last w e h = ground (arith, on_canceled-Ended X d now a o w)
  on_state-Managed now live a o last w e h = on_resting-Managed X d now a o last w e h
  on_state-Managed now partially_filled a o last w e h = on_resting-Managed X d now a o last w e h
  on_state-Managed now other_state a o last w e h = ground arith

  pub manage_order-Handled :
      (now : ℕ) (last : Decimal) (w : World X)
      → OrderFits w.active_order w.active_position
      → Handled w (manage_order X d now last w)
  unfolding manage_order
  manage_order-Handled now last w h = elim (Option-cases w.active_order) [
    | inl none_in_hand ↦ rw none_in_hand (ground arith)
    | inr (a, e) ↦
        (let v = record w { exchange = (X.get_order a.order_id w.exchange).1 } in
          elim (Result-cases (X.get_order a.order_id w.exchange).0) [
            | inl (none, eq) ↦ ground arith
            | inl (some o, eq) ↦ ground (arith, on_state-Managed now o.state a o last v)
            | inr (exc, eq) ↦ ground arith
          ])
  ]

  -- With an order in hand the iteration only waits.
  pub act-waits :
      (r : Reading) (last : Decimal) (healthy fresh : Bool) (a : ActiveOrder) (w : World X)
      → w.active_order ≡ some a
      → act X d r last healthy fresh w ≡ (ok (again loop_sleep), w)
  unfolding act
  act-waits r last healthy fresh a w e = rw e refl

  pub act-Acted :
      (r : Reading) (last : Decimal) (healthy fresh : Bool) (w : World X)
      → w.active_order ≡ none
      → Acted (if is_draining r.control_later then 0 else 1) w (act X d r last healthy fresh w)
  unfolding act
  act-Acted r last healthy fresh w e = elim (Option-cases w.active_position) [
    | inl p ↦ ground (arith, without_position-Acted X d r.now r.control_later healthy fresh w e p)
    | inr (p, q) ↦ ground (arith, with_position-Acted X d r.now p last w e q)
  ]
