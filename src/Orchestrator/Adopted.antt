-- ===== src/Orchestrator/Adopted.antt =====
-- The exit order that is adopted at the start, and the open orders that are cancelled.
use okx_hft_executor.Prelude.{
  ℕ, ◌≡◌, ◌≢◌, refl, ◌∙◌, String, true, false, Option, none, some, List, [], ◌∷◌, All, arith, ◌⊎◌,
  inl, inr, Bool-cases,
}
use okx_hft_executor.Exchange.{OkxOrder, OkxPosition, ExchangeClient}
use okx_hft_executor.Exchange.Errors.{ok}
use okx_hft_executor.Position.{
  ActivePosition, ActiveOrder, expected_exit_side, is_probable_exit_order,
  build_active_position_from_okx,
}
use okx_hft_executor.Reconcile.{filter_positions, adopt_open_exit_order}
use okx_hft_executor.Orchestrator.World.{
  Deployment, World, set_position, set_order, skip, ◌>>◌, Request, cancel, save_service_event,
  save_position_open, close_open_position_reconciled,
}
use okx_hft_executor.Orchestrator.Asked.{opposite, step_cases, step_to}
use okx_hft_executor.Orchestrator.Starting.{cancel_stale_open_orders-Quiet, close_rows-Quiet}
use okx_hft_executor.Orchestrator.Startup.{
  is_kept, cancel_stale_order, cancel_stale_open_orders, close_rows, first_row, restore,
  on_snapshot, startup_snapshot, bootstrap_position_on_startup,
}

abbrev pub IsListed : OkxOrder → List OkxOrder → Type 0
IsListed o [] = ⊥
IsListed o (x ∷ xs) = (x ≡ o) ⊎ IsListed o xs

-- The order is not on the side that closes the position, if there is one.
abbrev pub IsNotExit : Option ActivePosition → OkxOrder → Type 0
IsNotExit none o = Unit
IsNotExit (some p) o = o.side ≢ opposite p.side

-- The request cancels an order of the list that is not on the side that closes the position.
abbrev pub IsSweep : Option ActivePosition → List OkxOrder → Request → Type 0
IsSweep position orders q =
    (o : OkxOrder) × IsListed o orders × IsNotExit position o × (q ≡ cancel o.cl_ord_id)

-- The order in hand is one of the list on the side that closes the position; where none is in
-- hand, none of the list is on that side.
abbrev pub IsAdopted : Option ActivePosition → List OkxOrder → Option ActiveOrder → Type 0
IsAdopted position orders none = All (IsNotExit position) orders
IsAdopted position orders (some a) =
    (p : ActivePosition) × (o : OkxOrder) × (position ≡ some p)
    × IsListed o orders
    × (o.side ≡ opposite p.side)
    × (a.side ≡ o.side)
    × (a.order_id ≡ o.ord_id)
    × (a.client_id ≡ o.cl_ord_id)

-- The order is on the side that closes the position, or on another.
exit_side :
    (p : ActivePosition) (o : OkxOrder)
    → (is_probable_exit_order p o.side ≡ true) × (o.side ≡ opposite p.side)
      ⊎ (is_probable_exit_order p o.side ≡ false) × (o.side ≢ opposite p.side)
unfolding is_probable_exit_order expected_exit_side
exit_side p o = ground arith

adopt-IsAdopted :
    (orders : List OkxOrder) (p : ActivePosition) (name : String) (now : ℕ)
    → IsAdopted (some p) orders (adopt_open_exit_order orders p name now)
unfolding adopt_open_exit_order
adopt-IsAdopted [] p name now = tt
adopt-IsAdopted (o ∷ os) p name now = elim (exit_side p o) [
  | inl (e, side) ↦ rw e (p, o, refl, inl refl, side, refl, refl, refl)
  | inr (e, other) ↦
      rw e (go other (adopt_open_exit_order os p name now) (adopt-IsAdopted os p name now))
]
  where
    go :
        o.side ≢ opposite p.side
        → (a : Option ActiveOrder) → IsAdopted (some p) os a
        → IsAdopted (some p) (o ∷ os) a
    go other none rest = (other, rest)
    go other (some a) (p', o', e, l, side, s, i, c) = (p', o', e, inr l, side, s, i, c)

not_kept :
    (position : Option ActivePosition) (adopted : Option ActiveOrder) (o : OkxOrder)
    → is_kept position adopted o ≡ false
    → IsNotExit position o
unfolding is_kept
not_kept none adopted o e = tt
not_kept (some p) adopted o e = ground (arith, exit_side p o)

none-IsNotExit : (orders : List OkxOrder) → All (IsNotExit none) orders
none-IsNotExit [] = tt
none-IsNotExit (o ∷ os) = (tt, none-IsNotExit os)

-- The loop variables before the first iteration: no position, no order, and nothing sent
abbrev pub IsFresh : {X : ExchangeClient} → World X → Type 0
IsFresh w = (w.active_position ≡ none) × (w.active_order ≡ none) × (w.sent ≡ [])

-- The requests sent are the sweep, and the order in hand is the one adopted.
abbrev pub IsSwept : {X : ExchangeClient} → List OkxOrder → World X → Type 0
IsSwept orders w =
    All (IsSweep w.active_position orders) w.sent
    × IsAdopted w.active_position orders w.active_order

IsFresh-IsSwept :
    {X : ExchangeClient} (orders : List OkxOrder) (w : World X) → IsFresh w → IsSwept orders w
IsFresh-IsSwept orders w (p, o, s) = rw (p, o, s) (tt, none-IsNotExit orders)

module _ (X : ExchangeClient) (d : Deployment) (now : ℕ) where
  cancel_stale_order-sent :
      (position : Option ActivePosition) (adopted : Option ActiveOrder) (o : OkxOrder) (w : World X)
      → (is_kept position adopted o ≡ true)
          × ((cancel_stale_order X d now position adopted o w).1.sent ≡ w.sent)
        ⊎ (is_kept position adopted o ≡ false)
          × ((cancel_stale_order X d now position adopted o w).1.sent ≡ cancel o.cl_ord_id ∷ w.sent)
  unfolding cancel_stale_order
  cancel_stale_order-sent position adopted o w = elim (Bool-cases (is_kept position adopted o)) [
    | inl e ↦ rw (e, cancel_stale_order) (inl (refl, refl))
    | inr e ↦ inr (e, ground arith)
  ]

  -- The sweep of the orders that are left of a list keeps what holds of the requests sent.
  cancel_stale_open_orders-All :
      (position : Option ActivePosition) (adopted : Option ActiveOrder) (all orders : List OkxOrder)
      (w : World X)
      → ((o : OkxOrder) → IsListed o orders → IsListed o all)
      → All (IsSweep position all) w.sent
      → All
          (IsSweep position all)
          (cancel_stale_open_orders X d now position adopted orders w).1.sent
  unfolding cancel_stale_open_orders
  cancel_stale_open_orders-All position adopted all [] w listed sent = sent
  cancel_stale_open_orders-All position adopted all (o ∷ os) w listed sent =
      let R = cancel_stale_order X d now position adopted o w in
      let next : All (IsSweep position all) R.1.sent =
        elim (cancel_stale_order-sent position adopted o w) [
          | inl (e, same) ↦ rw same sent
          | inr (e, added) ↦
              rw added ((o, listed o (inl refl), not_kept position adopted o e, refl), sent)
        ] in
      ground (
        arith,
        cancel_stale_open_orders-All position adopted all os R.1 (λ x l. listed x (inr l)) next,
      )

  close_rows-sent : (rows : List String) (w : World X) → (close_rows X d now rows w).1.sent ≡ w.sent
  unfolding close_rows
  close_rows-sent [] w = refl
  close_rows-sent (r ∷ rs) w = close_rows-sent rs (record w {
    journal =
        save_service_event d.strategy_name "position_closed_reconcile"
        ∷ close_open_position_reconciled r now "reconcile_no_exchange_position"
        ∷ w.journal;
  })

  restore-IsSwept :
      (orders : List OkxOrder) (p : Option ActivePosition) (w : World X)
      → IsFresh w
      → IsSwept orders (restore X d now orders p w).1
  unfolding restore
  restore-IsSwept orders none w fresh = IsFresh-IsSwept orders w fresh
  restore-IsSwept orders (some p) w fresh =
      let v : World X = record w {
        journal =
            save_service_event d.strategy_name "position_reconciled_startup"
            ∷ save_position_open p none none
            ∷ w.journal;
      } in
      let adopted = adopt_open_exit_order orders p d.strategy_name now in
      let C = cancel_stale_open_orders X d now (some p) adopted orders v in
      let swept : All (IsSweep (some p) orders) C.1.sent =
        cancel_stale_open_orders-All (some p) adopted orders orders v (λ _ l. l) (rw fresh.2 tt) in
      step_cases (λ r. IsSwept orders r.1)
        (cancel_stale_open_orders X d now (some p) adopted orders)
        (λ _. set_position (some p) >> set_order adopted) v
        (λ _ _. (swept, adopt-IsAdopted orders p d.strategy_name now))
        (λ exc e. ground (arith, cancel_stale_open_orders-Quiet X d now (some p) adopted orders v))

  on_snapshot-IsSwept :
      (rows : List String) (orders : List OkxOrder) (positions : List OkxPosition) (w : World X)
      → IsFresh w
      → IsSwept orders (on_snapshot X d now rows orders positions w).1
  unfolding on_snapshot
  on_snapshot-IsSwept rows orders (p ∷ ps) w fresh =
      restore-IsSwept orders
        (build_active_position_from_okx p d.strategy_name d.tick_size d.config now
          (first_row X d now rows))
        w fresh
  on_snapshot-IsSwept rows orders [] w fresh =
      let R = close_rows X d now rows w in
      let q = close_rows-Quiet X d now rows w in
      let q' = cancel_stale_open_orders-Quiet X d now none none orders R.1 in
      let swept =
        cancel_stale_open_orders-All none none orders orders R.1 (λ _ l. l)
          (rw (close_rows-sent rows w ∙ fresh.2) tt) in
      step_cases (λ r. IsSwept orders r.1) (close_rows X d now rows)
        (λ _. cancel_stale_open_orders X d now none none orders) w
        (λ _ _.
          rw
            (
              q'.0.same_position ∙ q.0.same_position ∙ fresh.0,
              q'.0.same_order ∙ q.0.same_order ∙ fresh.1,
            )
            (swept, none-IsNotExit orders))
        (λ exc e. ground (arith, q))

  startup_snapshot-some :
      (positions : List OkxPosition) (orders : List OkxOrder) (s t : X.State) (w : World X)
      → X.get_positions w.exchange ≡ (ok positions, s)
      → X.get_open_orders s ≡ (ok orders, t)
      → startup_snapshot X d now w ≡ (ok (some (positions, orders)), record w { exchange = t })
  unfolding startup_snapshot
  startup_snapshot-some positions orders s t w listed opened = ground (arith, listed, opened)

  -- Where the exchange reports its positions and its open orders to the start, which has no
  -- position and no order in hand and has sent nothing: every request that is sent cancels one of
  -- those open orders, and, with a position then in hand, one that is not on the side opposite to
  -- it; an order then in hand has the id, client id and side of one of them that is on that side;
  -- and with a position and no order in hand, none of them is on that side.
  pub bootstrap-adopts :
      (rows : List String) (positions : List OkxPosition) (orders : List OkxOrder) (s t : X.State)
      (w : World X)
      → IsFresh w
      → X.get_positions w.exchange ≡ (ok positions, s)
      → X.get_open_orders s ≡ (ok orders, t)
      → IsSwept orders (bootstrap_position_on_startup X d now rows w).1
  unfolding bootstrap_position_on_startup
  bootstrap-adopts rows positions orders s t w fresh listed opened =
      step_to (λ r. IsSwept orders r.1) (startup_snapshot X d now)
        (λ seen. elim seen [
          | none ↦ skip
          | some (ps, os) ↦ on_snapshot X d now rows os (filter_positions ps d.inst_id)
        ])
        w (some (positions, orders)) (record w { exchange = t })
        (startup_snapshot-some positions orders s t w listed opened)
        (on_snapshot-IsSwept rows orders (filter_positions positions d.inst_id)
          (record w { exchange = t }) fresh)
