-- ===== src/Orchestrator/Starting.antt =====
-- What the reconciliation at the start leaves the loop with.
use okx_hft_executor.Prelude.{ℕ, ◌≡◌, String, Option, none, some, List, [], ◌∷◌, arith, inl, inr}
use okx_hft_executor.Exchange.{OkxOrder, OkxPosition, ExchangeClient}
use okx_hft_executor.Exchange.Errors.{Result, Result-cases}
use okx_hft_executor.Position.{
  ActivePosition, ActiveOrder, is_probable_exit_order, build_active_position_from_okx,
}
use okx_hft_executor.Reconcile.{filter_positions, adopt_open_exit_order}
use okx_hft_executor.Orchestrator.World.{
  Deployment, World, IsOk, save_service_event, save_position_open, close_open_position_reconciled,
}
use okx_hft_executor.Orchestrator.Quiet.{placed, Quiet}
use okx_hft_executor.Orchestrator.Managed.{OrderFits}
use okx_hft_executor.Orchestrator.Startup.{
  cancel_stale_order, cancel_stale_open_orders, close_rows, first_row, restore, on_snapshot,
  startup_snapshot, bootstrap_position_on_startup,
}

-- An order that is adopted is remembered as one that fits the position.
adopt_open_exit_order-fits :
    (orders : List OkxOrder) (p : ActivePosition) (name : String) (now : ℕ)
    → OrderFits (adopt_open_exit_order orders p name now) (some p)
unfolding adopt_open_exit_order is_probable_exit_order
adopt_open_exit_order-fits [] p name now = tt
adopt_open_exit_order-fits (o ∷ os) p name now =
    ground (arith, adopt_open_exit_order-fits os p name now)

-- What is restored fits, no order is placed, and nothing is raised.
pub record Started {X : ExchangeClient} (w : World X) (r : Result (Unit {0}) × World X)
    : Type 0 where
  pub fits : OrderFits r.1.active_order r.1.active_position
  pub none_placed : placed r.1.sent ≡ placed w.sent
  pub no_raise : IsOk r

module _ (X : ExchangeClient) (d : Deployment) (now : ℕ) where
  cancel_stale_order-Quiet :
      (p : Option ActivePosition) (a : Option ActiveOrder) (o : OkxOrder) (w : World X)
      → Quiet w (cancel_stale_order X d now p a o w).1 × IsOk (cancel_stale_order X d now p a o w)
  unfolding cancel_stale_order
  cancel_stale_order-Quiet p a o w = ground arith

  pub cancel_stale_open_orders-Quiet :
      (p : Option ActivePosition) (a : Option ActiveOrder) (orders : List OkxOrder) (w : World X)
      → Quiet w (cancel_stale_open_orders X d now p a orders w).1
        × IsOk (cancel_stale_open_orders X d now p a orders w)
  unfolding cancel_stale_open_orders
  cancel_stale_open_orders-Quiet p a [] w = ground arith
  cancel_stale_open_orders-Quiet p a (o ∷ os) w = ground (
    arith,
    cancel_stale_order-Quiet p a o w,
    cancel_stale_open_orders-Quiet p a os (cancel_stale_order X d now p a o w).1,
  )

  pub close_rows-Quiet :
      (rows : List String) (w : World X)
      → Quiet w (close_rows X d now rows w).1 × IsOk (close_rows X d now rows w)
  unfolding close_rows
  close_rows-Quiet [] w = ground arith
  close_rows-Quiet (r ∷ rs) w = ground (
    arith,
    close_rows-Quiet rs (record w {
      journal =
          save_service_event d.strategy_name "position_closed_reconcile"
          ∷ close_open_position_reconciled r now "reconcile_no_exchange_position"
          ∷ w.journal;
    }),
  )

  restore-Started :
      (orders : List OkxOrder) (p : Option ActivePosition) (w : World X)
      → w.active_order ≡ none
      → Started w (restore X d now orders p w)
  unfolding restore
  restore-Started orders none w e = ground arith
  restore-Started orders (some p) w e =
      let adopted = adopt_open_exit_order orders p d.strategy_name now in
      ground (
        arith,
        adopt_open_exit_order-fits orders p d.strategy_name now,
        cancel_stale_open_orders-Quiet (some p) adopted orders (record w {
          journal =
              save_service_event d.strategy_name "position_reconciled_startup"
              ∷ save_position_open p none none
              ∷ w.journal;
        }),
      )

  on_snapshot-Started :
      (rows : List String) (orders : List OkxOrder) (positions : List OkxPosition) (w : World X)
      → w.active_order ≡ none
      → Started w (on_snapshot X d now rows orders positions w)
  unfolding on_snapshot
  on_snapshot-Started rows orders [] w e =
      let R = close_rows X d now rows w in
      ground (arith, close_rows-Quiet rows w, cancel_stale_open_orders-Quiet none none orders R.1)
  on_snapshot-Started rows orders (p ∷ ps) w e =
      restore-Started orders
        (build_active_position_from_okx p d.strategy_name d.tick_size d.config now
          (first_row X d now rows))
        w e

  startup_snapshot-Quiet :
      (w : World X) → Quiet w (startup_snapshot X d now w).1 × IsOk (startup_snapshot X d now w)
  unfolding startup_snapshot
  startup_snapshot-Quiet w = ground arith

  -- The reconciliation at the start, with no order in hand, places no order, raises no error of the
  -- exchange, and remembers an order that it adopts as one that fits the restored position.
  pub bootstrap-Started :
      (rows : List String) (w : World X)
      → w.active_order ≡ none
      → Started w (bootstrap_position_on_startup X d now rows w)
  unfolding bootstrap_position_on_startup
  bootstrap-Started rows w e =
      let S = startup_snapshot X d now w in
      let q = startup_snapshot-Quiet w in
      elim (Result-cases S.0) [
        | inr (exc, eq) ↦ ground (arith, q)
        | inl (none, eq) ↦ ground (arith, q)
        | inl (some (positions, orders), eq) ↦
            ground
              (arith, q, on_snapshot-Started rows orders (filter_positions positions d.inst_id) S.1)
      ]
