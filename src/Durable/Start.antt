-- ===== src/Durable/Start.antt =====
-- The loop from its start on, and the position of it that SQLite holds.
use text.Mathlib.TextPositions.{eq_refl}
use mathlib.Core.Path.{subst}
use okx_hft_executor.Prelude.{
  ℕ, ◌≡◌, refl, ap, ◌∙◌, String, Option, none, some, List, [], ◌∷◌, arith, inl, inr,
}
use okx_hft_executor.Exchange.{OkxOrder, OkxPosition, ExchangeClient}
use okx_hft_executor.Exchange.Errors.{Result-cases}
use okx_hft_executor.Position.{ActivePosition, ActiveOrder, build_active_position_from_okx}
use okx_hft_executor.Reconcile.{filter_positions, adopt_open_exit_order}
use okx_hft_executor.Orchestrator.World.{Deployment, World, save_service_event, save_position_open}
use okx_hft_executor.Orchestrator.Startup.{
  cancel_stale_order, cancel_stale_open_orders, close_rows, first_row, restore, on_snapshot,
  startup_snapshot, bootstrap_position_on_startup,
}
use okx_hft_executor.Orchestrator.Iteration.{Reading, Limits, run}
use okx_hft_executor.Store.State.{ExecutorStore}
use okx_hft_executor.Store.{EventDetail, perform_all}
use okx_hft_executor.Store.Book.{Book, entry_of, book_all, sqlite_book}
use okx_hft_executor.Store.Refines.{perform_all-sqlite_book}
use okx_hft_executor.Durable.{IsIn, IsStored, IsCalm}
use okx_hft_executor.Durable.Loop.{run-IsStored}

module _ (X : ExchangeClient) (d : Deployment) (b : Book) (now : ℕ) where
  cancel_stale_order-IsCalm :
      (p : Option ActivePosition) (a : Option ActiveOrder) (o : OkxOrder) (w : World X)
      → IsCalm b w (cancel_stale_order X d now p a o w).1
  unfolding cancel_stale_order
  cancel_stale_order-IsCalm p a o w = ground arith

  cancel_stale_open_orders-IsCalm :
      (p : Option ActivePosition) (a : Option ActiveOrder) (orders : List OkxOrder) (w : World X)
      → IsCalm b w (cancel_stale_open_orders X d now p a orders w).1
  unfolding cancel_stale_open_orders
  cancel_stale_open_orders-IsCalm p a [] w = ground arith
  cancel_stale_open_orders-IsCalm p a (o ∷ os) w = ground (
    arith,
    cancel_stale_order-IsCalm p a o w,
    cancel_stale_open_orders-IsCalm p a os (cancel_stale_order X d now p a o w).1,
  )

  close_rows-flat :
      (rows : List String) (w : World X)
      → (close_rows X d now rows w).1.active_position ≡ w.active_position
  unfolding close_rows
  close_rows-flat [] w = refl
  close_rows-flat (r ∷ rs) w = close_rows-flat rs _

  restore-IsStored :
      (orders : List OkxOrder) (p : Option ActivePosition) (w : World X)
      → w.active_position ≡ none
      → IsStored b (restore X d now orders p w).1
  unfolding restore
  restore-IsStored orders none w e = rw e tt
  restore-IsStored orders (some p) w e =
      let adopted = adopt_open_exit_order orders p d.strategy_name now in
      let v : World X = record w {
        journal =
            save_service_event d.strategy_name "position_reconciled_startup"
            ∷ save_position_open p none none
            ∷ w.journal;
      } in
      let C = cancel_stale_open_orders X d now (some p) adopted orders v in
      let c = cancel_stale_open_orders-IsCalm (some p) adopted orders v in
      ground (arith, c, e, eq_refl p.position_id)

  on_snapshot-IsStored :
      (rows : List String) (orders : List OkxOrder) (ps : List OkxPosition) (w : World X)
      → w.active_position ≡ none
      → IsStored b (on_snapshot X d now rows orders ps w).1
  unfolding on_snapshot
  on_snapshot-IsStored rows orders [] w e =
      let K = close_rows X d now rows w in
      ground
        (arith, e, close_rows-flat rows w, cancel_stale_open_orders-IsCalm none none orders K.1)
  on_snapshot-IsStored rows orders (p ∷ ps) w e =
      restore-IsStored orders
        (build_active_position_from_okx p d.strategy_name d.tick_size d.config now
          (first_row X d now rows))
        w e

  startup_snapshot-IsCalm : (w : World X) → IsCalm b w (startup_snapshot X d now w).1
  unfolding startup_snapshot
  startup_snapshot-IsCalm w = ground arith

  bootstrap-IsStored :
      (rows : List String) (w : World X)
      → w.active_position ≡ none
      → IsStored b (bootstrap_position_on_startup X d now rows w).1
  unfolding bootstrap_position_on_startup
  bootstrap-IsStored rows w e =
      let S = startup_snapshot X d now w in
      let c = startup_snapshot-IsCalm w in
      elim (Result-cases S.0) [
        | inr (exc, eq) ↦ ground (arith, c, e)
        | inl (none, eq) ↦ ground (arith, c, e)
        | inl (some (positions, orders), eq) ↦ ground (
          arith,
          c,
          e,
          on_snapshot-IsStored rows orders (filter_positions positions d.inst_id) S.1,
        )
      ]

-- The loop from its start on: the reconciliation, and the iterations of the readings.
unfoldable pub session :
    (X : ExchangeClient) → Deployment → List String → Limits → List Reading → World X → World X
unfolding bootstrap_position_on_startup run
session X d rows limits rs w =
    let started = (bootstrap_position_on_startup X d limits.started_at rows w).1 in
    (run X d limits 0 rs started).1

-- The position that the loop holds is in every book that its calls change.
pub session-book :
    (X : ExchangeClient) (d : Deployment) (b : Book) (rows : List String) (limits : Limits)
    (rs : List Reading) (w : World X) (p : ActivePosition)
    → w.active_position ≡ none
    → (session X d rows limits rs w).active_position ≡ some p
    → IsIn (some p) (book_all (session X d rows limits rs w).journal b)
unfolding session
session-book X d b rows limits rs w p flat held =
    let started = (bootstrap_position_on_startup X d limits.started_at rows w).1 in
    let w' = (run X d limits 0 rs started).1 in
    let stored : IsStored b w' =
      run-IsStored X d b limits 0 rs started
        (bootstrap-IsStored X d b limits.started_at rows w flat) in
    subst (λ q. IsIn q (book_all w'.journal b)) held stored

-- Whatever the exchange answers or raises, whenever the loop, started with no position in memory
-- and the reconciliation, holds a position after some of its iterations, the table of positions in
-- SQLite, once the store has performed the calls of the loop, has a row for it that is open, with
-- its entry price, entry time and size.
pub run-sqlite_book :
    (X : ExchangeClient) (d : Deployment) (detail : ℕ → EventDetail) (s : ExecutorStore)
    (rows : List String) (limits : Limits) (rs : List Reading) (w : World X) (p : ActivePosition)
    → w.active_position ≡ none
    → (session X d rows limits rs w).active_position ≡ some p
    → sqlite_book (perform_all detail (session X d rows limits rs w).journal s).sqlite p.position_id
      ≡ some (entry_of p)
run-sqlite_book X d detail s rows limits rs w p flat held =
    let calls = (session X d rows limits rs w).journal in
    ap (λ (c : Book). c p.position_id) (perform_all-sqlite_book detail calls s)
    ∙ session-book X d (sqlite_book s.sqlite) rows limits rs w p flat held
