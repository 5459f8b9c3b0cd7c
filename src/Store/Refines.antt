-- ===== src/Store/Refines.antt =====
-- The calls of the store, as the positions of SQLite and of PostgreSQL show them.
use mathlib.Core.Path.{fun_ext}
use okx_hft_executor.Prelude.{
  ℕ, String, ◌≡◌, refl, ap, sym, ◌∙◌, Bool, true, false, some, List, [], ◌∷◌, arith, inl, inr,
  Option-cases, Bool-cases, if◌then◌else◌, str_eq,
}
use okx_hft_executor.Orchestrator.World.{OrderRow, StoreCall}
use okx_hft_executor.Sqlite
use okx_hft_executor.Sqlite.{Sqlite}
use okx_hft_executor.Journal.Rows.{Pg, Stamp}
use okx_hft_executor.Journal.Tables.{execute_all}
use okx_hft_executor.Store.State.{ExecutorStore, recording, hand_over}
use okx_hft_executor.Store.Orders.{journal_order, submission, remember, change, is_first}
use okx_hft_executor.Store.Trades.{close_status}
use okx_hft_executor.Store.{EventDetail, event_ops, perform, perform_all}
use okx_hft_executor.Store.Mirror.{mirror, mirror_all, perform_all-mirror, perform_all-SameStore}
use okx_hft_executor.Store.Book.{
  Book, book_call, book_all, sqlite_book, pg_book, sqlite-open_in, sqlite-close_in,
  sqlite-reconcile,
}
use okx_hft_executor.Store.Executed.{book_ops, book_ops-append, execute_all-book}

module _ (detail : ℕ → EventDetail) where
  mirror-book :
      (name : String) (c : StoreCall) (db : Sqlite)
      → sqlite_book (mirror detail name c db) ≡ book_call c (sqlite_book db)
  unfolding Sqlite.save_signal Sqlite.save_order Sqlite.save_trade_result Sqlite.save_service_event
  mirror-book name (StoreCall.save_signal id side ts) db = refl
  mirror-book name (StoreCall.save_order row ts) db = refl
  mirror-book name (StoreCall.save_position_open p sig order) db =
      fun_ext
        (sqlite-open_in p.position_id p.strategy_name p.side p.entry_price p.entry_ts p.size db)
  mirror-book name (StoreCall.save_position_close id px ts reason source) db =
      fun_ext (sqlite-close_in id px ts reason db)
  mirror-book name (StoreCall.close_open_position_reconciled id ts reason) db =
      fun_ext (sqlite-reconcile id ts reason db)
  mirror-book name (StoreCall.save_trade_result result) db = refl
  mirror-book name (StoreCall.save_service_event strategy_name type) db = refl
  mirror-book name (StoreCall.record_cancel_attempt client_id order_id purpose) db = refl

  mirror_all-book :
      (name : String) (cs : List StoreCall) (db : Sqlite)
      → sqlite_book (mirror_all detail name cs db) ≡ book_all cs (sqlite_book db)
  unfolding mirror_all
  mirror_all-book name [] db = refl
  mirror_all-book name (c ∷ cs) db =
      mirror-book name c (mirror_all detail name cs db)
      ∙ ap (book_call c) (mirror_all-book name cs db)

  either_status : (b : Bool) → str_eq (if b then "reconciled" else "closed") "open" ≡ false
  either_status true = refl
  either_status false = refl

  close_status-open : (reason : String) → str_eq (close_status reason) "open" ≡ false
  close_status-open reason = either_status _

  submission-book :
      (run : ℕ) (row : OrderRow) (ts : ℕ) (s : ExecutorStore) (b : Book)
      → book_ops (submission run row ts s) b ≡ b
  unfolding submission
  submission-book run row ts s b = refl

  change-book :
      (run : ℕ) (row : OrderRow) (s : ExecutorStore) (b : Book) → book_ops (change run row s) b ≡ b
  unfolding change
  change-book run row s b = ground arith

  remember-enqueued : (row : OrderRow) (s : ExecutorStore) → (remember row s).enqueued ≡ s.enqueued
  unfolding remember
  remember-enqueued row s = ground arith

  journal_order-book :
      (run : ℕ) (row : OrderRow) (ts : ℕ) (s : ExecutorStore) (b : Book)
      → book_ops (journal_order run row ts s).enqueued b ≡ book_ops s.enqueued b
  unfolding journal_order
  journal_order-book run row ts s b =
      let first = submission run row ts s in
      elim (Bool-cases (is_first row s)) [
        | inl new ↦
            rw (new, book_ops)
              (rw (remember-enqueued row (hand_over first s)) (
                book_ops-append s.enqueued first b
                ∙ submission-book run row ts s (book_ops s.enqueued b)))
        | inr old ↦
            rw (old, book_ops)
              (book_ops-append s.enqueued (change run row s) b
                ∙ change-book run row s (book_ops s.enqueued b))
      ]

  event_ops-book :
      (run : ℕ) (name type : String) (e : EventDetail) (s : ExecutorStore) (b : Book)
      → book_ops (event_ops run name type e s) b ≡ b
  unfolding event_ops
  event_ops-book run name type e s b = ground arith

  -- While a run is recorded, what a call hands to the journal means what the call means.
  perform-book :
      (c : StoreCall) (s : ExecutorStore) (run : ℕ) (b : Book)
      → recording s ≡ some run
      → book_ops (perform detail c s).enqueued b ≡ book_call c (book_ops s.enqueued b)
  unfolding perform
  perform-book (StoreCall.save_signal id side ts) s run b on =
      rw (on, book_ops) (book_ops-append s.enqueued _ b)
  perform-book (StoreCall.save_order row ts) s run b on =
      rw (on, book_ops) (journal_order-book run row ts _ b)
  perform-book (StoreCall.save_position_open p sig order) s run b on =
      rw (on, book_ops) (book_ops-append s.enqueued _ b)
  perform-book (StoreCall.save_position_close id px ts reason source) s run b on =
      rw (on, book_ops) (book_ops-append s.enqueued _ b ∙ rw (close_status-open reason) refl)
  perform-book (StoreCall.close_open_position_reconciled id ts reason) s run b on =
      rw (on, book_ops) (book_ops-append s.enqueued _ b)
  perform-book (StoreCall.save_trade_result result) s run b on =
      elim (Option-cases (s.position_meta result.position_id)) [
        | inl unknown ↦ rw (on, unknown, book_ops) refl
        | inr (meta, known) ↦ rw (on, known, book_ops) (book_ops-append s.enqueued _ b)
      ]
  perform-book (StoreCall.save_service_event strategy_name type) s run b on =
      rw (on, book_ops)
        (book_ops-append s.enqueued _ b
          ∙ event_ops-book run strategy_name type (detail s.sqlite.last_event_id) s
              (book_ops s.enqueued b))
  perform-book (StoreCall.record_cancel_attempt client_id order_id purpose) s run b on =
      rw (on, book_ops) (book_ops-append s.enqueued _ b)

  -- What the store hands to the journal changes the book as the calls do, if a run is recorded.
  pub perform_all-book :
      (cs : List StoreCall) (s : ExecutorStore) (run : ℕ) (b : Book)
      → recording s ≡ some run
      → book_ops (perform_all detail cs s).enqueued b ≡ book_all cs (book_ops s.enqueued b)
  unfolding perform_all
  perform_all-book [] s run b on = refl
  perform_all-book (c ∷ cs) s run b on =
      let k = perform_all-SameStore detail cs s in
      perform-book c (perform_all detail cs s) run b (rw (k.same_journal, k.same_run) on)
      ∙ ap (book_call c) (perform_all-book cs s run b on)

  pub perform_all-sqlite_book :
      (cs : List StoreCall) (s : ExecutorStore)
      → sqlite_book (perform_all detail cs s).sqlite ≡ book_all cs (sqlite_book s.sqlite)
  perform_all-sqlite_book cs s =
      ap sqlite_book (perform_all-mirror detail cs s) ∙ mirror_all-book s.strategy_name cs s.sqlite

  -- The positions in SQLite, and those in PostgreSQL after it has executed what was handed to the
  -- journal, are both the book that the calls of the loop describe, if a run is recorded: read for
  -- entry price, entry time, size and whether the position is open, the two tables change alike
  -- with every call, so that tables that agree at the start agree after any calls.
  pub perform_all-Refines :
      (cs : List StoreCall) (s : ExecutorStore) (run : ℕ) (clock : ℕ → Stamp) (pg : Pg)
      → recording s ≡ some run
      → sqlite_book s.sqlite ≡ pg_book (execute_all clock 0 s.enqueued pg)
      → let s' = perform_all detail cs s in
        (sqlite_book s'.sqlite ≡ book_all cs (sqlite_book s.sqlite))
        × (pg_book (execute_all clock 0 s'.enqueued pg) ≡ sqlite_book s'.sqlite)
  perform_all-Refines cs s run clock pg on same =
      let s' = perform_all detail cs s in
      let in_sqlite = perform_all-sqlite_book cs s in
      let in_pg : pg_book (execute_all clock 0 s'.enqueued pg)
          ≡ book_all cs (pg_book (execute_all clock 0 s.enqueued pg)) =
        execute_all-book clock 0 s'.enqueued pg
        ∙ (perform_all-book cs s run (pg_book pg) on
            ∙ ap (book_all cs) (sym (execute_all-book clock 0 s.enqueued pg))) in
      (in_sqlite, in_pg ∙ (ap (book_all cs) (sym same) ∙ sym in_sqlite))
