-- ===== src/Durable/Delivered.antt =====
-- The loop, its store and the thread of the PostgreSQL journal together.
use okx_hft_executor.Prelude.{ℕ, ◌≡◌, sym, ap, ◌∙◌, String, Option, none, some, List, ◌++◌}
use okx_hft_executor.Exchange.{ExchangeClient}
use okx_hft_executor.Position.{ActivePosition}
use okx_hft_executor.Orchestrator.World.{Deployment, StoreCall, World}
use okx_hft_executor.Orchestrator.Iteration.{Reading, Limits}
use okx_hft_executor.Journal.{Journal, Event, replay}
use okx_hft_executor.Journal.Events.{Op}
use okx_hft_executor.Journal.Rows.{Pg, Stamp}
use okx_hft_executor.Journal.Tables.{execute_all}
use okx_hft_executor.Journal.Queue.{IsBounded}
use okx_hft_executor.Journal.Whole.{AreAccepting, replay-whole}
use okx_hft_executor.Journal.Held.{held, puts}
use okx_hft_executor.Journal.Flush.{IsFlushed, held-committed}
use okx_hft_executor.Store.State.{ExecutorStore, recording}
use okx_hft_executor.Store.{EventDetail, perform_all, aclose}
use okx_hft_executor.Store.Mirror.{perform_all-SameStore}
use okx_hft_executor.Store.Book.{Book, entry_of, book_all, pg_book}
use okx_hft_executor.Store.Refines.{perform_all-book}
use okx_hft_executor.Store.Executed.{book_ops, book_ops-append, execute_all-book}
use okx_hft_executor.Durable.Start.{session, session-book}

-- All that was put is committed, behind what the journal had.
replay-committed :
    (es : List Event) (j : Journal)
    → IsBounded j
    → AreAccepting es
    → (replay es j).dropped ≡ j.dropped
    → IsFlushed (replay es j)
    → (replay es j).committed ≡ held j ++ puts es
replay-committed es j b h kept f = sym (held-committed (replay es j) f) ∙ replay-whole es j b h kept

module _ (detail : ℕ → EventDetail) (status : String) (stop_reason : Option String) where
  -- The store after the calls of the loop, once it is closed
  abbrev pub closed : List StoreCall → ExecutorStore → ExecutorStore
  closed cs s = aclose status stop_reason (perform_all detail cs s)

  closed-book :
      (cs : List StoreCall) (s : ExecutorStore) (run : ℕ) (b : Book)
      → recording s ≡ some run
      → book_ops (closed cs s).enqueued b ≡ book_all cs (book_ops s.enqueued b)
  unfolding aclose
  closed-book cs s run b on =
      let s' = perform_all detail cs s in
      let k = perform_all-SameStore detail cs s in
      let still : recording s' ≡ some run = rw (k.same_journal, k.same_run) on in
      rw (still, aclose) (book_ops-append s'.enqueued _ b) ∙ perform_all-book detail cs s run b on

  -- Executing what a journal had and then what the store handed over changes the book by the calls.
  delivered-book :
      (clock : ℕ → Stamp) (pg : Pg) (before : List Op) (s : ExecutorStore) (run : ℕ)
      (cs : List StoreCall)
      → recording s ≡ some run
      → pg_book (execute_all clock 0 (before ++ (closed cs s).enqueued) pg)
        ≡ book_all cs (book_ops s.enqueued (book_ops before (pg_book pg)))
  delivered-book clock pg before s run cs on =
      execute_all-book clock 0 (before ++ (closed cs s).enqueued) pg
      ∙ (book_ops-append before (closed cs s).enqueued (pg_book pg)
          ∙ closed-book cs s run (book_ops before (pg_book pg)) on)

-- Whatever the exchange answers or raises: if the loop, started with no position in memory and the
-- reconciliation, holds a position after some of its iterations and the store is then closed, if
-- the store, which records a run, has put what the calls of the loop and the closing hand over into
-- the queue, in its order and between any turns of the thread, with the sentinel at any place, and
-- if none of it was dropped, the database has taken every write and commit and the thread has ended
-- with nothing left, then the table of positions in PostgreSQL has a row for the position that is
-- open, with its entry price, entry time and size.
pub session-pg_book :
    (X : ExchangeClient) (d : Deployment) (detail : ℕ → EventDetail) (status : String)
    (stop_reason : Option String) (s : ExecutorStore) (rows : List String) (limits : Limits)
    (rs : List Reading) (w : World X) (p : ActivePosition) (run : ℕ) (es : List Event) (j : Journal)
    (clock : ℕ → Stamp) (pg : Pg)
    → w.active_position ≡ none
    → (session X d rows limits rs w).active_position ≡ some p
    → recording s ≡ some run
    → puts es ≡ (closed detail status stop_reason (session X d rows limits rs w).journal s).enqueued
    → IsBounded j
    → AreAccepting es
    → (replay es j).dropped ≡ j.dropped
    → IsFlushed (replay es j)
    → pg_book (execute_all clock 0 (replay es j).committed pg) p.position_id ≡ some (entry_of p)
session-pg_book X d detail status stop_reason s rows limits rs w p run es j clock pg flat in_hand on
      all b h kept f =
    let calls = (session X d rows limits rs w).journal in
    let stored = (closed detail status stop_reason calls s).enqueued in
    let before = book_ops s.enqueued (book_ops (held j) (pg_book pg)) in
    let written : (replay es j).committed ≡ held j ++ stored =
      replay-committed es j b h kept f ∙ ap (λ ops. held j ++ ops) all in
    rw written (
      ap (λ (c : Book). c p.position_id)
        (delivered-book detail status stop_reason clock pg (held j) s run calls on)
      ∙ session-book X d before rows limits rs w p flat in_hand)
