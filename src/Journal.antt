-- ===== src/Journal.antt =====
-- persistence/postgres_journal.py: the bounded queue and the thread that writes its items to
-- PostgreSQL. The database is given by the statements of its committed transactions and those of
-- the open one; Journal/Tables.antt says what a statement does to the tables.
pub mod Events
pub mod Rows
pub mod Positions
pub mod Tables
pub mod Queue
pub mod Held
pub mod Delivery
pub mod Whole
pub mod Flush
use okx_hft_executor.Prelude.{
  ℕ, suc, ◌+◌, Bool, true, false, ◌&&◌, Option, none, some, List, [], ◌∷◌, ◌++◌, ltb, leb,
  if◌then◌else◌, length,
}
use okx_hft_executor.Journal.Events.{Op, start_run, Item, write, stop_sentinel}

pub data Worker : Type 0 where
  working stopped : Worker

-- The journal while its thread runs: `waiting` is the queue, the next item first, `committed` and
-- `open_transaction` are what PostgreSQL holds, in the order of the writes.
pub record Journal : Type 0 where
  pub waiting : List Item
  pub queue_size : ℕ
  pub dropped : ℕ
  pub run_id : Option ℕ
  pub worker : Worker
  pub pending_commits : ℕ
  pub committed : List Op
  pub open_transaction : List Op

-- The journal once its thread is connected
abbrev pub new_journal : ℕ → Journal
new_journal queue_size = record {
  waiting = [];
  queue_size = queue_size;
  dropped = 0;
  run_id = none;
  worker = working;
  pending_commits = 0;
  committed = [];
  open_transaction = [];
}

-- `put_nowait`; a queue of size 0 has no bound
abbrev pub is_full : Journal → Bool
is_full j = ltb 0 j.queue_size && leb j.queue_size (length j.waiting)

unfoldable pub enqueue : Item → Journal → Journal
enqueue item j =
    if is_full j
    then record j { dropped = j.dropped + 1 }
    else record j { waiting = j.waiting ++ item ∷ [] }

-- `conn.commit()`
abbrev pub commit : Journal → Journal
commit j = record j {
  committed = j.committed ++ j.open_transaction;
  open_transaction = [];
  pending_commits = 0;
}

-- `conn.rollback()`, which leaves `pending_commits` alone
abbrev pub rollback : Journal → Journal
rollback j = record j { open_transaction = [] }

-- What PostgreSQL answers in one turn of the thread: whether it takes the write, and the commit if
-- there is one, whether a rollback after an error succeeds, and the id that it draws for a run.
pub record Answer : Type 0 where
  pub writes : Bool
  pub commits : Bool
  pub rolls_back : Bool
  pub drawn : ℕ

-- Where a commit fails, the open transaction is lost.
abbrev fail : Journal → Journal
fail j = record (rollback j) { worker = stopped }

-- The queue was empty for a tenth of a second. An error of this commit ends the thread.
unfoldable pub on_empty : Answer → Journal → Journal
on_empty answer j =
    if ltb 0 j.pending_commits then (if answer.commits then commit j else fail j) else j

-- The id of a run is published at once, before the commit.
abbrev run_id_of : Answer → Op → Option ℕ → Option ℕ
run_id_of answer (start_run params) known = some answer.drawn
run_id_of answer op known = known

-- `_dispatch`
abbrev dispatch : Answer → Op → Journal → Journal
dispatch answer op j = record j {
  run_id = run_id_of answer op j.run_id;
  open_transaction = j.open_transaction ++ op ∷ [];
}

abbrev counted : Journal → Journal
counted j = record j { pending_commits = j.pending_commits + 1 }

-- An error of a write, or of its commit, is rolled back; an error of the rollback ends the thread.
abbrev on_error : Answer → Journal → Journal
on_error answer j = record (rollback j) { worker = if answer.rolls_back then j.worker else stopped }

-- A write that is taken is counted, and the 25th commits.
unfoldable pub on_write : Answer → Op → Journal → Journal
on_write answer op j =
    if answer.writes
    then (let j' = counted (dispatch answer op j) in
        if leb 25 j'.pending_commits
        then (if answer.commits then commit j' else on_error answer j')
        else j')
    else on_error answer j

-- The sentinel ends the loop, with a last commit.
unfoldable pub on_stop : Answer → Journal → Journal
on_stop answer j =
    if ltb 0 j.pending_commits
    then (if answer.commits then record (commit j) { worker = stopped } else fail j)
    else fail j

abbrev pub take_item : Answer → List Item → Journal → Journal
take_item answer [] j = on_empty answer j
take_item answer (stop_sentinel ∷ items) j = on_stop answer (record j { waiting = items })
take_item answer (write op ∷ items) j = on_write answer op (record j { waiting = items })

-- One turn of the thread's loop
unfoldable pub work : Answer → Journal → Journal
unfolding on_empty on_stop on_write
work answer j = elim j.worker [ working ↦ take_item answer j.waiting j | stopped ↦ j ]

-- What happens to the journal: a call of one of its methods, or a turn of its thread.
pub data Event : Type 0 where
  put : Item → Event
  turn : Answer → Event

unfoldable pub step : Event → Journal → Journal
unfolding enqueue work
step (put item) j = enqueue item j
step (turn answer) j = work answer j

unfoldable pub replay : List Event → Journal → Journal
unfolding step
replay [] j = j
replay (e ∷ es) j = replay es (step e j)
