-- ===== src/Tests/Queueing.antt =====
-- The queue of the journal and its thread, on concrete data.
use mathlib.Core.List.{Sublist}
use okx_hft_executor.Prelude.{◌≡◌, refl, true, false, none, List, [], ◌∷◌, arith}
use okx_hft_executor.Journal.{Journal, new_journal, Answer, Event, put, turn, enqueue, replay}
use okx_hft_executor.Journal.Events.{Op, write, stop_sentinel, finish_run}
use okx_hft_executor.Journal.Queue.{IsBounded, replay-IsBounded}
use okx_hft_executor.Journal.Delivery.{replay-Sublist}
use okx_hft_executor.Journal.Held.{held as has}
use okx_hft_executor.Journal.Flush.{IsFlushed, stop-IsFlushed}

abbrev finish : Op
finish = finish_run (record { run_id = 7; status = "stopped"; stop_reason = none })

abbrev pub accepting : Answer
accepting = record { writes = true; commits = true; rolls_back = true; drawn = 1 }

abbrev refusing : Answer
refusing = record accepting { writes = false }

-- A queue of two takes two of three operations.
abbrev events : List Event
events =
    put (write finish)
    ∷ put (write finish)
    ∷ put (write finish)
    ∷ turn refusing
    ∷ turn accepting
    ∷ []

new_journal-IsBounded : IsBounded (new_journal 2)
new_journal-IsBounded = record {
  queue_le = λ h. omega arith;
  counted_ge = omega arith;
  transaction_lt = omega arith;
}

replay-IsBounded_example : IsBounded (replay events (new_journal 2))
replay-IsBounded_example = replay-IsBounded events (new_journal 2) new_journal-IsBounded

replay-Sublist_example :
    Sublist (has (replay events (new_journal 2))) (finish ∷ finish ∷ finish ∷ [])
replay-Sublist_example = replay-Sublist events (new_journal 2)

-- An operation is written and not committed, and another one waits.
abbrev halfway : Journal
halfway = record (new_journal 2) {
  waiting = write finish ∷ [];
  pending_commits = 1;
  open_transaction = finish ∷ [];
}

halfway-IsBounded : IsBounded halfway
halfway-IsBounded = record {
  queue_le = λ h. omega arith;
  counted_ge = omega arith;
  transaction_lt = omega arith;
}

stop-IsFlushed_example :
    let j' = replay (turn accepting ∷ turn accepting ∷ []) (enqueue stop_sentinel halfway) in
    IsFlushed j' × (j'.committed ≡ finish ∷ finish ∷ [])
stop-IsFlushed_example =
    stop-IsFlushed (finish ∷ []) (accepting ∷ accepting ∷ []) halfway refl refl refl
      halfway-IsBounded ((refl, refl), ((refl, refl), tt)) refl
