-- ===== src/Tests/Delivering.antt =====
-- The loop, its store and the thread of the journal together, on concrete data.
use okx_hft_executor.Prelude.{◌≡◌, refl, sym, true, none, some, List, [], ◌∷◌, arith}
use okx_hft_executor.Prelude.Int.{abs}
use okx_hft_executor.Decimal.{quanta_per_unit}
use okx_hft_executor.Strategy.{long}
use okx_hft_executor.Position.{build_active_position, build_active_position_from_okx}
use okx_hft_executor.Reconcile.{filter_positions}
use okx_hft_executor.Orchestrator.Iteration.{iteration, stop_check}
use okx_hft_executor.Orchestrator.Startup.{
  startup_snapshot, on_snapshot, restore, cancel_stale_open_orders,
}
use okx_hft_executor.Journal.{
  Journal, new_journal, Event, put, turn, replay, enqueue, work, on_write, on_stop, step,
}
use okx_hft_executor.Journal.Events.{
  finish_run, start_run, RunStartParams, Op, write, stop_sentinel, position_open, service_event,
}
use okx_hft_executor.Journal.Tables.{execute_all}
use okx_hft_executor.Journal.Queue.{IsBounded}
use okx_hft_executor.Journal.Flush.{IsFlushed}
use okx_hft_executor.Store.{perform_all, aclose}
use okx_hft_executor.Store.Book.{entry_of, pg_book}
use okx_hft_executor.Durable.Start.{session}
use okx_hft_executor.Durable.Delivered.{closed, session-pg_book}
use okx_hft_executor.Tests.Data.{units, deployment, no_limits}
use okx_hft_executor.Tests.Queueing.{accepting}
use okx_hft_executor.Tests.Storing.{
  detail, params, store, reporting, fresh, restored, last_reading, session-restored, stamp, no_rows,
}

abbrev opening : Op
opening = position_open (record {
  run_id = 7;
  position_id = "pos-ex-99";
  strategy_name = "random_baseline";
  inst_id = "BTC-USDT-SWAP";
  side = long;
  entry_price = units 50000;
  entry_ts = 1000;
  size = units 1;
  params = params;
  entry_signal_id = none;
  entry_order_id_local = none;
})

abbrev event : Op
event = service_event (record {
  run_id = 7;
  strategy_name = "random_baseline";
  event_type = "position_reconciled_startup";
  message = "";
  level = "INFO";
  inst_id = some "BTC-USDT-SWAP";
  payload = [];
})

abbrev ending : Op
ending = finish_run (record { run_id = 7; status = "stopped"; stop_reason = none })

abbrev started : RunStartParams
started = record {
  runtime_mode = "paper";
  environment_name = "test";
  strategy_name = "random_baseline";
  inst_id = "BTC-USDT-SWAP";
  app_version = "0.1.0";
  extra_json = [];
}

handed :
    (closed detail "stopped" none
      (session reporting deployment [] no_limits last_reading fresh).journal
      (store true)).enqueued
    ≡ opening ∷ event ∷ ending ∷ []
unfolding session iteration stop_check startup_snapshot on_snapshot filter_positions restore
    build_active_position_from_okx quanta_per_unit cancel_stale_open_orders abs perform_all aclose
handed = refl

-- The thread takes the first item before the second one is put.
abbrev events : List Event
events =
    put (write opening)
    ∷ turn accepting
    ∷ put (write event)
    ∷ put (write ending)
    ∷ put stop_sentinel
    ∷ turn accepting
    ∷ turn accepting
    ∷ turn accepting
    ∷ []

-- The run has been started, and its row is not yet committed.
abbrev unbounded : Journal
unbounded = record (new_journal 0) {
  run_id = some 7;
  pending_commits = 1;
  open_transaction = start_run started ∷ [];
}

unbounded-IsBounded : IsBounded unbounded
unbounded-IsBounded = record {
  queue_le = λ h. omega arith;
  counted_ge = omega arith;
  transaction_lt = omega arith;
}

events-IsFlushed : IsFlushed (replay events unbounded)
unfolding replay step enqueue work on_write on_stop
events-IsFlushed = record { ended = refl; emptied = refl; saved = refl }

events-kept : (replay events unbounded).dropped ≡ 0
unfolding replay step enqueue work on_write on_stop
events-kept = refl

session-pg_book_example :
    pg_book (execute_all (λ _. stamp) 0 (replay events unbounded).committed no_rows) "pos-ex-99"
    ≡ some (entry_of restored)
unfolding build_active_position
session-pg_book_example =
    session-pg_book reporting deployment detail "stopped" none (store true) [] no_limits
      last_reading fresh restored 7 events unbounded (λ _. stamp) no_rows refl session-restored refl
      (sym handed) unbounded-IsBounded
      ((refl, refl), ((refl, refl), ((refl, refl), ((refl, refl), tt)))) events-kept
      events-IsFlushed
