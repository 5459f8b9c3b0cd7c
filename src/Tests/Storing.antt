-- ===== src/Tests/Storing.antt =====
-- The loop with its store, the store, the journal and SQLite, on concrete data.
use okx_hft_executor.Prelude.{ℕ, ◌≡◌, refl, Bool, true, false, none, some, List, [], ◌∷◌, All}
use okx_hft_executor.Prelude.Int.{abs}
use okx_hft_executor.Prelude.Table.{find_row}
use okx_hft_executor.Exchange.{buy, ExchangeClient}
use okx_hft_executor.Exchange.Errors.{ok}
use okx_hft_executor.Exchange.Stub.{new_stub}
use okx_hft_executor.Strategy.{long, short, initial_state, default_config}
use okx_hft_executor.Position.{
  ActivePosition, build_active_position, build_active_position_from_okx,
}
use okx_hft_executor.Orchestrator.World.{OrderRow, StoreCall, World}
use okx_hft_executor.Orchestrator.Iteration.{Reading, iteration, stop_check}
use okx_hft_executor.Orchestrator.Startup.{
  startup_snapshot, on_snapshot, restore, cancel_stale_open_orders,
}
use okx_hft_executor.Reconcile.{filter_positions}
use okx_hft_executor.Decimal.{quanta_per_unit}
use okx_hft_executor.Sqlite
use okx_hft_executor.Sqlite.{Sqlite, PositionRow, new_sqlite, list_open_positions}
use okx_hft_executor.Sqlite.Positions.{IsOther, close-list_open_positions}
use okx_hft_executor.Journal.Events.{PositionOpen, StrategyParams}
use okx_hft_executor.Journal.Rows.{Pg, PgPosition, Stamp}
use okx_hft_executor.Journal.Tables.{execute_all}
use okx_hft_executor.Journal.Positions.{upsert_position_open}
use okx_hft_executor.Store.State.{ExecutorStore}
use okx_hft_executor.Store.{EventDetail, perform_all}
use okx_hft_executor.Store.Mirror.{perform_all-sqlite}
use okx_hft_executor.Store.Inserted.{IsOnce, perform_all-IsOnce}
use okx_hft_executor.Store.Book.{book_all, entry_of, pg_book, sqlite_book}
use okx_hft_executor.Store.Refines.{perform_all-Refines}
use okx_hft_executor.Store.Reopened.{reopen_differs}
use okx_hft_executor.Durable.Start.{session, run-sqlite_book}
use okx_hft_executor.Tests.Data.{units, deployment, client, no_limits, at, forced, held, tick}

abbrev pub detail : ℕ → EventDetail
detail n = record { ts = n; message = ""; payload = []; level = "INFO" }

abbrev pub params : StrategyParams
params = record { take_profit_ticks = some 700; stop_loss_ticks = some 350; timeout_sec = some 300 }

abbrev pub store : Bool → ExecutorStore
store has_journal = record {
  strategy_name = "random_baseline";
  inst_id = "BTC-USDT-SWAP";
  td_mode = "isolated";
  sqlite = new_sqlite;
  has_journal = has_journal;
  run_id = some 7;
  strategy_params = params;
  position_meta = λ _. none;
  submitted_orders = [];
  last_entry_order = none;
  last_exit_order = none;
  enqueued = [];
}

-- The stub, but for a position that was left at the exchange
abbrev pub reporting : ExchangeClient
reporting = record client {
  get_positions = λ s. (
    ok (
        record {
          inst_id = "BTC-USDT-SWAP";
          pos_amount = units 1;
          avg_px = some (units 50000);
          pos_id = some "99";
          c_time_ms = some 1;
        }
        ∷ []),
    s,
  );
}

abbrev pub fresh : World reporting
fresh = record {
  active_position = none;
  active_order = none;
  has_open_position = false;
  has_active_order = false;
  strategy = initial_state;
  lifecycle = none;
  journal = [];
  sent = [];
  draws = 0;
  exchange = new_stub;
}

abbrev pub restored : ActivePosition
restored =
    build_active_position "pos-ex-99" "random_baseline" long (units 50000) 1000 (units 1) tick
      default_config

abbrev pub last_reading : List Reading
last_reading = at 1 (some forced) ∷ []

-- The position is taken over at the start, and a forced stop leaves it in hand.
pub session-restored :
    (session reporting deployment [] no_limits last_reading fresh).active_position ≡ some restored
unfolding session iteration stop_check startup_snapshot on_snapshot filter_positions restore
    build_active_position_from_okx quanta_per_unit cancel_stale_open_orders abs
session-restored = refl

run-sqlite_book_example :
    let calls = (session reporting deployment [] no_limits last_reading fresh).journal in
    sqlite_book (perform_all detail calls (store true)).sqlite "pos-ex-99"
    ≡ some (entry_of restored)
unfolding build_active_position
run-sqlite_book_example =
    run-sqlite_book reporting deployment detail (store true) [] no_limits last_reading fresh
      restored refl session-restored

abbrev order_row : OrderRow
order_row = record {
  local_order_id = "rb-1";
  exchange_order_id = "stub-1";
  side = buy;
  order_type = "post_only";
  price = some (units 50000);
  size = units 1;
  status = "submitted";
  filled_at = none;
  signal_id = some "sig-1";
  position_id = none;
  parent_order_id_local = none;
  reduce_only = false;
}

-- An order that is submitted and then filled, the position that it opens, and its end
abbrev calls : List StoreCall
calls =
    StoreCall.save_position_close "pos-1" (units 50070) 9 "tp" "strategy"
    ∷ StoreCall.save_position_open held (some "sig-1") (some "rb-1")
    ∷ StoreCall.save_order (record order_row { status = "filled"; filled_at = some 3 }) 3
    ∷ StoreCall.save_order order_row 2
    ∷ []

abbrev pub stamp : Stamp
stamp = record { now = 5; drawn = 1; host_name = "host"; process_id = 2 }

abbrev pub no_rows : Pg
no_rows = record {
  executor_runs = [];
  strategy_signals = [];
  execution_attempts = [];
  orders = [];
  order_fills = [];
  positions = [];
  trade_results = [];
  service_events = [];
  reconciliation_events = [];
}

perform_all-Refines_example :
    let s' = perform_all detail calls (store true) in
    (sqlite_book s'.sqlite ≡ book_all calls (sqlite_book new_sqlite))
    × (pg_book (execute_all (λ _. stamp) 0 s'.enqueued no_rows) ≡ sqlite_book s'.sqlite)
unfolding execute_all find_row
perform_all-Refines_example =
    perform_all-Refines detail calls (store true) 7 (λ _. stamp) no_rows refl refl

perform_all-sqlite_example :
    ((perform_all detail calls (store true)).sqlite
      ≡ (perform_all detail calls (store false)).sqlite)
    × ((perform_all detail calls (store false)).enqueued ≡ [])
perform_all-sqlite_example =
    perform_all-sqlite detail calls (store true) (store false) refl refl refl

perform_all-IsOnce_example : IsOnce (perform_all detail calls (store true))
perform_all-IsOnce_example = perform_all-IsOnce detail calls (store true) (λ k. refl)

abbrev row : PositionRow
row = record {
  position_id = "pos-1";
  strategy_name = "random_baseline";
  side = long;
  entry_price = units 50000;
  exit_price = none;
  entry_ts = 1;
  exit_ts = none;
  size = units 1;
  exit_reason = none;
}

abbrev with_row : Sqlite
with_row = record new_sqlite {
  positions = row ∷ record row { position_id = "pos-2"; entry_ts = 2 } ∷ [];
}

close-list_open_positions_example :
    let db' = Sqlite.save_position_close "pos-1" (units 50070) 9 "tp" with_row in
    All (IsOther "pos-1") (list_open_positions none db')
    × (Sqlite.close_open_position_reconciled "pos-1" 12 "gone" db' ≡ db')
close-list_open_positions_example =
    close-list_open_positions none "pos-1" (units 50070) 9 12 "tp" "gone" with_row

-- The position again under its id, the other way round
abbrev again : PositionOpen
again = record {
  run_id = 8;
  position_id = "pos-1";
  strategy_name = "random_baseline";
  inst_id = "BTC-USDT-SWAP";
  side = short;
  entry_price = units 50100;
  entry_ts = 20;
  size = units 1;
  params = params;
  entry_signal_id = none;
  entry_order_id_local = none;
}

abbrev pg_row : PgPosition
pg_row = record {
  position_id = "pos-1";
  run_id = 7;
  inst_id = "BTC-USDT-SWAP";
  strategy_name = "random_baseline";
  side = long;
  status = "closed";
  qty = units 1;
  qty_open = units 0;
  entry_price = units 50000;
  entry_ts = 1;
  params = params;
  entry_signal_id = none;
  entry_order_id_local = none;
  exit_price = some (units 50070);
  exit_ts = some 9;
  exit_reason = some "tp";
  updated_at = none;
}

abbrev with_pg_row : Pg
with_pg_row = record no_rows { positions = pg_row ∷ [] }

reopen_differs_example :
    (find_row (λ q. q.position_id) "pos-1" (upsert_position_open stamp again with_pg_row).positions
      ≡ some (record pg_row {
        status = "open";
        qty = units 1;
        qty_open = units 1;
        entry_price = units 50100;
        entry_ts = 20;
        updated_at = some 5;
      }))
    × (find_row
          (λ r. r.position_id)
          "pos-1"
          (Sqlite.save_position_open "pos-1" "random_baseline" short
            (units 50100)
            20
            (units 1)
            with_row).positions
        ≡ some (record row { side = short; entry_price = units 50100; entry_ts = 20 }))
unfolding find_row
reopen_differs_example = reopen_differs stamp again with_pg_row pg_row with_row refl
