-- ===== src/Journal/Tables.antt =====
-- persistence/postgres_journal.py: what the statement of each operation does to the tables of
-- PostgreSQL, where the server takes it.
use okx_hft_executor.Prelude.{
  ℕ, ◌+◌, String, Bool, ◌&&◌, ◌||◌, Option, none, some, List, [], ◌∷◌, ◌++◌, str_eq, ◌==◌,
  if◌then◌else◌, or_else, get_or,
}
use okx_hft_executor.Prelude.Int.{pos, ltb_ℤ}
use okx_hft_executor.Prelude.Table.{add_row, update_row}
use okx_hft_executor.Journal.Rows.{Stamp, RunRow, PgOrder, Pg}
use okx_hft_executor.Journal.Events.{
  Op, start_run, finish_run, signal, attempt, order_insert, order_update, order_fill, position_open,
  position_close, trade_result, service_event, reconciliation, RunStartParams, RunFinishParams,
  SignalEvent, AttemptEvent, OrderInsert, OrderUpdate, OrderFill, TradeEvent, ServiceEvent,
  Reconciliation,
}
use okx_hft_executor.Journal.Positions.{upsert_position_open, update_position_close}

-- `_level_to_severity`; the names of levels that the program passes are in capitals.
unfoldable pub level_to_severity : String → String
level_to_severity level =
    if str_eq level "ERROR" || str_eq level "CRITICAL"
    then "error"
    else if str_eq level "WARNING"
    then "warning"
    else "info"

-- `ON CONFLICT (...) DO NOTHING` on a key of several columns
abbrev add_unless {ℓ} : {R : Type ℓ} → (R → R → Bool) → R → List R → List R → List R
add_unless conflicts r [] all = all ++ r ∷ []
add_unless conflicts r (q ∷ qs) all =
    let rest = add_unless conflicts r qs all in if conflicts r q then all else rest

unfoldable pub insert_run : Stamp → RunStartParams → Pg → Pg
insert_run stamp params pg = record pg {
  executor_runs =
      pg.executor_runs
      ++ (record {
        run_id = stamp.drawn;
        params = params;
        host_name = stamp.host_name;
        process_id = stamp.process_id;
        status = "running";
        finished_at = none;
        stop_reason = none;
      })
        ∷ [];
}

abbrev finished_row : Stamp → RunFinishParams → RunRow → RunRow
finished_row stamp params row =
    if row.run_id == params.run_id
    then record row {
      finished_at = some stamp.now;
      status = params.status;
      stop_reason = params.stop_reason;
    }
    else row

update_runs : Stamp → RunFinishParams → List RunRow → List RunRow
update_runs stamp params [] = []
update_runs stamp params (row ∷ rows) =
    finished_row stamp params row ∷ update_runs stamp params rows

unfoldable pub update_run : Stamp → RunFinishParams → Pg → Pg
unfolding update_runs
update_run stamp params pg = record pg { executor_runs = update_runs stamp params pg.executor_runs }

unfoldable pub insert_signal : SignalEvent → Pg → Pg
insert_signal p pg = record pg {
  strategy_signals =
      add_unless (λ a b. a.ts_decision == b.ts_decision && str_eq a.signal_id b.signal_id) p
        pg.strategy_signals pg.strategy_signals;
}

unfoldable pub insert_attempt : AttemptEvent → Pg → Pg
insert_attempt p pg = record pg { execution_attempts = pg.execution_attempts ++ p ∷ [] }

unfoldable pub insert_order : OrderInsert → Pg → Pg
insert_order p pg = record pg {
  orders =
      pg.orders
      ++ (record {
        order_id_local = p.order_id_local;
        run_id = p.run_id;
        signal_id = p.signal_id;
        position_id = p.position_id;
        inst_id = p.inst_id;
        strategy_name = p.strategy_name;
        order_id_exchange = p.exchange_order_id;
        cl_ord_id = p.order_id_local;
        parent_order_id_local = p.parent_order_id_local;
        side = p.side;
        position_action = p.position_action;
        ord_type = p.ord_type;
        td_mode = p.td_mode;
        reduce_only = p.reduce_only;
        price = p.price;
        size = p.size;
        status = p.status;
        ts_created = p.ts_created;
        ts_submitted = if str_eq p.status "submitted" then some p.ts_created else none;
        filled_size = pos 0;
        avg_fill_price = none;
        ts_closed = none;
        ts_canceled = none;
        ts_last_fill = none;
      })
        ∷ [];
}

-- `COALESCE(%s::timestamptz, now())`
abbrev time_or_now : Stamp → Option ℕ → Option ℕ
time_or_now stamp ts = some (get_or ts stamp.now)

abbrev updated_order : Stamp → OrderUpdate → PgOrder → PgOrder
updated_order stamp p row = record row {
  status = p.status;
  order_id_exchange = or_else p.exchange_order_id row.order_id_exchange;
  price = or_else p.price row.price;
  filled_size = get_or p.filled_size row.filled_size;
  avg_fill_price = or_else p.price row.avg_fill_price;
  ts_closed =
      if str_eq p.status "filled" || str_eq p.status "canceled" || str_eq p.status "rejected"
      then time_or_now stamp p.filled_at
      else row.ts_closed;
  ts_canceled =
      if str_eq p.status "canceled" then time_or_now stamp p.filled_at else row.ts_canceled;
  ts_last_fill =
      if str_eq p.status "filled" then time_or_now stamp p.filled_at else row.ts_last_fill;
}

unfoldable pub update_order : Stamp → OrderUpdate → Pg → Pg
update_order stamp p pg = record pg {
  orders = update_row (λ r. r.order_id_local) p.order_id_local (updated_order stamp p) pg.orders;
}

unfoldable pub insert_fill : OrderFill → Pg → Pg
insert_fill p pg = record pg {
  order_fills =
      add_unless
        (λ a b.
          a.ts_fill == b.ts_fill
          && str_eq a.fill_id_exchange b.fill_id_exchange
          && str_eq a.inst_id b.inst_id)
        p pg.order_fills pg.order_fills;
}

unfoldable pub insert_trade_result : TradeEvent → Pg → Pg
insert_trade_result p pg = record pg {
  trade_results =
      add_row (λ r. r.trade_id)
        (record { trade_id = p.trade_id; columns = p; win_flag = ltb_ℤ (pos 0) p.net_pnl })
        pg.trade_results;
}

unfoldable pub insert_service_event : ServiceEvent → Pg → Pg
unfolding level_to_severity
insert_service_event p pg = record pg {
  service_events =
      pg.service_events ++ (record { columns = p; severity = level_to_severity p.level }) ∷ [];
}

unfoldable pub insert_reconciliation : Reconciliation → Pg → Pg
insert_reconciliation p pg = record pg {
  reconciliation_events = pg.reconciliation_events ++ p ∷ [];
}

-- `_dispatch`
unfoldable pub execute : Stamp → Op → Pg → Pg
execute stamp (start_run params) pg = insert_run stamp params pg
execute stamp (finish_run params) pg = update_run stamp params pg
execute stamp (signal p) pg = insert_signal p pg
execute stamp (attempt p) pg = insert_attempt p pg
execute stamp (order_insert p) pg = insert_order p pg
execute stamp (order_update p) pg = update_order stamp p pg
execute stamp (order_fill p) pg = insert_fill p pg
execute stamp (position_open p) pg = upsert_position_open stamp p pg
execute stamp (position_close p) pg = update_position_close stamp p pg
execute stamp (trade_result p) pg = insert_trade_result p pg
execute stamp (service_event p) pg = insert_service_event p pg
execute stamp (reconciliation p) pg = insert_reconciliation p pg

-- The operations one after the other, under the stamps of a clock
unfoldable pub execute_all : (ℕ → Stamp) → ℕ → List Op → Pg → Pg
unfolding execute
execute_all clock n [] pg = pg
execute_all clock n (op ∷ ops) pg = execute_all clock (n + 1) ops (execute (clock n) op pg)
