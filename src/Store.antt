-- ===== src/Store.antt =====
-- persistence/executor_store.py: the store of one strategy, which writes each call to SQLite at
-- once and hands what PostgreSQL shall keep to the journal; and the calls that the loop makes.
pub mod State
pub mod Orders
pub mod Trades
pub mod Mirror
pub mod Book
pub mod Executed
pub mod Refines
pub mod Inserted
pub mod Reopened
use okx_hft_executor.Prelude.{
  ℕ, String, ◌<>◌, Bool, true, false, ◌&&◌, ◌||◌, not, Option, none, some, List, [], ◌∷◌, ◌++◌,
  str_eq, starts_with, if◌then◌else◌, is_some, get_or, option_map,
}
use okx_hft_executor.Prelude.Int.{pos, is_zero_ℤ}
use okx_hft_executor.Decimal.{Decimal, Ratio}
use okx_hft_executor.Accounting.{price_ratio}
use okx_hft_executor.Strategy.{PositionSide}
use okx_hft_executor.Position.{ActivePosition, Purpose, entry, exit}
use okx_hft_executor.Finalize.{TradeResult}
use okx_hft_executor.Orchestrator.World.{OrderRow, StoreCall}
use okx_hft_executor.Sqlite
use okx_hft_executor.Sqlite.{Sqlite, Value, null, text, number, flag, Payload, new_sqlite}
use okx_hft_executor.Journal.Tables.{level_to_severity}
use okx_hft_executor.Journal.Events.{
  finish_run, Op, signal, attempt, order_insert, order_update, order_fill, position_open,
  position_close, trade_result, service_event, reconciliation, StrategyParams,
}
use okx_hft_executor.Store.State.{
  ExecutorStore, recording, hand_over, save_signal, record_cancel_attempt,
}
use okx_hft_executor.Store.Orders.{save_order}
use okx_hft_executor.Store.Trades.{
  save_position_open, save_position_close, close_open_position_reconciled, save_trade_result,
}

-- What the loop writes into a service event beside its type and the strategy, and when.
pub record EventDetail : Type 0 where
  pub ts : ℕ
  pub message : String
  pub payload : Payload
  pub level : String

abbrev is_reconcile_event : String → Bool
is_reconcile_event event_type =
    str_eq event_type "startup_reconcile_failed"
    || str_eq event_type "position_reconciled"
    || str_eq event_type "position_closed_sync"
    || str_eq event_type "exit_sync_lost"

-- `_ATTEMPT_EVENT_TYPES.get(event_type)`
abbrev attempt_of : String → Option (String × String)
attempt_of event_type =
    if str_eq event_type "loop_iteration_error"
    then some ("loop_error", "error")
    else if str_eq event_type "error"
    then some ("health_check", "error")
    else if str_eq event_type "decision_skipped"
    then some ("skip_decision", "skipped")
    else none

-- `(payload or {}).get(key)`
abbrev lookup_value : String → Payload → Option Value
lookup_value k [] = none
lookup_value k ((j, v) ∷ rest) = if str_eq j k then some v else lookup_value k rest

-- What the journal is handed for a service event.
unfoldable pub event_ops : ℕ → String → String → EventDetail → ExecutorStore → List Op
unfolding level_to_severity
event_ops run strategy_name event_type detail s =
    let named = if str_eq strategy_name "system" then s.strategy_name else strategy_name in
    service_event (record {
      run_id = run;
      strategy_name = strategy_name;
      event_type = event_type;
      message = detail.message;
      level = detail.level;
      inst_id = some s.inst_id;
      payload = detail.payload;
    })
    ∷ ((if is_reconcile_event event_type
          then reconciliation (record {
            run_id = run;
            inst_id = s.inst_id;
            strategy_name = some named;
            severity = level_to_severity detail.level;
            mismatch_type = event_type;
            message = detail.message;
            local_entity_id = lookup_value "position_id" detail.payload;
            payload = detail.payload;
          })
            ∷ []
          else [])
        ++ (elim (attempt_of event_type) [
          | none ↦ []
          | some (action_type, status) ↦
              attempt (record {
                run_id = run;
                signal_id = none;
                inst_id = s.inst_id;
                strategy_name = named;
                action_type = action_type;
                side = none;
                status = status;
                error_message = lookup_value "error" detail.payload;
                request_payload = [];
                response_payload = detail.payload;
              })
              ∷ []
        ]))

unfoldable pub save_service_event : String → String → EventDetail → ExecutorStore → ExecutorStore
unfolding Sqlite.save_service_event event_ops
save_service_event strategy_name event_type detail s =
    let s' = record s {
      sqlite =
          Sqlite.save_service_event detail.ts strategy_name event_type detail.message detail.payload
            detail.level s.sqlite;
    } in
    elim (recording s) [
      | none ↦ s'
      | some run ↦ hand_over (event_ops run strategy_name event_type detail s) s'
    ]

-- `aclose`, of which the end of the run is handed over before the journal is told to stop.
unfoldable pub aclose : String → Option String → ExecutorStore → ExecutorStore
aclose status stop_reason s = elim (recording s) [
  | none ↦ s
  | some run ↦
      hand_over
        (finish_run (record { run_id = run; status = status; stop_reason = stop_reason }) ∷ []) s
]

-- `detail n` is what the loop writes into its nth service event.
module _ (detail : ℕ → EventDetail) where
  -- A call that the loop makes of its store.
  unfoldable pub perform : StoreCall → ExecutorStore → ExecutorStore
  unfolding save_signal save_order save_position_open save_position_close
      close_open_position_reconciled save_trade_result save_service_event record_cancel_attempt
  perform (StoreCall.save_signal id side ts) s = save_signal id side ts s
  perform (StoreCall.save_order row ts) s = save_order row ts s
  perform (StoreCall.save_position_open p sig order) s = save_position_open p sig order s
  perform (StoreCall.save_position_close id px ts reason source) s =
      save_position_close id px ts reason source s
  perform (StoreCall.close_open_position_reconciled id ts reason) s =
      close_open_position_reconciled id ts reason s
  perform (StoreCall.save_trade_result result) s = save_trade_result result s
  perform (StoreCall.save_service_event name type) s =
      save_service_event name type (detail s.sqlite.last_event_id) s
  perform (StoreCall.record_cancel_attempt client_id order_id purpose) s =
      record_cancel_attempt client_id order_id purpose s

  -- The calls of the loop's journal, which has the newest first
  unfoldable pub perform_all : List StoreCall → ExecutorStore → ExecutorStore
  unfolding perform
  perform_all [] s = s
  perform_all (c ∷ cs) s = perform c (perform_all cs s)
