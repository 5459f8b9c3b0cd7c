-- ===== src/Journal/Rows.antt =====
-- persistence/postgres_journal.py: the rows of the tables of PostgreSQL, with the columns that the
-- statements of the journal set. Floats are exact and times are numbers.
use okx_hft_executor.Prelude.{ℕ, String, Bool, Option, List}
use okx_hft_executor.Decimal.{Decimal}
use okx_hft_executor.Exchange.{OrderSide}
use okx_hft_executor.Strategy.{PositionSide}
use okx_hft_executor.Journal.Events.{
  RunStartParams, StrategyParams, SignalEvent, AttemptEvent, OrderFill, TradeEvent, ServiceEvent,
  Reconciliation,
}

-- What the server and the host add to a statement
pub record Stamp : Type 0 where
  pub now : ℕ
  pub drawn : ℕ
  pub host_name : String
  pub process_id : ℕ

pub record RunRow : Type 0 where
  pub run_id : ℕ
  pub params : RunStartParams
  pub host_name : String
  pub process_id : ℕ
  pub status : String
  pub finished_at : Option ℕ
  pub stop_reason : Option String

pub record PgOrder : Type 0 where
  pub order_id_local : String
  pub run_id : ℕ
  pub signal_id : Option String
  pub position_id : Option String
  pub inst_id : String
  pub strategy_name : String
  pub order_id_exchange : Option String
  pub cl_ord_id : String
  pub parent_order_id_local : Option String
  pub side : OrderSide
  pub position_action : String
  pub ord_type : String
  pub td_mode : String
  pub reduce_only : Bool
  pub price : Option Decimal
  pub size : Decimal
  pub status : String
  pub ts_created : ℕ
  pub ts_submitted : Option ℕ
  pub filled_size : Decimal
  pub avg_fill_price : Option Decimal
  pub ts_closed : Option ℕ
  pub ts_canceled : Option ℕ
  pub ts_last_fill : Option ℕ

pub record PgPosition : Type 0 where
  pub position_id : String
  pub run_id : ℕ
  pub inst_id : String
  pub strategy_name : String
  pub side : PositionSide
  pub status : String
  pub qty : Decimal
  pub qty_open : Decimal
  pub entry_price : Decimal
  pub entry_ts : ℕ
  pub params : StrategyParams
  pub entry_signal_id : Option String
  pub entry_order_id_local : Option String
  pub exit_price : Option Decimal
  pub exit_ts : Option ℕ
  pub exit_reason : Option String
  pub updated_at : Option ℕ  -- set by an update

pub record PgTrade : Type 0 where
  pub trade_id : String
  pub columns : TradeEvent
  pub win_flag : Bool

pub record PgEvent : Type 0 where
  pub columns : ServiceEvent
  pub severity : String

pub record Pg : Type 0 where
  pub executor_runs : List RunRow
  pub strategy_signals : List SignalEvent
  pub execution_attempts : List AttemptEvent
  pub orders : List PgOrder
  pub order_fills : List OrderFill
  pub positions : List PgPosition
  pub trade_results : List PgTrade
  pub service_events : List PgEvent
  pub reconciliation_events : List Reconciliation
