-- ===== src/Journal/Events.antt =====
-- persistence/postgres_journal.py: what is put into the queue, with the fields that the
-- `enqueue_*` methods and the dictionaries of their payloads have. An id that PostgreSQL draws
-- is a number.
use okx_hft_executor.Prelude.{ℕ, String, Bool, Option}
use okx_hft_executor.Prelude.Int.{ℤ}
use okx_hft_executor.Decimal.{Decimal, Ratio}
use okx_hft_executor.Exchange.{OrderSide, Liquidity}
use okx_hft_executor.Strategy.{PositionSide}
use okx_hft_executor.Lifecycle.{Metrics}
use okx_hft_executor.Accounting.{FeeSource}
use okx_hft_executor.Sqlite.{Value, Payload}

pub record StrategyParams : Type 0 where
  pub take_profit_ticks : Option ℕ
  pub stop_loss_ticks : Option ℕ
  pub timeout_sec : Option ℕ

pub record RunStartParams : Type 0 where
  pub runtime_mode : String
  pub environment_name : String
  pub strategy_name : String
  pub inst_id : String
  pub app_version : String
  pub extra_json : Payload

pub record RunFinishParams : Type 0 where
  pub run_id : ℕ
  pub status : String
  pub stop_reason : Option String

pub record SignalEvent : Type 0 where
  pub run_id : ℕ
  pub signal_id : String
  pub strategy_name : String
  pub inst_id : String
  pub side : PositionSide
  pub ts_decision : ℕ
  pub params : StrategyParams

pub record AttemptEvent : Type 0 where
  pub run_id : ℕ
  pub signal_id : Option String
  pub inst_id : String
  pub strategy_name : String
  pub action_type : String
  pub side : Option OrderSide
  pub status : String
  pub error_message : Option Value
  pub request_payload : Payload
  pub response_payload : Payload

pub record OrderInsert : Type 0 where
  pub run_id : ℕ
  pub order_id_local : String
  pub strategy_name : String
  pub inst_id : String
  pub side : OrderSide
  pub ord_type : String
  pub price : Option Decimal
  pub size : Decimal
  pub status : String
  pub exchange_order_id : Option String
  pub signal_id : Option String
  pub position_id : Option String
  pub parent_order_id_local : Option String
  pub position_action : String
  pub reduce_only : Bool
  pub td_mode : String
  pub ts_created : ℕ

pub record OrderUpdate : Type 0 where
  pub order_id_local : String
  pub status : String
  pub exchange_order_id : Option String
  pub price : Option Decimal
  pub filled_size : Option Decimal
  pub filled_at : Option ℕ

pub record OrderFill : Type 0 where
  pub run_id : ℕ
  pub fill_id_exchange : String
  pub order_id_local : String
  pub order_id_exchange : Option String
  pub inst_id : String
  pub strategy_name : String
  pub side : OrderSide
  pub fill_price : Decimal
  pub fill_size : Decimal
  pub ts_fill : ℕ

pub record PositionOpen : Type 0 where
  pub run_id : ℕ
  pub position_id : String
  pub strategy_name : String
  pub inst_id : String
  pub side : PositionSide
  pub entry_price : Decimal
  pub entry_ts : ℕ
  pub size : Decimal
  pub params : StrategyParams
  pub entry_signal_id : Option String
  pub entry_order_id_local : Option String

pub record PositionClose : Type 0 where
  pub position_id : String
  pub exit_price : Decimal
  pub exit_ts : ℕ
  pub exit_reason : String
  pub status : String

pub record TradeEvent : Type 0 where
  pub run_id : ℕ
  pub trade_id : String
  pub position_id : String
  pub inst_id : String
  pub strategy_name : String
  pub side : PositionSide
  pub entry_price : Ratio
  pub exit_price : Ratio
  pub qty : Decimal
  pub gross_pnl : ℤ
  pub fees : ℤ
  pub net_pnl : ℤ
  pub holding_seconds : ℤ
  pub entry_ts : ℕ
  pub exit_ts : ℕ
  pub exit_reason : Option String
  pub entry_signal_id : Option String
  pub entry_order_id_local : Option String
  pub exit_order_id_local : Option String
  pub entry_fee : ℤ
  pub exit_fee : ℤ
  pub fee_ccy : Option String
  pub entry_liquidity : Option Liquidity
  pub exit_liquidity : Option Liquidity
  pub fee_source : FeeSource
  pub is_pending : Bool
  pub close_source : String
  pub execution_metrics : Metrics

pub record ServiceEvent : Type 0 where
  pub run_id : ℕ
  pub strategy_name : String
  pub event_type : String
  pub message : String
  pub level : String
  pub inst_id : Option String
  pub payload : Payload

pub record Reconciliation : Type 0 where
  pub run_id : ℕ
  pub inst_id : String
  pub strategy_name : Option String
  pub severity : String
  pub mismatch_type : String
  pub message : String
  pub local_entity_id : Option Value
  pub payload : Payload

-- An operation of the queue: its name and its payload
pub data Op : Type 0 where
  start_run : RunStartParams → Op
  finish_run : RunFinishParams → Op
  signal : SignalEvent → Op
  attempt : AttemptEvent → Op
  order_insert : OrderInsert → Op
  order_update : OrderUpdate → Op
  order_fill : OrderFill → Op
  position_open : PositionOpen → Op
  position_close : PositionClose → Op
  trade_result : TradeEvent → Op
  service_event : ServiceEvent → Op
  reconciliation : Reconciliation → Op

-- An item of the queue
pub data Item : Type 0 where
  write : Op → Item
  stop_sentinel : Item
