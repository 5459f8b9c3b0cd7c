-- ===== src/Sqlite.antt =====
-- persistence/sqlite_store.py: the tables in which the executor keeps its signals, orders,
-- positions, results of trades and service events. A method is one statement with its commit, so
-- it is a function on the tables. Floats are exact and times are numbers; the tables of the
-- strategies and of their commands are those of Manager.antt.
pub mod Positions
use okx_hft_executor.Prelude.{
  ℕ, suc, String, Bool, true, false, ◌&&◌, Option, none, some, List, [], ◌∷◌, ◌++◌, str_eq, is_some,
  if◌then◌else◌, filter, not,
}
use okx_hft_executor.Prelude.Table.{put_row, update_row, order_by}
use okx_hft_executor.Decimal.{Decimal}
use okx_hft_executor.Exchange.{OrderSide}
use okx_hft_executor.Strategy.{PositionSide}
use okx_hft_executor.Finalize.{TradeResult}

-- A value in the payload of an event
pub data Value : Type 0 where
  null : Value
  text : String → Value
  number : Decimal → Value
  flag : Bool → Value

abbrev pub Payload : Type 0
Payload = List (String × Value)

pub record SignalRow : Type 0 where
  pub signal_id : String
  pub strategy_name : String
  pub side : PositionSide
  pub created_at : ℕ

pub record SavedOrder : Type 0 where
  pub local_order_id : String
  pub strategy_name : String
  pub exchange_order_id : Option String
  pub side : OrderSide
  pub order_type : String
  pub price : Option Decimal
  pub size : Decimal
  pub status : String
  pub created_at : ℕ
  pub filled_at : Option ℕ

pub record PositionRow : Type 0 where
  pub position_id : String
  pub strategy_name : String
  pub side : PositionSide
  pub entry_price : Decimal
  pub exit_price : Option Decimal
  pub entry_ts : ℕ
  pub exit_ts : Option ℕ
  pub size : Decimal
  pub exit_reason : Option String

pub record EventRow : Type 0 where
  pub id : ℕ
  pub ts : ℕ
  pub level : String
  pub strategy_name : String
  pub event_type : String
  pub message : String
  pub payload : Payload

pub record Sqlite : Type 0 where
  pub signals : List SignalRow
  pub orders : List SavedOrder
  pub positions : List PositionRow
  pub trade_results : List TradeResult
  pub service_events : List EventRow
  pub last_event_id : ℕ  -- of the AUTOINCREMENT column

-- `_init_schema` on a new file
abbrev pub new_sqlite : Sqlite
new_sqlite = record {
  signals = [];
  orders = [];
  positions = [];
  trade_results = [];
  service_events = [];
  last_event_id = 0;
}

unfoldable pub save_signal : SignalRow → Sqlite → Sqlite
save_signal row db = record db { signals = put_row (λ r. r.signal_id) row db.signals }

unfoldable pub save_order : SavedOrder → Sqlite → Sqlite
save_order row db = record db { orders = put_row (λ r. r.local_order_id) row db.orders }

-- A row that is replaced loses the columns that the statement does not set.
unfoldable pub save_position_open :
    String → String → PositionSide → Decimal → ℕ → Decimal → Sqlite → Sqlite
save_position_open position_id strategy_name side entry_price entry_ts size db = record db {
  positions =
      put_row (λ r. r.position_id)
        (record {
          position_id = position_id;
          strategy_name = strategy_name;
          side = side;
          entry_price = entry_price;
          exit_price = none;
          entry_ts = entry_ts;
          exit_ts = none;
          size = size;
          exit_reason = none;
        })
        db.positions;
}

abbrev pub closed_row : Decimal → ℕ → String → PositionRow → PositionRow
closed_row exit_price exit_ts exit_reason row = record row {
  exit_price = some exit_price;
  exit_ts = some exit_ts;
  exit_reason = some exit_reason;
}

unfoldable pub save_position_close : String → Decimal → ℕ → String → Sqlite → Sqlite
save_position_close position_id exit_price exit_ts exit_reason db = record db {
  positions =
      update_row (λ r. r.position_id) position_id (closed_row exit_price exit_ts exit_reason)
        db.positions;
}

-- `exit_ts IS NULL`
abbrev pub is_open : PositionRow → Bool
is_open row = not (is_some row.exit_ts)

-- The row is closed at its own entry price, if it is open.
abbrev pub reconciled_row : ℕ → String → PositionRow → PositionRow
reconciled_row exit_ts exit_reason row =
    if is_open row then closed_row row.entry_price exit_ts exit_reason row else row

unfoldable pub close_open_position_reconciled : String → ℕ → String → Sqlite → Sqlite
close_open_position_reconciled position_id exit_ts exit_reason db = record db {
  positions =
      update_row (λ r. r.position_id) position_id (reconciled_row exit_ts exit_reason) db.positions;
}

-- `strategy_name = ?`, where a strategy is asked for
abbrev pub is_of : Option String → PositionRow → Bool
is_of none row = true
is_of (some name) row = str_eq row.strategy_name name

-- The text of a time in UTC sorts as the time. Rows of one time stay in the order of the table,
-- which SQLite leaves open.
unfoldable pub list_open_positions : Option String → Sqlite → List PositionRow
list_open_positions strategy_name db =
    order_by (λ r. r.entry_ts) (filter (λ r. is_open r && is_of strategy_name r) db.positions)

unfoldable pub save_trade_result : TradeResult → Sqlite → Sqlite
save_trade_result result db = record db {
  trade_results = put_row (λ r. r.position_id) result db.trade_results;
}

unfoldable pub save_service_event :
    ℕ → String → String → String → Payload → String → Sqlite → Sqlite
save_service_event now strategy_name event_type message payload level db = record db {
  last_event_id = suc db.last_event_id;
  service_events =
      db.service_events
      ++ (record {
        id = suc db.last_event_id;
        ts = now;
        level = level;
        strategy_name = strategy_name;
        event_type = event_type;
        message = message;
        payload = payload;
      })
        ∷ [];
}
