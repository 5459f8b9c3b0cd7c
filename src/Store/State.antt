-- ===== src/Store/State.antt =====
-- persistence/executor_store.py: the state of the store of one strategy, its signals and its
-- attempts to cancel. The dictionary of positions is a function. The operations that were handed to
-- the journal stand in `enqueued`, the oldest first.
use okx_hft_executor.Prelude.{
  ℕ, String, Bool, true, false, ◌||◌, Option, none, some, List, [], ◌∷◌, ◌++◌, str_eq,
  if◌then◌else◌,
}
use okx_hft_executor.Decimal.{Decimal}
use okx_hft_executor.Strategy.{PositionSide}
use okx_hft_executor.Position.{Purpose, entry, exit}
use okx_hft_executor.Sqlite
use okx_hft_executor.Sqlite.{Sqlite, Value, null, text, number, flag, Payload, new_sqlite}
use okx_hft_executor.Journal.Events.{Op, signal, attempt, StrategyParams}

pub record PositionMeta : Type 0 where
  pub side : PositionSide
  pub entry_price : Decimal
  pub entry_ts : ℕ
  pub size : Decimal
  pub entry_signal_id : Option String
  pub entry_order_id_local : Option String
  pub exit_order_id_local : Option String
  pub exit_price : Option Decimal
  pub exit_ts : Option ℕ
  pub exit_reason : Option String

pub record ExecutorStore : Type 0 where
  pub strategy_name : String
  pub inst_id : String
  pub td_mode : String
  pub sqlite : Sqlite
  pub has_journal : Bool
  pub run_id : Option ℕ
  pub strategy_params : StrategyParams
  pub position_meta : String → Option PositionMeta
  pub submitted_orders : List String
  pub last_entry_order : Option String
  pub last_exit_order : Option String
  pub enqueued : List Op

-- The run that the journal records, if there is a journal and its run has started.
abbrev pub recording : ExecutorStore → Option ℕ
recording s = if s.has_journal then s.run_id else none

abbrev pub hand_over : List Op → ExecutorStore → ExecutorStore
hand_over ops s = record s { enqueued = s.enqueued ++ ops }

-- `a or b` on optional texts: an empty text counts as absent.
abbrev pub or_text : Option String → Option String → Option String
or_text none b = b
or_text (some a) b = if str_eq a "" then b else some a

abbrev pub has_text : String → List String → Bool
has_text k [] = false
has_text k (t ∷ ts) = str_eq t k || has_text k ts

abbrev pub set_meta : String → PositionMeta → ExecutorStore → ExecutorStore
set_meta id meta s = record s {
  position_meta = λ k. if str_eq k id then some meta else s.position_meta k;
}

unfoldable pub save_signal : String → PositionSide → ℕ → ExecutorStore → ExecutorStore
unfolding Sqlite.save_signal
save_signal signal_id side created_at s =
    let s' = record s {
      sqlite =
          Sqlite.save_signal
            (record {
              signal_id = signal_id;
              strategy_name = s.strategy_name;
              side = side;
              created_at = created_at;
            })
            s.sqlite;
    } in
    elim (recording s) [
      | none ↦ s'
      | some run ↦
          hand_over
            (signal (record {
              run_id = run;
              signal_id = signal_id;
              strategy_name = s.strategy_name;
              inst_id = s.inst_id;
              side = side;
              ts_decision = created_at;
              params = s.strategy_params;
            })
              ∷ [])
            s'
    ]

abbrev purpose_text : Purpose → String
purpose_text entry = "entry"
purpose_text exit = "exit"

abbrev is_entry : Purpose → Bool
is_entry entry = true
is_entry exit = false

unfoldable pub record_cancel_attempt : String → String → Purpose → ExecutorStore → ExecutorStore
record_cancel_attempt order_id_local exchange_order_id purpose s = elim (recording s) [
  | none ↦ s
  | some run ↦
      hand_over
        (attempt (record {
          run_id = run;
          signal_id = if is_entry purpose then some order_id_local else none;
          inst_id = s.inst_id;
          strategy_name = s.strategy_name;
          action_type = "cancel_order";
          side = none;
          status = "ok";
          error_message = none;
          request_payload =
              ("cl_ord_id", text order_id_local)
              ∷ ("ord_id", text exchange_order_id)
              ∷ ("purpose", text (purpose_text purpose))
              ∷ [];
          response_payload = [];
        })
          ∷ [])
        s
]
