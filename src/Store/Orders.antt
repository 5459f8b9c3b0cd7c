-- ===== src/Store/Orders.antt =====
-- persistence/executor_store.py: `save_order`, which tells a first submission from an update.
use okx_hft_executor.Prelude.{
  ℕ, String, ◌<>◌, Bool, ◌&&◌, ◌||◌, not, Option, none, some, List, [], ◌∷◌, ◌++◌, str_eq,
  starts_with, if◌then◌else◌, get_or, option_map,
}
use okx_hft_executor.Prelude.Int.{pos}
use okx_hft_executor.Decimal.{Decimal}
use okx_hft_executor.Orchestrator.World.{OrderRow}
use okx_hft_executor.Sqlite
use okx_hft_executor.Sqlite.{Sqlite, Value, null, text, number, flag, Payload, new_sqlite}
use okx_hft_executor.Journal.Events.{Op, attempt, order_insert, order_update, order_fill}
use okx_hft_executor.Store.State.{
  PositionMeta, ExecutorStore, recording, hand_over, or_text, has_text,
}

-- `inferred_action == "close"`; the loop leaves the action to be inferred.
abbrev pub is_closing : OrderRow → Bool
is_closing row = row.reduce_only || starts_with row.local_order_id "exit"

abbrev order_signal : OrderRow → Option String
order_signal row = or_text row.signal_id (if is_closing row then none else some row.local_order_id)

abbrev price_value : Option Decimal → Value
price_value none = null
price_value (some px) = number px

-- A first submission: the row of the order, and the attempt.
unfoldable pub submission : ℕ → OrderRow → ℕ → ExecutorStore → List Op
submission run row created_at s =
    order_insert (record {
      run_id = run;
      order_id_local = row.local_order_id;
      strategy_name = s.strategy_name;
      inst_id = s.inst_id;
      side = row.side;
      ord_type = row.order_type;
      price = row.price;
      size = row.size;
      status = row.status;
      exchange_order_id = some row.exchange_order_id;
      signal_id = order_signal row;
      position_id = row.position_id;
      parent_order_id_local = row.parent_order_id_local;
      position_action = if is_closing row then "close" else "open";
      reduce_only = row.reduce_only;
      td_mode = s.td_mode;
      ts_created = created_at;
    })
    ∷ attempt (record {
      run_id = run;
      signal_id = order_signal row;
      inst_id = s.inst_id;
      strategy_name = s.strategy_name;
      action_type = "submit_order";
      side = some row.side;
      status = "ok";
      error_message = none;
      request_payload =
          ("cl_ord_id", text row.local_order_id)
          ∷ ("ord_type", text row.order_type)
          ∷ ("px", price_value row.price)
          ∷ ("sz", number row.size)
          ∷ ("reduce_only", flag row.reduce_only)
          ∷ [];
      response_payload = ("ord_id", text row.exchange_order_id) ∷ [];
    })
    ∷ []

-- The state after a first submission
unfoldable pub remember : OrderRow → ExecutorStore → ExecutorStore
remember row s =
    let s' = record s { submitted_orders = row.local_order_id ∷ s.submitted_orders } in
    if not (is_closing row)
    then record s' { last_entry_order = some row.local_order_id }
    else record s' {
      last_exit_order = some row.local_order_id;
      position_meta = λ id. elim row.position_id [
        | none ↦ s.position_meta id
        | some p ↦
            if str_eq id p && not (str_eq p "")
            then option_map {A = PositionMeta}
                (λ meta. record meta { exit_order_id_local = some row.local_order_id })
                (s.position_meta id)
            else s.position_meta id
      ];
    }

abbrev fill_of : ℕ → OrderRow → ExecutorStore → ℕ → Op
fill_of run row s filled_at = order_fill (record {
  run_id = run;
  fill_id_exchange =
      (if str_eq row.exchange_order_id "" then row.local_order_id else row.exchange_order_id)
      <> "-fill";
  order_id_local = row.local_order_id;
  order_id_exchange = some row.exchange_order_id;
  inst_id = s.inst_id;
  strategy_name = s.strategy_name;
  side = row.side;
  fill_price = get_or row.price (pos 0);
  fill_size = row.size;
  ts_fill = filled_at;
})

abbrev final_attempt : ℕ → OrderRow → ExecutorStore → Op
final_attempt run row s = attempt (record {
  run_id = run;
  signal_id = none;
  inst_id = s.inst_id;
  strategy_name = s.strategy_name;
  action_type = "order_final";
  side = some row.side;
  status = row.status;
  error_message = none;
  request_payload = [];
  response_payload = ("ord_id", text row.exchange_order_id) ∷ ("state", text row.status) ∷ [];
})

-- Any other save of an order: an update, a fill, and the attempt that ends it.
unfoldable pub change : ℕ → OrderRow → ExecutorStore → List Op
change run row s =
    order_update (record {
      order_id_local = row.local_order_id;
      status = row.status;
      exchange_order_id = some row.exchange_order_id;
      price = row.price;
      filled_size = if str_eq row.status "filled" then some row.size else none;
      filled_at = row.filled_at;
    })
    ∷ ((if str_eq row.status "filled"
          then elim row.filled_at [ none ↦ [] | some at ↦ fill_of run row s at ∷ [] ]
          else [])
        ++ (if str_eq row.status "canceled" || str_eq row.status "rejected"
            then final_attempt run row s ∷ []
            else []))

abbrev pub is_first : OrderRow → ExecutorStore → Bool
is_first row s =
    str_eq row.status "submitted" && not (has_text row.local_order_id s.submitted_orders)

unfoldable pub journal_order : ℕ → OrderRow → ℕ → ExecutorStore → ExecutorStore
unfolding submission remember change
journal_order run row created_at s =
    if is_first row s
    then remember row (hand_over (submission run row created_at s) s)
    else hand_over (change run row s) s

unfoldable pub save_order : OrderRow → ℕ → ExecutorStore → ExecutorStore
unfolding Sqlite.save_order journal_order
save_order row created_at s =
    let s' = record s {
      sqlite =
          Sqlite.save_order
            (record {
              local_order_id = row.local_order_id;
              strategy_name = s.strategy_name;
              exchange_order_id = some row.exchange_order_id;
              side = row.side;
              order_type = row.order_type;
              price = row.price;
              size = row.size;
              status = row.status;
              created_at = created_at;
              filled_at = row.filled_at;
            })
            s.sqlite;
    } in
    elim (recording s) [ none ↦ s' | some run ↦ journal_order run row created_at s' ]
