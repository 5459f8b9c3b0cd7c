-- ===== src/Store/Trades.antt =====
-- persistence/executor_store.py: positions and the results of trades.
use okx_hft_executor.Prelude.{
  ℕ, String, ◌<>◌, ◌||◌, Option, none, some, [], ◌∷◌, str_eq, if◌then◌else◌, get_or, option_map,
}
use okx_hft_executor.Prelude.Int.{pos, is_zero_ℤ}
use okx_hft_executor.Decimal.{Decimal, Ratio}
use okx_hft_executor.Accounting.{price_ratio}
use okx_hft_executor.Position.{ActivePosition}
use okx_hft_executor.Finalize.{TradeResult}
use okx_hft_executor.Sqlite
use okx_hft_executor.Sqlite.{Sqlite, Value, null, text, number, flag, Payload, new_sqlite}
use okx_hft_executor.Journal.Events.{Op, position_open, position_close, trade_result}
use okx_hft_executor.Store.State.{
  PositionMeta, ExecutorStore, recording, hand_over, or_text, set_meta,
}

unfoldable pub save_position_open :
    ActivePosition → Option String → Option String → ExecutorStore → ExecutorStore
unfolding Sqlite.save_position_open
save_position_open p entry_signal_id entry_order_id_local s =
    let entry_signal = or_text entry_signal_id s.last_entry_order in
    let entry_order = or_text entry_order_id_local entry_signal in
    let s' =
      set_meta p.position_id
        (record {
          side = p.side;
          entry_price = p.entry_price;
          entry_ts = p.entry_ts;
          size = p.size;
          entry_signal_id = entry_signal;
          entry_order_id_local = entry_order;
          exit_order_id_local = none;
          exit_price = none;
          exit_ts = none;
          exit_reason = none;
        })
        (record s {
          sqlite =
              Sqlite.save_position_open p.position_id p.strategy_name p.side p.entry_price
                p.entry_ts p.size s.sqlite;
        }) in
    elim (recording s) [
      | none ↦ s'
      | some run ↦
          hand_over
            (position_open (record {
              run_id = run;
              position_id = p.position_id;
              strategy_name = p.strategy_name;
              inst_id = s.inst_id;
              side = p.side;
              entry_price = p.entry_price;
              entry_ts = p.entry_ts;
              size = p.size;
              params = s.strategy_params;
              entry_signal_id = entry_signal;
              entry_order_id_local = entry_order;
            })
              ∷ [])
            s'
    ]

abbrev pub close_status : String → String
close_status exit_reason =
    if str_eq exit_reason "sync_lost"
      || str_eq exit_reason "reconciled"
      || str_eq exit_reason "reconcile"
    then "reconciled"
    else "closed"

-- The row that `meta` names is changed in place.
abbrev note_exit : String → Decimal → ℕ → String → ExecutorStore → ExecutorStore
note_exit position_id exit_price exit_ts exit_reason s = record s {
  position_meta = λ id.
      if str_eq id position_id
      then option_map {A = PositionMeta}
          (λ meta. record meta {
            exit_reason = some exit_reason;
            exit_price = some exit_price;
            exit_ts = some exit_ts;
          })
          (s.position_meta id)
      else s.position_meta id;
}

-- The source of the close is not used.
unfoldable pub save_position_close :
    String → Decimal → ℕ → String → String → ExecutorStore → ExecutorStore
unfolding Sqlite.save_position_close
save_position_close position_id exit_price exit_ts exit_reason close_source s =
    let s' = note_exit position_id exit_price exit_ts exit_reason (record s {
      sqlite = Sqlite.save_position_close position_id exit_price exit_ts exit_reason s.sqlite;
    }) in
    elim (recording s) [
      | none ↦ s'
      | some run ↦
          hand_over
            (position_close (record {
              position_id = position_id;
              exit_price = exit_price;
              exit_ts = exit_ts;
              exit_reason = exit_reason;
              status = close_status exit_reason;
            })
              ∷ [])
            s'
    ]

-- `meta.entry_price if meta else 0.0`
abbrev entry_price_or_zero : Option PositionMeta → Decimal
entry_price_or_zero none = pos 0
entry_price_or_zero (some meta) = meta.entry_price

unfoldable pub close_open_position_reconciled : String → ℕ → String → ExecutorStore → ExecutorStore
unfolding Sqlite.close_open_position_reconciled
close_open_position_reconciled position_id exit_ts exit_reason s =
    let s' = record s {
      sqlite = Sqlite.close_open_position_reconciled position_id exit_ts exit_reason s.sqlite;
    } in
    elim (recording s) [
      | none ↦ s'
      | some run ↦
          hand_over
            (position_close (record {
              position_id = position_id;
              exit_price = entry_price_or_zero (s.position_meta position_id);
              exit_ts = exit_ts;
              exit_reason = exit_reason;
              status = "reconciled";
            })
              ∷ [])
            s'
    ]

-- `avg or price`, where an average of zero counts as absent
abbrev ratio_or : Ratio → Ratio → Ratio
ratio_or r d = if is_zero_ℤ r.num then d else r

abbrev size_or : Decimal → Decimal → Decimal
size_or x d = if is_zero_ℤ x then d else x

-- A result has its times and the side of its position, so that those of `meta` are not needed.
unfoldable pub trade_event : ℕ → TradeResult → PositionMeta → ExecutorStore → Op
trade_event run result meta s = trade_result (record {
  run_id = run;
  trade_id = "trade-" <> result.position_id;
  position_id = result.position_id;
  inst_id = if str_eq result.inst_id "" then s.inst_id else result.inst_id;
  strategy_name = result.strategy_name;
  side = result.position_side;
  entry_price = ratio_or result.entry_avg_px (price_ratio meta.entry_price);
  exit_price = ratio_or result.exit_avg_px (price_ratio (get_or meta.exit_price meta.entry_price));
  qty = size_or result.size meta.size;
  gross_pnl = result.gross_pnl;
  fees = result.fees;
  net_pnl = result.net_pnl;
  holding_seconds = result.holding_seconds;
  entry_ts = result.opened_at;
  exit_ts = result.closed_at;
  exit_reason = or_text (some result.exit_reason) meta.exit_reason;
  entry_signal_id = or_text result.signal_id meta.entry_signal_id;
  entry_order_id_local = meta.entry_order_id_local;
  exit_order_id_local = meta.exit_order_id_local;
  entry_fee = result.entry_fee;
  exit_fee = result.exit_fee;
  fee_ccy = result.fee_ccy;
  entry_liquidity = result.entry_liquidity;
  exit_liquidity = result.exit_liquidity;
  fee_source = result.fee_source;
  is_pending = result.is_pending;
  close_source = result.close_source;
  execution_metrics = result.execution_metrics;
})

unfoldable pub save_trade_result : TradeResult → ExecutorStore → ExecutorStore
unfolding Sqlite.save_trade_result trade_event
save_trade_result result s =
    let s' = record s { sqlite = Sqlite.save_trade_result result s.sqlite } in
    elim (recording s) [
      | none ↦ s'
      | some run ↦ elim (s.position_meta result.position_id) [
        | none ↦ s'
        | some meta ↦ hand_over (trade_event run result meta s ∷ []) s'
      ]
    ]
