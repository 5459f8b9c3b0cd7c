-- ===== src/Finalize.antt =====
-- execution/trade_finalize.py without its calls of the exchange and the store: how the result of a
-- closed trade is put together. Floats stay exact.
use okx_hft_executor.Prelude.{ℕ, String, Bool, Option, none, some, str_eq, if◌then◌else◌}
use okx_hft_executor.Prelude.Int.{ℤ}
use okx_hft_executor.Decimal.{Decimal, Ratio}
use okx_hft_executor.Exchange.{Liquidity}
use okx_hft_executor.Strategy.{PositionSide, elapsed}
use okx_hft_executor.Position.{ActivePosition}
use okx_hft_executor.Lifecycle.{Tracker, Metrics, to_metrics_dict}
use okx_hft_executor.Accounting.{FeeBreakdown, FeeSource, calc_gross_pnl, calc_net_pnl, price_ratio}

-- The mapping is applied first; every other text is passed on.
unfoldable pub normalize_exit_reason : Option String → String
normalize_exit_reason none = "unknown"
normalize_exit_reason (some raw) =
    if str_eq raw ""
    then "unknown"
    else if str_eq raw "sync_lost"
    then "reconcile"
    else if str_eq raw "reconciled"
    then "reconcile"
    else if str_eq raw "maker_exit"
    then "unknown"
    else raw

-- `TradeResult` of persistence/sqlite_store.py
pub record TradeResult : Type 0 where
  pub position_id : String
  pub strategy_name : String
  pub gross_pnl : ℤ  -- of the second degree; the fees and the net result are of the third
  pub fees : ℤ
  pub net_pnl : ℤ
  pub holding_seconds : ℤ
  pub entry_fee : ℤ
  pub exit_fee : ℤ
  pub fee_ccy : Option String
  pub entry_liquidity : Option Liquidity
  pub exit_liquidity : Option Liquidity
  pub entry_avg_px : Ratio
  pub exit_avg_px : Ratio
  pub fee_source : FeeSource
  pub is_pending : Bool
  pub exit_reason : String
  pub close_source : String
  pub signal_id : Option String
  pub inst_id : String
  pub position_side : PositionSide
  pub size : Decimal
  pub opened_at : ℕ
  pub closed_at : ℕ
  pub execution_metrics : Metrics

abbrev avg_or : Option Ratio → Decimal → Ratio
avg_or (some r) px = r
avg_or none px = price_ratio px

-- `metrics["close_source"] = close_source`
abbrev with_source : Metrics → String → Metrics
with_source m source = record m { tracker = record (m.tracker) { close_source = some source } }

unfoldable pub build_trade_result :
    ActivePosition → Tracker → Decimal → ℕ → String → FeeBreakdown → String → String → TradeResult
unfolding calc_gross_pnl calc_net_pnl to_metrics_dict
build_trade_result p lifecycle exit_price closed_at inst_id fees exit_reason close_source =
    let gross = calc_gross_pnl p.side p.entry_price exit_price p.size in
    record {
      position_id = p.position_id;
      strategy_name = p.strategy_name;
      gross_pnl = gross;
      fees = fees.total_fee;
      net_pnl = calc_net_pnl gross fees.total_fee;
      holding_seconds = elapsed closed_at p.entry_ts;
      entry_fee = fees.entry_fee;
      exit_fee = fees.exit_fee;
      fee_ccy = fees.fee_ccy;
      entry_liquidity = fees.entry_liquidity;
      exit_liquidity = fees.exit_liquidity;
      entry_avg_px = avg_or fees.entry_avg_px p.entry_price;
      exit_avg_px = avg_or fees.exit_avg_px exit_price;
      fee_source = fees.fee_source;
      is_pending = fees.is_pending;
      exit_reason = exit_reason;
      close_source = close_source;
      signal_id = lifecycle.entry_signal_id;
      inst_id = inst_id;
      position_side = p.side;
      size = p.size;
      opened_at = p.entry_ts;
      closed_at = closed_at;
      execution_metrics = with_source (to_metrics_dict lifecycle p.side) close_source;
    }
