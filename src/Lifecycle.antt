-- ===== src/Lifecycle.antt =====
-- execution/trade_lifecycle.py: the tracker of one trade, from its signal to its close. Prices that
-- the program converts to floats stay decimals here, and a span in seconds is in microseconds.
pub mod Counts
use okx_hft_executor.Prelude.{
  ℕ, ◌+◌, String, Bool, true, false, Option, none, some, if◌then◌else◌, str_eq, is_some,
}
use okx_hft_executor.Prelude.Int.{ℤ, ◌-ℤ◌, is_zero_ℤ}
use okx_hft_executor.Decimal.{Decimal, TickSize, Ratio}
use okx_hft_executor.Strategy.{PositionSide, long, short, elapsed}
use okx_hft_executor.Position.{Purpose, entry, exit, is_long}

pub record Tracker : Type 0 where
  pub signal_id : Option String
  pub entry_signal_id : Option String
  pub position_id : Option String
  pub entry_exchange_ord_id : Option String
  pub entry_cl_ord_id : Option String
  pub exit_exchange_ord_id : Option String
  pub exit_cl_ord_id : Option String
  pub entry_order_type : String
  pub exit_order_type : String
  pub tick_size : Option TickSize
  pub entry_order_count : ℕ
  pub entry_reprice_count : ℕ
  pub entry_cancel_count : ℕ
  pub entry_started_at : Option ℕ
  pub entry_filled_at : Option ℕ
  pub entry_first_px : Option Decimal
  pub entry_last_px : Option Decimal
  pub entry_touch_px_at_first_submit : Option Decimal
  pub entry_filled_px : Option Decimal
  pub exit_order_count : ℕ
  pub exit_reprice_count : ℕ
  pub exit_cancel_count : ℕ
  pub exit_started_at : Option ℕ
  pub exit_filled_at : Option ℕ
  pub exit_first_px : Option Decimal
  pub exit_last_px : Option Decimal
  pub exit_touch_px_at_first_submit : Option Decimal
  pub exit_filled_px : Option Decimal
  pub exit_maker_attempts : ℕ
  pub exit_market_fallback_used : Bool
  pub exit_market_fallback_reason : Option String
  pub exit_trigger_reason : Option String
  pub timeout_triggered : Bool
  pub close_source : Option String

-- `TradeLifecycleTracker()`
abbrev pub new_tracker : Tracker
new_tracker = record {
  signal_id = none;
  entry_signal_id = none;
  position_id = none;
  entry_exchange_ord_id = none;
  entry_cl_ord_id = none;
  exit_exchange_ord_id = none;
  exit_cl_ord_id = none;
  entry_order_type = "post_only";
  exit_order_type = "post_only";
  tick_size = none;
  entry_order_count = 0;
  entry_reprice_count = 0;
  entry_cancel_count = 0;
  entry_started_at = none;
  entry_filled_at = none;
  entry_first_px = none;
  entry_last_px = none;
  entry_touch_px_at_first_submit = none;
  entry_filled_px = none;
  exit_order_count = 0;
  exit_reprice_count = 0;
  exit_cancel_count = 0;
  exit_started_at = none;
  exit_filled_at = none;
  exit_first_px = none;
  exit_last_px = none;
  exit_touch_px_at_first_submit = none;
  exit_filled_px = none;
  exit_maker_attempts = 0;
  exit_market_fallback_used = false;
  exit_market_fallback_reason = none;
  exit_trigger_reason = none;
  timeout_triggered = false;
  close_source = none;
}

unfoldable pub begin : Tracker → String → Option TickSize → Tracker
begin t signal_id tick = record t {
  signal_id = some signal_id;
  entry_signal_id = some signal_id;
  tick_size = elim tick [ some size ↦ some size | none ↦ t.tick_size ];
}

unfoldable pub bind_position : Tracker → String → Tracker
bind_position t position_id = record t { position_id = some position_id }

unfoldable pub on_entry_submit : Tracker → Decimal → Option Decimal → ℕ → Tracker
on_entry_submit t px touch_px ts =
    let first = if is_some t.entry_started_at then false else true in
    record t {
      entry_order_count = t.entry_order_count + 1;
      entry_started_at = if first then some ts else t.entry_started_at;
      entry_first_px = if first then some px else t.entry_first_px;
      entry_touch_px_at_first_submit = if first then touch_px else t.entry_touch_px_at_first_submit;
      entry_last_px = some px;
    }

unfoldable pub on_reprice : Tracker → Purpose → Decimal → Tracker
on_reprice t entry new_px = record t {
  entry_reprice_count = t.entry_reprice_count + 1;
  entry_cancel_count = t.entry_cancel_count + 1;
  entry_order_count = t.entry_order_count + 1;
  entry_last_px = some new_px;
}
on_reprice t exit new_px = record t {
  exit_reprice_count = t.exit_reprice_count + 1;
  exit_cancel_count = t.exit_cancel_count + 1;
  exit_order_count = t.exit_order_count + 1;
  exit_last_px = some new_px;
}

unfoldable pub on_timeout_cancel : Tracker → Purpose → Tracker
on_timeout_cancel t entry = record t { entry_cancel_count = t.entry_cancel_count + 1 }
on_timeout_cancel t exit = record t { exit_cancel_count = t.exit_cancel_count + 1 }

unfoldable pub on_entry_fill : Tracker → Decimal → Option String → Option String → ℕ → Tracker
on_entry_fill t px exchange_ord_id cl_ord_id ts = record t {
  entry_filled_px = some px;
  entry_filled_at = some ts;
  entry_exchange_ord_id = exchange_ord_id;
  entry_cl_ord_id = cl_ord_id;
}

unfoldable pub on_exit_trigger : Tracker → String → Tracker
on_exit_trigger t reason = record t {
  exit_trigger_reason = some reason;
  timeout_triggered = str_eq reason "timeout";
}

unfoldable pub on_exit_submit : Tracker → Decimal → String → Bool → ℕ → Tracker
on_exit_submit t px order_type market_fallback ts =
    let first = if is_some t.exit_started_at then false else true in
    record t {
      exit_order_type = order_type;
      exit_order_count = t.exit_order_count + 1;
      exit_started_at = if first then some ts else t.exit_started_at;
      exit_first_px = if first then some px else t.exit_first_px;
      exit_touch_px_at_first_submit = if first then some px else t.exit_touch_px_at_first_submit;
      exit_last_px = some px;
      exit_market_fallback_used = if market_fallback then true else t.exit_market_fallback_used;
      exit_market_fallback_reason =
          if market_fallback then t.exit_trigger_reason else t.exit_market_fallback_reason;
    }

unfoldable pub on_exit_maker_attempt_failed : Tracker → Tracker
on_exit_maker_attempt_failed t = record t { exit_maker_attempts = t.exit_maker_attempts + 1 }

unfoldable pub on_exit_fill :
    Tracker → Decimal → Option String → Option String → String → ℕ → String → Tracker
on_exit_fill t px exchange_ord_id cl_ord_id order_type ts close_source = record t {
  exit_filled_px = some px;
  exit_filled_at = some ts;
  exit_exchange_ord_id = exchange_ord_id;
  exit_cl_ord_id = cl_ord_id;
  exit_order_type = order_type;
  close_source = some close_source;
}

abbrev span : Option ℕ → Option ℕ → Option ℤ
span (some start) (some end) = some (elapsed end start)
span _ _ = none

unfoldable pub entry_wait_sec : Tracker → Option ℤ
entry_wait_sec t = span t.entry_started_at t.entry_filled_at

unfoldable pub exit_wait_sec : Tracker → Option ℤ
exit_wait_sec t = span t.exit_started_at t.exit_filled_at

-- which of the two prices is subtracted from the other
abbrev slip : Purpose → PositionSide → Decimal → Decimal → Decimal
slip entry side filled touch = if is_long side then filled -ℤ touch else touch -ℤ filled
slip exit side filled touch = if is_long side then touch -ℤ filled else filled -ℤ touch

unfoldable pub slippage_ticks :
    Option Decimal → Option Decimal → Option TickSize → Purpose → PositionSide → Option Ratio
slippage_ticks (some filled) (some touch) (some tick) leg side =
    if is_zero_ℤ tick.amount
    then none
    else some (record { num = slip leg side filled touch; den = tick.amount })
slippage_ticks _ _ _ leg side = none

-- `x or default` on an optional text
abbrev pub text_or : Option String → String → String
text_or none default = default
text_or (some text) default = if str_eq text "" then default else text

-- `to_metrics_dict`
pub record Metrics : Type 0 where
  pub tracker : Tracker  -- the keys that repeat a field of the tracker
  pub entry_wait : Option ℤ
  pub entry_slippage_ticks_from_touch : Option Ratio
  pub exit_wait : Option ℤ
  pub exit_slippage_ticks_from_touch : Option Ratio
  pub final_exit_reason : String

unfoldable pub to_metrics_dict : Tracker → PositionSide → Metrics
unfolding entry_wait_sec exit_wait_sec slippage_ticks
to_metrics_dict t side = record {
  tracker = t;
  entry_wait = entry_wait_sec t;
  entry_slippage_ticks_from_touch =
      slippage_ticks t.entry_filled_px t.entry_touch_px_at_first_submit t.tick_size entry side;
  exit_wait = exit_wait_sec t;
  exit_slippage_ticks_from_touch =
      slippage_ticks t.exit_filled_px t.exit_touch_px_at_first_submit t.tick_size exit side;
  final_exit_reason = text_or t.exit_trigger_reason "unknown";
}
