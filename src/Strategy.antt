-- ===== src/Strategy.antt =====
-- strategy/random_baseline: the configuration, the state between two decisions, and when the
-- strategy may decide. Times are microseconds; a span in the configuration is in whole seconds.
pub mod Timing
use okx_hft_executor.Prelude.{
  ℕ, ◌+◌, ◌*◌, String, Bool, true, false, not, ◌&&◌, ◌||◌, Option, none, some, if◌then◌else◌, ltb,
}
use okx_hft_executor.Prelude.Int.{ℤ, pos, sub_ℕ, leb_ℤ}

-- `RandomBaselineConfig`. `shutdown_drain_sec` is in milliseconds.
pub record StrategyConfig : Type 0 where
  pub decision_step_sec : ℕ
  pub cooldown_sec : ℕ
  pub take_profit_ticks : ℕ
  pub stop_loss_ticks : ℕ
  pub timeout_sec : ℕ
  pub exit_market_fallback_enabled : Bool
  pub exit_maker_max_attempts : ℕ
  pub exit_market_grace_sec : ℕ
  pub exit_maker_reprice_sec : ℕ
  pub exit_maker_max_wait_sec : ℕ
  pub exit_stale_reprice_ticks : ℕ
  pub entry_stale_reprice_ticks : ℕ
  pub shutdown_drain_ms : ℕ

-- `RandomBaselineConfig()`
abbrev pub default_config : StrategyConfig
default_config = record {
  decision_step_sec = 30;
  cooldown_sec = 20;
  take_profit_ticks = 700;
  stop_loss_ticks = 350;
  timeout_sec = 300;
  exit_market_fallback_enabled = true;
  exit_maker_max_attempts = 5;
  exit_market_grace_sec = 30;
  exit_maker_reprice_sec = 1;
  exit_maker_max_wait_sec = 8;
  exit_stale_reprice_ticks = 3;
  entry_stale_reprice_ticks = 3;
  shutdown_drain_ms = 25000;
}

-- `timedelta(seconds=n)`
abbrev pub seconds : ℕ → ℕ
seconds n = n * 1000000

-- `(now - then).total_seconds()`, in microseconds
abbrev pub elapsed : ℕ → ℕ → ℤ
elapsed now since = sub_ℕ now since

pub record StrategyState : Type 0 where
  pub last_decision_ts : Option ℕ
  pub cooldown_until : Option ℕ

abbrev pub initial_state : StrategyState
initial_state = record { last_decision_ts = none; cooldown_until = none }

-- `Literal["long", "short"]`
pub data PositionSide : Type 0 where
  long short : PositionSide

pub record BaselineSignal : Type 0 where
  pub signal_id : String
  pub strategy_name : String
  pub side : PositionSide
  pub created_at : ℕ
  pub take_profit_ticks : ℕ
  pub stop_loss_ticks : ℕ
  pub timeout_sec : ℕ

-- `cooldown_until is not None and now < cooldown_until`
abbrev is_cooling : Option ℕ → ℕ → Bool
is_cooling none now = false
is_cooling (some until) now = ltb now until

-- the last two returns of `should_decide`
abbrev step_over : Option ℕ → ℕ → ℕ → Bool
step_over none step now = true
step_over (some last) step now = leb_ℤ (pos (seconds step)) (elapsed now last)

unfoldable pub should_decide : StrategyConfig → StrategyState → ℕ → Bool → Bool → Bool → Bool → Bool
should_decide config state now has_open_position has_active_order executor_healthy
      market_data_fresh =
    if not executor_healthy || not market_data_fresh
    then false
    else if has_open_position || has_active_order
    then false
    else if is_cooling state.cooldown_until now
    then false
    else step_over state.last_decision_ts config.decision_step_sec now

-- `make_decision`: the drawn side and the new id are arguments
unfoldable pub make_decision :
    StrategyConfig
    → StrategyState
    → String
    → PositionSide
    → String
    → ℕ
    → BaselineSignal × StrategyState
make_decision config state strategy_name side signal_id now = (
  record {
    signal_id = signal_id;
    strategy_name = strategy_name;
    side = side;
    created_at = now;
    take_profit_ticks = config.take_profit_ticks;
    stop_loss_ticks = config.stop_loss_ticks;
    timeout_sec = config.timeout_sec;
  },
  record state { last_decision_ts = some now },
)

unfoldable pub on_position_closed : StrategyConfig → StrategyState → ℕ → StrategyState
on_position_closed config state now = record state {
  cooldown_until = some (now + seconds config.cooldown_sec);
}
