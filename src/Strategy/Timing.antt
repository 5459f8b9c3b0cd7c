-- ===== src/Strategy/Timing.antt =====
-- When the strategy decides: the guards, the step between two decisions, and the cooldown.
use okx_hft_executor.Prelude.{
  ℕ, ◌+◌, ◌<◌, ◌≤◌, ◌≡◌, ◌↔◌, Bool, true, false, String, Option, none, some, arith,
}
use okx_hft_executor.Strategy.{
  StrategyConfig, StrategyState, PositionSide, seconds, should_decide, make_decision,
  on_position_closed,
}

-- What has to hold of a time for it to be `step` seconds past an optional earlier one.
abbrev pub IsPast : Option ℕ → ℕ → ℕ → Type 0
IsPast none step now = Unit
IsPast (some t) step now = t + seconds step ≤ now

-- The strategy decides exactly when it is healthy, the market data is fresh, nothing is open,
-- the cooldown is over, and a whole decision step has passed since the last decision.
pub should_decide_iff :
    (c : StrategyConfig) (s : StrategyState) (now : ℕ) (has_pos has_order healthy fresh : Bool)
    → (should_decide c s now has_pos has_order healthy fresh ≡ true) ↔ (
        (healthy ≡ true)
        × (fresh ≡ true)
        × (has_pos ≡ false)
        × (has_order ≡ false)
        × IsPast s.cooldown_until 0 now
        × IsPast s.last_decision_ts c.decision_step_sec now)
unfolding should_decide
should_decide_iff c s now has_pos has_order healthy fresh = ground arith

-- For a whole decision step after a decision nothing is decided, whatever the flags are.
pub should_decide-make_decision :
    (c : StrategyConfig) (s : StrategyState) (name : String) (side : PositionSide) (id : String)
    (then now : ℕ) (has_pos has_order healthy fresh : Bool)
    → now < then + seconds c.decision_step_sec
    → should_decide c (make_decision c s name side id then).1 now has_pos has_order healthy fresh
      ≡ false
unfolding should_decide make_decision
should_decide-make_decision c s name side id then now p o h f lt = ground arith

-- After a position is closed nothing is decided during the cooldown, and closing does not touch
-- the time of the last decision.
pub should_decide-on_position_closed :
    (c : StrategyConfig) (s : StrategyState) (then now : ℕ) (has_pos has_order healthy fresh : Bool)
    → now < then + seconds c.cooldown_sec
    → (should_decide c (on_position_closed c s then) now has_pos has_order healthy fresh ≡ false)
      × ((on_position_closed c s then).last_decision_ts ≡ s.last_decision_ts)
unfolding should_decide on_position_closed
should_decide-on_position_closed c s then now p o h f lt = ground arith
