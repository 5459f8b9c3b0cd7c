-- ===== src/Manager/Restart.antt =====
-- The command to restart a strategy, on every outcome.
use text.Mathlib.TextPositions.{eq_refl}
use okx_hft_executor.Prelude.{ℕ, String, true, none, some, ◌≡◌, arith, option_map, inl, inr}
use okx_hft_executor.Exchange.Errors.{Result, ok, raise, Result-cases}
use okx_hft_executor.Manager.{
  Strategies, prepare, Manager, Row, Command, TaskEnd, restart, enabled, disabled, running, stopped,
  new_runtime, set_strategy_desired_state, set_strategy_runtime_state, start_strategy, started,
  disable_strategy, run_command,
}
use okx_hft_executor.Manager.Agreement.{disable_strategy-here}

-- What a restart is to lead to, by whether the deployment is known and its context can be built: a
-- new task and a row that says so, or the error, no task and a row that is disabled and stopped.
abbrev pub Restarted : Result String → String → Manager → Result (Unit {0}) × Manager → Type 0
Restarted (ok inst_id) name m (r, m') =
    (r ≡ ok tt)
    × (m'.runtimes name ≡ some (new_runtime inst_id))
    × (m'.registry name
        ≡ option_map {A = Row} (λ row. record row { desired = enabled; runtime = running })
            (m.registry name))
Restarted (raise e) name m (r, m') =
    (r ≡ raise e)
    × (m'.runtimes name ≡ none)
    × (m'.registry name
        ≡ option_map {A = Row} (λ row. record row { desired = disabled; runtime = stopped })
            (m.registry name))

started-here :
    (name inst_id : String) (m : Manager)
    → ((started name inst_id m).runtimes name ≡ some (new_runtime inst_id))
      × ((started name inst_id m).registry name
          ≡ option_map {A = Row}
              (λ row. record row { desired = enabled; runtime = running })
              (m.registry name))
unfolding set_strategy_runtime_state set_strategy_desired_state
started-here name inst_id m = ground (arith, eq_refl name)

-- A command to restart a strategy, whatever state it is in, ends its task. If the strategy is
-- deployed and its context can be built, it then has a new task whose control lets it enter, and
-- its row, if it has one, says "enabled" and "running"; if not, the command raises that error and
-- leaves the strategy without a task and its row, if it has one, as "disabled" and "stopped".
pub run_command-restarts :
    (ds : Strategies) (ends : ℕ → TaskEnd) (c : Command) (m : Manager)
    → c.command_type ≡ restart
    → Restarted (prepare ds c.strategy_name) c.strategy_name m (run_command ds ends c m)
unfolding run_command start_strategy
run_command-restarts ds ends c m e =
    let name = c.strategy_name in
    let stop_it = disable_strategy (ends c.id) true name m in
    let gone = disable_strategy-here (ends c.id) true name m (eq_refl name) in
    elim (Result-cases (prepare ds name)) [
      | inl (inst_id, found) ↦
          rw (e, found) (ground (arith, gone, found, started-here name inst_id stop_it))
      | inr (exc, missing) ↦ rw (e, missing) (ground (arith, gone, missing))
    ]
