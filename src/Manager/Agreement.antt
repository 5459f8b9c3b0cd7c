-- ===== src/Manager/Agreement.antt =====
-- What the table of strategies says of the tasks.
use okx_hft_executor.Prelude.{
  ℕ, String, Bool, true, false, Option, none, some, List, [], ◌∷◌, map, filter, ◌≡◌, ◌≢◌, arith,
  str_eq, option_map, ◌⊎◌, inl, inr, Bool-cases,
}
use okx_hft_executor.Manager.{
  Strategies, prepare, Runtime, Row, running, stopped, disabled, Command, Manager, TaskEnd,
  set_strategy_desired_state, set_strategy_runtime_state, get_deployment, start_strategy,
  task_event, disable_strategy, sync_finished_tasks, run_command, finish_strategy_command,
  process_command, process_all, process_commands, enable, disable, restart, unsupported,
  CommandType, is_pending, claimed, Config, bootstrap_registry, Round, task_events, run_forever,
}
use mathlib.Core.Path.{subst⁻¹}
use text.Mathlib.TextEquality.{eq_iff}
use text.Mathlib.TextPositions.{eq_refl}

-- A strategy has a row that says "running" only while it has a task that has not ended, and a task
-- that has not ended has no other row.
abbrev pub AgreeAt : Option Runtime → Option Row → Type 0
AgreeAt r none = Unit
AgreeAt none (some row) = row.runtime ≢ running
AgreeAt (some r) (some row) =
    ((r.done ≡ false) × (row.runtime ≡ running)) ⊎ ((r.done ≡ true) × (row.runtime ≢ running))

abbrev pub Agrees : String → Manager → Type 0
Agrees n m = AgreeAt (m.runtimes n) (m.registry n)

-- Another name, or the same.
pub by_name : (n name : String) → (str_eq n name ≡ false) ⊎ ((str_eq n name ≡ true) × (n ≡ name))
by_name n name = elim (Bool-cases (str_eq n name)) [
  | inl same ↦ inr (same, (eq_iff n name).0 same)
  | inr other ↦ inl other
]

start_strategy-elsewhere :
    (ds : Strategies) (name n : String) (m : Manager)
    → str_eq n name ≡ false
    → ((start_strategy ds name m).1.runtimes n ≡ m.runtimes n)
      × ((start_strategy ds name m).1.registry n ≡ m.registry n)
unfolding start_strategy prepare get_deployment set_strategy_runtime_state
    set_strategy_desired_state
start_strategy-elsewhere ds name n m e = ground arith

start_strategy-here :
    (ds : Strategies) (name : String) (m : Manager)
    → str_eq name name ≡ true
    → Agrees name m
    → Agrees name (start_strategy ds name m).1
unfolding start_strategy prepare get_deployment set_strategy_runtime_state
    set_strategy_desired_state
start_strategy-here ds name m e h = ground arith

pub disable_strategy-elsewhere :
    (end : TaskEnd) (f : Bool) (name n : String) (m : Manager)
    → str_eq n name ≡ false
    → ((disable_strategy end f name m).runtimes n ≡ m.runtimes n)
      × ((disable_strategy end f name m).registry n ≡ m.registry n)
unfolding disable_strategy set_strategy_runtime_state set_strategy_desired_state
disable_strategy-elsewhere end f name n m e = ground arith

pub disable_strategy-here :
    (end : TaskEnd) (f : Bool) (name : String) (m : Manager)
    → str_eq name name ≡ true
    → ((disable_strategy end f name m).runtimes name ≡ none)
      × ((disable_strategy end f name m).registry name
          ≡ option_map {A = Row}
              (λ row. record row { desired = disabled; runtime = stopped })
              (m.registry name))
unfolding disable_strategy set_strategy_runtime_state set_strategy_desired_state
disable_strategy-here end f name m e = ground arith

pub task_event-elsewhere :
    (name n : String) (end : TaskEnd) (m : Manager)
    → str_eq n name ≡ false
    → ((task_event name end m).runtimes n ≡ m.runtimes n)
      × ((task_event name end m).registry n ≡ m.registry n)
unfolding task_event set_strategy_runtime_state
task_event-elsewhere name n end m e = ground arith

pub task_event-here :
    (name : String) (end : TaskEnd) (m : Manager)
    → str_eq name name ≡ true
    → Agrees name m
    → Agrees name (task_event name end m)
unfolding task_event set_strategy_runtime_state
task_event-here name end m e h = ground arith

sync_finished_tasks-Agrees :
    (n : String) (m : Manager) → Agrees n m → Agrees n (sync_finished_tasks m)
unfolding sync_finished_tasks
sync_finished_tasks-Agrees n m h = ground arith

-- Writing the configured strategies into the table keeps it agreeing with the tasks for every
-- strategy without a task, as all are at the start.
pub bootstrap_registry-Agrees :
    (cs : List Config) (n : String) (m : Manager)
    → m.runtimes n ≡ none
    → Agrees n m
    → Agrees n (bootstrap_registry cs m)
unfolding bootstrap_registry
bootstrap_registry-Agrees [] n m e h = h
bootstrap_registry-Agrees (c ∷ cs) n m e h = bootstrap_registry-Agrees cs n _ e (ground arith)

start_strategy-Agrees :
    (ds : Strategies) (name n : String) (m : Manager)
    → Agrees n m
    → Agrees n (start_strategy ds name m).1
start_strategy-Agrees ds name n m h = elim (by_name n name) [
  | inl other ↦ ground (arith, start_strategy-elsewhere ds name n m other)
  | inr (same, e) ↦
      subst⁻¹ (λ k. Agrees k m → Agrees k (start_strategy ds name m).1) e
        (start_strategy-here ds name m (eq_refl name)) h
]

pub disable_strategy-Agrees :
    (end : TaskEnd) (f : Bool) (name n : String) (m : Manager)
    → Agrees n m
    → Agrees n (disable_strategy end f name m)
disable_strategy-Agrees end f name n m h = elim (by_name n name) [
  | inl other ↦ ground (arith, disable_strategy-elsewhere end f name n m other)
  | inr (same, e) ↦
      subst⁻¹ (λ k. Agrees k (disable_strategy end f name m)) e
        (ground (arith, disable_strategy-here end f name m (eq_refl name)))
]

task_events-Agrees :
    (es : List (String × TaskEnd)) (n : String) (m : Manager)
    → Agrees n m
    → Agrees n (task_events es m)
unfolding task_events
task_events-Agrees [] n m h = h
task_events-Agrees ((name, end) ∷ es) n m h =
    task_events-Agrees es n (task_event name end m) (elim (by_name n name) [
      | inl other ↦ ground (arith, task_event-elsewhere name n end m other)
      | inr (same, e) ↦
          subst⁻¹ (λ k. Agrees k m → Agrees k (task_event name end m)) e
            (task_event-here name end m (eq_refl name)) h
    ])

module _ (ds : Strategies) (ends : ℕ → TaskEnd) where
  run_command-Agrees :
      (c : Command) (n : String) (m : Manager) → Agrees n m → Agrees n (run_command ds ends c m).1
  unfolding run_command
  run_command-Agrees c n m h = by_type c.command_type
    where
      by_type :
          (t : CommandType) → Agrees n (run_command ds ends (record c { command_type = t }) m).1
      by_type enable = start_strategy-Agrees ds c.strategy_name n m h
      by_type disable = disable_strategy-Agrees (ends c.id) _ c.strategy_name n m h
      by_type restart =
          start_strategy-Agrees ds c.strategy_name n
            (disable_strategy (ends c.id) true c.strategy_name m)
            (disable_strategy-Agrees (ends c.id) true c.strategy_name n m h)
      by_type (unsupported text) = h

  process_all-Agrees :
      (cs : List Command) (n : String) (m : Manager)
      → Agrees n m
      → Agrees n (process_all ds ends cs m)
  unfolding process_all process_command finish_strategy_command
  process_all-Agrees [] n m h = h
  process_all-Agrees (c ∷ cs) n m h =
      process_all-Agrees cs n (process_command ds ends c m) (run_command-Agrees c n m h)

  process_commands-Agrees :
      (n : String) (m : Manager) → Agrees n m → Agrees n (process_commands ds ends m)
  unfolding process_commands
  process_commands-Agrees n m h =
      process_all-Agrees (filter is_pending m.commands) n
        (record m { commands = map claimed m.commands }) h

-- Over any rounds of the manager, with any commands, tasks ending when and how they do, the table
-- keeps agreeing with the tasks: a strategy that has a row is "running" exactly while it has a task
-- that has not ended.
pub run_forever-Agrees :
    (ds : Strategies) (rs : List Round) (n : String) (m : Manager)
    → Agrees n m
    → Agrees n (run_forever ds rs m)
unfolding run_forever
run_forever-Agrees ds [] n m h = h
run_forever-Agrees ds (r ∷ rs) n m h = run_forever-Agrees ds rs n _ (
    process_commands-Agrees ds r.drained n (sync_finished_tasks (task_events r.ended m))
      (sync_finished_tasks-Agrees n (task_events r.ended m) (task_events-Agrees r.ended n m h)))

-- Disabling a strategy, by force or after a drain, leaves it without a task and its row, if it has
-- one, as "disabled" and "stopped", and leaves every other strategy as it was.
pub disable_strategy-stops :
    (end : TaskEnd) (f : Bool) (name other : String) (m : Manager)
    → str_eq other name ≡ false
    → let m' = disable_strategy end f name m in
      (m'.runtimes name ≡ none)
      × (m'.registry name
          ≡ option_map {A = Row}
              (λ row. record row { desired = disabled; runtime = stopped })
              (m.registry name))
      × (m'.runtimes other ≡ m.runtimes other)
      × (m'.registry other ≡ m.registry other)
disable_strategy-stops end f name other m e = ground (
  arith,
  disable_strategy-here end f name m (eq_refl name),
  disable_strategy-elsewhere end f name other m e,
)
