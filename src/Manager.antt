-- ===== src/Manager.antt =====
-- app/strategy_manager.py: the tasks of the strategies, and the commands that start and stop them,
-- with the tables of persistence/sqlite_store.py that they read and write. The dictionary of tasks
-- and the table of strategies are functions of the strategy's name. While the manager awaits a
-- task, other tasks may end; such an end is an event of its own (`task_event`).
pub mod Agreement
pub mod Closed
pub mod Shutdown
pub mod Restart
use okx_hft_executor.Prelude.{
  ℕ, String, ◌<>◌, Bool, true, false, Option, none, some, List, [], ◌∷◌, map, filter, if◌then◌else◌,
  str_eq, is_some, option_map, ◌==◌,
}
use okx_hft_executor.Bootstrap.{Settings, build_executor_context}
use okx_hft_executor.Exchange.Errors.{other_exception, Result, ok, raise, text_of}
use okx_hft_executor.Orchestrator.World.{StrategyLoopControl, new_control}

-- `StrategyRuntime`; `done` is `task.done()`
pub record Runtime : Type 0 where
  pub inst_id : String
  pub done : Bool
  pub control : StrategyLoopControl

pub data DesiredState : Type 0 where
  enabled disabled : DesiredState

pub data RuntimeState : Type 0 where
  running stopped crashed : RuntimeState

-- A row of `strategies_registry`
pub record Row : Type 0 where
  pub row_inst_id : String
  pub desired : DesiredState
  pub runtime : RuntimeState

pub data CommandType : Type 0 where
  enable disable restart : CommandType
  unsupported : String → CommandType

pub data CommandStatus : Type 0 where
  pending processing succeeded : CommandStatus
  failed : String → CommandStatus

pub record Command : Type 0 where
  pub id : ℕ
  pub strategy_name : String
  pub command_type : CommandType
  pub command_mode : Option String
  pub status : CommandStatus

pub record Manager : Type 0 where
  pub runtimes : String → Option Runtime
  pub registry : String → Option Row
  pub commands : List Command

-- How the loop of a task ends when nobody cancels it: it returns, or it raises.
pub data TaskEnd : Type 0 where
  returned raised : TaskEnd

abbrev pub update {ℓ} : {A : Type ℓ} → String → A → (String → A) → String → A
update name a f n = if str_eq n name then a else f n

-- `UPDATE strategies_registry SET ... WHERE strategy_name = ?`
unfoldable pub set_strategy_desired_state : String → DesiredState → Manager → Manager
set_strategy_desired_state name s m = record m {
  registry =
      update name (option_map {A = Row} (λ row. record row { desired = s }) (m.registry name))
        m.registry;
}

unfoldable pub set_strategy_runtime_state : String → RuntimeState → Manager → Manager
set_strategy_runtime_state name s m = record m {
  registry =
      update name (option_map {A = Row} (λ row. record row { runtime = s }) (m.registry name))
        m.registry;
}

-- What the strategies are built from: the configured deployments, with the instrument of each, and
-- the settings of the process.
pub record Strategies : Type 0 where
  pub deployments : String → Option String
  pub settings : Settings

-- `get_deployment`. The text of the error goes on with the known names in the source.
unfoldable pub get_deployment : (String → Option String) → String → Result String
get_deployment deployments name = elim (deployments name) [
  | none ↦ raise (other_exception ("Unknown strategy deployment '" <> (name <> "'")))
  | some inst_id ↦ ok inst_id
]

abbrev pub new_runtime : String → Runtime
new_runtime inst_id = record { inst_id = inst_id; done = false; control = new_control }

-- The instrument of the deployment, once its context could be built
unfoldable pub prepare : Strategies → String → Result String
unfolding get_deployment build_executor_context
prepare strategies name = elim (get_deployment strategies.deployments name) [
  | raise e ↦ raise e
  | ok inst_id ↦ elim (build_executor_context strategies.settings) [
    | raise e ↦ raise e
    | ok client ↦ ok inst_id
  ]
]

-- The task is created, and the table says so.
abbrev pub started : String → String → Manager → Manager
started name inst_id m = set_strategy_runtime_state name running (
    set_strategy_desired_state name enabled
      (record m { runtimes = update name (some (new_runtime inst_id)) m.runtimes }))

-- `_start_strategy`
unfoldable pub start_strategy : Strategies → String → Manager → Result (Unit {0}) × Manager
unfolding prepare
start_strategy strategies name m =
    if is_some (m.runtimes name) then (ok tt, m) else elim (prepare strategies name) [
      | raise e ↦ (raise e, m)
      | ok inst_id ↦ (ok tt, started name inst_id m)
    ]

-- What `_run_strategy_task` writes at its end.
abbrev pub state_at_end : TaskEnd → RuntimeState
state_at_end returned = stopped
state_at_end raised = crashed

-- A task ends by itself. One that has ended, or is not there, does not end again.
unfoldable pub task_event : String → TaskEnd → Manager → Manager
task_event name end m = elim (m.runtimes name) [
  | none ↦ m
  | some r ↦
      if r.done
      then m
      else set_strategy_runtime_state name (state_at_end end)
          (record m { runtimes = update name (some (record r { done = true })) m.runtimes })
]

-- The end of a task that is awaited: `returned` stands for a cancel, too.
abbrev pub await_task : String → Runtime → TaskEnd → Manager → Manager
await_task name r end m = if r.done then m else set_strategy_runtime_state name (state_at_end end) m

-- `_disable_strategy`; `end` is how a task ends that is drained.
unfoldable pub disable_strategy : TaskEnd → Bool → String → Manager → Manager
disable_strategy end is_force name m =
    let m' = set_strategy_desired_state name disabled m in
    elim (m.runtimes name) [
      | none ↦ set_strategy_runtime_state name stopped m'
      | some r ↦
          (let ended = await_task name r (if is_force then returned else end) m' in
            set_strategy_runtime_state name stopped
              (record ended { runtimes = update name none ended.runtimes }))
    ]

-- `_sync_finished_tasks`
abbrev pub keep_running : Option Runtime → Option Runtime
keep_running none = none
keep_running (some r) = if r.done then none else some r

unfoldable pub sync_finished_tasks : Manager → Manager
sync_finished_tasks m = record m { runtimes = λ n. keep_running (m.runtimes n) }

-- `str(command_mode or "drain")` is `"force"`
abbrev pub is_force_mode : Option String → Bool
is_force_mode none = false
is_force_mode (some mode) = str_eq mode "force"

-- `StrategyRuntimeConfig`
pub record Config : Type 0 where
  pub config_name : String
  pub config_inst_id : String
  pub is_enabled : Bool

-- `_bootstrap_registry`, with `upsert_strategy_registry`
unfoldable pub bootstrap_registry : List Config → Manager → Manager
bootstrap_registry [] m = m
bootstrap_registry (c ∷ cs) m = bootstrap_registry cs (record m {
  registry =
      update c.config_name
        (some (record {
          row_inst_id = c.config_inst_id;
          desired = if c.is_enabled then enabled else disabled;
          runtime = stopped;
        }))
        m.registry;
})

abbrev pub with_status : ℕ → CommandStatus → Command → Command
with_status id s c = if c.id == id then record c { status = s } else c

-- `finish_strategy_command`
unfoldable pub finish_strategy_command : ℕ → CommandStatus → Manager → Manager
finish_strategy_command id s m = record m { commands = map (with_status id s) m.commands }

abbrev pub status_of : Result (Unit {0}) → CommandStatus
status_of (ok u) = succeeded
status_of (raise e) = failed (text_of e)

abbrev pub is_pending : Command → Bool
is_pending c = elim c.status [ pending ↦ true | _ ↦ false ]

abbrev pub claimed : Command → Command
claimed c = if is_pending c then record c { status = processing } else c

module _ (strategies : Strategies) (ends : ℕ → TaskEnd) where
  -- What is done for a command; `ends` says how a task ends that the command drains.
  unfoldable pub run_command : Command → Manager → Result (Unit {0}) × Manager
  run_command c m = elim c.command_type [
    | enable ↦ start_strategy strategies c.strategy_name m
    | disable ↦
        (ok tt, disable_strategy (ends c.id) (is_force_mode c.command_mode) c.strategy_name m)
    | restart ↦
        start_strategy strategies c.strategy_name
          (disable_strategy (ends c.id) true c.strategy_name m)
    | unsupported text ↦ (raise (other_exception ("Unsupported strategy command: " <> text)), m)
  ]

  unfoldable pub process_command : Command → Manager → Manager
  process_command c m =
      let (r, m') = run_command c m in finish_strategy_command c.id (status_of r) m'

  unfoldable pub process_all : List Command → Manager → Manager
  process_all [] m = m
  process_all (c ∷ cs) m = process_all cs (process_command c m)

  -- `_process_commands`, with `claim_pending_strategy_commands`
  unfoldable pub process_commands : Manager → Manager
  process_commands m =
      process_all (filter is_pending m.commands) (record m { commands = map claimed m.commands })

-- What happens in one round of `run_forever`: tasks end by themselves before it, and `drained` says
-- how a task ends that a command of the round drains.
pub record Round : Type 0 where
  pub ended : List (String × TaskEnd)
  pub drained : ℕ → TaskEnd

unfoldable pub task_events : List (String × TaskEnd) → Manager → Manager
task_events [] m = m
task_events ((name, end) ∷ es) m = task_events es (task_event name end m)

unfoldable pub run_forever : Strategies → List Round → Manager → Manager
run_forever strategies [] m = m
run_forever strategies (r ∷ rs) m =
    run_forever strategies rs
      (process_commands strategies r.drained (sync_finished_tasks (task_events r.ended m)))
