-- ===== src/Manager/Shutdown.antt =====
-- app/strategy_manager.py: `_shutdown_all`, which drains the tasks and then stops them by force.
pub mod Stops
use okx_hft_executor.Prelude.{
  String, Bool, true, Option, none, some, List, [], ◌∷◌, if◌then◌else◌, is_empty, option_map,
}
use okx_hft_executor.Orchestrator.World.{request_drain_stop}
use okx_hft_executor.Manager.{
  Runtime, Manager, TaskEnd, returned, task_event, disable_strategy, update,
}

-- `for name in names: ...`
unfoldable pub each : (String → Manager → Manager) → List String → Manager → Manager
each op [] m = m
each op (name ∷ names) m = each op names (op name m)

abbrev drained : Runtime → Runtime
drained r = record r { control = request_drain_stop r.control }

-- `runtime.control.request_drain_stop()`
unfoldable pub request_drain : String → Manager → Manager
unfolding request_drain_stop
request_drain name m = record m {
  runtimes = update name (option_map drained (m.runtimes name)) m.runtimes;
}

-- `names` are the keys of the dictionary of tasks. `ends` says how each task ends while all of them
-- are awaited: by itself, or by the cancel of a wait that timed out, which is `returned`.
unfoldable pub shutdown_all : List String → Bool → (String → TaskEnd) → Manager → Manager
unfolding each request_drain task_event disable_strategy
shutdown_all names timed_out ends m =
    if is_empty names
    then m
    else (let ended = each (λ n. task_event n (ends n)) names (each request_drain names m) in
        if timed_out
        then each (disable_strategy returned true) names ended
        else record ended { runtimes = λ _. none })
