-- ===== src/Tests/Managing.antt =====
-- The manager on two strategies.
use okx_hft_executor.Prelude.{ℕ, String, inl, true, none, some, [], ◌∷◌, ◌≡◌, refl, All}
use okx_hft_executor.Manager.{
  Manager, Row, Command, Round, returned, raised, enable, restart, pending, enabled, disabled,
  running, stopped, run_command, process_commands, run_forever, prepare, new_runtime, update,
}
use okx_hft_executor.Manager.Agreement.{Agrees, run_forever-Agrees}
use okx_hft_executor.Manager.Shutdown.{shutdown_all}
use okx_hft_executor.Manager.Shutdown.Stops.{shutdown_all-stops}
use okx_hft_executor.Manager.Restart.{Restarted, run_command-restarts}
use okx_hft_executor.Tests.Data.{strategies}
use okx_hft_executor.Manager.Closed.{ClosedIf, has_id, process_commands-closes}

abbrev row : String → Row
row inst_id = record { row_inst_id = inst_id; desired = disabled; runtime = stopped }

abbrev command : ℕ → String → Command
command n name = record {
  id = n;
  strategy_name = name;
  command_type = enable;
  command_mode = none;
  status = pending;
}

abbrev manager : Manager
manager = record {
  runtimes = λ _. none;
  registry = update "a" (some (row "BTC-USDT-SWAP")) (λ _. none);
  commands = command 1 "a" ∷ command 2 "b" ∷ [];
}

abbrev round : Round
round = record { ended = ("a", raised) ∷ []; drained = λ _. returned }

abbrev restart_a : Command
restart_a = record (command 3 "a") { command_type = restart }

run_forever-Agrees_example : Agrees "a" (run_forever strategies (round ∷ round ∷ []) manager)
run_forever-Agrees_example =
    run_forever-Agrees strategies (round ∷ round ∷ []) "a" manager (λ e. cc)

process_commands-closes_example :
    All
      (ClosedIf (λ i. has_id i (command 1 "a" ∷ command 2 "b" ∷ [])))
      (process_commands strategies (λ _. returned) manager).commands
process_commands-closes_example = process_commands-closes strategies (λ _. returned) manager

-- The strategy "a" runs.
abbrev busy : Manager
busy = record manager {
  runtimes = update "a" (some (new_runtime "BTC-USDT-SWAP")) (λ _. none);
  registry =
      update "a"
        (some (record { row_inst_id = "BTC-USDT-SWAP"; desired = enabled; runtime = running }))
        (λ _. none);
}

run_command-restarts_example :
    Restarted
      (prepare strategies "a")
      "a"
      busy
      (run_command strategies (λ _. returned) restart_a busy)
run_command-restarts_example = run_command-restarts strategies (λ _. returned) restart_a busy refl

shutdown_all-stops_example :
    let m' = shutdown_all ("a" ∷ []) true (λ _. raised) busy in
    (m'.runtimes "a" ≡ none) × (m'.registry "a" ≡ some (row "BTC-USDT-SWAP")) × Agrees "a" m'
shutdown_all-stops_example =
    shutdown_all-stops ("a" ∷ []) true (λ _. raised) "a" busy refl (inl (refl, refl))
