-- ===== src/Manager/Closed.antt =====
-- What becomes of the commands.
use okx_hft_executor.Prelude.{
  ℕ, String, Bool, true, false, List, [], ◌∷◌, map, filter, not, ◌||◌, ◌≡◌, refl, arith, ◌==◌, All,
}
use okx_hft_executor.Manager.{
  Strategies, Command, CommandStatus, succeeded, failed, Manager, TaskEnd, process_command,
  process_all, process_commands, finish_strategy_command, run_command, start_strategy,
  disable_strategy, set_strategy_runtime_state, set_strategy_desired_state, get_deployment,
  is_force_mode, is_pending, claimed, with_status, status_of,
}
use okx_hft_executor.Exchange.Errors.{Result}

abbrev pub has_id : ℕ → List Command → Bool
has_id id [] = false
has_id id (c ∷ cs) = let rest = has_id id cs in id == c.id || rest

abbrev pub is_closed : CommandStatus → Bool
is_closed succeeded = true
is_closed (failed text) = true
is_closed _ = false

-- A command among those that `is_due` names is closed.
abbrev pub ClosedIf : (ℕ → Bool) → Command → Type 0
ClosedIf is_due c = (not (is_due c.id) || is_closed c.status) ≡ true

map-All :
    (P Q : Command → Type 0) (f : Command → Command) (cs : List Command)
    → ((c : Command) → P c → Q (f c))
    → All P cs
    → All Q (map f cs)
map-All P Q f [] h a = tt
map-All P Q f (c ∷ cs) h (p, ps) = (h c p, map-All P Q f cs h ps)

weaken-All :
    (P Q : Command → Type 0) (cs : List Command) → ((c : Command) → P c → Q c) → All P cs → All Q cs
weaken-All P Q [] h a = tt
weaken-All P Q (c ∷ cs) h (p, ps) = (h c p, weaken-All P Q cs h ps)

start_strategy-commands :
    (ds : Strategies) (name : String) (m : Manager)
    → (start_strategy ds name m).1.commands ≡ m.commands
unfolding start_strategy set_strategy_runtime_state set_strategy_desired_state get_deployment
start_strategy-commands ds name m = ground arith

disable_strategy-commands :
    (end : TaskEnd) (f : Bool) (name : String) (m : Manager)
    → (disable_strategy end f name m).commands ≡ m.commands
unfolding disable_strategy set_strategy_runtime_state set_strategy_desired_state
disable_strategy-commands end f name m = ground arith

module _ (ds : Strategies) (ends : ℕ → TaskEnd) where
  run_command-commands :
      (c : Command) (m : Manager) → (run_command ds ends c m).1.commands ≡ m.commands
  unfolding run_command
  run_command-commands c m =
      let stop_it = disable_strategy (ends c.id) true c.strategy_name m in
      ground (
        arith,
        start_strategy-commands ds c.strategy_name m,
        start_strategy-commands ds c.strategy_name stop_it,
        disable_strategy-commands (ends c.id) true c.strategy_name m,
        disable_strategy-commands (ends c.id) (is_force_mode c.command_mode) c.strategy_name m,
      )

  finish-closes :
      (id : ℕ) (r : Result (Unit {0})) (is_due : ℕ → Bool) (c : Command)
      → ClosedIf is_due c
      → ClosedIf (λ i. i == id || is_due i) (with_status id (status_of r) c)
  finish-closes id r is_due c h = ground arith

  process_command-closes :
      (c : Command) (is_due : ℕ → Bool) (m : Manager)
      → All (ClosedIf is_due) m.commands
      → All (ClosedIf (λ i. i == c.id || is_due i)) (process_command ds ends c m).commands
  unfolding process_command finish_strategy_command
  process_command-closes c is_due m h = rw (run_command-commands c m) (
      map-All (ClosedIf is_due) (ClosedIf (λ i. i == c.id || is_due i))
        (with_status c.id (status_of (run_command ds ends c m).0)) m.commands
        (finish-closes c.id (run_command ds ends c m).0 is_due) h)

  process_all-closes :
      (cs : List Command) (is_due : ℕ → Bool) (m : Manager)
      → All (ClosedIf is_due) m.commands
      → All (ClosedIf (λ i. has_id i cs || is_due i)) (process_all ds ends cs m).commands
  unfolding process_all
  process_all-closes [] is_due m h = h
  process_all-closes (c ∷ cs) is_due m h =
      weaken-All (ClosedIf (λ i. has_id i cs || (i == c.id || is_due i)))
        (ClosedIf (λ i. has_id i (c ∷ cs) || is_due i))
        (process_all ds ends cs (process_command ds ends c m)).commands (λ x k. ground arith)
        (process_all-closes cs (λ i. i == c.id || is_due i) (process_command ds ends c m)
          (process_command-closes c is_due m h))

  nothing_due : (cs : List Command) → All (ClosedIf (λ _. false)) cs
  nothing_due [] = tt
  nothing_due (c ∷ cs) = (refl, nothing_due cs)

  -- Every command that is pending when the manager looks is done or failed afterwards, whatever its
  -- type, and whether or not it could be carried out.
  pub process_commands-closes :
      (m : Manager)
      → All
          (ClosedIf (λ i. has_id i (filter is_pending m.commands)))
          (process_commands ds ends m).commands
  unfolding process_commands
  process_commands-closes m =
      let due = filter is_pending m.commands in
      let after = process_all ds ends due (record m { commands = map claimed m.commands }) in
      weaken-All (ClosedIf (λ i. has_id i due || false)) (ClosedIf (λ i. has_id i due))
        after.commands (λ c k. ground arith)
        (process_all-closes due (λ _. false) (record m { commands = map claimed m.commands })
          (nothing_due (map claimed m.commands)))
