-- ===== src/Control/Commands.antt =====
-- What becomes of a request to the control API, once the manager has processed its command.
use text.Mathlib.TextPositions.{eq_refl}
use text.Mathlib.TextEquality.{eq_iff}
use okx_hft_executor.Prelude.{
  ℕ, ◌≡◌, ◌≢◌, refl, ap, String, Bool, false, Option, none, some, List, [], ◌∷◌, ◌++◌, map, filter,
  str_eq, arith, option_map, Bool-cases, inl, inr,
}
use okx_hft_executor.Manager.{
  Strategies, disabled, is_force_mode, Manager, Runtime, Row, Command, CommandType, enable, disable,
  pending, enabled, stopped, TaskEnd, is_pending, claimed, process_commands, process_all,
  process_command, run_command, start_strategy, finish_strategy_command,
}
use okx_hft_executor.Manager.Agreement.{disable_strategy-here}
use okx_hft_executor.Control.{
  accepted, Request, new_command, mode_text, verify_token, serve, handle, enable_strategy,
  disable_strategy, enqueue_strategy_command, upsert_strategy_registry,
}

filter-append_last :
    (cs : List Command) (c : Command)
    → filter is_pending cs ≡ []
    → c.status ≡ pending
    → filter is_pending (cs ++ c ∷ []) ≡ c ∷ []
filter-append_last [] c h e = ground arith
filter-append_last (d ∷ cs) c h e = ground (arith, filter-append_last cs c)

-- With no other command pending, a round of commands runs the one that was just enqueued.
process_commands-enqueued :
    (ds : Strategies) (ends : ℕ → TaskEnd) (name : String) (t : CommandType) (mode : Option String)
    (m : Manager)
    → filter is_pending m.commands ≡ []
    → let c = new_command name t mode m in
      process_commands ds ends (enqueue_strategy_command name t mode m)
      ≡ process_command ds ends c (record m { commands = map claimed (m.commands ++ c ∷ []) })
unfolding process_commands process_all enqueue_strategy_command
process_commands-enqueued ds ends name t mode m h =
    rw (filter-append_last m.commands (new_command name t mode m) h refl) refl

serve-accepted :
    (configured header : Option String) (r : Request) (m : Manager)
    → verify_token configured header ≡ accepted
    → (serve configured header r m).1 ≡ handle r m
unfolding serve
serve-accepted configured header r m e = ground (arith, e)

-- A request to disable a strategy whose token is accepted, with no command pending before it,
-- leaves after the next round of commands no task of the strategy, and its row, if it has one, as
-- "disabled" and "stopped".
pub disable_request-stops :
    (ds : Strategies) (ends : ℕ → TaskEnd) (configured header : Option String) (name : String)
    (is_force : Bool) (m : Manager)
    → verify_token configured header ≡ accepted
    → filter is_pending m.commands ≡ []
    → let m' =
        process_commands ds ends (serve configured header (disable_strategy name is_force) m).1 in
      (m'.runtimes name ≡ none)
      × (m'.registry name
          ≡ option_map {A = Row}
              (λ row. record row { desired = disabled; runtime = stopped })
              (m.registry name))
unfolding handle process_command run_command finish_strategy_command
disable_request-stops ds ends configured header name is_force m e h =
    let mode = some (mode_text is_force) in
    let c = new_command name disable mode m in
    let v : Manager = record m { commands = map claimed (m.commands ++ c ∷ []) } in
    rw
      (
        serve-accepted configured header (disable_strategy name is_force) m e,
        process_commands-enqueued ds ends name disable mode m h,
      )
      (disable_strategy-here (ends c.id) (is_force_mode mode) name v (eq_refl name))

-- A request to enable a strategy that names an instrument and whose token is accepted, while the
-- strategy has a task that has not ended and no other command is pending, leaves that task as it
-- is, but the row of the strategy says "stopped", also after the next round of commands.
pub enable_request-running :
    (ds : Strategies) (ends : ℕ → TaskEnd) (configured header : Option String)
    (name inst_id : String) (r : Runtime) (m : Manager)
    → verify_token configured header ≡ accepted
    → filter is_pending m.commands ≡ []
    → str_eq inst_id "" ≡ false
    → m.runtimes name ≡ some r
    → r.done ≡ false
    → let m' =
        process_commands ds ends
          (serve configured header (enable_strategy name (some inst_id)) m).1 in
      (m'.runtimes name ≡ some r)
      × (m'.registry name
          ≡ some (record { row_inst_id = inst_id; desired = enabled; runtime = stopped }))
unfolding handle process_command run_command finish_strategy_command start_strategy
    upsert_strategy_registry
enable_request-running ds ends configured header name inst_id r m e h named running alive =
    let u = upsert_strategy_registry name inst_id enabled stopped m in
    rw
      (
        serve-accepted configured header (enable_strategy name (some inst_id)) m e,
        named,
        process_commands-enqueued ds ends name enable none u h,
      )
      (ground (arith, running, eq_refl name))

-- A request that changes anything came with the key that is configured, which is not empty.
pub serve-authorized :
    (configured header : Option String) (request : Request) (m : Manager)
    → (serve configured header request m).1 ≢ m
    → (header ≡ configured) × (configured ≢ none) × (configured ≢ some "")
unfolding serve verify_token
serve-authorized none header request m change = absurd (change refl)
serve-authorized (some t) none request m change = elim (Bool-cases (str_eq t "")) [
  | inl empty ↦ absurd (change (rw (empty, serve) refl))
  | inr named ↦ absurd (change (rw (named, serve) refl))
]
serve-authorized (some t) (some k) request m change = elim (Bool-cases (str_eq t "")) [
  | inl empty ↦ absurd (change (rw (empty, serve) refl))
  | inr named ↦ elim (Bool-cases (str_eq k t)) [
    | inl same ↦
        (ap some ((eq_iff k t).0 same), λ e. cc, λ e. ground (arith, e, named, eq_iff t ""))
    | inr other ↦ absurd (change (rw (named, other, serve) refl))
  ]
]
