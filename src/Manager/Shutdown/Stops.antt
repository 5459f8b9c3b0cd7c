-- ===== src/Manager/Shutdown/Stops.antt =====
-- What the shutdown leaves of the tasks and of the table of strategies.
use mathlib.Core.Path.{subst⁻¹}
use text.Mathlib.TextPositions.{eq_refl}
use okx_hft_executor.Prelude.{
  String, Bool, true, false, Option, none, some, List, [], ◌∷◌, ◌≡◌, refl, ◌∙◌, arith, ◌||◌,
  if◌then◌else◌, str_eq, is_some, option_map, inl, inr, Bool-cases,
}
use okx_hft_executor.Orchestrator.World.{request_drain_stop}
use okx_hft_executor.Manager.{
  Runtime, Row, disabled, stopped, Manager, TaskEnd, returned, state_at_end, task_event,
  disable_strategy, set_strategy_runtime_state, set_strategy_desired_state,
}
use okx_hft_executor.Manager.Agreement.{Agrees, by_name}
use okx_hft_executor.Manager.Shutdown.{each, drained, request_drain, shutdown_all}

-- The task of a strategy, and its row
abbrev Cell : Type 0
Cell = Option Runtime × Option Row

abbrev cell : String → Manager → Cell
cell n m = (m.runtimes n, m.registry n)

abbrev pub has_name : String → List String → Bool
has_name n [] = false
has_name n (name ∷ names) = let rest = has_name n names in str_eq n name || rest

-- A loop over names whose step changes one cell, and changes it once, changes the cells of the names.
module _ (op : String → Manager → Manager) (f : String → Cell → Cell)
    (here : (n : String) (m : Manager) → cell n (op n m) ≡ f n (cell n m))
    (elsewhere : (name n : String) (m : Manager)
      → str_eq n name ≡ false
      → cell n (op name m) ≡ cell n m)
    (once : (n : String) (c : Cell) → f n (f n c) ≡ f n c) where
  each-cell :
      (names : List String) (n : String) (m : Manager)
      → cell n (each op names m) ≡ (if has_name n names then f n (cell n m) else cell n m)
  unfolding each
  each-cell [] n m = refl
  each-cell (name ∷ names) n m = elim (by_name n name) [
    | inl other ↦ rw other (each-cell names n (op name m) ∙ rw (elsewhere name n m other) refl)
    | inr (same, e) ↦ rw same (
        each-cell names n (op name m)
        ∙ subst⁻¹
            (λ k.
              (if has_name k names then f k (cell k (op name m)) else cell k (op name m))
              ≡ f k (cell k m))
            e
            (rw (here name m) (elim (Bool-cases (has_name name names)) [
              | inl again ↦ rw again (once name (cell name m))
              | inr done ↦ rw done refl
            ])))
  ]

abbrev drain_cell : Cell → Cell
drain_cell (r, row) = (option_map drained r, row)

abbrev end_cell : TaskEnd → Cell → Cell
end_cell end (none, row) = (none, row)
end_cell end (some r, row) = if r.done then (some r, row) else (
  some (record r { done = true }),
  option_map {A = Row} (λ x. record x { runtime = state_at_end end }) row,
)

abbrev stop_cell : Cell → Cell
stop_cell (r, row) =
    (none, option_map {A = Row} (λ x. record x { desired = disabled; runtime = stopped }) row)

request_drain-here : (n : String) (m : Manager) → cell n (request_drain n m) ≡ drain_cell (cell n m)
unfolding request_drain
request_drain-here n m = ground (arith, eq_refl n)

request_drain-elsewhere :
    (name n : String) (m : Manager)
    → str_eq n name ≡ false
    → cell n (request_drain name m) ≡ cell n m
unfolding request_drain
request_drain-elsewhere name n m e = ground arith

drain_cell_once : (c : Cell) → drain_cell (drain_cell c) ≡ drain_cell c
unfolding request_drain_stop
drain_cell_once (none, row) = refl
drain_cell_once (some r, row) = refl

task_event-here :
    (end : TaskEnd) (n : String) (m : Manager)
    → cell n (task_event n end m) ≡ end_cell end (cell n m)
unfolding task_event set_strategy_runtime_state
task_event-here end n m = ground (arith, eq_refl n)

task_event-elsewhere :
    (end : TaskEnd) (name n : String) (m : Manager)
    → str_eq n name ≡ false
    → cell n (task_event name end m) ≡ cell n m
unfolding task_event set_strategy_runtime_state
task_event-elsewhere end name n m e = ground arith

end_cell_once : (end : TaskEnd) (c : Cell) → end_cell end (end_cell end c) ≡ end_cell end c
end_cell_once end (none, row) = refl
end_cell_once end (some r, row) = ground arith

disable_strategy-here :
    (n : String) (m : Manager) → cell n (disable_strategy returned true n m) ≡ stop_cell (cell n m)
unfolding disable_strategy set_strategy_runtime_state set_strategy_desired_state
disable_strategy-here n m = ground (arith, eq_refl n)

disable_strategy-elsewhere :
    (name n : String) (m : Manager)
    → str_eq n name ≡ false
    → cell n (disable_strategy returned true name m) ≡ cell n m
unfolding disable_strategy set_strategy_runtime_state set_strategy_desired_state
disable_strategy-elsewhere name n m e = ground arith

stop_cell_once : (c : Cell) → stop_cell (stop_cell c) ≡ stop_cell c
stop_cell_once (r, none) = refl
stop_cell_once (r, some row) = refl

-- What the shutdown is to leave of a row: that of a strategy with a task says that it is disabled
-- and stopped where it was stopped by force, and else how its task ended.
abbrev pub row_after : Bool → TaskEnd → Option Runtime → Option Row → Option Row
row_after timed_out end none row = row
row_after true end (some r) row =
    option_map {A = Row} (λ x. record x { desired = disabled; runtime = stopped }) row
row_after false end (some r) row =
    if r.done then row else option_map {A = Row} (λ x. record x { runtime = state_at_end end }) row

-- Shutting down, in time or by force, where the names are those of the strategies with a task,
-- leaves no task, and each row as it is to be after that; from a table that agrees with the tasks,
-- no row says "running".
pub shutdown_all-stops :
    (names : List String) (timed_out : Bool) (ends : String → TaskEnd) (n : String) (m : Manager)
    → has_name n names ≡ is_some (m.runtimes n)
    → Agrees n m
    → let m' = shutdown_all names timed_out ends m in
      (m'.runtimes n ≡ none)
      × (m'.registry n ≡ row_after timed_out (ends n) (m.runtimes n) (m.registry n))
      × Agrees n m'
unfolding shutdown_all
shutdown_all-stops [] timed_out ends n m keys h = ground arith
shutdown_all-stops (x ∷ xs) timed_out ends n m keys h =
    let names = x ∷ xs in
    let m₁ = each request_drain names m in
    let m₂ = each (λ k. task_event k (ends k)) names m₁ in
    let m₃ = each (disable_strategy returned true) names m₂ in
    let e₁ =
      each-cell request_drain (λ k. drain_cell) request_drain-here request_drain-elsewhere
        (λ k. drain_cell_once) names n m in
    let e₂ =
      each-cell (λ k. task_event k (ends k)) (λ k. end_cell (ends k))
        (λ k. task_event-here (ends k) k) (λ k. task_event-elsewhere (ends k) k)
        (λ k. end_cell_once (ends k)) names n m₁ in
    let e₃ =
      each-cell (disable_strategy returned true) (λ k. stop_cell) disable_strategy-here
        disable_strategy-elsewhere (λ k. stop_cell_once) names n m₂ in
    ground (arith, e₁, e₂, e₃)
