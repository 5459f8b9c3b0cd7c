-- ===== src/Orchestrator/Stopping.antt =====
-- How the loop ends: the limits of a run, a forced stop, and a drain.
use okx_hft_executor.Prelude.{
  ℕ, ◌+◌, ◌≤◌, ◌<◌, ◌≡◌, true, none, some, List, [], ◌∷◌, arith, inl, inr, length, ltb, is_some,
  Bool-cases, All,
}
use okx_hft_executor.Exchange.{OkxTicker, ExchangeClient}
use okx_hft_executor.Exchange.Errors.{ok}
use okx_hft_executor.Orchestrator.World.{
  StrategyLoopControl, Deployment, World, fall, stop, force, drain_completed,
}
use okx_hft_executor.Orchestrator.Quiet.{opening}
use okx_hft_executor.Orchestrator.Managed.{OrderFits, openings_in_hand}
use okx_hft_executor.Orchestrator.Enter.{is_draining, without_position}
use okx_hft_executor.Orchestrator.Calls.{sweep_untracked_executor_orders}
use okx_hft_executor.Reconcile.{reconcile_exchange_position_if_needed}
use okx_hft_executor.Orchestrator.Turns.{iteration-Turned}
use okx_hft_executor.Orchestrator.Iteration.{
  Reading, Limits, stop_check, iteration, run, guarded_body, read_market, body, snapshot,
  read_snapshot, sweep_if_idle, take_over, manage_order, act,
}

module _ (X : ExchangeClient) (d : Deployment) where
  -- Where the control asks for a forced stop, a run ends with a reason at the top of its next
  -- iteration, and the world is left as it is.
  pub run-force :
      (limits : Limits) (count : ℕ) (r : Reading) (rs : List Reading) (c : StrategyLoopControl)
      (w : World X)
      → r.control ≡ some c
      → c.stop_mode ≡ force
      → (is_some (run X d limits count (r ∷ rs) w).0 ≡ true)
        × ((run X d limits count (r ∷ rs) w).1 ≡ w)
  unfolding run iteration stop_check
  run-force limits count r rs c w e forced = ground arith

  -- With a limit on the loops, from a count within it, a run ends with a reason as soon as it has
  -- more readings than iterations are left, whatever the exchange answers.
  pub run-ends :
      (limits : Limits) (n count : ℕ) (rs : List Reading) (w : World X)
      → limits.max_loops ≡ some n
      → count ≤ n
      → n < count + length rs
      → is_some (run X d limits count rs w).0 ≡ true
  unfolding run iteration stop_check
  run-ends limits n count [] w e le lt = absurd (omega arith)
  run-ends limits n count (r ∷ rs) w e le lt =
      let I = iteration X d limits (count + 1) r w in
      elim (Bool-cases (ltb n (count + 1))) [
        | inl over ↦ ground arith
        | inr under ↦ ground (arith, run-ends limits n (count + 1) rs I.1 e)
      ]

  -- While the loop drains at every reading, and starts with an order in hand, if any, that fits
  -- the position and cannot open one, a run sends no request that may open a position.
  pub run-drains :
      (limits : Limits) (count : ℕ) (rs : List Reading) (w : World X)
      → All (λ r. is_draining r.control_later ≡ true) rs
      → OrderFits w.active_order w.active_position
      → openings_in_hand w.active_order ≡ 0
      → opening (run X d limits count rs w).1.sent ≤ opening w.sent
  unfolding run
  run-drains limits count [] w h fits zero = omega arith
  run-drains limits count (r ∷ rs) w (h, hs) fits zero =
      let I = iteration X d limits (count + 1) r w in
      let t = iteration-Turned X d limits (count + 1) r w fits in
      let left : openings_in_hand I.1.active_order ≡ 0 = ground (arith, t) in
      ground (arith, t, run-drains limits (count + 1) rs I.1 hs t.fits left)

  -- An iteration that no limit ends completes a drain when nothing is in hand and the exchange
  -- answers, with no order and no position; it sends no request.
  pub iteration-drains :
      (limits : Limits) (count : ℕ) (r : Reading) (t : OkxTicker) (w : World X)
      (s₁ s₂ s₃ s₄ : X.State)
      → stop_check limits count r ≡ fall
      → is_draining r.control_later ≡ true
      → w.active_order ≡ none
      → w.active_position ≡ none
      → X.get_ticker_last w.exchange ≡ (ok t, s₁)
      → X.get_account_snapshot s₁ ≡ (ok tt, s₂)
      → X.get_open_orders s₂ ≡ (ok [], s₃)
      → X.get_positions s₃ ≡ (ok [], s₄)
      → ((iteration X d limits count r w).0 ≡ stop drain_completed)
        × ((iteration X d limits count r w).1.sent ≡ w.sent)
  unfolding iteration guarded_body read_market body snapshot read_snapshot sweep_if_idle take_over
      sweep_untracked_executor_orders manage_order act without_position
      reconcile_exchange_position_if_needed
  iteration-drains limits count r t w s₁ s₂ s₃ s₄ c e o p ticker account orders positions =
      ground arith
