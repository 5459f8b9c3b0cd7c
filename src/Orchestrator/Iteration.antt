-- ===== src/Orchestrator/Iteration.antt =====
-- The body of the loop, and the loop.
use okx_hft_executor.Prelude.{
  ℕ, ◌+◌, ◌*◌, String, Bool, true, false, Option, none, some, List, [], ◌∷◌, if◌then◌else◌, ◌||◌,
  not, ltb, is_some, is_empty, filter, str_eq,
}
use okx_hft_executor.Prelude.Int.{pos, leb_ℤ}
use okx_hft_executor.Decimal.{Decimal}
use okx_hft_executor.Exchange.{
  OrderState, live, partially_filled, filled, canceled, rejected, other_state, OkxOrder,
  OkxPosition, OkxTicker, ExchangeClient,
}
use okx_hft_executor.Exchange.Errors.{Exn, Result, ok, raise, is_okx_price_limit_error}
use okx_hft_executor.Strategy.{elapsed, seconds}
use okx_hft_executor.Position.{ActivePosition, ActiveOrder}
use okx_hft_executor.Reconcile.{reconcile_exchange_position_if_needed}
use okx_hft_executor.Orchestrator.World.{
  force, StrategyLoopControl, Deployment, World, M, pure, ◌>>=◌, ◌>>◌, catch, gets, skip, call,
  store, set_position, set_has_open, set_has_order, save_position_open, save_service_event,
  no_pause, loop_sleep, backoff, StopReason, max_loops_reached, run_seconds_reached, force_stop,
  Flow, fall, again, stop,
}
use okx_hft_executor.Orchestrator.Calls.{sweep_untracked_executor_orders}
use okx_hft_executor.Orchestrator.Final.{on_filled, on_canceled}
use okx_hft_executor.Orchestrator.Resting.{on_resting}
use okx_hft_executor.Orchestrator.Enter.{without_position}
use okx_hft_executor.Orchestrator.Leave.{with_position}

-- `_is_market_data_fresh`
unfoldable pub is_market_data_fresh : ℕ → ℕ → Bool
is_market_data_fresh ts_ms now = leb_ℤ (elapsed now (ts_ms * 1000)) (pos (seconds 10))

-- The positions of the instrument, or all if there are none of it.
abbrev pub inst_positions : String → List OkxPosition → List OkxPosition
inst_positions inst_id positions =
    let matching = filter (λ p. str_eq p.inst_id inst_id) positions in
    if is_empty matching then positions else matching

-- What one iteration reads beside the exchange. Other tasks may change the control while the
-- iteration waits, so its two readings are apart.
pub record Reading : Type 0 where
  pub now : ℕ
  pub control : Option StrategyLoopControl
  pub control_later : Option StrategyLoopControl

pub record Limits : Type 0 where
  pub started_at : ℕ
  pub run_seconds : Option ℕ
  pub max_loops : Option ℕ

abbrev is_forced : Option StrategyLoopControl → Bool
is_forced none = false
is_forced (some c) = elim c.stop_mode [ force ↦ true | _ ↦ false ]

abbrev over_loops : Option ℕ → ℕ → Bool
over_loops none count = false
over_loops (some limit) count = ltb limit count

abbrev over_seconds : Option ℕ → ℕ → ℕ → Bool
over_seconds none now started_at = false
over_seconds (some limit) now started_at = leb_ℤ (pos (seconds limit)) (elapsed now started_at)

-- The checks at the top of an iteration; `count` is the loop's count with this iteration.
unfoldable pub stop_check : Limits → ℕ → Reading → Flow
stop_check limits count r =
    if over_loops limits.max_loops count
    then stop max_loops_reached
    else if over_seconds limits.run_seconds r.now limits.started_at
    then stop run_seconds_reached
    else if is_forced r.control
    then stop force_stop
    else fall

module _ (X : ExchangeClient) (d : Deployment) where
  -- The position that was restored from the exchange is taken over.
  unfoldable pub take_over : Option ActivePosition → Option ActivePosition → M X (Unit {0})
  take_over (some p) none = do
    set_position (some p)
    set_has_open true
    store (save_position_open p none none)
    store (save_service_event p.strategy_name "position_reconciled")
  take_over _ _ = skip

  unfoldable pub read_snapshot : M X (List OkxOrder × List OkxPosition)
  read_snapshot = do
    open_orders ← call X.get_open_orders
    order ← gets (λ w. w.active_order)
    set_has_order (not (is_empty open_orders) || is_some order)
    positions ← call X.get_positions
    position ← gets (λ w. w.active_position)
    set_has_open (not (is_empty positions) || is_some position)
    pure {A = List OkxOrder × List OkxPosition} (open_orders, positions)

  -- Orders of the executor that it does not know of are canceled when nothing is in hand.
  unfoldable pub sweep_if_idle :
      List OkxOrder → Option ActiveOrder → Option ActivePosition → M X (Unit {0})
  sweep_if_idle open_orders order position =
      if is_some order || is_some position
      then skip
      else sweep_untracked_executor_orders X d open_orders

  unfoldable pub snapshot : ℕ → M X (Unit {0})
  snapshot now = do
    (open_orders, positions) ← read_snapshot
    order ← gets (λ w. w.active_order)
    position ← gets (λ w. w.active_position)
    sweep_if_idle open_orders order position
    take_over
        (reconcile_exchange_position_if_needed position (inst_positions d.inst_id positions)
          d.strategy_name d.tick_size d.config now)
        position

  -- What the exchange reports of the order in hand.
  unfoldable pub on_state : ℕ → OrderState → ActiveOrder → OkxOrder → Decimal → M X Flow
  on_state now filled active order last = on_filled X d now active order last >> pure fall
  on_state now canceled active order last = on_canceled X d now active order >> pure fall
  on_state now rejected active order last = on_canceled X d now active order >> pure fall
  on_state now live active order last = on_resting X d now active order last
  on_state now partially_filled active order last = on_resting X d now active order last
  on_state now other_state active order last = pure fall

  unfoldable pub manage_order : ℕ → Decimal → M X Flow
  manage_order now last = do
    active ← gets (λ w. w.active_order)
    elim active [
      | none ↦ pure fall
      | some a ↦ do
        found ← call (X.get_order a.order_id)
        elim found [ none ↦ pure fall | some order ↦ on_state now order.state a order last ]
    ]

  -- What follows the order in hand: wait for it, enter, or leave.
  unfoldable pub act : Reading → Decimal → Bool → Bool → M X Flow
  act r last executor_healthy market_data_fresh = do
    order ← gets (λ w. w.active_order)
    position ← gets (λ w. w.active_position)
    elim order [
      | some _ ↦ pure (again loop_sleep)
      | none ↦ elim position [
        | none ↦ without_position X d r.now r.control_later executor_healthy market_data_fresh
        | some p ↦ with_position X d r.now p last
      ]
    ]

  -- `fall` at the end of the body is the sleep behind it.
  abbrev pub end_of_body : Flow → Flow
  end_of_body fall = again loop_sleep
  end_of_body (again pause) = again pause
  end_of_body (stop reason) = stop reason

  unfoldable pub body : Reading → Decimal → Bool → M X Flow
  body r last market_data_fresh = do
    snapshot r.now
    flow ← manage_order r.now last
    elim flow [
      | fall ↦ (do done ← act r last true market_data_fresh; pure (end_of_body done))
      | again pause ↦ pure (again pause)
      | stop reason ↦ pure (stop reason)
    ]

  abbrev name_or_system : Option ActivePosition → String
  name_or_system none = "system"
  name_or_system (some p) = p.strategy_name

  -- `except Exception as exc` around the body. Where SQLite refuses to store the event, the code
  -- raises out of the iteration; the store of the model does not.
  unfoldable pub iteration_failed : Exn → M X Flow
  iteration_failed exc = do
    position ← gets (λ w. w.active_position)
    store (save_service_event (name_or_system position) "loop_iteration_error")
    pure (again (if is_okx_price_limit_error exc then loop_sleep else backoff))

  -- The ticker, if it and the account can be read. The store of the handler does not raise here
  -- either.
  unfoldable pub read_market : M X (Option OkxTicker)
  read_market =
      catch (do ticker ← call X.get_ticker_last; call X.get_account_snapshot; pure (some ticker))
        (λ _. (do store (save_service_event "system" "error"); pure none))

  unfoldable pub guarded_body : Reading → M X Flow
  guarded_body r = do
    market ← read_market
    elim market [
      | none ↦ pure (again loop_sleep)
      | some ticker ↦
          catch (body r ticker.last (is_market_data_fresh ticker.ts_ms r.now)) iteration_failed
    ]

  -- One turn of `while True`. Nothing is raised out of it; the last clause is never reached.
  abbrev flow_of : Result Flow × World X → Flow × World X
  flow_of (ok flow, w) = (flow, w)
  flow_of (raise exc, w) = (again no_pause, w)

  unfoldable pub iteration : Limits → ℕ → Reading → World X → Flow × World X
  iteration limits count r w = elim (stop_check limits count r) [
    | fall ↦ flow_of (guarded_body r w)
    | again pause ↦ (again pause, w)
    | stop reason ↦ (stop reason, w)
  ]

  -- The loop over its readings: it ends with a reason to stop, or with the readings.
  unfoldable pub run : Limits → ℕ → List Reading → World X → Option StopReason × World X
  run limits count [] w = (none, w)
  run limits count (r ∷ rs) w =
      let (flow, w') = iteration limits (count + 1) r w in
      let rest = run limits (count + 1) rs w' in
      elim flow [ fall ↦ rest | again pause ↦ rest | stop reason ↦ (some reason, w') ]
