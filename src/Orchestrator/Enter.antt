-- ===== src/Orchestrator/Enter.antt =====
-- The end of an iteration without a position: drain, decide, and place an entry order.
use okx_hft_executor.Prelude.{
  ℕ, ◌%◌, ◌/◌, String, Bool, false, Option, none, some, if◌then◌else◌, not, ◌==◌, ◌⊎◌, inl, inr,
}
use okx_hft_executor.Decimal.{Decimal}
use okx_hft_executor.Exchange.{OrderSide, buy, sell, ExchangeClient}
use okx_hft_executor.Exchange.Errors.{Exn, runtime_error, other_exception, is_okx_price_limit_error}
use okx_hft_executor.Strategy.{BaselineSignal, PositionSide, should_decide, make_decision}
use okx_hft_executor.Position.{entry, is_long}
use okx_hft_executor.Lifecycle.{new_tracker, begin, on_entry_submit}
use okx_hft_executor.Orchestrator.World.{
  StrategyLoopControl, Deployment, M, pure, throw, ◌>>=◌, ◌>>◌, catch, gets, modify, skip, send,
  store, set_order, on_lifecycle, new_client_order_id, save_signal, save_order, save_service_event,
  limit_post_only, Flow, fall, again, stop, loop_sleep, drain_completed,
}
use okx_hft_executor.Orchestrator.Calls.{resolve_maker_price}

abbrev pub side_of_signal : PositionSide → OrderSide
side_of_signal side = if is_long side then buy else sell

-- `control is not None and not control.allow_new_entries`
abbrev pub is_draining : Option StrategyLoopControl → Bool
is_draining none = false
is_draining (some c) = not c.allow_new_entries

module _ (X : ExchangeClient) (d : Deployment) (now : ℕ) where
  -- `strategy.make_decision(now)`, with its signal and the new trade written down
  unfoldable pub decide : M X BaselineSignal
  decide = do
    draws ← gets (λ w. w.draws)
    state ← gets (λ w. w.strategy)
    let side = d.choice draws
    signal_id ← new_client_order_id d.uuid4_hex "rb"
    let (signal, state') = make_decision d.config state d.strategy_name side signal_id now
    modify (λ w. record w { strategy = state' })
    store (save_signal signal.signal_id signal.side signal.created_at)
    modify
        (λ w. record w { lifecycle = some (begin new_tracker signal.signal_id (some d.tick_size)) })
    store (save_service_event signal.strategy_name "decision")
    pure signal

  -- The entry order is in the book.
  unfoldable pub adopt_entry : BaselineSignal → Decimal → String → M X Flow
  adopt_entry signal price exchange_order_id = do
    set_order (
        some (record {
          order_id = exchange_order_id;
          client_id = signal.signal_id;
          strategy_name = signal.strategy_name;
          side = side_of_signal signal.side;
          purpose = entry;
          created_at = now;
          last_reprice_at = now;
          reduce_only = false;
          size = d.exec_cfg.order_size;
        }))
    on_lifecycle (λ t. on_entry_submit t price (some price) now)
    store (save_service_event signal.strategy_name "entry_submitted")
    store (
        save_order
          (record {
            local_order_id = signal.signal_id;
            exchange_order_id = exchange_order_id;
            side = side_of_signal signal.side;
            order_type = "post_only";
            price = some price;
            size = d.exec_cfg.order_size;
            status = "submitted";
            filled_at = none;
            signal_id = some signal.signal_id;
            position_id = none;
            parent_order_id_local = none;
            reduce_only = false;
          })
          now)
    pure fall

  -- `except RuntimeError as exc` around the submission
  abbrev entry_rejected : BaselineSignal → Exn → M X Flow
  entry_rejected signal (other_exception text) = throw (other_exception text)
  entry_rejected signal (runtime_error text) =
      if is_okx_price_limit_error (runtime_error text)
      then (do
        store (save_service_event signal.strategy_name "entry_price_limit_reject")
        pure (again loop_sleep))
      else throw (runtime_error text)

  -- The touch is read and the order is placed there: the price, and the exchange's order id.
  unfoldable pub place_entry : BaselineSignal → M X (Decimal × String)
  place_entry signal = do
    let side = side_of_signal signal.side
    price ← resolve_maker_price X d side none
    order_id ←
        send (limit_post_only side d.exec_cfg.order_size price signal.signal_id false)
          (X.place_limit_post_only side d.exec_cfg.order_size price signal.signal_id false)
    pure {A = Decimal × String} (price, order_id)

  unfoldable pub try_entry : BaselineSignal → M X ((Decimal × String) ⊎ Flow)
  try_entry signal =
      catch (do placed ← place_entry signal; pure (inl placed))
        (λ exc. (do flow ← entry_rejected signal exc; pure (inr flow)))

  unfoldable pub submit_entry : BaselineSignal → M X Flow
  submit_entry signal = do
    placed ← try_entry signal
    elim placed [ inl (price, order_id) ↦ adopt_entry signal price order_id | inr flow ↦ pure flow ]

  -- `int(now.timestamp()) % decision_step_sec == 0`; a step of 0 raises ZeroDivisionError
  unfoldable pub log_skipped : M X (Unit {0})
  log_skipped =
      if d.config.decision_step_sec == 0
      then throw (other_exception "integer modulo by zero")
      else if (now / 1000000) % d.config.decision_step_sec == 0
      then store (save_service_event d.strategy_name "decision_skipped")
      else skip

  unfoldable pub without_position : Option StrategyLoopControl → Bool → Bool → M X Flow
  without_position control executor_healthy market_data_fresh = do
    has_open ← gets (λ w. w.has_open_position)
    has_order ← gets (λ w. w.has_active_order)
    state ← gets (λ w. w.strategy)
    if is_draining control
        then (if has_order then pure (again loop_sleep) else pure (stop drain_completed))
        else if should_decide d.config state now has_open has_order executor_healthy
            market_data_fresh
        then (do signal ← decide; submit_entry signal)
        else (do log_skipped; pure fall)
