-- ===== src/Orchestrator/Calls.antt =====
-- The coroutines of app/orchestrator.py and execution/trade_finalize.py that the loop calls.
use okx_hft_executor.Prelude.{
  ℕ, String, Bool, true, false, Option, none, some, List, [], ◌∷◌, if◌then◌else◌, ◌||◌, ◌&&◌,
  starts_with, is_empty, get_or, str_eq,
}
use okx_hft_executor.Decimal.{Decimal}
use okx_hft_executor.Exchange.{
  OrderSide, OrderState, live, partially_filled, OkxOrder, OkxFill, ExchangeClient,
}
use okx_hft_executor.Exchange.Errors.{
  Exn, runtime_error, other_exception, Result, is_okx_cancel_already_done_error,
}
use okx_hft_executor.Position.{
  ActivePosition, ActiveOrder, maker_price_for_side, clamp_maker_price_to_limits,
}
use okx_hft_executor.Lifecycle.{Tracker, new_tracker, text_or}
use okx_hft_executor.Accounting.{FeeBreakdown, fees_from_okx_fills, estimate_fees}
use okx_hft_executor.Finalize.{TradeResult, normalize_exit_reason, build_trade_result}
use okx_hft_executor.Orchestrator.World.{
  Deployment, M, pure, throw, ◌>>=◌, ◌>>◌, catch, gets, modify, call, send, store, on_lifecycle,
  save_position_close, save_trade_result, record_cancel_attempt, cancel,
}

unfoldable pub is_executor_client_id : String → Bool
is_executor_client_id cl_ord_id =
    starts_with cl_ord_id "rb-"
    || starts_with cl_ord_id "exit"
    || starts_with cl_ord_id "entry"
    || starts_with cl_ord_id "exit-mkt"

-- `order.state in {"live", "partially_filled"}`
abbrev pub is_resting : OrderState → Bool
is_resting live = true
is_resting partially_filled = true
is_resting _ = false

-- `except RuntimeError as exc: if not already_done(exc): raise`
abbrev pub unless_already_done : {X : ExchangeClient} → Exn → M X (Unit {0})
unless_already_done (runtime_error text) =
    if is_okx_cancel_already_done_error (runtime_error text)
    then pure tt
    else throw (runtime_error text)
unless_already_done (other_exception text) = throw (other_exception text)

-- `except RuntimeError as exc:` with nothing but logging
abbrev pub swallow_runtime_error : {X : ExchangeClient} → Exn → M X (Unit {0})
swallow_runtime_error (runtime_error text) = pure tt
swallow_runtime_error (other_exception text) = throw (other_exception text)

-- What `finalize_reconciled_close` writes to its tracker.
unfoldable pub reconciled : Decimal → ℕ → Tracker → Tracker
reconciled exit_price closed_at t = record t {
  close_source = some "okx_reconcile";
  exit_trigger_reason = some (text_or t.exit_trigger_reason "reconcile");
  exit_filled_px = some exit_price;
  exit_filled_at = some closed_at;
}

module _ (X : ExchangeClient) (d : Deployment) where
  unfoldable pub resolve_maker_price : OrderSide → Option (Decimal × Decimal) → M X Decimal
  resolve_maker_price side quotes = do
    (best_bid, best_ask) ← elim quotes [ none ↦ call X.get_best_bid_ask | some q ↦ pure q ]
    let price = maker_price_for_side side best_bid best_ask d.tick_size
    catch
        (do
          limits ← call X.get_price_limits
          pure (clamp_maker_price_to_limits side price limits.buy_lmt limits.sell_lmt d.tick_size))
        (λ _. pure price)

  unfoldable pub cancel_by_client_id : String → M X (Unit {0})
  cancel_by_client_id cl_ord_id = send (cancel cl_ord_id) (X.cancel_order_by_client_id cl_ord_id)

  unfoldable pub cancel_order_best_effort : ActiveOrder → M X (Unit {0})
  unfolding cancel_by_client_id
  cancel_order_best_effort order = do
    store (record_cancel_attempt order.client_id order.order_id order.purpose)
    catch (cancel_by_client_id order.client_id) unless_already_done

  -- The body of `_verify_order_canceled` once the order has been read.
  abbrev retry_cancel : String → Option OkxOrder → M X (Unit {0})
  retry_cancel client_id none = pure tt
  retry_cancel client_id (some order) =
      if is_resting order.state
      then catch (cancel_by_client_id client_id) swallow_runtime_error
      else pure tt

  unfoldable pub verify_order_canceled : ActiveOrder → M X (Unit {0})
  unfolding cancel_by_client_id
  verify_order_canceled order = do
    found ← call (X.get_order order.order_id)
    retry_cancel order.client_id found

  -- One round of the loop of `_sweep_untracked_executor_orders`.
  unfoldable pub sweep_order : OkxOrder → M X (Unit {0})
  unfolding cancel_by_client_id
  sweep_order order =
      if is_executor_client_id order.cl_ord_id
      then catch (cancel_by_client_id order.cl_ord_id) (λ _. pure tt)
      else pure tt

  unfoldable pub sweep_untracked_executor_orders : List OkxOrder → M X (Unit {0})
  sweep_untracked_executor_orders [] = pure tt
  sweep_untracked_executor_orders (order ∷ orders) =
      sweep_order order >> sweep_untracked_executor_orders orders

  -- `estimate_fees(...)`, as all three calls of `resolve_fee_breakdown` make it
  abbrev estimate : Tracker → Decimal → Decimal → Decimal → FeeBreakdown
  estimate lifecycle entry_px exit_px size =
      estimate_fees entry_px exit_px size lifecycle.entry_order_type lifecycle.exit_order_type
        d.exec_cfg.fee_rate_maker d.exec_cfg.fee_rate_taker

  -- `_fetch`. A timeout of the whole is one of the errors that a call may end with.
  abbrev fetch_fees :
      (Option String → Option String → X.State → Result (List OkxFill) × X.State)
      → Tracker
      → FeeBreakdown
      → M X FeeBreakdown
  fetch_fees get_order_fills lifecycle estimated = do
    entry_fills ← call (get_order_fills lifecycle.entry_exchange_ord_id lifecycle.entry_cl_ord_id)
    exit_fills ← call (get_order_fills lifecycle.exit_exchange_ord_id lifecycle.exit_cl_ord_id)
    pure (
        if is_empty entry_fills && is_empty exit_fills
        then estimated
        else fees_from_okx_fills entry_fills exit_fills)

  unfoldable pub resolve_fee_breakdown : Tracker → Decimal → Decimal → Decimal → M X FeeBreakdown
  resolve_fee_breakdown lifecycle entry_px exit_px size =
      let estimated = estimate lifecycle entry_px exit_px size in
      elim X.get_order_fills [
        | none ↦ pure estimated
        | some get_order_fills ↦
            catch (fetch_fees get_order_fills lifecycle estimated) (λ _. pure estimated)
      ]

  -- `lifecycle.exit_trigger_reason or exit_reason_raw`
  abbrev pub reason_or : Option String → Option String → Option String
  reason_or none raw = raw
  reason_or (some reason) raw = if str_eq reason "" then raw else some reason

  unfoldable pub finalize_closed_trade :
      ActivePosition → Tracker → Decimal → ℕ → Option String → String → M X TradeResult
  finalize_closed_trade p lifecycle exit_price closed_at exit_reason_raw close_source = do
    let exit_reason =
        normalize_exit_reason (reason_or lifecycle.exit_trigger_reason exit_reason_raw)
    fees ← resolve_fee_breakdown lifecycle p.entry_price exit_price p.size
    let trade =
        build_trade_result p lifecycle exit_price closed_at d.inst_id fees exit_reason close_source
    store (save_position_close p.position_id exit_price closed_at exit_reason close_source)
    store (save_trade_result trade)
    modify (λ w. record w { lifecycle = none })
    pure trade

  unfoldable pub finalize_reconciled_close : ActivePosition → Decimal → ℕ → M X (Unit {0})
  finalize_reconciled_close p exit_price closed_at = do
    on_lifecycle (reconciled exit_price closed_at)
    lifecycle ← gets (λ w. w.lifecycle)
    let lc = get_or lifecycle (reconciled exit_price closed_at new_tracker)
    finalize_closed_trade p lc exit_price closed_at (some "reconcile") "okx_reconcile"
    pure tt
