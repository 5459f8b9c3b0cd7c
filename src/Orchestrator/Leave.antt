-- ===== src/Orchestrator/Leave.antt =====
-- The end of an iteration with a position: whether to leave it, and how.
use okx_hft_executor.Prelude.{
  ℕ, String, ◌<>◌, Bool, true, false, none, some, if◌then◌else◌, ◌⊎◌, inl, inr,
}
use okx_hft_executor.Decimal.{Decimal}
use okx_hft_executor.Exchange.{ExchangeClient}
use okx_hft_executor.Exchange.Errors.{Exn, runtime_error, other_exception, is_okx_reduce_sync_error}
use okx_hft_executor.Position.{
  ActivePosition, exit, ExitReason, tp, sl, timeout, expected_exit_side, check_exit_reason,
  should_use_market_exit,
}
use okx_hft_executor.Lifecycle.{Tracker, on_exit_trigger, on_exit_submit}
use okx_hft_executor.Orchestrator.World.{
  Deployment, M, pure, throw, ◌>>=◌, ◌>>◌, catch, send, store, set_order, on_lifecycle,
  new_client_order_id, save_order, save_service_event, limit_post_only, market, Flow, fall,
}
use okx_hft_executor.Orchestrator.Calls.{resolve_maker_price}
use okx_hft_executor.Orchestrator.Resting.{close_if_flat}

abbrev pub reason_text : ExitReason → String
reason_text tp = "tp"
reason_text sl = "sl"
reason_text timeout = "timeout"

abbrev pub order_type_text : Bool → String
order_type_text use_market = if use_market then "market" else "post_only"

-- `exit_event`
abbrev pub exit_event : ExitReason → Bool → String
exit_event reason use_market =
    reason_text reason <> (if use_market then "_exit_market" else "_exit")

module _ (X : ExchangeClient) (d : Deployment) (now : ℕ) where
  -- The exit order is sent: its price, and the exchange's order id.
  unfoldable pub place_exit : ActivePosition → Decimal → Bool → String → M X (Decimal × String)
  place_exit p last true client_id = do
    let side = expected_exit_side p
    order_id ←
        send (market side p.size client_id true) (X.place_market_order side p.size client_id true)
    pure {A = Decimal × String} (last, order_id)
  place_exit p last false client_id = do
    let side = expected_exit_side p
    price ← resolve_maker_price X d side none
    order_id ←
        send (limit_post_only side p.size price client_id true)
          (X.place_limit_post_only side p.size price client_id true)
    pure {A = Decimal × String} (price, order_id)

  -- `except RuntimeError as exc` around the submission
  unfoldable pub exit_rejected : ActivePosition → Decimal → Exn → M X Flow
  exit_rejected p last (other_exception text) = throw (other_exception text)
  exit_rejected p last (runtime_error text) =
      if is_okx_reduce_sync_error (runtime_error text)
      then (do
        store (save_service_event p.strategy_name "exit_sync_lost")
        close_if_flat X d now p last)
      else throw (runtime_error text)

  unfoldable pub try_exit :
      ActivePosition → Decimal → Bool → String → M X ((Decimal × String) ⊎ Flow)
  try_exit p last use_market client_id =
      catch (do placed ← place_exit p last use_market client_id; pure (inl placed))
        (λ exc. (do flow ← exit_rejected p last exc; pure (inr flow)))

  abbrev exit_submitted : ActivePosition → Decimal → Bool → Tracker → Tracker
  exit_submitted p price use_market t =
      record (on_exit_submit t price (order_type_text use_market) use_market now) {
        exit_maker_attempts = p.exit_maker_attempts;
      }

  -- The exit order is accepted.
  unfoldable pub adopt_exit :
      ActivePosition → ExitReason → Bool → String → Decimal → String → M X Flow
  adopt_exit p reason use_market client_id price order_id = do
    set_order (
        some (record {
          order_id = order_id;
          client_id = client_id;
          strategy_name = p.strategy_name;
          side = expected_exit_side p;
          purpose = exit;
          created_at = now;
          last_reprice_at = now;
          reduce_only = true;
          size = p.size;
        }))
    on_lifecycle (exit_submitted p price use_market)
    store (save_service_event p.strategy_name (exit_event reason use_market))
    store (
        save_order
          (record {
            local_order_id = client_id;
            exchange_order_id = order_id;
            side = expected_exit_side p;
            order_type = order_type_text use_market;
            price = some price;
            size = p.size;
            status = "submitted";
            filled_at = none;
            signal_id = none;
            position_id = some p.position_id;
            parent_order_id_local = none;
            reduce_only = true;
          })
          now)
    pure fall

  unfoldable pub submit_exit : ActivePosition → Decimal → ExitReason → Bool → String → M X Flow
  submit_exit p last reason use_market client_id = do
    placed ← try_exit p last use_market client_id
    elim placed [
      | inl (price, order_id) ↦ adopt_exit p reason use_market client_id price order_id
      | inr flow ↦ pure flow
    ]

  unfoldable pub leave : ActivePosition → Decimal → ExitReason → M X Flow
  leave p last reason = do
    on_lifecycle (λ t. on_exit_trigger t (reason_text reason))
    let use_market = should_use_market_exit p now d.config
    client_id ← new_client_order_id d.uuid4_hex (if use_market then "exit-mkt" else "exit")
    submit_exit p last reason use_market client_id

  unfoldable pub with_position : ActivePosition → Decimal → M X Flow
  with_position p last = elim (check_exit_reason p last now) [
    | none ↦ pure fall
    | some reason ↦ leave p last reason
  ]
