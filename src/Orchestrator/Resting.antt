-- ===== src/Orchestrator/Resting.antt =====
-- The branch of the loop for an order that rests in the book: reprice it, or give it up.
use okx_hft_executor.Prelude.{
  ℕ, String, Bool, true, false, Option, none, some, if◌then◌else◌, ◌&&◌, ◌||◌, not, is_empty,
  option_map, ◌⊎◌, inl, inr,
}
use okx_hft_executor.Prelude.Int.{pos, leb_ℤ}
use okx_hft_executor.Decimal.{Decimal}
use okx_hft_executor.Exchange.{OkxOrder, ExchangeClient}
use okx_hft_executor.Exchange.Errors.{
  Exn, runtime_error, other_exception, is_okx_price_limit_error, is_okx_reduce_sync_error,
  is_okx_cancel_already_done_error,
}
use okx_hft_executor.Strategy.{elapsed, seconds, on_position_closed}
use okx_hft_executor.Position.{
  ActivePosition, ActiveOrder, Purpose, exit, is_exit, is_exit_order_price_stale,
  is_entry_order_price_stale,
}
use okx_hft_executor.Lifecycle.{on_reprice, on_timeout_cancel, on_exit_maker_attempt_failed}
use okx_hft_executor.Orchestrator.World.{
  Deployment, M, pure, throw, ◌>>=◌, ◌>>◌, catch, gets, modify, skip, call, send, store,
  set_position, set_order, set_has_open, set_has_order, on_lifecycle, new_client_order_id,
  or_decimal, save_order, save_service_event, limit_post_only, Flow, fall, again, stop, no_pause,
}
use okx_hft_executor.Orchestrator.Calls.{
  resolve_maker_price, cancel_order_best_effort, verify_order_canceled, finalize_reconciled_close,
}
use okx_hft_executor.Orchestrator.Final.{attempt_failed}

module _ (X : ExchangeClient) (d : Deployment) (now : ℕ) where
  -- The exchange has refused a reduce-only order: if it reports no position, the local one is
  -- closed at the last price, and otherwise kept. The next iteration follows in any case.
  unfoldable pub close_if_flat : ActivePosition → Decimal → M X Flow
  close_if_flat p last =
      catch (do exchange_positions ← call X.get_positions; pure (some exchange_positions))
        (λ _. pure none)
      >>= λ checked. elim checked [
        | none ↦ pure (again no_pause)
        | some exchange_positions ↦
            if not (is_empty exchange_positions)
            then (do set_has_open true; pure (again no_pause))
            else (do
              finalize_reconciled_close X d p last now
              store (save_service_event p.strategy_name "position_closed_sync")
              modify (λ w. record w { strategy = on_position_closed d.config w.strategy now })
              set_position none
              set_has_open false
              pure (again no_pause))
      ]

  -- `stale_reprice`, which asks for the touch only if the order has a price
  abbrev stale_at : ActiveOrder → Option ActivePosition → Decimal → Decimal → Decimal → Bool
  stale_at active (some p) px bid ask =
      if is_exit active.purpose
      then is_exit_order_price_stale p active.side px bid ask d.config.exit_stale_reprice_ticks
          d.tick_size
      else is_entry_order_price_stale active.side px bid ask d.config.entry_stale_reprice_ticks
          d.tick_size
  stale_at active none px bid ask =
      if is_exit active.purpose
      then false
      else is_entry_order_price_stale active.side px bid ask d.config.entry_stale_reprice_ticks
          d.tick_size

  unfoldable pub stale_reprice : ActiveOrder → OkxOrder → M X Bool
  stale_reprice active order = elim (or_decimal order.px order.avg_px) [
    | none ↦ pure false
    | some px ↦ do
      (best_bid, best_ask) ← call X.get_best_bid_ask
      position ← gets (λ w. w.active_position)
      pure (stale_at active position px best_bid best_ask)
  ]

  unfoldable pub close_local : Option ActivePosition → Decimal → M X Flow
  close_local none last = pure (again no_pause)
  close_local (some p) last = close_if_flat p last

  -- A replacement that was to reduce the position found none at the exchange.
  unfoldable pub reduce_sync_lost : ActiveOrder → Decimal → M X Flow
  reduce_sync_lost active last = do
    store (save_service_event active.strategy_name "exit_sync_lost")
    set_order none
    position ← gets (λ w. w.active_position)
    flow ← close_local position last
    set_has_order false
    pure flow

  -- The handler of a rejected replacement.
  unfoldable pub reprice_rejected : ActiveOrder → Decimal → Exn → M X Flow
  reprice_rejected active last (other_exception text) = throw (other_exception text)
  reprice_rejected active last (runtime_error text) =
      let exc = runtime_error text in
      if is_okx_price_limit_error exc
      then (do set_order none; set_has_order false; pure (again no_pause))
      else if is_exit active.purpose && is_okx_reduce_sync_error exc
      then reduce_sync_lost active last
      else throw exc

  -- The replacement was accepted.
  unfoldable pub adopt_reprice : ActiveOrder → Decimal → String → String → M X Flow
  adopt_reprice active price new_client_id new_order_id = do
    on_lifecycle (λ t. on_reprice t active.purpose price)
    set_order (
        some (record active {
          order_id = new_order_id;
          client_id = new_client_id;
          last_reprice_at = now;
        }))
    lifecycle ← gets (λ w. w.lifecycle)
    position ← gets (λ w. w.active_position)
    store (
        save_order
          (record {
            local_order_id = new_client_id;
            exchange_order_id = new_order_id;
            side = active.side;
            order_type = "post_only";
            price = some price;
            size = active.size;
            status = "submitted";
            filled_at = none;
            signal_id =
                if is_exit active.purpose
                then none
                else elim lifecycle [ none ↦ none | some t ↦ t.entry_signal_id ];
            position_id = option_map (λ p. p.position_id) position;
            parent_order_id_local = some active.client_id;
            reduce_only = active.reduce_only;
          })
          now)
    pure fall

  -- `except RuntimeError as exc` around the cancel
  abbrev if_already_done : Exn → M X Flow
  if_already_done (runtime_error text) =
      if is_okx_cancel_already_done_error (runtime_error text)
      then pure (again no_pause)
      else throw (runtime_error text)
  if_already_done (other_exception text) = throw (other_exception text)

  -- The new order's id, or how the iteration goes on where it was rejected.
  unfoldable pub place_again : ActiveOrder → Decimal → Decimal → String → M X (String ⊎ Flow)
  place_again active last price new_client_id =
      catch
        (do
          new_order_id ←
              send (limit_post_only active.side active.size price new_client_id active.reduce_only)
                (X.place_limit_post_only active.side active.size price new_client_id
                  active.reduce_only)
          pure (inl new_order_id))
        (λ exc. (do flow ← reprice_rejected active last exc; pure (inr flow)))

  unfoldable pub submit_reprice : ActiveOrder → Decimal → Decimal → String → M X Flow
  submit_reprice active last price new_client_id = do
    placed ← place_again active last price new_client_id
    elim placed [
      | inl new_order_id ↦ adopt_reprice active price new_client_id new_order_id
      | inr flow ↦ pure flow
    ]

  -- The price at the touch, and a new id.
  unfoldable pub price_anew : ActiveOrder → M X (Decimal × String)
  price_anew active = do
    quotes ← call X.get_best_bid_ask
    price ← resolve_maker_price X d active.side (some quotes)
    new_client_id ←
        new_client_order_id d.uuid4_hex (if is_exit active.purpose then "exit" else "entry")
    pure {A = Decimal × String} (price, new_client_id)

  -- The cancel, in its `try`.
  unfoldable pub cancel_first : ActiveOrder → M X Flow
  cancel_first active = catch (do cancel_order_best_effort X d active; pure fall) if_already_done

  -- Cancel the order and place it anew at the touch.
  unfoldable pub reprice : ActiveOrder → Decimal → M X Flow
  reprice active last = do
    go_on ← cancel_first active
    elim go_on [
      | fall ↦ do
        (price, new_client_id) ← price_anew active
        submit_reprice active last price new_client_id
      | again pause ↦ pure (again pause)
      | stop reason ↦ pure (stop reason)
    ]

  -- The order has waited too long: an exit counts as a failed attempt.
  abbrev count_timeout : Purpose → Option ActivePosition → M X (Unit {0})
  count_timeout exit (some p) = do
    on_lifecycle on_exit_maker_attempt_failed
    set_position (some (attempt_failed p))
  count_timeout _ p = skip

  unfoldable pub give_up : ActiveOrder → M X Flow
  give_up active = do
    cancel_order_best_effort X d active
    verify_order_canceled X d active
    on_lifecycle (λ t. on_timeout_cancel t active.purpose)
    position ← gets (λ w. w.active_position)
    count_timeout active.purpose position
    set_order none
    pure fall

  abbrev reprice_sec : ActiveOrder → ℕ
  reprice_sec active =
      if is_exit active.purpose
      then d.config.exit_maker_reprice_sec
      else d.exec_cfg.maker_reprice_sec

  abbrev max_wait_sec : ActiveOrder → ℕ
  max_wait_sec active =
      if is_exit active.purpose
      then d.config.exit_maker_max_wait_sec
      else d.exec_cfg.maker_max_wait_sec

  -- `reprice_elapsed >= reprice_sec`, `max_wait_elapsed <= max_wait_sec`
  abbrev is_due : ActiveOrder → Bool
  is_due active = leb_ℤ (pos (seconds (reprice_sec active))) (elapsed now active.last_reprice_at)

  abbrev may_wait : ActiveOrder → Bool
  may_wait active = leb_ℤ (elapsed now active.created_at) (pos (seconds (max_wait_sec active)))

  unfoldable pub on_resting : ActiveOrder → OkxOrder → Decimal → M X Flow
  on_resting active order last = do
    stale ← stale_reprice active order
    if (is_due active || stale) && may_wait active
        then reprice active last
        else if not (may_wait active)
        then give_up active
        else pure fall
