-- ===== src/Orchestrator/Startup.antt =====
-- app/position_reconcile.py: `bootstrap_position_on_startup`, which sets the loop's position and
-- order before its first iteration. The ids of the open positions that the store lists are an
-- argument.
use okx_hft_executor.Prelude.{
  ℕ, ◌/◌, String, Bool, false, Option, none, some, List, [], ◌∷◌, if◌then◌else◌, str_eq, ◌||◌,
}
use okx_hft_executor.Prelude.Int.{pos}
use okx_hft_executor.Decimal.{TickSize, quanta_per_unit}
use okx_hft_executor.Exchange.{OkxOrder, OkxPosition, ExchangeClient}
use okx_hft_executor.Position.{
  ActivePosition, ActiveOrder, build_active_position_from_okx, is_probable_exit_order,
}
use okx_hft_executor.Reconcile.{filter_positions, adopt_open_exit_order}
use okx_hft_executor.Orchestrator.World.{
  Deployment, M, pure, throw, ◌>>=◌, ◌>>◌, catch, skip, call, store, set_position, set_order,
  save_position_open, save_service_event, close_open_position_reconciled,
}
use okx_hft_executor.Orchestrator.Calls.{cancel_by_client_id}

-- The order that was adopted, or one that closes the position: it is left in the book.
unfoldable pub is_kept : Option ActivePosition → Option ActiveOrder → OkxOrder → Bool
is_kept position adopted order =
    (elim adopted [ none ↦ false | some a ↦ str_eq order.ord_id a.order_id ])
    || (elim position [ none ↦ false | some p ↦ is_probable_exit_order p order.side ])

module _ (X : ExchangeClient) (d : Deployment) (now : ℕ) where
  -- The tick size that the loop starts with: the exchange's, or 0.1 for the one known instrument.
  unfoldable pub starting_tick_size : M X TickSize
  starting_tick_size = catch (call X.get_tick_size) (λ exc.
      if str_eq d.inst_id "BTC-USDT-SWAP"
      then pure (record { amount = pos (quanta_per_unit / 10); place = quanta_per_unit / 10 })
      else throw exc)

  -- One round of the loop of `_cancel_stale_open_orders`.
  unfoldable pub cancel_stale_order :
      Option ActivePosition → Option ActiveOrder → OkxOrder → M X (Unit {0})
  unfolding cancel_by_client_id
  cancel_stale_order position adopted order =
      if is_kept position adopted order
      then pure tt
      else catch (cancel_by_client_id X d order.cl_ord_id) (λ _. pure tt)

  unfoldable pub cancel_stale_open_orders :
      Option ActivePosition → Option ActiveOrder → List OkxOrder → M X (Unit {0})
  cancel_stale_open_orders position adopted [] = pure tt
  cancel_stale_open_orders position adopted (order ∷ orders) =
      cancel_stale_order position adopted order >> cancel_stale_open_orders position adopted orders

  -- Rows of positions that the exchange does not have are closed.
  unfoldable pub close_rows : List String → M X (Unit {0})
  close_rows [] = pure tt
  close_rows (id ∷ ids) =
      store (close_open_position_reconciled id now "reconcile_no_exchange_position")
      >> (store (save_service_event d.strategy_name "position_closed_reconcile") >> close_rows ids)

  abbrev pub first_row : List String → Option String
  first_row [] = none
  first_row (id ∷ _) = some id

  -- The position that the exchange reports is restored, with its exit order.
  unfoldable pub restore : List OkxOrder → Option ActivePosition → M X (Unit {0})
  restore open_orders none = skip
  restore open_orders (some p) = do
    store (save_position_open p none none)
    store (save_service_event d.strategy_name "position_reconciled_startup")
    let adopted = adopt_open_exit_order open_orders p d.strategy_name now
    cancel_stale_open_orders (some p) adopted open_orders
    set_position (some p)
    set_order adopted

  unfoldable pub on_snapshot : List String → List OkxOrder → List OkxPosition → M X (Unit {0})
  on_snapshot rows open_orders [] =
      close_rows rows >> cancel_stale_open_orders none none open_orders
  on_snapshot rows open_orders (okx_pos ∷ _) = restore open_orders (
      build_active_position_from_okx okx_pos d.strategy_name d.tick_size d.config now
        (first_row rows))

  -- The snapshot of positions and open orders, if it can be had.
  unfoldable pub startup_snapshot : M X (Option (List OkxPosition × List OkxOrder))
  startup_snapshot =
      catch
        (do
          positions ← call X.get_positions
          open_orders ← call X.get_open_orders
          pure {A = Option (List OkxPosition × List OkxOrder)} (some (positions, open_orders)))
        (λ _. (do store (save_service_event d.strategy_name "startup_reconcile_failed"); pure none))

  unfoldable pub bootstrap_position_on_startup : List String → M X (Unit {0})
  bootstrap_position_on_startup rows = do
    seen ← startup_snapshot
    elim seen [
      | none ↦ skip
      | some (positions, open_orders) ↦
          on_snapshot rows open_orders (filter_positions positions d.inst_id)
    ]
