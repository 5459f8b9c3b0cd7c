-- ===== src/Tests/Starting.antt =====
-- The start, with a position and orders that were left at the exchange.
use okx_hft_executor.Prelude.{String, ◌<>◌, option_map, none, some, List, [], ◌∷◌, ◌≡◌, refl, false}
use okx_hft_executor.Prelude.Int.{abs}
use okx_hft_executor.Decimal.{quanta_per_unit}
use okx_hft_executor.Exchange.{OkxOrder, OkxPosition, OrderSide, live, buy, sell, ExchangeClient}
use okx_hft_executor.Exchange.Errors.{ok}
use okx_hft_executor.Exchange.Stub.{new_stub}
use okx_hft_executor.Position.{build_active_position_from_okx, is_probable_exit_order}
use okx_hft_executor.Reconcile.{filter_positions, adopt_open_exit_order}
use okx_hft_executor.Orchestrator.World.{World, cancel}
use okx_hft_executor.Orchestrator.Startup.{
  bootstrap_position_on_startup, startup_snapshot, on_snapshot, restore, cancel_stale_open_orders,
  cancel_stale_order, is_kept,
}
use okx_hft_executor.Orchestrator.Adopted.{IsSwept, bootstrap-adopts}
use okx_hft_executor.Tests.Data.{units, deployment, client, start, filled_order}

abbrev left_open : OrderSide → String → OkxOrder
left_open side id = record (filled_order side) {
  ord_id = id;
  cl_ord_id = "c" <> id;
  state = live;
  fill_sz = units 0;
}

abbrev open_orders : List OkxOrder
open_orders = left_open buy "1" ∷ left_open sell "2" ∷ []

abbrev long_position : List OkxPosition
long_position =
    record {
      inst_id = "BTC-USDT-SWAP";
      pos_amount = units 1;
      avg_px = some (units 50000);
      pos_id = some "99";
      c_time_ms = some 1;
    }
    ∷ []

-- The stub, but for a long position and two orders that were left at the exchange
abbrev left_over : ExchangeClient
left_over = record client {
  get_positions = λ s. (ok long_position, s);
  get_open_orders = λ s. (ok open_orders, s);
}

abbrev at_left_over : World left_over
at_left_over = record {
  active_position = none;
  active_order = none;
  has_open_position = false;
  has_active_order = false;
  strategy = start.strategy;
  lifecycle = none;
  journal = [];
  sent = [];
  draws = 0;
  exchange = new_stub;
}

-- The sell order is adopted, and the buy order is cancelled.
adopted_sell :
    let w' = (bootstrap_position_on_startup left_over deployment 0 [] at_left_over).1 in
    (option_map (λ a. a.order_id) w'.active_order ≡ some "2") × (w'.sent ≡ cancel "c1" ∷ [])
unfolding bootstrap_position_on_startup startup_snapshot on_snapshot filter_positions restore
    build_active_position_from_okx quanta_per_unit cancel_stale_open_orders abs cancel_stale_order
    is_kept adopt_open_exit_order is_probable_exit_order
adopted_sell = (refl, refl)

bootstrap-adopts_example :
    IsSwept open_orders (bootstrap_position_on_startup left_over deployment 0 [] at_left_over).1
bootstrap-adopts_example =
    bootstrap-adopts left_over deployment 0 [] long_position open_orders new_stub new_stub
      at_left_over (refl, refl, refl) refl refl
