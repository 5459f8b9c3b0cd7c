-- ===== src/Reconcile.antt =====
-- app/position_reconcile.py: the functions that compute on what the exchange reports.
use okx_hft_executor.Prelude.{
  ℕ, String, true, Option, none, some, List, [], ◌∷◌, if◌then◌else◌, filter, is_empty, str_eq,
}
use okx_hft_executor.Decimal.{TickSize}
use okx_hft_executor.Exchange.{OkxOrder, OkxPosition}
use okx_hft_executor.Strategy.{StrategyConfig}
use okx_hft_executor.Position.{
  ActivePosition, ActiveOrder, exit, build_active_position_from_okx, is_probable_exit_order,
}

-- The local position if there is one; else the first that the exchange reports.
unfoldable pub reconcile_exchange_position_if_needed :
    Option ActivePosition
    → List OkxPosition
    → String
    → TickSize
    → StrategyConfig
    → ℕ
    → Option ActivePosition
reconcile_exchange_position_if_needed (some p) positions name tick config now = some p
reconcile_exchange_position_if_needed none [] name tick config now = none
reconcile_exchange_position_if_needed none (okx_pos ∷ _) name tick config now =
    build_active_position_from_okx okx_pos name tick config now none

-- `_filter_positions`
unfoldable pub filter_positions : List OkxPosition → String → List OkxPosition
filter_positions positions inst_id =
    let inst_matches = filter (λ p. str_eq p.inst_id inst_id) positions in
    if is_empty inst_matches then positions else inst_matches

-- `_adopt_open_exit_order`
unfoldable pub adopt_open_exit_order :
    List OkxOrder → ActivePosition → String → ℕ → Option ActiveOrder
adopt_open_exit_order [] p name now = none
adopt_open_exit_order (order ∷ orders) p name now =
    let rest = adopt_open_exit_order orders p name now in
    if is_probable_exit_order p order.side
    then some (record {
      order_id = order.ord_id;
      client_id = order.cl_ord_id;
      strategy_name = name;
      side = order.side;
      purpose = exit;
      created_at = now;
      last_reprice_at = now;
      reduce_only = true;
      size = p.size;
    })
    else rest
