-- ===== src/Tests/Data.antt =====
-- The data of the tests.
use okx_hft_executor.Prelude.{
  ℕ, ◌*◌, ◌/◌, true, false, str_eq, if◌then◌else◌, Option, none, some, [],
}
use okx_hft_executor.Prelude.Int.{pos, negsuc}
use okx_hft_executor.Decimal.{Decimal, quanta_per_unit, TickSize}
use okx_hft_executor.Exchange.{
  buy, sell, OrderSide, OkxOrder, filled, ExchangeClient, OkxFill, maker_type,
}
use okx_hft_executor.Exchange.Stub.{new_stub, stub_client}
use okx_hft_executor.Bootstrap.{live_mode}
use okx_hft_executor.Manager.{Strategies}
use okx_hft_executor.Strategy.{default_config, initial_state, long}
use okx_hft_executor.Position.{
  ActivePosition, ActiveOrder, Purpose, entry, exit, build_active_position,
}
use okx_hft_executor.Lifecycle.{new_tracker, begin}
use okx_hft_executor.Orchestrator.World.{StrategyLoopControl, drain, force, Deployment, World}
use okx_hft_executor.Orchestrator.Iteration.{Reading, Limits}

abbrev pub units : ℕ → Decimal
units n = pos (n * quanta_per_unit)

abbrev pub tick : TickSize
tick = record { amount = pos 100_000_000_000; place = 100_000_000_000 }

abbrev pub deployment : Deployment
deployment = record {
  strategy_name = "random_baseline";
  inst_id = "BTC-USDT-SWAP";
  exec_cfg = record {
    ord_type = "post_only";
    order_size = units 1;
    maker_reprice_sec = 2;
    maker_max_wait_sec = 10;
    fee_rate_maker = pos 200_000_000;
    fee_rate_taker = pos 500_000_000;
  };
  config = default_config;
  tick_size = tick;
  uuid4_hex = λ _. "5f";
  choice = λ _. long;
}

abbrev pub client : ExchangeClient
client = stub_client "BTC-USDT-SWAP" (λ n. n * 1000)

abbrev pub start : World client
start = record {
  active_position = none;
  active_order = none;
  has_open_position = false;
  has_active_order = false;
  strategy = initial_state;
  lifecycle = none;
  journal = [];
  sent = [];
  draws = 0;
  exchange = new_stub;
}

abbrev pub no_limits : Limits
no_limits = record { started_at = 0; run_seconds = none; max_loops = none }

abbrev pub at : ℕ → Option StrategyLoopControl → Reading
at n control = record { now = n * 1000000; control = control; control_later = control }

abbrev pub draining : Option StrategyLoopControl
draining = some (record { stop_mode = drain; allow_new_entries = false })

abbrev pub forced : StrategyLoopControl
forced = record { stop_mode = force; allow_new_entries = false }

abbrev pub held : ActivePosition
held =
    build_active_position "pos-1" "random_baseline" long (units 50000) 0 (units 1) tick
      default_config

abbrev pub order_of : Purpose → ActiveOrder
order_of entry = record {
  order_id = "stub-rb-1";
  client_id = "rb-1";
  strategy_name = "random_baseline";
  side = buy;
  purpose = entry;
  created_at = 0;
  last_reprice_at = 0;
  reduce_only = false;
  size = units 1;
}
order_of exit = record {
  order_id = "stub-exit-1";
  client_id = "exit-1";
  strategy_name = "random_baseline";
  side = sell;
  purpose = exit;
  created_at = 0;
  last_reprice_at = 0;
  reduce_only = true;
  size = units 1;
}

abbrev pub filled_order : OrderSide → OkxOrder
filled_order side = record {
  ord_id = "stub-1";
  cl_ord_id = "1";
  state = filled;
  side = side;
  px = some (units 50100);
  avg_px = some (units 50100);
  sz = units 1;
  fill_sz = units 1;
}

-- A world with an exit order for the position in hand, and one with an entry order.
abbrev pub leaving : World client
leaving = record start {
  active_position = some held;
  active_order = some (order_of exit);
  lifecycle = some (begin new_tracker "rb-1" (some tick));
}

abbrev pub entering : World client
entering = record start { active_order = some (order_of entry) }

abbrev pub holding : World client
holding = record start { active_position = some held }

abbrev pub tenth : Decimal
tenth = pos (quanta_per_unit / 10)

abbrev pub fill : ℕ → OkxFill
fill px = record {
  fill_px = units px;
  fill_sz = units 1;
  fee = negsuc 9;
  fee_ccy = "USDT";
  exec_type = maker_type;
}

-- The strategy "a" is deployed, and the process trades with credentials.
abbrev pub strategies : Strategies
strategies = record {
  deployments = λ name. if str_eq name "a" then some "BTC-USDT-SWAP" else none;
  settings = record {
    runtime_mode = live_mode;
    safe_mode = false;
    enable_real_okx_in_paper = false;
    okx_api_key = some "key";
    okx_api_secret = some "secret";
    okx_api_passphrase = some "phrase";
  };
}
