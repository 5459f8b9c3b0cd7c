-- ===== src/Position.antt =====
-- app/position_state.py: the position and the order that the loop holds in memory, and the pure
-- helpers on them.
pub mod Exits
pub mod Prices
use okx_hft_executor.Prelude.{
  ℕ, ◌+◌, ◌*◌, String, ◌<>◌, str_eq, Bool, true, false, ◌&&◌, ◌||◌, Option, none, some,
  if◌then◌else◌, ltb, leb,
}
use okx_hft_executor.Prelude.Int.{
  ℤ, pos, ◌+ℤ◌, ◌-ℤ◌, ◌*ℤ◌, leb_ℤ, ltb_ℤ, is_zero_ℤ, abs, min_ℤ, max_ℤ,
}
use okx_hft_executor.Decimal.{Decimal, TickSize, quantize, ticks}
use okx_hft_executor.Exchange.{OrderSide, buy, sell, other_side, OkxPosition}
use okx_hft_executor.Strategy.{StrategyConfig, PositionSide, long, short, seconds}

pub record ActivePosition : Type 0 where
  pub position_id : String
  pub strategy_name : String
  pub side : PositionSide
  pub entry_price : Decimal
  pub entry_ts : ℕ
  pub size : Decimal
  pub tp_price : Decimal
  pub sl_price : Decimal
  pub timeout_at : ℕ
  pub exit_maker_attempts : ℕ

pub data Purpose : Type 0 where
  entry exit : Purpose

pub record ActiveOrder : Type 0 where
  pub order_id : String
  pub client_id : String
  pub strategy_name : String
  pub side : OrderSide
  pub purpose : Purpose
  pub created_at : ℕ
  pub last_reprice_at : ℕ
  pub reduce_only : Bool
  pub size : Decimal

abbrev pub is_long : PositionSide → Bool
is_long long = true
is_long short = false

abbrev pub same_side : OrderSide → OrderSide → Bool
same_side buy buy = true
same_side sell sell = true
same_side _ _ = false

abbrev pub is_exit : Purpose → Bool
is_exit entry = false
is_exit exit = true

-- `exit_maker_attempts` starts at its default, 0, in every call of the program.
unfoldable pub build_active_position :
    String
    → String
    → PositionSide
    → Decimal
    → ℕ
    → Decimal
    → TickSize
    → StrategyConfig
    → ActivePosition
build_active_position position_id strategy_name side entry_price entry_ts size tick config =
    let tp_delta = ticks tick config.take_profit_ticks in
    let sl_delta = ticks tick config.stop_loss_ticks in
    record {
      position_id = position_id;
      strategy_name = strategy_name;
      side = side;
      entry_price = entry_price;
      entry_ts = entry_ts;
      size = size;
      tp_price = if is_long side then entry_price +ℤ tp_delta else entry_price -ℤ tp_delta;
      sl_price = if is_long side then entry_price -ℤ sl_delta else entry_price +ℤ sl_delta;
      timeout_at = entry_ts + seconds config.timeout_sec;
      exit_maker_attempts = 0;
    }

-- An empty text counts as absent, here and in `position_id or ...` below:
-- `f"pos-ex-{okx_pos.pos_id}" if okx_pos.pos_id else f"pos-ex-{okx_pos.inst_id}"`
abbrev exchange_pid : Option String → String → String
exchange_pid (some id) inst_id = "pos-ex-" <> (if str_eq id "" then inst_id else id)
exchange_pid none inst_id = "pos-ex-" <> inst_id

abbrev stable_pid : Option String → OkxPosition → String
stable_pid (some id) okx_pos =
    if str_eq id "" then exchange_pid okx_pos.pos_id okx_pos.inst_id else id
stable_pid none okx_pos = exchange_pid okx_pos.pos_id okx_pos.inst_id

-- `datetime.fromtimestamp(c_time_ms / 1000)`, in microseconds, or `now`
abbrev entry_time : Option ℕ → ℕ → ℕ
entry_time (some ms) now = ms * 1000
entry_time none now = now

abbrev side_of_amount : Decimal → PositionSide
side_of_amount amount = if ltb_ℤ (pos 0) amount then long else short

unfoldable pub build_active_position_from_okx :
    OkxPosition → String → TickSize → StrategyConfig → ℕ → Option String → Option ActivePosition
unfolding build_active_position
build_active_position_from_okx okx_pos strategy_name tick config now position_id =
    elim okx_pos.avg_px [
      | none ↦ none
      | some avg_px ↦
          if is_zero_ℤ okx_pos.pos_amount
          then none
          else some (
              build_active_position (stable_pid position_id okx_pos) strategy_name
                (side_of_amount okx_pos.pos_amount) avg_px (entry_time okx_pos.c_time_ms now)
                (abs okx_pos.pos_amount) tick config)
    ]

-- "tp", "sl", "timeout"
pub data ExitReason : Type 0 where
  tp sl timeout : ExitReason

unfoldable pub check_exit_reason : ActivePosition → Decimal → ℕ → Option ExitReason
check_exit_reason p price now =
    if leb p.timeout_at now
    then some timeout
    else if is_long p.side
    then (if leb_ℤ p.tp_price price
        then some tp
        else if leb_ℤ price p.sl_price
        then some sl
        else none)
    else if leb_ℤ price p.tp_price
    then some tp
    else if leb_ℤ p.sl_price price
    then some sl
    else none

unfoldable pub should_use_market_exit : ActivePosition → ℕ → StrategyConfig → Bool
should_use_market_exit p now config =
    if config.exit_market_fallback_enabled
    then (if leb config.exit_maker_max_attempts p.exit_maker_attempts
        then true
        else leb (p.timeout_at + seconds config.exit_market_grace_sec) now)
    else false

-- `calc_gross_pnl` of this file; accounting/pnl_engine.py has the one that trades are booked by.
unfoldable pub calc_gross_pnl : ActivePosition → Decimal → ℤ
calc_gross_pnl p exit_price =
    if is_long p.side
    then (exit_price -ℤ p.entry_price) *ℤ p.size
    else (p.entry_price -ℤ exit_price) *ℤ p.size

abbrev pub is_buy : OrderSide → Bool
is_buy buy = true
is_buy _ = false

unfoldable pub maker_price_for_side : OrderSide → Decimal → Decimal → TickSize → Decimal
maker_price_for_side side best_bid best_ask tick =
    if is_buy side then quantize best_bid tick else quantize best_ask tick

unfoldable pub clamp_maker_price_to_limits :
    OrderSide → Decimal → Decimal → Decimal → TickSize → Decimal
clamp_maker_price_to_limits side price buy_lmt sell_lmt tick =
    quantize (if is_buy side then min_ℤ price buy_lmt else max_ℤ price sell_lmt) tick

unfoldable pub is_entry_order_price_stale :
    OrderSide → Decimal → Decimal → Decimal → ℕ → TickSize → Bool
is_entry_order_price_stale order_side order_price best_bid best_ask stale_ticks tick =
    let gap = ticks tick stale_ticks in
    if leb stale_ticks 0
    then false
    else if is_buy order_side
    then ltb_ℤ gap (best_bid -ℤ order_price)
    else ltb_ℤ gap (order_price -ℤ best_ask)

unfoldable pub expected_exit_side : ActivePosition → OrderSide
expected_exit_side p = if is_long p.side then sell else buy

unfoldable pub is_probable_exit_order : ActivePosition → OrderSide → Bool
unfolding expected_exit_side
is_probable_exit_order p order_side = same_side order_side (expected_exit_side p)

unfoldable pub is_exit_order_price_stale :
    ActivePosition → OrderSide → Decimal → Decimal → Decimal → ℕ → TickSize → Bool
is_exit_order_price_stale p order_side order_price best_bid best_ask stale_ticks tick =
    let gap = ticks tick stale_ticks in
    if leb stale_ticks 0
    then false
    else if is_long p.side && same_side order_side sell
    then ltb_ℤ gap (best_ask -ℤ order_price)
    else if (if is_long p.side then false else true) && same_side order_side buy
    then ltb_ℤ gap (order_price -ℤ best_bid)
    else false
