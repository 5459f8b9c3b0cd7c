-- ===== src/Exchange.antt =====
-- The exchange as the executor sees it: the records of exchange/okx/models.py and the protocol
-- `ExchangeClient` of exchange/protocols.py. What answers behind the protocol is a parameter of
-- every function that calls it; a call returns or raises, and changes a state of its own.
pub mod Errors
pub mod Stub
pub mod Rest
use okx_hft_executor.Prelude.{ℕ, String, Bool, Option, List}
use okx_hft_executor.Decimal.{Decimal, TickSize}
use Errors.{Result}

-- `"buy"` and `"sell"`; an order read from the exchange may carry any other text
pub data OrderSide : Type 0 where
  buy sell other_side : OrderSide

pub data OrderState : Type 0 where
  live partially_filled filled canceled rejected other_state : OrderState

pub record OkxOrder : Type 0 where
  pub ord_id : String
  pub cl_ord_id : String
  pub state : OrderState
  pub side : OrderSide
  pub px : Option Decimal
  pub avg_px : Option Decimal
  pub sz : Decimal
  pub fill_sz : Decimal

pub record OkxPosition : Type 0 where
  pub inst_id : String
  pub pos_amount : Decimal  -- `pos`, negative when short
  pub avg_px : Option Decimal
  pub pos_id : Option String
  pub c_time_ms : Option ℕ

pub record OkxTicker : Type 0 where
  pub inst_id : String
  pub last : Decimal
  pub ts_ms : ℕ

pub record OkxPriceLimits : Type 0 where
  pub buy_lmt : Decimal
  pub sell_lmt : Decimal

pub data Liquidity : Type 0 where
  maker taker : Liquidity

-- `exec_type`: "M" or "maker", "T" or "taker", or anything else (None included)
pub data ExecType : Type 0 where
  maker_type taker_type other_type : ExecType

pub record OkxFill : Type 0 where
  pub fill_px : Decimal
  pub fill_sz : Decimal
  pub fee : Decimal
  pub fee_ccy : String
  pub exec_type : ExecType

-- The calls of `ExchangeClient` that the executor makes. `get_order_fills` has none where the
-- client lacks that method, as the stub does.
pub record ExchangeClient : Type 1 where
  pub State : Type 0
  pub cancel_order_by_client_id : String → State → Result (Unit {0}) × State
  pub place_market_order : OrderSide → Decimal → String → Bool → State → Result String × State
  pub place_limit_post_only :
      OrderSide → Decimal → Decimal → String → Bool → State → Result String × State
  pub get_order : String → State → Result (Option OkxOrder) × State
  pub get_order_fills :
      Option (Option String → Option String → State → Result (List OkxFill) × State)
  pub get_open_orders : State → Result (List OkxOrder) × State
  pub get_positions : State → Result (List OkxPosition) × State
  pub get_account_snapshot : State → Result (Unit {0}) × State
  pub get_ticker_last : State → Result OkxTicker × State
  pub get_tick_size : State → Result TickSize × State
  pub get_best_bid_ask : State → Result (Decimal × Decimal) × State
  pub get_price_limits : State → Result OkxPriceLimits × State
