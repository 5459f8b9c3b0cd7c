-- ===== src/Orchestrator/World.antt =====
-- What the loop of app/orchestrator.py works on: its variables, the trade lifecycle and the calls
-- that it makes of the store, the requests that it sends to the exchange, and the exchange.
use okx_hft_executor.Prelude.{
  ℕ, ◌+◌, String, ◌<>◌, Bool, true, false, Option, none, some, List, ◌∷◌, if◌then◌else◌, option_map,
}
use okx_hft_executor.Prelude.Int.{is_zero_ℤ}
use okx_hft_executor.Decimal.{Decimal, TickSize}
use okx_hft_executor.Exchange.{OrderSide, ExchangeClient}
use okx_hft_executor.Exchange.Errors.{Exn, Result, ok, raise}
use okx_hft_executor.Strategy.{StrategyConfig, StrategyState, PositionSide}
use okx_hft_executor.Position.{ActivePosition, ActiveOrder, Purpose}
use okx_hft_executor.Lifecycle.{Tracker}
use okx_hft_executor.Finalize.{TradeResult}

-- `StrategyLoopControl`
pub data StopMode : Type 0 where
  not_stopped drain force : StopMode

pub record StrategyLoopControl : Type 0 where
  pub stop_mode : StopMode
  pub allow_new_entries : Bool

abbrev pub new_control : StrategyLoopControl
new_control = record { stop_mode = not_stopped; allow_new_entries = true }

unfoldable pub request_drain_stop : StrategyLoopControl → StrategyLoopControl
request_drain_stop c = record c { stop_mode = drain; allow_new_entries = false }

unfoldable pub request_force_stop : StrategyLoopControl → StrategyLoopControl
request_force_stop c = record c { stop_mode = force; allow_new_entries = false }

-- `StrategyExecutionConfig`, its decimal texts read
pub record ExecutionConfig : Type 0 where
  pub ord_type : String
  pub order_size : Decimal
  pub maker_reprice_sec : ℕ
  pub maker_max_wait_sec : ℕ
  pub fee_rate_maker : Decimal
  pub fee_rate_taker : Decimal

-- What stays fixed while the loop runs. `uuid4_hex n` and `choice n` are what
-- `uuid.uuid4().hex` and `random.choice` answer after n earlier ids have been drawn.
pub record Deployment : Type 0 where
  pub strategy_name : String
  pub inst_id : String
  pub exec_cfg : ExecutionConfig
  pub config : StrategyConfig
  pub tick_size : TickSize
  pub uuid4_hex : ℕ → String
  pub choice : ℕ → PositionSide

pub record OrderRow : Type 0 where
  pub local_order_id : String
  pub exchange_order_id : String
  pub side : OrderSide
  pub order_type : String
  pub price : Option Decimal
  pub size : Decimal
  pub status : String
  pub filled_at : Option ℕ
  pub signal_id : Option String
  pub position_id : Option String
  pub parent_order_id_local : Option String
  pub reduce_only : Bool

-- The calls of `ExecutorStore` that write. Of a service event the type and the strategy are kept.
pub data StoreCall : Type 0 where
  save_signal : String → PositionSide → ℕ → StoreCall
  save_order : OrderRow → ℕ → StoreCall
  save_position_open : ActivePosition → Option String → Option String → StoreCall
  save_position_close : String → Decimal → ℕ → String → String → StoreCall
  close_open_position_reconciled : String → ℕ → String → StoreCall
  save_trade_result : TradeResult → StoreCall
  save_service_event : String → String → StoreCall
  record_cancel_attempt : String → String → Purpose → StoreCall

-- The requests that can change orders or positions at the exchange.
pub data Request : Type 0 where
  limit_post_only : OrderSide → Decimal → Decimal → String → Bool → Request
  market : OrderSide → Decimal → String → Bool → Request
  cancel : String → Request

-- The two lists have the newest entry first.
pub record World (X : ExchangeClient) : Type 0 where
  pub active_position : Option ActivePosition
  pub active_order : Option ActiveOrder
  pub has_open_position : Bool
  pub has_active_order : Bool
  pub strategy : StrategyState
  pub lifecycle : Option Tracker
  pub journal : List StoreCall
  pub sent : List Request
  pub draws : ℕ
  pub exchange : X.State

-- A coroutine of the loop: it returns or raises, and what it changed before a raise stays changed.
abbrev pub M : ExchangeClient → Type 0 → Type 0
M X A = World X → Result A × World X

module _ {X : ExchangeClient} where
  abbrev pub pure : {A : Type 0} → A → M X A
  pure a w = (ok a, w)

  abbrev pub throw : {A : Type 0} → Exn → M X A
  throw e w = (raise e, w)

  infixl 5 ◌>>=◌ ◌>>◌
  abbrev pub ◌>>=◌ : {A B : Type 0} → M X A → (A → M X B) → M X B
  ◌>>=◌ m f w = let (r, w') = m w in elim r [ ok a ↦ f a w' | raise e ↦ (raise e, w') ]

  abbrev pub ◌>>◌ : {A B : Type 0} → M X A → M X B → M X B
  m >> k = m >>= λ _. k

  -- The call does not raise.
  abbrev pub IsOk : {A : Type 0} → Result A × World X → Type 0
  IsOk (ok a, w) = Unit
  IsOk (raise e, w) = ⊥

  -- `try: m except Exception as exc: h(exc)`
  abbrev pub catch : {A : Type 0} → M X A → (Exn → M X A) → M X A
  catch m h w = let (r, w') = m w in elim r [ ok a ↦ (ok a, w') | raise e ↦ h e w' ]

  abbrev pub gets : {A : Type 0} → (World X → A) → M X A
  gets f w = (ok (f w), w)

  abbrev pub modify : (World X → World X) → M X (Unit {0})
  modify f w = (ok tt, f w)

  abbrev pub skip : M X (Unit {0})
  skip w = (ok tt, w)

  -- A call of the exchange.
  abbrev pub call : {A : Type 0} → (X.State → Result A × X.State) → M X A
  call op w = let (r, s) = op w.exchange in (r, record w { exchange = s })

  -- A call that the exchange may act on, also where it raises.
  abbrev pub send : {A : Type 0} → Request → (X.State → Result A × X.State) → M X A
  send q op w = let (r, s) = op w.exchange in (r, record w { exchange = s; sent = q ∷ w.sent })

  abbrev pub store : StoreCall → M X (Unit {0})
  store c w = (ok tt, record w { journal = c ∷ w.journal })

  abbrev pub set_position : Option ActivePosition → M X (Unit {0})
  set_position p w = (ok tt, record w { active_position = p })

  abbrev pub set_order : Option ActiveOrder → M X (Unit {0})
  set_order o w = (ok tt, record w { active_order = o })

  abbrev pub set_has_open : Bool → M X (Unit {0})
  set_has_open b w = (ok tt, record w { has_open_position = b })

  abbrev pub set_has_order : Bool → M X (Unit {0})
  set_has_order b w = (ok tt, record w { has_active_order = b })

  -- `lc = store.get_trade_lifecycle(); if lc is not None: lc...`
  abbrev pub on_lifecycle : (Tracker → Tracker) → M X (Unit {0})
  on_lifecycle f w = (ok tt, record w { lifecycle = option_map f w.lifecycle })

  -- `new_client_order_id(prefix)`
  abbrev pub new_client_order_id : (ℕ → String) → String → M X String
  new_client_order_id uuid prefix w =
      (ok (prefix <> ("-" <> uuid w.draws)), record w { draws = w.draws + 1 })

-- How an iteration goes on: to the end of its body, to the next one after a pause, or out.
pub data Pause : Type 0 where
  no_pause loop_sleep backoff : Pause

pub data StopReason : Type 0 where
  max_loops_reached run_seconds_reached force_stop drain_completed : StopReason

pub data Flow : Type 0 where
  fall : Flow
  again : Pause → Flow
  stop : StopReason → Flow

-- `a or b` on two optional decimals: a zero counts as absent, but the last operand is returned
-- whatever it is.
abbrev pub or_decimal : Option Decimal → Option Decimal → Option Decimal
or_decimal none b = b
or_decimal (some x) b = if is_zero_ℤ x then b else some x

abbrev pub or_price : Option Decimal → Decimal → Decimal
or_price none d = d
or_price (some x) d = if is_zero_ℤ x then d else x
