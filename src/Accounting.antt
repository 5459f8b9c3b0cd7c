-- ===== src/Accounting.antt =====
-- accounting/: fees and profit. A product of two amounts counts quanta of quanta, and a fee that a
-- rate gives counts quanta of those; all fees and results are brought to that third degree, where
-- they are compared and added exactly. An average price is kept as the fraction of its two sums.
pub mod Laws
use okx_hft_executor.Prelude.{
  ℕ, ◌+◌, ◌*◌, ◌<◌, String, Bool, true, false, Option, none, some, List, [], ◌∷◌, or_else, ltb,
  str_eq, if◌then◌else◌,
}
use okx_hft_executor.Prelude.Int.{ℤ, pos, ◌+ℤ◌, ◌-ℤ◌, ◌*ℤ◌, abs, ltb_ℤ}
use okx_hft_executor.Decimal.{Decimal, Ratio, quanta_per_unit}
use okx_hft_executor.Exchange.{
  Liquidity, maker, taker, ExecType, maker_type, taker_type, other_type, OkxFill,
}
use okx_hft_executor.Strategy.{PositionSide}
use okx_hft_executor.Position.{is_long}

-- An amount of the first or of the second degree, at the third.
abbrev pub of_amount : Decimal → ℤ
of_amount x = x *ℤ pos (quanta_per_unit * quanta_per_unit)

abbrev pub of_notional : ℤ → ℤ
of_notional x = x *ℤ pos quanta_per_unit

-- `calc_gross_pnl` of accounting/pnl_engine.py, of the second degree
unfoldable pub calc_gross_pnl : PositionSide → Decimal → Decimal → Decimal → ℤ
calc_gross_pnl side entry_price exit_price size =
    if is_long side
    then (exit_price -ℤ entry_price) *ℤ size
    else (entry_price -ℤ exit_price) *ℤ size

unfoldable pub calc_net_pnl : ℤ → ℤ → ℤ
calc_net_pnl gross_pnl total_fee = of_notional gross_pnl -ℤ total_fee

-- `"okx_fill"`, `"estimated_config"`, `"missing"`
pub data FeeSource : Type 0 where
  okx_fill estimated_config missing : FeeSource

pub record FeeBreakdown : Type 0 where
  pub entry_fee : ℤ
  pub exit_fee : ℤ
  pub total_fee : ℤ
  pub fee_ccy : Option String
  pub entry_liquidity : Option Liquidity
  pub exit_liquidity : Option Liquidity
  pub entry_avg_px : Option Ratio
  pub exit_avg_px : Option Ratio
  pub fee_source : FeeSource
  pub is_pending : Bool  -- `fee_status`: "pending" or "ok"

unfoldable pub liquidity_label : ExecType → Option Liquidity
liquidity_label maker_type = some maker
liquidity_label taker_type = some taker
liquidity_label other_type = none

-- `fee_ccy or fill.fee_ccy`, on what has been seen so far; an empty text counts as absent
abbrev pub ccy_or : Option String → String → Option String
ccy_or none ccy = some ccy
ccy_or (some seen) ccy = if str_eq seen "" then some ccy else some seen

-- `fee_ccy or exit_ccy`
abbrev pub ccy_or_option : Option String → Option String → Option String
ccy_or_option none other = other
ccy_or_option (some seen) other = if str_eq seen "" then other else some seen

-- The variables of the loop of `_sum_fills`. `liquidity_counts` is a dict with at most two keys,
-- and `maker_first` says which of them was inserted first.
pub record FillSums : Type 0 where
  pub total_fee : Decimal
  pub fee_ccy : Option String
  pub makers : ℕ
  pub takers : ℕ
  pub maker_first : Bool
  pub notional : ℤ
  pub size : Decimal

abbrev pub count_label : Option Liquidity → FillSums → FillSums
count_label none s = s
count_label (some maker) s = record s {
  makers = s.makers + 1;
  maker_first = if ltb 0 s.takers then s.maker_first else true;
}
count_label (some taker) s = record s { takers = s.takers + 1 }

-- one round of the loop
unfoldable pub add_fill : FillSums → OkxFill → FillSums
unfolding liquidity_label
add_fill s fill = count_label (liquidity_label fill.exec_type) (record s {
  total_fee = s.total_fee +ℤ abs fill.fee;
  fee_ccy = ccy_or s.fee_ccy fill.fee_ccy;
  notional = s.notional +ℤ fill.fill_px *ℤ fill.fill_sz;
  size = s.size +ℤ fill.fill_sz;
})

unfoldable pub add_fills : FillSums → List OkxFill → FillSums
add_fills s [] = s
add_fills s (fill ∷ fills) = add_fills (add_fill s fill) fills

abbrev pub no_sums : FillSums
no_sums = record {
  total_fee = pos 0;
  fee_ccy = none;
  makers = 0;
  takers = 0;
  maker_first = false;
  notional = pos 0;
  size = pos 0;
}

-- `max(liquidity_counts, key=liquidity_counts.get)`: of equal counts, the key inserted first
abbrev pub majority : FillSums → Option Liquidity
majority s =
    if ltb s.takers s.makers
    then some maker
    else if ltb s.makers s.takers
    then some taker
    else if ltb 0 s.makers
    then (if s.maker_first then some maker else some taker)
    else none

abbrev pub average : FillSums → Option Ratio
average s = if ltb_ℤ (pos 0) s.size then some (record { num = s.notional; den = s.size }) else none

-- The result of `_sum_fills`; without fills its four parts are those of `no_sums`.
pub record FillSummary : Type 0 where
  pub fee : Decimal
  pub ccy : Option String
  pub liquidity : Option Liquidity
  pub avg_px : Option Ratio

unfoldable pub sum_fills : List OkxFill → FillSummary
unfolding add_fills add_fill
sum_fills fills =
    let s = add_fills no_sums fills in
    record { fee = s.total_fee; ccy = s.fee_ccy; liquidity = majority s; avg_px = average s }

unfoldable pub fees_from_okx_fills : List OkxFill → List OkxFill → FeeBreakdown
unfolding sum_fills
fees_from_okx_fills entry_fills exit_fills =
    let a = sum_fills entry_fills in
    let b = sum_fills exit_fills in
    record {
      entry_fee = of_amount a.fee;
      exit_fee = of_amount b.fee;
      total_fee = of_amount a.fee +ℤ of_amount b.fee;
      fee_ccy = ccy_or_option a.ccy b.ccy;
      entry_liquidity = a.liquidity;
      exit_liquidity = b.liquidity;
      entry_avg_px = a.avg_px;
      exit_avg_px = b.avg_px;
      fee_source = okx_fill;
      is_pending = false;
    }

abbrev pub is_market : String → Bool
is_market order_type = str_eq order_type "market"

abbrev pub price_ratio : Decimal → Ratio
price_ratio px = record { num = px; den = pos 1 }

unfoldable pub estimate_fees :
    Decimal → Decimal → Decimal → String → String → Decimal → Decimal → FeeBreakdown
estimate_fees entry_px exit_px size entry_order_type exit_order_type fee_rate_maker fee_rate_taker =
    let entry_rate = if is_market entry_order_type then fee_rate_taker else fee_rate_maker in
    let exit_rate = if is_market exit_order_type then fee_rate_taker else fee_rate_maker in
    let entry_fee = entry_px *ℤ size *ℤ entry_rate in
    let exit_fee = exit_px *ℤ size *ℤ exit_rate in
    record {
      entry_fee = entry_fee;
      exit_fee = exit_fee;
      total_fee = entry_fee +ℤ exit_fee;
      fee_ccy = some "USDT";
      entry_liquidity = some (if is_market entry_order_type then taker else maker);
      exit_liquidity = some (if is_market exit_order_type then taker else maker);
      entry_avg_px = some (price_ratio entry_px);
      exit_avg_px = some (price_ratio exit_px);
      fee_source = estimated_config;
      is_pending = false;
    }

abbrev pub missing_fees : FeeBreakdown
missing_fees = record {
  entry_fee = pos 0;
  exit_fee = pos 0;
  total_fee = pos 0;
  fee_ccy = none;
  entry_liquidity = none;
  exit_liquidity = none;
  entry_avg_px = none;
  exit_avg_px = none;
  fee_source = missing;
  is_pending = true;
}
