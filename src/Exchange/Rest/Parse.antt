-- ===== src/Exchange/Rest/Parse.antt =====
-- exchange/okx/rest_client.py: how the items of a response become the records of the executor.
use okx_hft_executor.Prelude.{
  String, ◌||◌, Option, none, some, List, [], ◌∷◌, str_eq, if◌then◌else◌, get_or,
}
use okx_hft_executor.Prelude.Int.{is_zero_ℤ}
use okx_hft_executor.Decimal.{Decimal}
use okx_hft_executor.Exchange.{
  OrderSide, buy, sell, other_side, OrderState, live, partially_filled, filled, canceled, rejected,
  other_state, OkxOrder, OkxPosition, OkxTicker, ExecType, maker_type, taker_type, other_type,
  OkxFill,
}
use okx_hft_executor.Exchange.Errors.{runtime_error, other_exception, Result, ok, raise}
use okx_hft_executor.Exchange.Rest.Json.{
  Json, null, text, nil, cons, Items, Library, ◌>>=◌, py_str, is_true, get, or_null, first_of,
  decimal, parse_ms_timestamp, int, text_field, optional_field, decimal_field,
}

-- The texts of states, sides and roles that the executor tells apart
abbrev state_of : String → OrderState
state_of s =
    if str_eq s "live"
    then live
    else if str_eq s "partially_filled"
    then partially_filled
    else if str_eq s "filled"
    then filled
    else if str_eq s "canceled"
    then canceled
    else if str_eq s "rejected"
    then rejected
    else other_state

abbrev side_of : String → OrderSide
side_of s = if str_eq s "buy" then buy else if str_eq s "sell" then sell else other_side

abbrev exec_of : String → ExecType
exec_of s =
    if str_eq s "M" || str_eq s "maker"
    then maker_type
    else if str_eq s "T" || str_eq s "taker"
    then taker_type
    else other_type

module _ (lib : Library) where
  -- `_parse_order`
  unfoldable pub parse_order : Json → Result OkxOrder
  unfolding text_field optional_field decimal_field
  parse_order item = do
    ord_id ← text_field lib "ordId" "" item
    cl_ord_id ← text_field lib "clOrdId" "" item
    state ← text_field lib "state" "" item
    side ← text_field lib "side" "" item
    px ← optional_field lib "px" item
    avg_px ← optional_field lib "avgPx" item
    sz ← decimal_field lib "sz" item
    fill_sz ← decimal_field lib "accFillSz" item
    ok (record {
      ord_id = ord_id;
      cl_ord_id = cl_ord_id;
      state = state_of state;
      side = side_of side;
      px = px;
      avg_px = avg_px;
      sz = sz;
      fill_sz = fill_sz;
    })

  -- `int(item["ts"]) if item.get("ts") else None`, of which only the error is kept
  abbrev check_ts : Json → Result (Unit {0})
  check_ts ts = if is_true ts then (int lib ts >>= λ n. ok tt) else ok tt

  abbrev role : Json → ExecType
  role v = if is_true v then exec_of (py_str lib v) else other_type

  -- `_parse_fill`
  unfoldable pub parse_fill : Json → Result OkxFill
  unfolding get text_field decimal_field int
  parse_fill item = do
    fee ← decimal_field lib "fee" item
    fill_px ← decimal_field lib "fillPx" item
    fill_sz ← decimal_field lib "fillSz" item
    fee_ccy ← text_field lib "feeCcy" "USDT" item
    exec_type ← get "execType" item
    ts ← get "ts" item
    checked ← check_ts (or_null ts)
    ok (record {
      fill_px = fill_px;
      fill_sz = fill_sz;
      fee = fee;
      fee_ccy = fee_ccy;
      exec_type = role (or_null exec_type);
    })

  -- `[parse(item) for item in data]`
  unfoldable pub parse_all {ℓ} : {A : Type ℓ} → (Json → Result A) → Items → Result (List A)
  parse_all parse nil = ok []
  parse_all parse (cons v vs) = parse v >>= λ a. parse_all parse vs >>= λ rest. ok (a ∷ rest)

  -- `item.get("posId") or item.get("posID")`, stripped
  abbrev stripped : String → Option String
  stripped s = if str_eq s "" then none else some s

  abbrev id_of : Json → Option String
  id_of null = none
  id_of (text s) = if str_eq s "" then none else stripped (lib.strip s)
  id_of v = stripped (lib.strip (py_str lib v))

  abbrev either_id : Json → Json → Json
  either_id a b = if is_true a then a else b

  abbrev position_of : String → Json → Decimal → Result OkxPosition
  position_of inst_id item amount = do
    pos_id ← get "posId" item
    pos_id' ← get "posID" item
    named ← text_field lib "instId" inst_id item
    avg_px ← optional_field lib "avgPx" item
    c_time ← get "cTime" item
    ok (record {
      inst_id = named;
      pos_amount = amount;
      avg_px = avg_px;
      pos_id = id_of (either_id (or_null pos_id) (or_null pos_id'));
      c_time_ms = parse_ms_timestamp lib (or_null c_time);
    })

  -- An item without an amount, or with an amount of zero, is skipped.
  abbrev pub keep_position : String → Json → Option Decimal → Result (Option OkxPosition)
  keep_position inst_id item none = ok none
  keep_position inst_id item (some amount) =
      if is_zero_ℤ amount then ok none else (position_of inst_id item amount >>= λ p. ok (some p))

  unfoldable pub parse_position : String → Json → Result (Option OkxPosition)
  unfolding optional_field get text_field parse_ms_timestamp
  parse_position inst_id item =
      optional_field lib "pos" item >>= λ amount. keep_position inst_id item amount

  abbrev append_found : Option OkxPosition → List OkxPosition → List OkxPosition
  append_found none rest = rest
  append_found (some p) rest = p ∷ rest

  -- The loop of `get_positions`
  unfoldable pub parse_positions : String → Items → Result (List OkxPosition)
  unfolding parse_position
  parse_positions inst_id nil = ok []
  parse_positions inst_id (cons v vs) = parse_position inst_id v >>= λ p.
      parse_positions inst_id vs >>= λ rest. ok (append_found p rest)

  -- `item[k]`
  abbrev item_at : Option Json → Result Json
  item_at none = raise (other_exception "KeyError")
  item_at (some v) = ok v

  unfoldable pub parse_ticker : String → Json → Result OkxTicker
  unfolding first_of get decimal int text_field
  parse_ticker inst_id found =
      if is_true found
      then (do
        item ← first_of found
        named ← text_field lib "instId" inst_id item
        last ← get "last" item
        last_text ← item_at last
        last_px ← decimal lib last_text
        ts ← get "ts" item
        ts_ms ← int lib (get_or ts (text "0"))
        ok (record { inst_id = named; last = last_px; ts_ms = ts_ms }))
      else raise (runtime_error "Empty ticker data.")
