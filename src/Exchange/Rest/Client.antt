-- ===== src/Exchange/Rest/Client.antt =====
-- exchange/okx/rest_client.py: the calls of `OkxRestClient`, as a client of the exchange protocol.
use okx_hft_executor.Prelude.{
  String, Bool, true, false, Option, none, some, List, [], ◌∷◌, str_eq, if◌then◌else◌,
}
use okx_hft_executor.Decimal.{Decimal}
use okx_hft_executor.Exchange.{
  OrderSide, buy, sell, other_side, OkxOrder, OkxPosition, ExchangeClient,
}
use okx_hft_executor.Exchange.Errors.{Result, ok}
use okx_hft_executor.Exchange.Rest.{normalize_cl_ord_id}
use okx_hft_executor.Exchange.Rest.Json.{
  Json, text, flag, Fields, end, field, Library, ◌>>=◌, is_true, or_null, items_of, first_of,
  text_field,
}
use okx_hft_executor.Exchange.Rest.Call.{Call, Answer, settle, single}
use okx_hft_executor.Exchange.Rest.Parse.{
  parse_order, parse_fill, parse_all, parse_positions, parse_ticker,
}
use okx_hft_executor.Exchange.Rest.Market.{
  Account, read_tick_size, read_best_bid_ask, read_price_limits,
}

-- What answers the requests
pub record Transport : Type 1 where
  pub State : Type 0
  pub send : Call → State → Answer × State

abbrev side_text : OrderSide → String
side_text buy = "buy"
side_text sell = "sell"
side_text other_side = ""

module _ (lib : Library) (account : Account) where
  abbrev get_call : String → List (String × String) → Bool → Call
  get_call path params auth = record {
    method = "GET";
    path = path;
    params = params;
    body = end;
    auth = auth;
  }

  abbrev post_call : String → Fields → Call
  post_call path body = record {
    method = "POST";
    path = path;
    params = [];
    body = body;
    auth = true;
  }

  abbrev inst_param : List (String × String)
  inst_param = ("instId", account.inst_id) ∷ []

  -- `if ord_id: params["ordId"] = ord_id`
  abbrev param_if : String → Option String → List (String × String)
  param_if k none = []
  param_if k (some v) = if str_eq v "" then [] else (k, v) ∷ []

  abbrev order_params : Option String → Option String → List (String × String)
  order_params none cl_ord_id = ("instId", account.inst_id) ∷ param_if "clOrdId" cl_ord_id
  order_params (some id) cl_ord_id =
      if str_eq id ""
      then ("instId", account.inst_id) ∷ param_if "clOrdId" cl_ord_id
      else ("instId", account.inst_id) ∷ ("ordId", id) ∷ param_if "clOrdId" cl_ord_id

  -- `if reduce_only: payload["reduceOnly"] = True`
  abbrev reduce_field : Bool → Fields
  reduce_field true = field "reduceOnly" (flag true) end
  reduce_field false = end

  abbrev pub market_call : OrderSide → Decimal → String → Bool → Call
  market_call side size cl_ord_id reduce_only = post_call "/api/v5/trade/order" (
      field "instId" (text account.inst_id) (
        field "tdMode" (text account.td_mode) (
          field "side" (text (side_text side)) (
            field "ordType" (text "market") (
              field "sz" (text (account.render size)) (
                field "clOrdId" (text (normalize_cl_ord_id lib.isalnum cl_ord_id))
                  (reduce_field reduce_only)))))))

  abbrev pub limit_call : OrderSide → Decimal → Decimal → String → Bool → Call
  limit_call side size price cl_ord_id reduce_only = post_call "/api/v5/trade/order" (
      field "instId" (text account.inst_id) (
        field "tdMode" (text account.td_mode) (
          field "side" (text (side_text side)) (
            field "ordType" (text "post_only") (
              field "sz" (text (account.render size)) (
                field "px" (text (account.render price)) (
                  field "clOrdId" (text (normalize_cl_ord_id lib.isalnum cl_ord_id))
                    (reduce_field reduce_only))))))))

  abbrev pub cancel_call : String → Call
  cancel_call cl_ord_id = post_call "/api/v5/trade/cancel-order" (
      field "instId" (text account.inst_id)
        (field "clOrdId" (text (normalize_cl_ord_id lib.isalnum cl_ord_id)) end))

  -- `str(item.get("ordId", ""))` of the first item
  unfoldable pub read_ord_id : Call → Json → Result String
  unfolding single text_field
  read_ord_id c found =
      single lib c false found >>= λ item. text_field lib "ordId" "" (or_null item)

  abbrev parse_or_none : Option Json → Result (Option OkxOrder)
  parse_or_none none = ok none
  parse_or_none (some item) =
      if is_true item then (parse_order lib item >>= λ o. ok (some o)) else ok none

  unfoldable pub read_order : Call → Json → Result (Option OkxOrder)
  unfolding single parse_order
  read_order c found = single lib c true found >>= λ item. parse_or_none item

  -- `get_positions`, from the data on
  unfoldable pub read_positions : Json → Result (List OkxPosition)
  unfolding items_of parse_positions
  read_positions found = items_of found >>= λ items. parse_positions lib account.inst_id items

  module _ (T : Transport) where
    -- A request, and the reading of its data
    unfoldable pub request : {A : Type 0} → Call → (Json → Result A) → T.State → Result A × T.State
    unfolding settle
    request c read s = let (a, s') = T.send c s in (settle lib c a >>= read, s')

    -- `get_order` is called with the exchange's id, and the account's data are not used.
    abbrev pub okx_rest_client : ExchangeClient
    okx_rest_client = record {
      State = T.State;
      cancel_order_by_client_id =
          λ id. request (cancel_call id) (λ v. single lib (cancel_call id) false v >>= λ _. ok tt);
      place_market_order = λ side size id reduce_only.
          let c = market_call side size id reduce_only in request c (read_ord_id c);
      place_limit_post_only = λ side size price id reduce_only.
          let c = limit_call side size price id reduce_only in request c (read_ord_id c);
      get_order = λ ord_id.
          let c = get_call "/api/v5/trade/order" (order_params (some ord_id) none) true in
          request c (read_order c);
      get_order_fills = some (λ ord_id cl_ord_id.
          request (get_call "/api/v5/trade/fills" (order_params ord_id cl_ord_id) true)
            (λ v. items_of v >>= λ items. parse_all lib (parse_fill lib) items));
      get_open_orders =
          request (get_call "/api/v5/trade/orders-pending" inst_param true)
            (λ v. items_of v >>= λ items. parse_all lib (parse_order lib) items);
      get_positions = request (get_call "/api/v5/account/positions" inst_param true) read_positions;
      get_account_snapshot =
          request (get_call "/api/v5/account/balance" [] true)
            (λ v. if is_true v then (first_of v >>= λ _. ok tt) else ok tt);
      get_ticker_last =
          request (get_call "/api/v5/market/ticker" inst_param false)
            (parse_ticker lib account.inst_id);
      get_tick_size =
          request (get_call "/api/v5/public/instruments" (("instType", "SWAP") ∷ []) false)
            (read_tick_size lib account);
      get_best_bid_ask =
          request
            (get_call "/api/v5/market/books" (("instId", account.inst_id) ∷ ("sz", "1") ∷ []) false)
            (read_best_bid_ask lib account);
      get_price_limits =
          request (get_call "/api/v5/public/price-limit" inst_param false)
            (read_price_limits lib account);
    }
