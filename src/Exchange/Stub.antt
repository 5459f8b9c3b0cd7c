-- ===== src/Exchange/Stub.antt =====
-- exchange/okx/stub_client.py: the client without a network, whose orders are filled at once. Its
-- clock is an argument: what the n-th ticker is stamped with.
use okx_hft_executor.Prelude.{
  ℕ, suc, ◌+◌, ◌*◌, ◌/◌, ◌%◌, ◌==◌, String, ◌<>◌, Option, none, some, List, [], ◌∷◌, if◌then◌else◌,
  str_eq, ◌≡◌, refl, false,
}
use text.Mathlib.TextPositions.{eq_refl}
use okx_hft_executor.Prelude.Int.{pos, negsuc, ◌+ℤ◌, ◌-ℤ◌, neg_ℤ}
use okx_hft_executor.Decimal.{Decimal, quanta_per_unit}
use okx_hft_executor.Exchange.{OrderSide, filled, OkxOrder, OkxTicker, ExchangeClient}
use okx_hft_executor.Exchange.Errors.{Result, ok}

pub record Stub : Type 0 where
  pub price : Decimal
  pub tick_counter : ℕ
  pub orders : List (String × OkxOrder)  -- the dict, newest entry first

abbrev units : ℕ → Decimal
units n = pos (n * quanta_per_unit)

abbrev tenth : Decimal
tenth = pos (quanta_per_unit / 10)

abbrev pub new_stub : Stub
new_stub = record { price = units 50000; tick_counter = 0; orders = [] }

-- `ord_id` in the dict
unfoldable pub lookup : String → List (String × OkxOrder) → Option OkxOrder
lookup id [] = none
lookup id ((key, order) ∷ orders) =
    let rest = lookup id orders in if str_eq id key then some order else rest

-- The product by a number of hundredths. It is exact, since the price is a multiple of five units.
abbrev percent : ℕ → Decimal → Decimal
percent k (pos n) = pos (n * k / 100)
percent k (negsuc n) = neg_ℤ (pos (suc n * k / 100))

abbrev answer : {A : Type 0} → A → Stub → Result A × Stub
answer a s = (ok a, s)

-- Both orders are filled when they are placed: at the stub's price, or at their own.
unfoldable pub place : OrderSide → Decimal → Decimal → String → Stub → Result String × Stub
place side size price cl_ord_id s =
    let ord_id = "stub-" <> cl_ord_id in
    let order : OkxOrder = record {
      ord_id = ord_id;
      cl_ord_id = cl_ord_id;
      state = filled;
      side = side;
      px = some price;
      avg_px = some price;
      sz = size;
      fill_sz = size;
    } in
    (ok ord_id, record s { orders = (ord_id, order) ∷ s.orders })

unfoldable pub get_order : String → Stub → Result (Option OkxOrder) × Stub
get_order ord_id s = (ok (if str_eq ord_id "" then none else lookup ord_id s.orders), s)

unfoldable pub get_ticker_last : String → (ℕ → ℕ) → Stub → Result OkxTicker × Stub
get_ticker_last inst_id clock_ms s =
    let count = s.tick_counter + 1 in
    let shift = if count % 2 == 0 then units 25 else neg_ℤ (units 20) in
    let price = s.price +ℤ shift in
    (
      ok (record { inst_id = inst_id; last = price; ts_ms = clock_ms count }),
      record s { tick_counter = count; price = price },
    )

abbrev pub stub_client : String → (ℕ → ℕ) → ExchangeClient
stub_client inst_id clock_ms = record {
  State = Stub;
  cancel_order_by_client_id = λ _. answer tt;
  place_market_order = λ side size cl_ord_id _ s. place side size s.price cl_ord_id s;
  place_limit_post_only = λ side size price cl_ord_id _ s. place side size price cl_ord_id s;
  get_order = get_order;
  get_order_fills = none;
  get_open_orders = answer [];
  get_positions = answer [];
  get_account_snapshot = answer tt;
  get_ticker_last = get_ticker_last inst_id clock_ms;
  get_tick_size = answer (record { amount = tenth; place = quanta_per_unit / 10 });
  get_best_bid_ask = λ s. answer (s.price -ℤ tenth, s.price +ℤ tenth) s;
  get_price_limits =
      λ s. answer (record { buy_lmt = percent 105 s.price; sell_lmt = percent 95 s.price }) s;
}

-- An order that the stub was given is found under the id that it answered, if that is not the
-- empty text: filled, on its side, for its whole size, at its price.
pub place-get_order :
    (side : OrderSide) (size price : Decimal) (cl_ord_id : String) (s : Stub)
    → str_eq ("stub-" <> cl_ord_id) "" ≡ false
    → let (answered, s') = place side size price cl_ord_id s in
      (answered ≡ ok ("stub-" <> cl_ord_id))
      × ((get_order ("stub-" <> cl_ord_id) s').0
          ≡ ok (
              some (record {
                ord_id = "stub-" <> cl_ord_id;
                cl_ord_id = cl_ord_id;
                state = filled;
                side = side;
                px = some price;
                avg_px = some price;
                sz = size;
                fill_sz = size;
              })))
unfolding place get_order lookup
place-get_order side size price cl_ord_id s e = (refl, rw (e, eq_refl ("stub-" <> cl_ord_id)) refl)

-- Placing an order leaves the orders under other ids as they were.
pub place-other :
    (side : OrderSide) (size price : Decimal) (cl_ord_id ord_id : String) (s : Stub)
    → str_eq ord_id ("stub-" <> cl_ord_id) ≡ false
    → (get_order ord_id (place side size price cl_ord_id s).1).0 ≡ (get_order ord_id s).0
unfolding place get_order lookup
place-other side size price cl_ord_id ord_id s e = rw e refl
