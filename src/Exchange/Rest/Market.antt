-- ===== src/Exchange/Rest/Market.antt =====
-- exchange/okx/rest_client.py: what the public data of an instrument are read as.
use okx_hft_executor.Prelude.{String, ◌<>◌, Bool, false, Option, none, some, str_eq, if◌then◌else◌}
use okx_hft_executor.Decimal.{Decimal, TickSize}
use okx_hft_executor.Exchange.{OkxPriceLimits}
use okx_hft_executor.Exchange.Errors.{runtime_error, other_exception, Result, ok, raise}
use okx_hft_executor.Exchange.Rest.Json.{
  Json, text, nil, cons, Items, Library, ◌>>=◌, py_str, is_true, get, or_null, items_of, first_of,
  decimal,
}

-- The instrument and the margin mode of the deployment, and `str(x)` of a decimal
pub record Account : Type 0 where
  pub inst_id : String
  pub td_mode : String
  pub render : Decimal → String

-- `next((item for item in data if item.get("instId") == inst_id), None)`
abbrev is_named : String → Option Json → Bool
is_named inst_id (some (text s)) = str_eq s inst_id
is_named inst_id _ = false

unfoldable pub find_instrument : String → Items → Result (Option Json)
unfolding get
find_instrument inst_id nil = ok none
find_instrument inst_id (cons v vs) =
    let rest = find_instrument inst_id vs in
    get "instId" v >>= λ name. if is_named inst_id name then ok (some v) else rest

module _ (lib : Library) (account : Account) where
  -- A missing or empty size
  abbrev tick_or_raise : Json → Result TickSize
  tick_or_raise v =
      if is_true v
      then (elim (lib.tick_of v) [
        | none ↦ raise (other_exception "InvalidOperation")
        | some tick ↦ ok tick
      ])
      else raise (runtime_error "tickSz not present in instrument metadata.")

  abbrev tick_of_instrument : Option Json → Result TickSize
  tick_of_instrument none =
      raise (runtime_error ("Instrument " <> (account.inst_id <> " not found in SWAP list.")))
  tick_of_instrument (some item) =
      if is_true item
      then (get "tickSz" item >>= λ tick. tick_or_raise (or_null tick))
      else raise (runtime_error ("Instrument " <> (account.inst_id <> " not found in SWAP list.")))

  unfoldable pub read_tick_size : Json → Result TickSize
  unfolding get items_of find_instrument
  read_tick_size found =
      if is_true found
      then (do
        items ← items_of found
        target ← find_instrument account.inst_id items
        tick_of_instrument target)
      else raise (runtime_error ("Instrument metadata not found for " <> (account.inst_id <> ".")))

  abbrev pair : Decimal → Decimal → Decimal × Decimal
  pair a b = (a, b)

  -- `Decimal(str(levels[0][0]))`
  abbrev best_of : Json → Result Decimal
  best_of levels = do
    level ← first_of levels
    px ← first_of level
    decimal lib (text (py_str lib px))

  unfoldable pub read_best_bid_ask : Json → Result (Decimal × Decimal)
  unfolding first_of get decimal
  read_best_bid_ask found =
      if is_true found
      then (do
        book ← first_of found
        bids ← get "bids" book
        asks ← get "asks" book
        if is_true (or_null bids)
            then (if is_true (or_null asks)
                then (do
                  best_bid ← best_of (or_null bids)
                  best_ask ← best_of (or_null asks)
                  ok (pair best_bid best_ask))
                else raise (runtime_error "Order book has no bids/asks."))
            else raise (runtime_error "Order book has no bids/asks."))
      else raise (runtime_error "Order book data is empty.")

  unfoldable pub read_price_limits : Json → Result OkxPriceLimits
  unfolding first_of get decimal
  read_price_limits found =
      if is_true found
      then (do
        item ← first_of found
        buy_lmt ← get "buyLmt" item
        sell_lmt ← get "sellLmt" item
        if is_true (or_null buy_lmt)
            then (if is_true (or_null sell_lmt)
                then (do
                  bid ← decimal lib (text (py_str lib (or_null buy_lmt)))
                  ask ← decimal lib (text (py_str lib (or_null sell_lmt)))
                  ok (record { buy_lmt = bid; sell_lmt = ask }))
                else raise
                    (runtime_error ("buyLmt/sellLmt missing for " <> (account.inst_id <> "."))))
            else raise (runtime_error ("buyLmt/sellLmt missing for " <> (account.inst_id <> "."))))
      else raise (runtime_error ("Price limit data is empty for " <> (account.inst_id <> ".")))
