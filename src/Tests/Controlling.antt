-- ===== src/Tests/Controlling.antt =====
-- Requests to the control API and to OKX, on concrete data.
use okx_hft_executor.Prelude.{
  ℕ, ◌+◌, ◌≡◌, refl, true, false, Option, none, some, [], str_eq, if◌then◌else◌,
}
use okx_hft_executor.Decimal.{Decimal}
use okx_hft_executor.Exchange.{buy}
use okx_hft_executor.Exchange.Errors.{is_okx_price_limit_error}
use okx_hft_executor.Manager.{
  Manager, Row, enabled, disabled, running, stopped, returned, new_runtime, process_commands,
  update,
}
use okx_hft_executor.Control.{serve, verify_token, enable_strategy, disable_strategy}
use okx_hft_executor.Control.Commands.{disable_request-stops, enable_request-running}
use okx_hft_executor.Exchange.Rest.Json.{
  get_field, Json, text, array, object, nil, cons, end, field, Fields, Library,
}
use okx_hft_executor.Exchange.Rest.Call.{Call, payload}
use okx_hft_executor.Exchange.Rest.Client.{
  Transport, request, limit_call, read_ord_id, okx_rest_client,
}
use okx_hft_executor.Exchange.Rest.Market.{Account}
use okx_hft_executor.Exchange.Rest.Refusals.{price_limit, IsRefusal, IsRaised, request-recognized}
use okx_hft_executor.Exchange.Rest.Reported.{AreHeld, get_positions-AreHeld}
use okx_hft_executor.Tests.Data.{strategies, units, tick}

abbrev row : Row
row = record { row_inst_id = "BTC-USDT-SWAP"; desired = enabled; runtime = running }

-- The strategy "a" runs.
abbrev manager : Manager
manager = record {
  runtimes = update "a" (some (new_runtime "BTC-USDT-SWAP")) (λ _. none);
  registry = update "a" (some row) (λ _. none);
  commands = [];
}

disable_request-stops_example :
    let m' =
      process_commands strategies
        (λ _. returned)
        (serve (some "key") (some "key") (disable_strategy "a" true) manager).1 in
    (m'.runtimes "a" ≡ none)
    × (m'.registry "a" ≡ some (record row { desired = disabled; runtime = stopped }))
unfolding verify_token
disable_request-stops_example =
    disable_request-stops strategies (λ _. returned) (some "key") (some "key") "a" true manager refl
      refl

enable_request-running_example :
    let m' =
      process_commands strategies
        (λ _. returned)
        (serve (some "key") (some "key") (enable_strategy "a" (some "BTC-USDT-SWAP")) manager).1 in
    (m'.runtimes "a" ≡ some (new_runtime "BTC-USDT-SWAP"))
    × (m'.registry "a" ≡ some (record row { runtime = stopped }))
unfolding verify_token
enable_request-running_example =
    enable_request-running strategies (λ _. returned) (some "key") (some "key") "a" "BTC-USDT-SWAP"
      (new_runtime "BTC-USDT-SWAP") manager refl refl refl refl refl

abbrev number_of : Json → Option Decimal
number_of (text s) =
    if str_eq s "1" then some (units 1) else if str_eq s "0" then some (units 0) else none
number_of _ = none

-- A library that reads the numbers of the tests
abbrev library : Library
library = record {
  str_of = λ _. "None";
  decimal_of = number_of;
  tick_of = λ _. some tick;
  int_of = λ _. some 1;
  strip = λ s. s;
  isalnum = λ _. true;
  urlencode = λ _. "instId=BTC-USDT-SWAP";
}

abbrev account : Account
account = record { inst_id = "BTC-USDT-SWAP"; td_mode = "isolated"; render = λ _. "1" }

abbrev item : Fields
item = field "sCode" (text "51006") (field "sMsg" (text "price out of limit") end)

abbrev refusal : Fields
refusal =
    field "code" (text "1") (
      field "msg" (text "All operations failed")
        (field "data" (array (cons (object item) nil)) end))

-- OKX answers every request alike.
abbrev refusing : Transport
refusing = record { State = ℕ; send = λ c n. (payload (object refusal), n + 1) }

refusal-IsRefusal : IsRefusal library "51006" refusal
unfolding get_field
refusal-IsRefusal = record {
  first = item;
  rest = nil;
  not_ok = refl;
  has_data = refl;
  has_code = refl;
  named = refl;
}

abbrev order_call : Call
order_call = limit_call library account buy (units 1) (units 60000) "rb1" false

request-recognized_example :
    IsRaised is_okx_price_limit_error
      (request library account refusing order_call (read_ord_id library account order_call) 0).0
request-recognized_example =
    request-recognized library account refusing order_call (read_ord_id library account order_call)
      0 refusal price_limit refl refusal-IsRefusal

abbrev positions : Fields
positions = field "code" (text "0") (
    field "data"
      (array (
        cons (object (field "pos" (text "0") end))
          (cons (object (field "pos" (text "1") (field "posId" (text "99") end))) nil)))
      end)

-- OKX reports a position that is gone, and one that is not.
abbrev answering : Transport
answering = record { State = ℕ; send = λ c n. (payload (object positions), n + 1) }

get_positions-AreHeld_example :
    AreHeld ((okx_rest_client library account answering).get_positions 0).0
get_positions-AreHeld_example = get_positions-AreHeld library account answering 0
