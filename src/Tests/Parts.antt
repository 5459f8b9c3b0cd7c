-- ===== src/Tests/Parts.antt =====
-- The parts that compute without an exchange, on concrete data.
use Prim.Native.Char.{Char, code}
use okx_hft_executor.Exchange.Rest.{
  normalize_cl_ord_id, keep_alnum, take_chars, normalize_cl_ord_id-starts_with,
}
use okx_hft_executor.Prelude.{
  Bool, leb, ◌&&◌, ◌||◌, starts_with, ℕ, false, some, List, [], ◌∷◌, ◌≡◌, refl, arith,
}
use okx_hft_executor.Prelude.Int.{pos, ◌+ℤ◌, ◌*ℤ◌, ◌≤ℤ◌}
use okx_hft_executor.Decimal.{TickSize, ticks, half_even, quantize}
use okx_hft_executor.Exchange.{buy, sell, OkxFill, maker_type}
use okx_hft_executor.Strategy.{long, default_config}
use okx_hft_executor.Position.{
  entry, build_active_position, check_exit_reason, calc_gross_pnl, clamp_maker_price_to_limits,
  maker_price_for_side,
}
use okx_hft_executor.Position.Exits.{Booked, check_exit_reason-Booked}
use okx_hft_executor.Position.Prices.{Respects, clamp-maker_price, clamp-near}
use okx_hft_executor.Lifecycle.{new_tracker, begin}
use okx_hft_executor.Lifecycle.Counts.{
  Event, entry_submit, reprice, entry_fill, replay, Tallies, replay-Tallies,
}
use okx_hft_executor.Accounting.{
  sum_fills, fees_from_okx_fills, of_amount, of_notional, calc_net_pnl,
}
use okx_hft_executor.Accounting.Laws.{
  fees_of, size_of, IsAverage, sum_fills-IsAverage, fees_from_okx_fills-total,
}
use okx_hft_executor.Tests.Data.{units, tick, fill}

abbrev events : List Event
events =
    entry_submit (units 50000) 1
    ∷ reprice entry (units 50001)
    ∷ entry_fill (units 50001) "7" "rb-1" 3
    ∷ []

replay-Tallies_example : Tallies (replay events (begin new_tracker "rb-1" (some tick))) 1 0
replay-Tallies_example = replay-Tallies "rb-1" (some tick) events

check_exit_reason-Booked_example :
    let p = build_active_position "p" "s" long (units 50000) 0 (units 1) tick default_config in
    Booked
      (check_exit_reason p (units 50080) 1)
      p
      1
      (calc_gross_pnl p (units 50080))
      (ticks tick 700 *ℤ units 1)
      (ticks tick 350 *ℤ units 1)
check_exit_reason-Booked_example =
    check_exit_reason-Booked "p" "s" long (units 50000) 0 (units 1) tick default_config
      (units 50080) 1 (omega arith)

abbrev fine_tick : TickSize
fine_tick = record { amount = pos 5; place = 10 }

clamp-maker_price_example : Respects buy (pos 500) (pos 510) (pos 490) (pos 300) (
    clamp_maker_price_to_limits buy
      (maker_price_for_side buy (pos 500) (pos 510) fine_tick)
      (pos 490)
      (pos 300)
      fine_tick)
clamp-maker_price_example =
    clamp-maker_price buy (pos 500) (pos 510) (pos 490) (pos 300) fine_tick (omega arith) (50, refl)
      (51, refl) (49, refl) (30, refl)

clamp-near_example :
    let low = clamp_maker_price_to_limits buy (pos 500) (pos 496) (pos 504) fine_tick in
    let high = clamp_maker_price_to_limits sell (pos 500) (pos 496) (pos 504) fine_tick in
    (low +ℤ low ≤ℤ pos 496 +ℤ pos 496 +ℤ pos 10) × (pos 504 +ℤ pos 504 ≤ℤ high +ℤ high +ℤ pos 10)
clamp-near_example = clamp-near (pos 500) (pos 496) (pos 504) fine_tick (omega arith)

-- The limit of 496 is exceeded: the price is rounded after it is bounded.
above_limit : clamp_maker_price_to_limits buy (pos 500) (pos 496) (pos 504) fine_tick ≡ pos 500
unfolding clamp_maker_price_to_limits quantize half_even
above_limit = refl

abbrev small : ℕ → OkxFill
small px = record {
  fill_px = pos px;
  fill_sz = pos 1;
  fee = pos 0;
  fee_ccy = "USDT";
  exec_type = maker_type;
}

sum_fills-IsAverage_example :
    IsAverage
      (pos 10)
      (pos 12)
      (size_of (small 10 ∷ small 12 ∷ []))
      (sum_fills (small 10 ∷ small 12 ∷ [])).avg_px
sum_fills-IsAverage_example =
    sum_fills-IsAverage (pos 10) (pos 12) (small 10 ∷ small 12 ∷ [])
      ((omega arith, omega arith, omega arith), ((omega arith, omega arith, omega arith), tt))

fees_from_okx_fills-total_example :
    let fees = fees_from_okx_fills (fill 1 ∷ []) (fill 2 ∷ []) in
    (fees.total_fee ≡ of_amount (fees_of (fill 1 ∷ fill 2 ∷ [])))
    × (fees.total_fee ≡ (fees_from_okx_fills (fill 2 ∷ []) (fill 1 ∷ [])).total_fee)
    × (calc_net_pnl (pos 3) fees.total_fee ≤ℤ of_notional (pos 3))
fees_from_okx_fills-total_example = fees_from_okx_fills-total (fill 1 ∷ []) (fill 2 ∷ []) (pos 3)

abbrev ascii_alnum : Char → Bool
ascii_alnum c =
    (leb 48 (code c) && leb (code c) 57)
    || (leb 65 (code c) && leb (code c) 90)
    || (leb 97 (code c) && leb (code c) 122)

ascii_alnum-dash : (c : Char) → code c ≡ 45 → ascii_alnum c ≡ false
ascii_alnum-dash c e = ground arith

-- The id of an entry order as the exchange has it.
sent_id : normalize_cl_ord_id ascii_alnum "rb-5f" ≡ "rb5f"
unfolding normalize_cl_ord_id keep_alnum take_chars
sent_id = refl

normalize_cl_ord_id-starts_with_example :
    starts_with (normalize_cl_ord_id ascii_alnum "rb-5f") "rb-" ≡ false
normalize_cl_ord_id-starts_with_example =
    normalize_cl_ord_id-starts_with ascii_alnum "rb-5f" ascii_alnum-dash
