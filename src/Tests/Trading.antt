-- ===== src/Tests/Trading.antt =====
-- The loop and its parts, run on the stub client.
use okx_hft_executor.Prelude.{
  ◌+◌, ◌≤◌, true, false, none, some, List, [], ◌∷◌, is_some, ◌≡◌, refl, arith, ◌⊎◌, inl, inr,
}
use okx_hft_executor.Prelude.Int.{◌+ℤ◌, ◌-ℤ◌, neg_ℤ}
use okx_hft_executor.Decimal.{quanta_per_unit}
use okx_hft_executor.Exchange.{OkxOrder, buy, sell, ExchangeClient}
use okx_hft_executor.Exchange.Errors.{raise, runtime_error, is_okx_cancel_already_done_error}
use okx_hft_executor.Exchange.Stub.{Stub, new_stub, get_ticker_last}
use okx_hft_executor.Strategy.{on_position_closed}
use okx_hft_executor.Position.{
  ExitReason, check_exit_reason, entry, exit, build_active_position, expected_exit_side,
}
use okx_hft_executor.Orchestrator.World.{World, stop, drain_completed}
use okx_hft_executor.Orchestrator.Iteration.{stop_check, Reading, Limits, run, iteration}
use okx_hft_executor.Orchestrator.Final.{on_filled}
use okx_hft_executor.Orchestrator.Leave.{with_position}
use okx_hft_executor.Orchestrator.Resting.{reprice}
use okx_hft_executor.Orchestrator.Quiet.{placed, opening}
use okx_hft_executor.Orchestrator.Managed.{OrderFits}
use okx_hft_executor.Orchestrator.Trade.{IsTraded, on_filled-trades}
use okx_hft_executor.Orchestrator.Asked.{IsLeaving}
use okx_hft_executor.Orchestrator.Exiting.{with_position-leaves}
use okx_hft_executor.Orchestrator.Turns.{Turned, run-fits, iteration-Turned, iteration-drained}
use okx_hft_executor.Orchestrator.Stopping.{run-ends, run-drains, iteration-drains}
use okx_hft_executor.Orchestrator.Canceling.{reprice-already_done}
use okx_hft_executor.Orchestrator.Closing.{Recorded, on_filled-closes}
use okx_hft_executor.Tests.Data.{
  units, deployment, client, start, no_limits, at, draining, held, order_of, filled_order, leaving,
  entering, holding, tenth,
}

abbrev readings : List Reading
readings = at 1 none ∷ at 2 none ∷ at 400 none ∷ []

abbrev after : World client
after = (run client deployment no_limits 0 readings start).1

run-fits_example :
    OrderFits after.active_order after.active_position × (placed after.sent ≤ placed start.sent + 3)
run-fits_example = run-fits client deployment no_limits 0 readings start tt

iteration-Turned_example :
    Turned 2 entering (iteration client deployment no_limits 1 (at 1 none) entering)
iteration-Turned_example = iteration-Turned client deployment no_limits 1 (at 1 none) entering refl

run-drains_example :
    opening
      (run client deployment no_limits 0 (at 1 draining ∷ at 400 draining ∷ []) leaving).1.sent
    ≤ opening leaving.sent
unfolding expected_exit_side build_active_position
run-drains_example =
    run-drains client deployment no_limits 0 (at 1 draining ∷ at 400 draining ∷ []) leaving
      (refl, (refl, tt)) (refl, refl, refl) refl

abbrev moved : Stub
moved = record { price = units 49980; tick_counter = 1; orders = [] }

iteration-drains_example :
    ((iteration client deployment no_limits 1 (at 1 draining) start).0 ≡ stop drain_completed)
    × ((iteration client deployment no_limits 1 (at 1 draining) start).1.sent ≡ [])
unfolding get_ticker_last stop_check ◌+ℤ◌ neg_ℤ quanta_per_unit
iteration-drains_example =
    iteration-drains client deployment no_limits 1 (at 1 draining)
      (record { inst_id = "BTC-USDT-SWAP"; last = units 49980; ts_ms = 1000 }) start moved moved
      moved moved refl refl refl refl refl refl refl refl

iteration-drained_example :
    ((iteration client deployment no_limits 1 (at 1 draining) start).1.active_order ≡ none)
    × ((iteration client deployment no_limits 1 (at 1 draining) start).1.active_position ≡ none)
iteration-drained_example =
    iteration-drained client deployment no_limits 1 (at 1 draining) start tt
      (iteration-drains_example.0)

abbrev two_loops : Limits
two_loops = record { started_at = 0; run_seconds = none; max_loops = some 2 }

run-ends_example : is_some (run client deployment two_loops 0 readings start).0 ≡ true
run-ends_example =
    run-ends client deployment two_loops 2 0 readings start refl (omega arith) (omega arith)

on_filled-closes_example :
    let w' =
      (on_filled client deployment 0 (order_of exit) (filled_order sell) (units 1) leaving).1 in
    Recorded held (units 50100) 0 leaving w'
    × (w'.active_position ≡ none)
    × (w'.active_order ≡ none)
    × (w'.strategy ≡ on_position_closed deployment.config leaving.strategy 0)
unfolding quanta_per_unit
on_filled-closes_example =
    on_filled-closes client deployment 0 (order_of exit) (filled_order sell) (units 1) held leaving
      refl refl

with_position-leaves_example :
    let w' = (with_position client deployment 400000000 held (units 50000) holding).1 in
    (check_exit_reason held (units 50000) 400000000 ≡ none) × (w' ≡ holding)
    ⊎ (reason : ExitReason) × (check_exit_reason held (units 50000) 400000000 ≡ some reason)
      × IsLeaving held holding w'
with_position-leaves_example =
    with_position-leaves client deployment 400000000 held (units 50000) holding refl refl

-- The position that the filled entry opens, with an exit order in hand.
abbrev opened : World client
opened =
    record (on_filled client deployment 0 (order_of entry) (filled_order buy) (units 1)
      entering).1 { active_order = some (order_of exit) }

abbrev sold : OkxOrder
sold = record (filled_order sell) { px = some (units 50300); avg_px = none }

on_filled-trades_example :
    IsTraded
      (filled_order buy)
      (units 1)
      (units 50100)
      (units 50300)
      0
      7000
      opened
      (on_filled client deployment 7000 (order_of exit) sold (units 2) opened).1
unfolding quanta_per_unit
on_filled-trades_example =
    on_filled-trades client deployment 0 7000 (order_of entry) (order_of exit) (filled_order buy)
      sold (units 1) (units 2) (units 50100) (units 50300) (units 1) entering opened refl refl
      (inl (refl, refl)) (inl (refl, refl)) (inr (tt, inl (refl, refl))) refl

-- The stub client, with an exchange that answers each cancel with an error.
abbrev refusing : ExchangeClient
refusing = record client {
  cancel_order_by_client_id = λ _ s. (raise (runtime_error "sCode=51400"), s);
}

abbrev at_refusing : World refusing
at_refusing = record {
  active_position = none;
  active_order = some (order_of entry);
  has_open_position = false;
  has_active_order = true;
  strategy = start.strategy;
  lifecycle = none;
  journal = [];
  sent = [];
  draws = 0;
  exchange = new_stub;
}

reprice-already_done_example :
    placed (reprice refusing deployment 0 (order_of entry) (units 1) at_refusing).1.sent ≡ 1
unfolding is_okx_cancel_already_done_error
reprice-already_done_example =
    reprice-already_done refusing deployment 0 (order_of entry) (units 1) "sCode=51400"
      (new_stub.price -ℤ tenth, new_stub.price +ℤ tenth) at_refusing new_stub new_stub refl refl
      refl
