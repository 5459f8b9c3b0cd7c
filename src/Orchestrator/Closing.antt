-- ===== src/Orchestrator/Closing.antt =====
-- What a filled order leaves behind: a position, or the result of a closed trade.
use okx_hft_executor.Prelude.{
  ◌≡◌, ℕ, String, ◌<>◌, if◌then◌else◌, Option, none, some, List, [], ◌∷◌, arith, inl, inr, get_or,
  option_map, Option-cases,
}
use okx_hft_executor.Prelude.Int.{◌+ℤ◌, int_laws}
use okx_hft_executor.Decimal.{Decimal}
use okx_hft_executor.Exchange.{OkxOrder, ExchangeClient}
use okx_hft_executor.Exchange.Errors.{Result-cases}
use okx_hft_executor.Strategy.{long, short, on_position_closed}
use okx_hft_executor.Position.{
  ActivePosition, ActiveOrder, entry, exit, is_buy, build_active_position,
}
use okx_hft_executor.Lifecycle.{Tracker, new_tracker, on_exit_fill}
use okx_hft_executor.Accounting.{calc_gross_pnl, of_notional, calc_net_pnl, FeeBreakdown}
use okx_hft_executor.Finalize.{normalize_exit_reason, TradeResult, build_trade_result}
use okx_hft_executor.Orchestrator.World.{Deployment, World, StoreCall, save_trade_result}
use okx_hft_executor.Orchestrator.Calls.{reason_or, resolve_fee_breakdown, finalize_closed_trade}
use okx_hft_executor.Orchestrator.Final.{
  fill_purpose, open_position, close_position, on_filled, fill_price_of, exit_close_source,
  filled_size,
}
use okx_hft_executor.Orchestrator.Quiet.{finalize_closed_trade-Quiet, resolve_fee_breakdown-Quiet}
use okx_hft_executor.Orchestrator.Ended.{close_position-sent}

-- The results of trades that were stored, newest first.
abbrev pub trades : List StoreCall → List TradeResult
trades [] = []
trades (save_trade_result t ∷ cs) = t ∷ trades cs
trades (_ ∷ cs) = trades cs

-- A trade of the position was recorded once, and its parts add up.
pub record Recorded {X : ExchangeClient} (p : ActivePosition) (exit_price : Decimal) (closed_at : ℕ)
    (w w' : World X) : Type 0 where
  pub trade : TradeResult
  pub stored : trades w'.journal ≡ trade ∷ trades w.journal
  pub of_position : trade.position_id ≡ p.position_id
  pub priced : trade.gross_pnl ≡ calc_gross_pnl p.side p.entry_price exit_price p.size
  pub balanced : trade.net_pnl +ℤ trade.fees ≡ of_notional trade.gross_pnl
  pub timed : (trade.opened_at ≡ p.entry_ts) × (trade.closed_at ≡ closed_at)
  pub lifecycle_ended : w'.lifecycle ≡ none

build_trade_result-balanced :
    (p : ActivePosition) (t : Tracker) (exit_price : Decimal) (closed_at : ℕ) (inst_id : String)
    (fees : FeeBreakdown) (reason source : String)
    → let r = build_trade_result p t exit_price closed_at inst_id fees reason source in
      r.net_pnl +ℤ r.fees ≡ of_notional r.gross_pnl
unfolding build_trade_result calc_net_pnl
build_trade_result-balanced p t exit_price closed_at inst_id fees reason source = omega int_laws

module _ (X : ExchangeClient) (d : Deployment) where
  fees-journal :
      (t : Tracker) (entry_px exit_px size : Decimal) (w : World X)
      → (resolve_fee_breakdown X d t entry_px exit_px size w).1.journal ≡ w.journal
  unfolding resolve_fee_breakdown
  fees-journal t entry_px exit_px size w = elim (Option-cases X.get_order_fills) [
    | inl lacks ↦ rw lacks (ground arith)
    | inr (get, e) ↦ rw e (ground arith)
  ]

  finalize_closed_trade-Recorded :
      (p : ActivePosition) (t : Tracker) (exit_price : Decimal) (closed_at : ℕ)
      (raw : Option String) (source : String) (w : World X)
      → Recorded p exit_price closed_at w
          (finalize_closed_trade X d p t exit_price closed_at raw source w).1
  unfolding finalize_closed_trade build_trade_result
  finalize_closed_trade-Recorded p t exit_price closed_at raw source w =
      let reason = normalize_exit_reason (reason_or X d t.exit_trigger_reason raw) in
      let R = resolve_fee_breakdown X d t p.entry_price exit_price p.size w in
      let kept = fees-journal t p.entry_price exit_price p.size w in
      let never = resolve_fee_breakdown-Quiet X d t p.entry_price exit_price p.size w in
      elim (Result-cases R.0) [
        | inr (exc, eq) ↦ absurd (ground (arith, never))
        | inl (fees, eq) ↦
            (let made = build_trade_result p t exit_price closed_at d.inst_id fees reason source in
              record {
                trade = made;
                stored = ground (arith, kept);
                of_position = ground arith;
                priced = ground arith;
                balanced =
                    build_trade_result-balanced p t exit_price closed_at d.inst_id fees reason
                      source;
                timed = ground arith;
                lifecycle_ended = ground arith;
              })
      ]

  finalize_closed_trade-strategy :
      (p : ActivePosition) (t : Tracker) (exit_price : Decimal) (closed_at : ℕ)
      (raw : Option String) (source : String) (w : World X)
      → (finalize_closed_trade X d p t exit_price closed_at raw source w).1.strategy ≡ w.strategy
  unfolding finalize_closed_trade resolve_fee_breakdown
  finalize_closed_trade-strategy p t exit_price closed_at raw source w =
      elim (Option-cases X.get_order_fills) [
        | inl lacks ↦ rw lacks (ground arith)
        | inr (get, e) ↦ rw e (ground arith)
      ]

  close_position-Recorded :
      (now : ℕ) (a : ActiveOrder) (o : OkxOrder) (px : Decimal) (p : ActivePosition) (w : World X)
      → let w' = (close_position X d now a o px p w).1 in
        Recorded p px now w w' × (w'.strategy ≡ on_position_closed d.config w.strategy now)
  unfolding close_position
  close_position-Recorded now a o px p w =
      let lc = get_or w.lifecycle new_tracker in
      let source = exit_close_source lc in
      let lc' =
        on_exit_fill lc px (some o.ord_id) (some a.client_id) lc.exit_order_type now source in
      let v : World X = record w { lifecycle = option_map (λ _. lc') w.lifecycle } in
      let F = finalize_closed_trade X d p lc' px now lc'.exit_trigger_reason source v in
      let q = finalize_closed_trade-Quiet X d p lc' px now lc'.exit_trigger_reason source v in
      let r = finalize_closed_trade-Recorded p lc' px now lc'.exit_trigger_reason source v in
      let k = finalize_closed_trade-strategy p lc' px now lc'.exit_trigger_reason source v in
      elim (Result-cases F.0) [
        | inr (exc, eq) ↦ absurd (ground (arith, q))
        | inl (t, eq) ↦ (
          record {
            trade = r.trade;
            stored = ground (arith, r.stored);
            of_position = r.of_position;
            priced = r.priced;
            balanced = r.balanced;
            timed = r.timed;
            lifecycle_ended = ground (arith, r.lifecycle_ended);
          },
          ground (arith, k),
        )
      ]

  -- A filled exit order ends the trade of the position in hand: its result is stored once, with
  -- net result and fees adding up to the gross result, the position and the order are gone, and the
  -- strategy's cooldown starts.
  pub on_filled-closes :
      (now : ℕ) (a : ActiveOrder) (o : OkxOrder) (last : Decimal) (p : ActivePosition) (w : World X)
      → a.purpose ≡ exit
      → w.active_position ≡ some p
      → let w' = (on_filled X d now a o last w).1 in
        Recorded p (fill_price_of o last) now w w'
        × (w'.active_position ≡ none)
        × (w'.active_order ≡ none)
        × (w'.strategy ≡ on_position_closed d.config w.strategy now)
  unfolding on_filled fill_purpose
  on_filled-closes now a o last p w e h =
      let px = fill_price_of o last in
      let C = close_position X d now a o px p w in
      let (r, k) = close_position-Recorded now a o px p w in
      let s = close_position-sent X d now a o px p w in
      elim (Result-cases C.0) [
        | inr (exc, eq) ↦ absurd (ground (arith, s))
        | inl (u, eq) ↦ (
          record {
            trade = r.trade;
            stored = ground (arith, r.stored);
            of_position = r.of_position;
            priced = r.priced;
            balanced = r.balanced;
            timed = r.timed;
            lifecycle_ended = ground (arith, r.lifecycle_ended);
          },
          ground (arith, s),
          ground arith,
          ground (arith, k),
        )
      ]

  -- A filled entry order opens a position on its side at the fill price, for the filled size or,
  -- where none is reported, the configured one; no trade is recorded.
  pub on_filled-opens :
      (now : ℕ) (a : ActiveOrder) (o : OkxOrder) (last : Decimal) (w : World X)
      → a.purpose ≡ entry
      → let w' = (on_filled X d now a o last w).1 in
        (w'.active_position
          ≡ some (
              build_active_position
                ("pos" <> ("-" <> d.uuid4_hex w.draws))
                a.strategy_name
                (if is_buy o.side then long else short)
                (fill_price_of o last)
                now
                (filled_size o d.exec_cfg.order_size)
                d.tick_size
                d.config))
        × (w'.active_order ≡ none)
        × (trades w'.journal ≡ trades w.journal)
  unfolding on_filled fill_purpose open_position
  on_filled-opens now a o last w e = rw e (ground arith)
