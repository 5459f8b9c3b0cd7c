-- ===== src/Lifecycle/Counts.antt =====
-- What the counters of a trade say after any sequence of events.
use mathlib.Core.Path.{subst₂}
use okx_hft_executor.Prelude.{
  ℕ, ◌+◌, ◌≤◌, ◌<◌, ◌≡◌, ◌↔◌, String, Bool, true, Option, some, List, [], ◌∷◌, arith, is_some,
}
use okx_hft_executor.Decimal.{Decimal, TickSize}
use okx_hft_executor.Position.{Purpose, entry, exit}
use okx_hft_executor.Lifecycle.{
  Tracker, new_tracker, begin, on_entry_submit, on_reprice, on_timeout_cancel, on_entry_fill,
  on_exit_trigger, on_exit_submit, on_exit_maker_attempt_failed, on_exit_fill,
}

-- The calls that the loop makes on a tracker.
pub data Event : Type 0 where
  entry_submit : Decimal → ℕ → Event
  reprice : Purpose → Decimal → Event
  timeout_cancel : Purpose → Event
  entry_fill : Decimal → String → String → ℕ → Event
  exit_trigger : String → Event
  exit_submit : Decimal → String → Bool → ℕ → Event
  attempt_failed : Event
  exit_fill : Decimal → String → String → String → ℕ → String → Event

unfoldable pub apply : Event → Tracker → Tracker
apply (entry_submit px ts) t = on_entry_submit t px (some px) ts
apply (reprice leg px) t = on_reprice t leg px
apply (timeout_cancel leg) t = on_timeout_cancel t leg
apply (entry_fill px ord cl ts) t = on_entry_fill t px (some ord) (some cl) ts
apply (exit_trigger reason) t = on_exit_trigger t reason
apply (exit_submit px kind market ts) t = on_exit_submit t px kind market ts
apply attempt_failed t = on_exit_maker_attempt_failed t
apply (exit_fill px ord cl kind ts source) t = on_exit_fill t px (some ord) (some cl) kind ts source

unfoldable pub replay : List Event → Tracker → Tracker
replay [] t = t
replay (e ∷ es) t = replay es (apply e t)

-- How often each leg was submitted anew, which a tracker does not store.
abbrev pub submits : Purpose → List Event → ℕ
submits leg [] = 0
submits entry (entry_submit px ts ∷ es) = submits entry es + 1
submits exit (exit_submit px kind market ts ∷ es) = submits exit es + 1
submits leg (_ ∷ es) = submits leg es

-- The counters of both legs: an order is a submission or a reprice, and each reprice is a cancel.
pub record Tallies (t : Tracker) (entries exits : ℕ) : Type 0 where
  pub entry_orders : t.entry_order_count ≡ entries + t.entry_reprice_count
  pub entry_cancels : t.entry_reprice_count ≤ t.entry_cancel_count
  pub entry_started : (is_some t.entry_started_at ≡ true) ↔ (0 < entries)
  pub exit_orders : t.exit_order_count ≡ exits + t.exit_reprice_count
  pub exit_cancels : t.exit_reprice_count ≤ t.exit_cancel_count
  pub exit_started : (is_some t.exit_started_at ≡ true) ↔ (0 < exits)

-- One event, with the submissions counted before it.
apply-Tallies :
    (e : Event) (t : Tracker) (n m : ℕ)
    → Tallies t n m
    → Tallies (apply e t) (submits entry (e ∷ []) + n) (submits exit (e ∷ []) + m)
unfolding apply on_entry_submit on_reprice on_timeout_cancel on_entry_fill on_exit_trigger
    on_exit_submit on_exit_maker_attempt_failed on_exit_fill
apply-Tallies (entry_submit px ts) t n m h = ground arith
apply-Tallies (reprice entry px) t n m h = ground arith
apply-Tallies (reprice exit px) t n m h = ground arith
apply-Tallies (timeout_cancel entry) t n m h = ground arith
apply-Tallies (timeout_cancel exit) t n m h = ground arith
apply-Tallies (entry_fill px ord cl ts) t n m h = ground arith
apply-Tallies (exit_trigger reason) t n m h = ground arith
apply-Tallies (exit_submit px kind market ts) t n m h = ground arith
apply-Tallies attempt_failed t n m h = ground arith
apply-Tallies (exit_fill px ord cl kind ts source) t n m h = ground arith

submits-cons :
    (leg : Purpose) (e : Event) (es : List Event)
    → submits leg (e ∷ es) ≡ submits leg es + submits leg (e ∷ [])
submits-cons entry (entry_submit px ts) es = omega arith
submits-cons exit (exit_submit px kind market ts) es = omega arith
submits-cons _ _ es = omega arith

replay-Tallies_from :
    (es : List Event) (t : Tracker) (n m : ℕ)
    → Tallies t n m
    → Tallies (replay es t) (submits entry es + n) (submits exit es + m)
unfolding replay
replay-Tallies_from [] t n m h = ground arith
replay-Tallies_from (e ∷ es) t n m h =
    let ih = replay-Tallies_from es (apply e t) _ _ (apply-Tallies e t n m h) in
    let a : submits entry es + (submits entry (e ∷ []) + n) ≡ submits entry (e ∷ es) + n =
      omega (arith, submits-cons entry e es) in
    let b : submits exit es + (submits exit (e ∷ []) + m) ≡ submits exit (e ∷ es) + m =
      omega (arith, submits-cons exit e es) in
    subst₂ (λ x y. Tallies (replay es (apply e t)) x y) a b ih

-- After any events on a trade that has begun, an order is a submission or a reprice, every reprice
-- is counted as a cancel too, and a leg has a start time exactly when it was submitted.
pub replay-Tallies :
    (id : String) (tick : Option TickSize) (es : List Event)
    → Tallies (replay es (begin new_tracker id tick)) (submits entry es) (submits exit es)
unfolding begin
replay-Tallies id tick es =
    subst₂ (λ x y. Tallies (replay es (begin new_tracker id tick)) x y) (omega arith) (omega arith)
      (replay-Tallies_from es (begin new_tracker id tick) 0 0 (ground arith))

-- What the first submission of each leg has fixed in `t` is the same in `u`.
record KeepsFirst (t u : Tracker) : Type 0 where
  pub entry_kept :
      is_some t.entry_started_at ≡ true
      → (u.entry_started_at ≡ t.entry_started_at)
        × (u.entry_first_px ≡ t.entry_first_px)
        × (u.entry_touch_px_at_first_submit ≡ t.entry_touch_px_at_first_submit)
  pub exit_kept :
      is_some t.exit_started_at ≡ true
      → (u.exit_started_at ≡ t.exit_started_at)
        × (u.exit_first_px ≡ t.exit_first_px)
        × (u.exit_touch_px_at_first_submit ≡ t.exit_touch_px_at_first_submit)

apply-KeepsFirst : (e : Event) (t : Tracker) → KeepsFirst t (apply e t)
unfolding apply on_entry_submit on_reprice on_timeout_cancel on_entry_fill on_exit_trigger
    on_exit_submit on_exit_maker_attempt_failed on_exit_fill
apply-KeepsFirst (entry_submit px ts) t = ground arith
apply-KeepsFirst (reprice entry px) t = ground arith
apply-KeepsFirst (reprice exit px) t = ground arith
apply-KeepsFirst (timeout_cancel entry) t = ground arith
apply-KeepsFirst (timeout_cancel exit) t = ground arith
apply-KeepsFirst (entry_fill px ord cl ts) t = ground arith
apply-KeepsFirst (exit_trigger reason) t = ground arith
apply-KeepsFirst (exit_submit px kind market ts) t = ground arith
apply-KeepsFirst attempt_failed t = ground arith
apply-KeepsFirst (exit_fill px ord cl kind ts source) t = ground arith

replay-KeepsFirst : (es : List Event) (t : Tracker) → KeepsFirst t (replay es t)
unfolding replay
replay-KeepsFirst [] t = ground arith
replay-KeepsFirst (e ∷ es) t =
    let first = apply-KeepsFirst e t in
    let rest = replay-KeepsFirst es (apply e t) in
    record {
      entry_kept = λ h. ground (arith, first.entry_kept h, rest.entry_kept);
      exit_kept = λ h. ground (arith, first.exit_kept h, rest.exit_kept);
    }

-- The start time, the first price and the reference price of an entry that was submitted are those
-- of its first submission: no later events change them.
pub replay-entry_kept :
    (es : List Event) (t : Tracker)
    → is_some t.entry_started_at ≡ true
    → ((replay es t).entry_started_at ≡ t.entry_started_at)
      × ((replay es t).entry_first_px ≡ t.entry_first_px)
      × ((replay es t).entry_touch_px_at_first_submit ≡ t.entry_touch_px_at_first_submit)
replay-entry_kept es t h = (replay-KeepsFirst es t).entry_kept h

-- The start time, the first price and the reference price of an exit that was submitted are those
-- of its first submission: no later events change them.
pub replay-exit_kept :
    (es : List Event) (t : Tracker)
    → is_some t.exit_started_at ≡ true
    → ((replay es t).exit_started_at ≡ t.exit_started_at)
      × ((replay es t).exit_first_px ≡ t.exit_first_px)
      × ((replay es t).exit_touch_px_at_first_submit ≡ t.exit_touch_px_at_first_submit)
replay-exit_kept es t h = (replay-KeepsFirst es t).exit_kept h
