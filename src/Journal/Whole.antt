-- ===== src/Journal/Whole.antt =====
-- The queue of the PostgreSQL journal, while the database takes every write and commit.
use mathlib.Core.List.{append_assoc, append-nil}
use okx_hft_executor.Prelude.{
  ◌+◌, ◌≤◌, ◌≡◌, refl, List, [], ◌∷◌, ◌++◌, arith, length, inl, inr, Bool-cases, ap, ltb, leb, ◌∙◌,
}
use okx_hft_executor.Journal.Events.{Op, Item, write, stop_sentinel}
use okx_hft_executor.Journal.Queue.{IsBounded, step-IsBounded}
use okx_hft_executor.Journal.{
  Journal, Answer, Event, put, turn, enqueue, on_empty, on_write, on_stop, take_item, work, step,
  replay,
}
use okx_hft_executor.Journal.Held.{
  ops_of, held, puts, put_op, puts-cons, moved, empty_of_length, work-cases, IsAccepting,
  enqueue-cases,
}

module _ (a : Answer) where
  on_write-whole :
      (op : Op) (j : Journal)
      → IsAccepting a
      → held (on_write a op j) ≡ (j.committed ++ j.open_transaction) ++ op ∷ ops_of j.waiting
  unfolding on_write
  on_write-whole op j h =
      let c = j.committed in
      let t = j.open_transaction in
      let r = ops_of j.waiting in
      elim (Bool-cases (leb 25 (j.pending_commits + 1))) [
        | inl due ↦ rw (h.0, due, h.1, append-nil, moved c t op r) refl
        | inr early ↦ rw (h.0, early, moved c t op r) refl
      ]

  on_empty-whole : (j : Journal) → IsAccepting a → held (on_empty a j) ≡ held j
  unfolding on_empty
  on_empty-whole j h = elim (Bool-cases (ltb 0 j.pending_commits)) [
    | inl some_writes ↦ rw (some_writes, h.1, append-nil) refl
    | inr no_writes ↦ rw no_writes refl
  ]

  -- A transaction with no counted write is empty, so the end of the thread loses nothing.
  on_stop-whole : (j : Journal) → IsBounded j → IsAccepting a → held (on_stop a j) ≡ held j
  unfolding on_stop
  on_stop-whole j b h = elim (Bool-cases (ltb 0 j.pending_commits)) [
    | inl some_writes ↦ rw (some_writes, h.1, append-nil) refl
    | inr no_writes ↦
        rw (no_writes, empty_of_length j.open_transaction (ground (arith, b.counted_ge))) refl
  ]

  take_item-whole :
      (items : List Item) (j : Journal)
      → j.waiting ≡ items
      → IsBounded j
      → IsAccepting a
      → held (take_item a items j) ≡ held j
  take_item-whole [] j e b h = on_empty-whole j h
  take_item-whole (stop_sentinel ∷ items) j e b h =
      rw e (on_stop-whole (record j { waiting = items }) (ground (arith, ap length e)) h)
  take_item-whole (write op ∷ items) j e b h =
      rw e (on_write-whole op (record j { waiting = items }) h)

  work-whole : (j : Journal) → IsBounded j → IsAccepting a → held (work a j) ≡ held j
  work-whole j b h = elim (work-cases a j) [
    | inl e ↦ rw e.1 (take_item-whole j.waiting j refl b h)
    | inr e ↦ rw e refl
  ]

-- Each turn's answer takes the write and the commit.
abbrev pub AreAccepting : List Event → Type 0
AreAccepting [] = Unit
AreAccepting (turn a ∷ es) = IsAccepting a × AreAccepting es
AreAccepting (put item ∷ es) = AreAccepting es

take_item-dropped :
    (a : Answer) (items : List Item) (j : Journal) → (take_item a items j).dropped ≡ j.dropped
unfolding on_empty on_stop on_write
take_item-dropped a [] j = ground arith
take_item-dropped a (stop_sentinel ∷ items) j = ground arith
take_item-dropped a (write op ∷ items) j = ground arith

pub work-dropped : (a : Answer) (j : Journal) → (work a j).dropped ≡ j.dropped
work-dropped a j = elim (work-cases a j) [
  | inl e ↦ rw e.1 (take_item-dropped a j.waiting j)
  | inr e ↦ rw e refl
]

step-dropped : (e : Event) (j : Journal) → j.dropped ≤ (step e j).dropped
unfolding step enqueue
step-dropped (put item) j = ground arith
step-dropped (turn a) j = omega (arith, work-dropped a j)

replay-dropped : (es : List Event) (j : Journal) → j.dropped ≤ (replay es j).dropped
unfolding replay
replay-dropped [] j = omega arith
replay-dropped (e ∷ es) j = omega (arith, step-dropped e j, replay-dropped es (step e j))

accepting_first : (e : Event) (es : List Event) → AreAccepting (e ∷ es) → AreAccepting (e ∷ [])
accepting_first (turn a) es h = (h.0, tt)
accepting_first (put item) es h = tt

accepting_rest : (e : Event) (es : List Event) → AreAccepting (e ∷ es) → AreAccepting es
accepting_rest (turn a) es h = h.1
accepting_rest (put item) es h = h

step-whole :
    (e : Event) (j : Journal)
    → IsBounded j
    → AreAccepting (e ∷ [])
    → (step e j).dropped ≡ j.dropped
    → held (step e j) ≡ held j ++ put_op e
unfolding step
step-whole (turn a) j b h same = rw append-nil (work-whole a j b h.0)
step-whole (put item) j b h same = elim (enqueue-cases item j) [
  | inl e ↦ e
  | inr full ↦ absurd (omega (arith, full.0))
]

-- While the database takes every write and commit and no event is dropped, from a journal within
-- its bounds, what is committed, in the open transaction and in the queue is all that was there,
-- with all that was put into the queue behind it, in that order.
pub replay-whole :
    (es : List Event) (j : Journal)
    → IsBounded j
    → AreAccepting es
    → (replay es j).dropped ≡ j.dropped
    → held (replay es j) ≡ held j ++ puts es
unfolding replay
replay-whole [] j b h same = rw append-nil refl
replay-whole (e ∷ es) j b h same =
    let first : (step e j).dropped ≡ j.dropped =
      omega (arith, step-dropped e j, replay-dropped es (step e j)) in
    let rest : (replay es (step e j)).dropped ≡ (step e j).dropped = omega (arith, same, first) in
    replay-whole es (step e j) (step-IsBounded e j b) (accepting_rest e es h) rest
    ∙ (rw (step-whole e j b (accepting_first e es h) first, puts-cons e es)
        (append_assoc (held j) (put_op e) (puts es)))
