-- ===== src/Journal/Held.antt =====
-- What the PostgreSQL journal still has of the items that were put into its queue.
use mathlib.Core.List.{append_assoc}
use okx_hft_executor.Prelude.{
  ◌+◌, ◌≤◌, ◌≡◌, refl, true, List, [], ◌∷◌, ◌++◌, arith, length, ◌⊎◌, inl, inr, Bool-cases, ap,
}
use okx_hft_executor.Journal.Events.{Op, Item, write, stop_sentinel}
use okx_hft_executor.Journal.{
  Journal, Answer, Event, put, turn, Worker, working, stopped, enqueue, take_item, work, is_full,
}

-- The operations that the journal still has: written, or waiting to be written.
abbrev pub ops_of : List Item → List Op
ops_of [] = []
ops_of (write op ∷ items) = op ∷ ops_of items
ops_of (stop_sentinel ∷ items) = ops_of items

abbrev pub held : Journal → List Op
held j = (j.committed ++ j.open_transaction) ++ ops_of j.waiting

-- The operations that were to be put into the queue.
abbrev pub puts : List Event → List Op
puts [] = []
puts (put (write op) ∷ es) = op ∷ puts es
puts (put stop_sentinel ∷ es) = puts es
puts (turn a ∷ es) = puts es

abbrev pub put_op : Event → List Op
put_op e = puts (e ∷ [])

pub puts-cons : (e : Event) (es : List Event) → puts (e ∷ es) ≡ put_op e ++ puts es
puts-cons (put (write op)) es = refl
puts-cons (put stop_sentinel) es = refl
puts-cons (turn a) es = refl

pub ops_of-append :
    (item : Item) (items : List Item)
    → ops_of (items ++ item ∷ []) ≡ ops_of items ++ puts (put item ∷ [])
ops_of-append (write op) [] = refl
ops_of-append stop_sentinel [] = refl
ops_of-append item (write o ∷ items) = ap (λ l. o ∷ l) (ops_of-append item items)
ops_of-append item (stop_sentinel ∷ items) = ops_of-append item items

-- A write moves its operation into the open transaction or loses that with it.
pub moved :
    (c t : List Op) (op : Op) (r : List Op) → (c ++ (t ++ op ∷ [])) ++ r ≡ (c ++ t) ++ op ∷ r
moved c t op r = simp append_assoc

pub empty_of_length : (t : List Op) → length t ≤ 0 → t ≡ []
empty_of_length [] h = refl
empty_of_length (op ∷ t) h = absurd (omega (arith, h))

Worker-cases : (s : Worker) → (s ≡ working) ⊎ (s ≡ stopped)
Worker-cases working = inl refl
Worker-cases stopped = inr refl

pub work-cases :
    (a : Answer) (j : Journal)
    → ((j.worker ≡ working) × (work a j ≡ take_item a j.waiting j)) ⊎ (work a j ≡ j)
unfolding work
work-cases a j = elim (Worker-cases j.worker) [
  | inl on ↦ inl (on, ground arith)
  | inr off ↦ inr (ground arith)
]

module _ (a : Answer) where
  -- The database takes what it is given in this turn.
  abbrev pub IsAccepting : Type 0
  IsAccepting = (a.writes ≡ true) × (a.commits ≡ true)

pub enqueue-cases :
    (item : Item) (j : Journal)
    → (held (enqueue item j) ≡ held j ++ puts (put item ∷ []))
      ⊎ ((enqueue item j).dropped ≡ j.dropped + 1) × (held (enqueue item j) ≡ held j)
unfolding enqueue
enqueue-cases item j = elim (Bool-cases (is_full j)) [
  | inl full ↦ inr (rw full refl, rw full refl)
  | inr room ↦ inl (
      rw
        (
          room,
          ops_of-append item j.waiting,
          ← append_assoc (j.committed ++ j.open_transaction) (ops_of j.waiting)
              (puts (put item ∷ [])),
        )
        refl)
]
