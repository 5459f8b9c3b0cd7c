-- ===== src/Journal/Delivery.antt =====
-- What of the items that are put into the queue of the PostgreSQL journal reaches the database.
use mathlib.Core.List.{append_assoc, append-nil, Sublist, nil-sublist, sublist-append_left}
use mathlib.Core.List.Sublist
use okx_hft_executor.Prelude.{◌+◌, ◌≡◌, refl, List, [], ◌∷◌, ◌++◌, inl, inr, Bool-cases, ltb, leb}
use okx_hft_executor.Journal.Events.{Op, Item, write, stop_sentinel}
use okx_hft_executor.Journal.{
  Journal, Answer, Event, put, turn, on_empty, on_write, on_stop, take_item, work, step, replay,
}
use okx_hft_executor.Journal.Held.{
  ops_of, held, puts, put_op, puts-cons, moved, work-cases, enqueue-cases,
}

lost : (c t r : List Op) → Sublist ((c ++ []) ++ r) ((c ++ t) ++ r)
lost c t r = Sublist.append (Sublist.append (Sublist.refl c) (nil-sublist t)) (Sublist.refl r)

module _ (a : Answer) where
  on_write-kept :
      (op : Op) (j : Journal)
      → Sublist
          (held (on_write a op j))
          ((j.committed ++ j.open_transaction) ++ op ∷ ops_of j.waiting)
  unfolding on_write
  on_write-kept op j =
      let c = j.committed in
      let t = j.open_transaction in
      let r = ops_of j.waiting in
      elim (Bool-cases a.writes) [
        | inl taken ↦ elim (Bool-cases (leb 25 (j.pending_commits + 1))) [
          | inl due ↦ elim (Bool-cases a.commits) [
            | inl done ↦ rw (taken, due, done, append-nil, moved c t op r) (Sublist.refl _)
            | inr failed ↦ rw (taken, due, failed, ← moved c t op r) (lost c (t ++ op ∷ []) r)
          ]
          | inr early ↦ rw (taken, early, moved c t op r) (Sublist.refl _)
        ]
        | inr refused ↦ rw refused (
            Sublist.append (Sublist.append (Sublist.refl c) (nil-sublist t))
              (Sublist.cons op (Sublist.refl r)))
      ]

  on_empty-kept : (j : Journal) → Sublist (held (on_empty a j)) (held j)
  unfolding on_empty
  on_empty-kept j =
      let c = j.committed in
      let t = j.open_transaction in
      let r = ops_of j.waiting in
      elim (Bool-cases (ltb 0 j.pending_commits)) [
        | inl some_writes ↦ elim (Bool-cases a.commits) [
          | inl done ↦ rw (some_writes, done, append-nil) (Sublist.refl _)
          | inr failed ↦ rw (some_writes, failed) (lost c t r)
        ]
        | inr no_writes ↦ rw no_writes (Sublist.refl _)
      ]

  on_stop-kept : (j : Journal) → Sublist (held (on_stop a j)) (held j)
  unfolding on_stop
  on_stop-kept j =
      let c = j.committed in
      let t = j.open_transaction in
      let r = ops_of j.waiting in
      elim (Bool-cases (ltb 0 j.pending_commits)) [
        | inl some_writes ↦ elim (Bool-cases a.commits) [
          | inl done ↦ rw (some_writes, done, append-nil) (Sublist.refl _)
          | inr failed ↦ rw (some_writes, failed) (lost c t r)
        ]
        | inr no_writes ↦ rw no_writes (lost c t r)
      ]

  take_item-kept :
      (items : List Item) (j : Journal)
      → j.waiting ≡ items
      → Sublist (held (take_item a items j)) (held j)
  take_item-kept [] j e = on_empty-kept j
  take_item-kept (stop_sentinel ∷ items) j e = rw e (on_stop-kept (record j { waiting = items }))
  take_item-kept (write op ∷ items) j e = rw e (on_write-kept op (record j { waiting = items }))

  work-kept : (j : Journal) → Sublist (held (work a j)) (held j)
  work-kept j = elim (work-cases a j) [
    | inl e ↦ rw e.1 (take_item-kept j.waiting j refl)
    | inr e ↦ rw e (Sublist.refl _)
  ]

-- What the journal has after an event is, in order, part of what it had and what was put.
step-kept : (e : Event) (j : Journal) → Sublist (held (step e j)) (held j ++ put_op e)
unfolding step
step-kept (turn a) j = rw append-nil (work-kept a j)
step-kept (put item) j = elim (enqueue-cases item j) [
  | inl e ↦ rw e (Sublist.refl _)
  | inr h ↦ rw (h.1) (sublist-append_left _ _)
]

-- Whatever the database answers, what is committed, in the open transaction and in the queue is,
-- in its order, a part of what was there and what was put into the queue: no operation is made up,
-- written twice or moved ahead of another.
pub replay-Sublist :
    (es : List Event) (j : Journal) → Sublist (held (replay es j)) (held j ++ puts es)
unfolding replay
replay-Sublist [] j = rw append-nil (Sublist.refl _)
replay-Sublist (e ∷ es) j = Sublist.trans (replay-Sublist es (step e j)) (
    rw (puts-cons e es, ← append_assoc (held j) (put_op e) (puts es))
      (Sublist.append (step-kept e j) (Sublist.refl (puts es))))
