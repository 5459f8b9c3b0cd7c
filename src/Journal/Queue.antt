-- ===== src/Journal/Queue.antt =====
-- The bounds of the queue and of the open transaction of the PostgreSQL journal.
use okx_hft_executor.Prelude.{suc, ◌≤◌, ◌<◌, ◌≡◌, refl, List, [], ◌∷◌, ◌++◌, arith, length, ap}
use okx_hft_executor.Journal.Events.{Op, Item, write, stop_sentinel}
use okx_hft_executor.Journal.{
  Journal, Answer, Event, put, turn, enqueue, on_empty, on_write, on_stop, take_item, work, step,
  replay,
}

length-append_last {ℓ} :
    {A : Type ℓ} (xs : List A) (y : A) → length (xs ++ y ∷ []) ≡ suc (length xs)
length-append_last [] y = refl
length-append_last (x ∷ xs) y = ap suc (length-append_last xs y)

-- The bounds of the queue and of the open transaction, which holds no more writes than are counted.
pub record IsBounded (j : Journal) : Type 0 where
  pub queue_le : 0 < j.queue_size → length j.waiting ≤ j.queue_size
  pub counted_ge : length j.open_transaction ≤ j.pending_commits
  pub transaction_lt : length j.open_transaction < 25

enqueue-IsBounded : (item : Item) (j : Journal) → IsBounded j → IsBounded (enqueue item j)
unfolding enqueue
enqueue-IsBounded item j h = ground (arith, length-append_last j.waiting item)

pub on_write-IsBounded :
    (a : Answer) (op : Op) (j : Journal) → IsBounded j → IsBounded (on_write a op j)
unfolding on_write
on_write-IsBounded a op j h = ground (arith, length-append_last j.open_transaction op)

take_item-IsBounded :
    (a : Answer) (items : List Item) (j : Journal)
    → j.waiting ≡ items
    → IsBounded j
    → IsBounded (take_item a items j)
unfolding on_empty on_stop
take_item-IsBounded a [] j e h = ground arith
take_item-IsBounded a (stop_sentinel ∷ items) j e h = ground (arith, ap length e)
take_item-IsBounded a (write op ∷ items) j e h =
    let shorter : IsBounded (record j { waiting = items }) = ground (arith, ap length e) in
    on_write-IsBounded a op (record j { waiting = items }) shorter

work-IsBounded : (a : Answer) (j : Journal) → IsBounded j → IsBounded (work a j)
unfolding work
work-IsBounded a j h = ground (arith, take_item-IsBounded a j.waiting j refl h)

pub step-IsBounded : (e : Event) (j : Journal) → IsBounded j → IsBounded (step e j)
unfolding step
step-IsBounded (put item) j h = enqueue-IsBounded item j h
step-IsBounded (turn a) j h = work-IsBounded a j h

-- Whatever is put into the queue and whatever the database answers, the queue stays within its
-- size where it has one, and the open transaction, whose writes an error or a crash loses, holds
-- fewer than 25 writes and no more than are counted for the next commit.
pub replay-IsBounded : (es : List Event) (j : Journal) → IsBounded j → IsBounded (replay es j)
unfolding replay
replay-IsBounded [] j h = h
replay-IsBounded (e ∷ es) j h = replay-IsBounded es (step e j) (step-IsBounded e j h)
