-- ===== src/Journal/Flush.antt =====
-- `stop` of the PostgreSQL journal: the sentinel, and the turns of the thread up to it.
use mathlib.Core.List.{append-nil}
use okx_hft_executor.Prelude.{
  suc, ◌≡◌, refl, sym, false, List, [], ◌∷◌, ◌++◌, arith, length, All, map, ap, ◌∙◌,
}
use okx_hft_executor.Journal.Events.{Op, Item, write, stop_sentinel}
use okx_hft_executor.Journal.{
  Journal, Answer, put, turn, working, stopped, enqueue, on_write, on_stop, work, step, replay,
  is_full,
}
use okx_hft_executor.Journal.Queue.{IsBounded, step-IsBounded}
use okx_hft_executor.Journal.Whole.{AreAccepting, replay-whole, work-dropped}
use okx_hft_executor.Journal.Held.{held, ops_of, puts, IsAccepting, empty_of_length}

-- The thread has ended, and has left nothing behind.
pub record IsFlushed (j : Journal) : Type 0 where
  pub ended : j.worker ≡ stopped
  pub emptied : j.waiting ≡ []
  pub saved : j.open_transaction ≡ []

work-write :
    (a : Answer) (op : Op) (items : List Item) (j : Journal)
    → IsAccepting a
    → j.worker ≡ working
    → j.waiting ≡ write op ∷ items
    → ((work a j).worker ≡ working) × ((work a j).waiting ≡ items)
unfolding work on_write
work-write a op items j h on e = ground arith

work-stop :
    (a : Answer) (j : Journal)
    → j.worker ≡ working
    → j.waiting ≡ stop_sentinel ∷ []
    → IsBounded j
    → IsAccepting a
    → IsFlushed (work a j)
unfolding work on_stop
work-stop a j on e b h = ground (arith, empty_of_length j.open_transaction)

-- What waits is written in its turn, and then the sentinel ends the thread.
replay-IsFlushed :
    (ops : List Op) (answers : List Answer) (j : Journal)
    → j.worker ≡ working
    → j.waiting ≡ map write ops ++ stop_sentinel ∷ []
    → IsBounded j
    → All IsAccepting answers
    → length answers ≡ suc (length ops)
    → IsFlushed (replay (map turn answers) j)
unfolding replay
replay-IsFlushed [] (a ∷ []) j on e b h n = work-stop a j on e b h.0
replay-IsFlushed [] [] j on e b h n = absurd (omega arith)
replay-IsFlushed [] (a ∷ a' ∷ answers) j on e b h n = absurd (omega arith)
replay-IsFlushed (op ∷ ops) [] j on e b h n = absurd (omega arith)
replay-IsFlushed (op ∷ ops) (a ∷ answers) j on e b h n =
    let w = work-write a op (map write ops ++ stop_sentinel ∷ []) j h.0 on e in
    replay-IsFlushed ops answers (step (turn a) j) w.0 w.1 (step-IsBounded (turn a) j b) h.1
      (omega arith)

ops_of-map_write : (ops : List Op) → ops_of (map write ops) ≡ ops
ops_of-map_write [] = refl
ops_of-map_write (op ∷ ops) = ap (λ l. op ∷ l) (ops_of-map_write ops)

puts-map_turn : (answers : List Answer) → puts (map turn answers) ≡ []
puts-map_turn [] = refl
puts-map_turn (a ∷ answers) = puts-map_turn answers

AreAccepting-map_turn :
    (answers : List Answer) → All IsAccepting answers → AreAccepting (map turn answers)
AreAccepting-map_turn [] h = tt
AreAccepting-map_turn (a ∷ answers) h = (h.0, AreAccepting-map_turn answers h.1)

turns-dropped :
    (answers : List Answer) (j : Journal) → (replay (map turn answers) j).dropped ≡ j.dropped
unfolding replay step
turns-dropped [] j = refl
turns-dropped (a ∷ answers) j = turns-dropped answers (work a j) ∙ work-dropped a j

pub held-committed : (j : Journal) → IsFlushed j → held j ≡ j.committed
held-committed j f = rw (f.saved, f.emptied, append-nil, append-nil) refl

-- `stop`, called while the thread works and the queue is within its bounds, has room and holds no
-- sentinel yet: if the database takes every write and commit, then after one turn for each
-- waiting item and one for the sentinel the thread has ended, the queue and the open transaction
-- are empty, and everything that was committed, in the open transaction or in the queue is
-- committed, in that order.
pub stop-IsFlushed :
    (ops : List Op) (answers : List Answer) (j : Journal)
    → j.worker ≡ working
    → j.waiting ≡ map write ops
    → is_full j ≡ false
    → IsBounded j
    → All IsAccepting answers
    → length answers ≡ suc (length ops)
    → let j' = replay (map turn answers) (enqueue stop_sentinel j) in
      IsFlushed j' × (j'.committed ≡ (j.committed ++ j.open_transaction) ++ ops)
unfolding replay step enqueue
stop-IsFlushed ops answers j on e room b h n =
    let k = enqueue stop_sentinel j in
    let bounded : IsBounded k = step-IsBounded (put stop_sentinel) j b in
    let queued : k.waiting ≡ map write ops ++ stop_sentinel ∷ [] = rw (room, e) refl in
    let still : k.worker ≡ working = rw room on in
    let f = replay-IsFlushed ops answers k still queued bounded h n in
    let kept : (replay (map turn answers) k).dropped ≡ j.dropped =
      turns-dropped answers k ∙ rw room refl in
    let all =
      replay-whole (put stop_sentinel ∷ map turn answers) j b (AreAccepting-map_turn answers h)
        kept in
    let before : held j ++ puts (put stop_sentinel ∷ map turn answers)
        ≡ (j.committed ++ j.open_transaction) ++ ops =
      rw (e, ops_of-map_write, puts-map_turn, append-nil) refl in
    (f, sym (held-committed (replay (map turn answers) k) f) ∙ (all ∙ before))
