-- ===== src/Store/Inserted.antt =====
-- An order is inserted into PostgreSQL once, by its first submission.
use text.Mathlib.TextEquality.{eq_iff}
use okx_hft_executor.Prelude.{
  ℕ, ◌+◌, String, ◌≡◌, refl, ◌∙◌, List, [], ◌∷◌, ◌++◌, arith, inl, inr, Option-cases, Bool-cases,
  if◌then◌else◌, str_eq,
}
use okx_hft_executor.Orchestrator.World.{OrderRow, StoreCall}
use okx_hft_executor.Journal.Events.{Op, order_insert}
use okx_hft_executor.Store.State.{ExecutorStore, recording, hand_over, has_text}
use okx_hft_executor.Store.Orders.{journal_order, submission, remember, change, is_first}
use okx_hft_executor.Store.{EventDetail, event_ops, perform, perform_all}

abbrev inserts_of : String → Op → ℕ
inserts_of k (order_insert p) = if str_eq p.order_id_local k then 1 else 0
inserts_of k _ = 0

-- How often the order is inserted.
abbrev pub inserts : String → List Op → ℕ
inserts k [] = 0
inserts k (op ∷ ops) = inserts_of k op + inserts k ops

-- Each order was inserted once if it is known as submitted, and never otherwise.
abbrev pub IsOnce : ExecutorStore → Type 0
IsOnce s = (k : String) → inserts k s.enqueued ≡ (if has_text k s.submitted_orders then 1 else 0)

inserts-append : (k : String) (xs ys : List Op) → inserts k (xs ++ ys) ≡ inserts k xs + inserts k ys
inserts-append k [] ys = omega arith
inserts-append k (x ∷ xs) ys = omega (arith, inserts-append k xs ys)

-- Operations that insert no order leave the count alone.
inserts-append_none :
    (k : String) (xs ys : List Op) → inserts k ys ≡ 0 → inserts k (xs ++ ys) ≡ inserts k xs
inserts-append_none k xs ys h = omega (arith, inserts-append k xs ys)

inserts-change :
    (k : String) (run : ℕ) (row : OrderRow) (s : ExecutorStore) → inserts k (change run row s) ≡ 0
unfolding change
inserts-change k run row s = ground arith

inserts-event_ops :
    (k : String) (run : ℕ) (name type : String) (e : EventDetail) (s : ExecutorStore)
    → inserts k (event_ops run name type e s) ≡ 0
unfolding event_ops
inserts-event_ops k run name type e s = ground arith

remember-submitted :
    (row : OrderRow) (s : ExecutorStore)
    → ((remember row s).enqueued ≡ s.enqueued)
      × ((remember row s).submitted_orders ≡ row.local_order_id ∷ s.submitted_orders)
unfolding remember
remember-submitted row s = ground arith

journal_order-IsOnce :
    (run : ℕ) (row : OrderRow) (ts : ℕ) (s : ExecutorStore)
    → IsOnce s
    → IsOnce (journal_order run row ts s)
unfolding journal_order submission
journal_order-IsOnce run row ts s h k =
    let first = submission run row ts s in
    let remembered = remember-submitted row (hand_over first s) in
    elim (Bool-cases (is_first row s)) [
      | inl new ↦ ground (
        arith,
        new,
        remembered,
        h k,
        eq_iff row.local_order_id k,
        inserts-append k s.enqueued first,
      )
      | inr old ↦ ground (
        arith,
        old,
        h k,
        inserts-append_none k s.enqueued (change run row s),
        inserts-change k run row s,
      )
    ]

module _ (detail : ℕ → EventDetail) where
  pub perform-IsOnce : (c : StoreCall) (s : ExecutorStore) → IsOnce s → IsOnce (perform detail c s)
  unfolding perform
  perform-IsOnce (StoreCall.save_order row ts) s h k = elim (Option-cases (recording s)) [
    | inl off ↦ rw (off, inserts, has_text) (h k)
    | inr (run, on) ↦ rw (on, inserts, has_text) (journal_order-IsOnce run row ts _ h k)
  ]
  perform-IsOnce (StoreCall.save_trade_result result) s h k = elim (Option-cases (recording s)) [
    | inl off ↦ rw (off, inserts, has_text) (h k)
    | inr (run, on) ↦ elim (Option-cases (s.position_meta result.position_id)) [
      | inl unknown ↦ rw (on, unknown, inserts, has_text) (h k)
      | inr (meta, known) ↦
          rw (on, known, inserts, has_text) (inserts-append_none k s.enqueued _ refl ∙ h k)
    ]
  ]
  perform-IsOnce (StoreCall.save_service_event name type) s h k =
      let e = detail s.sqlite.last_event_id in
      elim (Option-cases (recording s)) [
        | inl off ↦ rw (off, inserts, has_text) (h k)
        | inr (run, on) ↦
            rw (on, inserts, has_text)
              (inserts-append_none k s.enqueued _ (inserts-event_ops k run name type e s) ∙ h k)
      ]
  perform-IsOnce (StoreCall.save_signal id side ts) s h k = elim (Option-cases (recording s)) [
    | inl off ↦ rw (off, inserts, has_text) (h k)
    | inr (run, on) ↦ rw (on, inserts, has_text) (inserts-append_none k s.enqueued _ refl ∙ h k)
  ]
  perform-IsOnce (StoreCall.save_position_open p sig order) s h k =
      elim (Option-cases (recording s)) [
        | inl off ↦ rw (off, inserts, has_text) (h k)
        | inr (run, on) ↦ rw (on, inserts, has_text) (inserts-append_none k s.enqueued _ refl ∙ h k)
      ]
  perform-IsOnce (StoreCall.save_position_close id px ts reason source) s h k =
      elim (Option-cases (recording s)) [
        | inl off ↦ rw (off, inserts, has_text) (h k)
        | inr (run, on) ↦ rw (on, inserts, has_text) (inserts-append_none k s.enqueued _ refl ∙ h k)
      ]
  perform-IsOnce (StoreCall.close_open_position_reconciled id ts reason) s h k =
      elim (Option-cases (recording s)) [
        | inl off ↦ rw (off, inserts, has_text) (h k)
        | inr (run, on) ↦ rw (on, inserts, has_text) (inserts-append_none k s.enqueued _ refl ∙ h k)
      ]
  perform-IsOnce (StoreCall.record_cancel_attempt client_id order_id purpose) s h k =
      elim (Option-cases (recording s)) [
        | inl off ↦ rw (off, inserts, has_text) (h k)
        | inr (run, on) ↦ rw (on, inserts, has_text) (inserts-append_none k s.enqueued _ refl ∙ h k)
      ]

  -- Whatever calls are made of a store in which each order was inserted into PostgreSQL once if it
  -- is known as submitted and never otherwise, the same holds after them: no order is inserted
  -- twice, as a repeated submission is an update.
  pub perform_all-IsOnce :
      (cs : List StoreCall) (s : ExecutorStore) → IsOnce s → IsOnce (perform_all detail cs s)
  unfolding perform_all
  perform_all-IsOnce [] s h = h
  perform_all-IsOnce (c ∷ cs) s h =
      perform-IsOnce c (perform_all detail cs s) (perform_all-IsOnce cs s h)
