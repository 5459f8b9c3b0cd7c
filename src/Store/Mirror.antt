-- ===== src/Store/Mirror.antt =====
-- What the store writes to SQLite, with a journal and without.
use okx_hft_executor.Prelude.{ℕ, String, ◌≡◌, refl, none, some, List, [], ◌∷◌, arith, ◌∙◌, sym}
use okx_hft_executor.Orchestrator.World.{StoreCall}
use okx_hft_executor.Sqlite
use okx_hft_executor.Sqlite.{Sqlite}
use okx_hft_executor.Store.State.{ExecutorStore, recording}
use okx_hft_executor.Store.{EventDetail, perform, perform_all}

-- What a call of the store does to SQLite, taken by itself.
abbrev pub mirror : (ℕ → EventDetail) → String → StoreCall → Sqlite → Sqlite
mirror detail name (StoreCall.save_signal id side ts) db =
    Sqlite.save_signal
      (record { signal_id = id; strategy_name = name; side = side; created_at = ts }) db
mirror detail name (StoreCall.save_order row ts) db =
    Sqlite.save_order
      (record {
        local_order_id = row.local_order_id;
        strategy_name = name;
        exchange_order_id = some row.exchange_order_id;
        side = row.side;
        order_type = row.order_type;
        price = row.price;
        size = row.size;
        status = row.status;
        created_at = ts;
        filled_at = row.filled_at;
      })
      db
mirror detail name (StoreCall.save_position_open p sig order) db =
    Sqlite.save_position_open p.position_id p.strategy_name p.side p.entry_price p.entry_ts p.size
      db
mirror detail name (StoreCall.save_position_close id px ts reason source) db =
    Sqlite.save_position_close id px ts reason db
mirror detail name (StoreCall.close_open_position_reconciled id ts reason) db =
    Sqlite.close_open_position_reconciled id ts reason db
mirror detail name (StoreCall.save_trade_result result) db = Sqlite.save_trade_result result db
mirror detail name (StoreCall.save_service_event strategy_name type) db =
    let e = detail db.last_event_id in
    Sqlite.save_service_event e.ts strategy_name type e.message e.payload e.level db
mirror detail name (StoreCall.record_cancel_attempt client_id order_id purpose) db = db

-- The calls of the loop's journal, which has the newest first
unfoldable pub mirror_all : (ℕ → EventDetail) → String → List StoreCall → Sqlite → Sqlite
mirror_all detail name [] db = db
mirror_all detail name (c ∷ cs) db = mirror detail name c (mirror_all detail name cs db)

-- What no call changes.
pub record SameStore (s s' : ExecutorStore) : Type 0 where
  pub same_name : s'.strategy_name ≡ s.strategy_name
  pub same_journal : s'.has_journal ≡ s.has_journal
  pub same_run : s'.run_id ≡ s.run_id

module _ (detail : ℕ → EventDetail) where
  pub perform-SameStore : (c : StoreCall) (s : ExecutorStore) → SameStore s (perform detail c s)
  unfolding perform
  perform-SameStore (StoreCall.save_signal id side ts) s = ground arith
  perform-SameStore (StoreCall.save_order row ts) s = ground arith
  perform-SameStore (StoreCall.save_position_open p sig order) s = ground arith
  perform-SameStore (StoreCall.save_position_close id px ts reason source) s = ground arith
  perform-SameStore (StoreCall.close_open_position_reconciled id ts reason) s = ground arith
  perform-SameStore (StoreCall.save_trade_result result) s = ground arith
  perform-SameStore (StoreCall.save_service_event strategy_name type) s = ground arith
  perform-SameStore (StoreCall.record_cancel_attempt client_id order_id purpose) s = ground arith

  perform-mirror :
      (c : StoreCall) (s : ExecutorStore)
      → (perform detail c s).sqlite ≡ mirror detail s.strategy_name c s.sqlite
  unfolding perform
  perform-mirror (StoreCall.save_signal id side ts) s = ground arith
  perform-mirror (StoreCall.save_order row ts) s = ground arith
  perform-mirror (StoreCall.save_position_open p sig order) s = ground arith
  perform-mirror (StoreCall.save_position_close id px ts reason source) s = ground arith
  perform-mirror (StoreCall.close_open_position_reconciled id ts reason) s = ground arith
  perform-mirror (StoreCall.save_trade_result result) s = ground arith
  perform-mirror (StoreCall.save_service_event strategy_name type) s = ground arith
  perform-mirror (StoreCall.record_cancel_attempt client_id order_id purpose) s = ground arith

  -- Without a run to record, nothing is handed to the journal.
  perform-silent :
      (c : StoreCall) (s : ExecutorStore)
      → recording s ≡ none
      → (perform detail c s).enqueued ≡ s.enqueued
  unfolding perform
  perform-silent (StoreCall.save_signal id side ts) s off = ground arith
  perform-silent (StoreCall.save_order row ts) s off = ground arith
  perform-silent (StoreCall.save_position_open p sig order) s off = ground arith
  perform-silent (StoreCall.save_position_close id px ts reason source) s off = ground arith
  perform-silent (StoreCall.close_open_position_reconciled id ts reason) s off = ground arith
  perform-silent (StoreCall.save_trade_result result) s off = ground arith
  perform-silent (StoreCall.save_service_event strategy_name type) s off = ground arith
  perform-silent (StoreCall.record_cancel_attempt client_id order_id purpose) s off = ground arith

  pub perform_all-SameStore :
      (cs : List StoreCall) (s : ExecutorStore) → SameStore s (perform_all detail cs s)
  unfolding perform_all
  perform_all-SameStore [] s = ground arith
  perform_all-SameStore (c ∷ cs) s =
      ground (arith, perform_all-SameStore cs s, perform-SameStore c (perform_all detail cs s))

  pub perform_all-mirror :
      (cs : List StoreCall) (s : ExecutorStore)
      → (perform_all detail cs s).sqlite ≡ mirror_all detail s.strategy_name cs s.sqlite
  unfolding perform_all mirror_all
  perform_all-mirror [] s = refl
  perform_all-mirror (c ∷ cs) s =
      perform-mirror c (perform_all detail cs s)
      ∙ rw ((perform_all-SameStore cs s).same_name, perform_all-mirror cs s) refl

  perform_all-silent :
      (cs : List StoreCall) (s : ExecutorStore)
      → recording s ≡ none
      → (perform_all detail cs s).enqueued ≡ s.enqueued
  unfolding perform_all
  perform_all-silent [] s off = refl
  perform_all-silent (c ∷ cs) s off =
      let k = perform_all-SameStore cs s in
      perform-silent c (perform_all detail cs s) (rw (k.same_journal, k.same_run) off)
      ∙ perform_all-silent cs s off

  -- The calls of a loop leave the same tables in SQLite whether the store has a journal, a run, or
  -- neither, and without them hand nothing to a journal: of two stores of one strategy that start
  -- with the same tables, one with no journal or no run, both end with the same tables, and what
  -- the latter has handed over is unchanged.
  pub perform_all-sqlite :
      (cs : List StoreCall) (s t : ExecutorStore)
      → s.strategy_name ≡ t.strategy_name
      → s.sqlite ≡ t.sqlite
      → recording t ≡ none
      → ((perform_all detail cs s).sqlite ≡ (perform_all detail cs t).sqlite)
        × ((perform_all detail cs t).enqueued ≡ t.enqueued)
  perform_all-sqlite cs s t name db off = (
    perform_all-mirror cs s ∙ (rw (name, db) refl ∙ sym (perform_all-mirror cs t)),
    perform_all-silent cs t off,
  )
