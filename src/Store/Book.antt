-- ===== src/Store/Book.antt =====
-- The open positions as both databases of the store keep them: what is left when the two tables of
-- positions are read for the entry of a position, and for whether it is open.
use text.Mathlib.TextEquality.{eq_iff}
use okx_hft_executor.Prelude.{
  ℕ, String, ◌≡◌, refl, Bool, true, false, Option, some, List, [], ◌∷◌, arith, inl, inr,
  Option-cases, if◌then◌else◌, option_map, str_eq,
}
use okx_hft_executor.Prelude.Table.{find_row, find_row-put_row, find_row-update_row}
use okx_hft_executor.Decimal.{Decimal}
use okx_hft_executor.Strategy.{PositionSide}
use okx_hft_executor.Position.{ActivePosition}
use okx_hft_executor.Orchestrator.World.{StoreCall}
use okx_hft_executor.Sqlite
use okx_hft_executor.Sqlite.{Sqlite, PositionRow, is_open, closed_row, reconciled_row}
use okx_hft_executor.Journal.Events.{PositionOpen, PositionClose}
use okx_hft_executor.Journal.Rows.{Pg, PgPosition, Stamp}
use okx_hft_executor.Journal.Positions.{
  upsert_position_open, update_position_close, new_position, reopened, exited,
}

-- A position, as the book has it
pub record Entry : Type 0 where
  pub opened : Bool
  pub entry_price : Decimal
  pub entry_ts : ℕ
  pub size : Decimal

abbrev pub Book : Type 0
Book = String → Option Entry

abbrev pub entry_of : ActivePosition → Entry
entry_of p = record {
  opened = true;
  entry_price = p.entry_price;
  entry_ts = p.entry_ts;
  size = p.size;
}

abbrev pub open_in : String → Entry → Book → Book
open_in id e b k = if str_eq id k then some e else b k

abbrev pub mark : Bool → Entry → Entry
mark opened e = record e { opened = opened }

abbrev pub mark_in : String → Bool → Book → Book
mark_in id opened b k = if str_eq id k then option_map (mark opened) (b k) else b k

abbrev pub close_in : String → Book → Book
close_in id b = mark_in id false b

-- What a call of the store means for the book.
abbrev pub book_call : StoreCall → Book → Book
book_call (StoreCall.save_position_open p sig order) b = open_in p.position_id (entry_of p) b
book_call (StoreCall.save_position_close id px ts reason source) b = close_in id b
book_call (StoreCall.close_open_position_reconciled id ts reason) b = close_in id b
book_call (StoreCall.save_signal id side ts) b = b
book_call (StoreCall.save_order row ts) b = b
book_call (StoreCall.save_trade_result result) b = b
book_call (StoreCall.save_service_event name type) b = b
book_call (StoreCall.record_cancel_attempt client_id order_id purpose) b = b

-- The calls of the loop's journal, which has the newest first
abbrev pub book_all : List StoreCall → Book → Book
book_all [] b = b
book_all (c ∷ cs) b = book_call c (book_all cs b)

abbrev pub sqlite_entry : PositionRow → Entry
sqlite_entry r = record {
  opened = is_open r;
  entry_price = r.entry_price;
  entry_ts = r.entry_ts;
  size = r.size;
}

abbrev pub sqlite_book : Sqlite → Book
sqlite_book db k = option_map sqlite_entry (find_row (λ r. r.position_id) k db.positions)

abbrev pub pg_entry : PgPosition → Entry
pg_entry q = record {
  opened = str_eq q.status "open";
  entry_price = q.entry_price;
  entry_ts = q.entry_ts;
  size = q.qty;
}

abbrev pub pg_book : Pg → Book
pg_book pg k = option_map pg_entry (find_row (λ q. q.position_id) k pg.positions)

pub sqlite-open_in :
    (id name : String) (side : PositionSide) (px : Decimal) (ts : ℕ) (size : Decimal) (db : Sqlite)
    (k : String)
    → sqlite_book (Sqlite.save_position_open id name side px ts size db) k
      ≡ open_in id
          (record { opened = true; entry_price = px; entry_ts = ts; size = size })
          (sqlite_book db)
          k
unfolding Sqlite.save_position_open
sqlite-open_in id name side px ts size db k =
    rw (find_row-put_row (λ (r : PositionRow). r.position_id)) (ground arith)

pub sqlite-close_in :
    (id : String) (px : Decimal) (ts : ℕ) (reason : String) (db : Sqlite) (k : String)
    → sqlite_book (Sqlite.save_position_close id px ts reason db) k ≡ close_in id (sqlite_book db) k
unfolding Sqlite.save_position_close
sqlite-close_in id px ts reason db k =
    let id_of = λ (r : PositionRow). r.position_id in
    let found = find_row-update_row id_of k id (closed_row px ts reason) db.positions (λ r. refl) in
    elim (Option-cases (find_row id_of k db.positions)) [
      | inl gone ↦ ground (arith, found, gone)
      | inr (r, e) ↦ ground (arith, found, e)
    ]

reconciled_row-kept :
    (ts : ℕ) (reason : String) (r : PositionRow)
    → ((reconciled_row ts reason r).position_id ≡ r.position_id)
      × (sqlite_entry (reconciled_row ts reason r) ≡ mark false (sqlite_entry r))
reconciled_row-kept ts reason r = ground arith

pub sqlite-reconcile :
    (id : String) (ts : ℕ) (reason : String) (db : Sqlite) (k : String)
    → sqlite_book (Sqlite.close_open_position_reconciled id ts reason db) k
      ≡ close_in id (sqlite_book db) k
unfolding Sqlite.close_open_position_reconciled
sqlite-reconcile id ts reason db k =
    let id_of = λ (r : PositionRow). r.position_id in
    let found =
      find_row-update_row id_of k id (reconciled_row ts reason) db.positions
        (λ r. (reconciled_row-kept ts reason r).0) in
    elim (Option-cases (find_row id_of k db.positions)) [
      | inl gone ↦ ground (arith, found, gone)
      | inr (r, e) ↦ ground (arith, found, e, reconciled_row-kept ts reason r)
    ]

pub pg-open_in :
    (stamp : Stamp) (p : PositionOpen) (pg : Pg) (k : String)
    → pg_book (upsert_position_open stamp p pg) k
      ≡ open_in p.position_id
          (record {
            opened = true;
            entry_price = p.entry_price;
            entry_ts = p.entry_ts;
            size = p.size;
          })
          (pg_book pg)
          k
unfolding upsert_position_open
pg-open_in stamp p pg k =
    let id_of = λ (q : PgPosition). q.position_id in
    elim (Option-cases (find_row id_of p.position_id pg.positions)) [
      | inl new ↦ ground (arith, new, find_row-put_row id_of k (new_position p) pg.positions)
      | inr (q, there) ↦
          (let found =
              find_row-update_row id_of k p.position_id (reopened stamp p) pg.positions
                (λ r. refl) in
            elim (Option-cases (find_row id_of k pg.positions)) [
              | inl gone ↦ ground (arith, found, gone, there, eq_iff p.position_id k)
              | inr (r, e) ↦ ground (arith, found, e, there)
            ])
    ]

pub pg-mark_in :
    (stamp : Stamp) (p : PositionClose) (pg : Pg) (k : String)
    → pg_book (update_position_close stamp p pg) k
      ≡ mark_in p.position_id (str_eq p.status "open") (pg_book pg) k
unfolding update_position_close
pg-mark_in stamp p pg k =
    let id_of = λ (q : PgPosition). q.position_id in
    let found =
      find_row-update_row id_of k p.position_id (exited stamp p) pg.positions (λ r. refl) in
    elim (Option-cases (find_row id_of k pg.positions)) [
      | inl gone ↦ ground (arith, found, gone)
      | inr (r, e) ↦ ground (arith, found, e)
    ]
