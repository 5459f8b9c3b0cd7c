-- ===== src/Sqlite/Positions.antt =====
-- The positions in SQLite: what is listed as open, and what a close leaves.
use mathlib.Core.List.{Perm}
use okx_hft_executor.Prelude.{
  ℕ, String, ◌≡◌, refl, ap, false, Option, List, [], ◌∷◌, arith, inl, inr, Bool-cases, All, filter,
  str_eq, ◌&&◌,
}
use okx_hft_executor.Prelude.Table.{
  update_row, IsOrdered, order_by-IsOrdered, order_by-perm, order_by-All,
}
use okx_hft_executor.Decimal.{Decimal}
use okx_hft_executor.Sqlite.{
  Sqlite, PositionRow, is_open, is_of, closed_row, reconciled_row, save_position_close,
  close_open_position_reconciled, list_open_positions,
}

-- The listing has exactly the rows of the table that have no time of exit and, where a strategy is
-- asked for, are of it, each as often as the table, and none is listed before a row that was
-- entered earlier.
pub list_open_positions_lem :
    (name : Option String) (db : Sqlite)
    → Perm (list_open_positions name db) (filter (λ r. is_open r && is_of name r) db.positions)
      × IsOrdered (λ (r : PositionRow). r.entry_ts) (list_open_positions name db)
unfolding list_open_positions
list_open_positions_lem name db = (
  order_by-perm (λ (r : PositionRow). r.entry_ts) _,
  order_by-IsOrdered (λ (r : PositionRow). r.entry_ts) _,
)

-- A row that is not the position's
abbrev pub IsOther : String → PositionRow → Type 0
IsOther id r = str_eq r.position_id id ≡ false

closed-IsOther :
    (name : Option String) (id : String) (px : Decimal) (ts : ℕ) (reason : String)
    (rs : List PositionRow)
    → All (IsOther id) (
        filter
          (λ r. is_open r && is_of name r)
          (update_row (λ r. r.position_id) id (closed_row px ts reason) rs))
unfolding update_row
closed-IsOther name id px ts reason [] = tt
closed-IsOther name id px ts reason (r ∷ rs) =
    let rest = closed-IsOther name id px ts reason rs in
    elim (Bool-cases (str_eq r.position_id id)) [
      | inl it ↦ rw it rest
      | inr other ↦ elim (Bool-cases (is_open r && is_of name r)) [
        | inl listed ↦ rw (other, listed) (other, rest)
        | inr not_listed ↦ rw (other, not_listed) rest
      ]
    ]

reconciled-closed :
    (id : String) (px : Decimal) (ts ts' : ℕ) (reason reason' : String) (rs : List PositionRow)
    → let key = λ (r : PositionRow). r.position_id in
      update_row key id
        (reconciled_row ts' reason')
        (update_row key id (closed_row px ts reason) rs)
      ≡ update_row key id (closed_row px ts reason) rs
unfolding update_row
reconciled-closed id px ts ts' reason reason' [] = refl
reconciled-closed id px ts ts' reason reason' (r ∷ rs) =
    ground (arith, reconciled-closed id px ts ts' reason reason' rs)

-- A position that was closed is not listed as open any more, by its strategy or without one, and a
-- later reconciliation of it changes nothing: its price, time and reason of exit stay.
pub close-list_open_positions :
    (name : Option String) (id : String) (px : Decimal) (ts ts' : ℕ) (reason reason' : String)
    (db : Sqlite)
    → let db' = save_position_close id px ts reason db in
      All (IsOther id) (list_open_positions name db')
      × (close_open_position_reconciled id ts' reason' db' ≡ db')
unfolding list_open_positions save_position_close close_open_position_reconciled
close-list_open_positions name id px ts ts' reason reason' db = (
  order_by-All (λ r. r.entry_ts) (IsOther id) _ (closed-IsOther name id px ts reason db.positions),
  ap (λ rows. record db { positions = rows })
      (reconciled-closed id px ts ts' reason reason' db.positions),
)
