-- ===== src/Store/Reopened.antt =====
-- A position id that is used again: the two databases differ on its row.
use text.Mathlib.TextPositions.{eq_refl}
use okx_hft_executor.Prelude.{String, ◌≡◌, refl, none, some, arith, ◌∙◌}
use okx_hft_executor.Prelude.Table.{find_row, update_row, find_row-put_row, find_row-update_row}
use okx_hft_executor.Sqlite
use okx_hft_executor.Sqlite.{Sqlite, PositionRow}
use okx_hft_executor.Journal.Events.{PositionOpen}
use okx_hft_executor.Journal.Rows.{Pg, PgPosition, Stamp}
use okx_hft_executor.Journal.Positions.{upsert_position_open, reopened}

abbrev sqlite_key : PositionRow → String
sqlite_key r = r.position_id

abbrev pg_key : PgPosition → String
pg_key q = q.position_id

upsert-reopened :
    (stamp : Stamp) (p : PositionOpen) (pg : Pg) (q : PgPosition)
    → find_row pg_key p.position_id pg.positions ≡ some q
    → (upsert_position_open stamp p pg).positions
      ≡ update_row pg_key p.position_id (reopened stamp p) pg.positions
unfolding upsert_position_open
upsert-reopened stamp p pg q h = ground (arith, h)

-- A position that is opened under an id that PostgreSQL has a row of keeps, in that row, the side,
-- the run, the signal and the exit's price, time and reason of the former position, with the
-- status "open"; the row of SQLite has the new side and no exit.
pub reopen_differs :
    (stamp : Stamp) (p : PositionOpen) (pg : Pg) (q : PgPosition) (db : Sqlite)
    → find_row pg_key p.position_id pg.positions ≡ some q
    → (find_row pg_key p.position_id (upsert_position_open stamp p pg).positions
        ≡ some (record q {
          status = "open";
          qty = p.size;
          qty_open = p.size;
          entry_price = p.entry_price;
          entry_ts = p.entry_ts;
          updated_at = some stamp.now;
        }))
      × (find_row sqlite_key p.position_id
            (Sqlite.save_position_open p.position_id p.strategy_name p.side p.entry_price p.entry_ts
              p.size db).positions
          ≡ some (record {
            position_id = p.position_id;
            strategy_name = p.strategy_name;
            side = p.side;
            entry_price = p.entry_price;
            exit_price = none;
            entry_ts = p.entry_ts;
            exit_ts = none;
            size = p.size;
            exit_reason = none;
          }))
unfolding Sqlite.save_position_open
reopen_differs stamp p pg q db h = (
  rw (upsert-reopened stamp p pg q h) (
      find_row-update_row pg_key p.position_id p.position_id (reopened stamp p) pg.positions
        (λ r. refl)
      ∙ rw (eq_refl, h) refl),
  find_row-put_row sqlite_key p.position_id _ db.positions ∙ rw eq_refl refl,
)
