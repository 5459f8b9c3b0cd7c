-- ===== src/Journal/Positions.antt =====
-- persistence/postgres_journal.py: the statements on the table of positions.
use okx_hft_executor.Prelude.{none, some}
use okx_hft_executor.Prelude.Table.{put_row, update_row, find_row}
use okx_hft_executor.Journal.Rows.{Stamp, PgPosition, Pg}
use okx_hft_executor.Journal.Events.{PositionOpen, PositionClose}

abbrev pub new_position : PositionOpen → PgPosition
new_position p = record {
  position_id = p.position_id;
  run_id = p.run_id;
  inst_id = p.inst_id;
  strategy_name = p.strategy_name;
  side = p.side;
  status = "open";
  qty = p.size;
  qty_open = p.size;
  entry_price = p.entry_price;
  entry_ts = p.entry_ts;
  params = p.params;
  entry_signal_id = p.entry_signal_id;
  entry_order_id_local = p.entry_order_id_local;
  exit_price = none;
  exit_ts = none;
  exit_reason = none;
  updated_at = none;
}

-- `DO UPDATE SET ...`: the other columns of a row that was there stay.
abbrev pub reopened : Stamp → PositionOpen → PgPosition → PgPosition
reopened stamp p row = record row {
  status = "open";
  qty = p.size;
  qty_open = p.size;
  entry_price = p.entry_price;
  entry_ts = p.entry_ts;
  updated_at = some stamp.now;
}

unfoldable pub upsert_position_open : Stamp → PositionOpen → Pg → Pg
upsert_position_open stamp p pg =
    let id = λ (r : PgPosition). r.position_id in
    elim (find_row id p.position_id pg.positions) [
      | none ↦ record pg { positions = put_row id (new_position p) pg.positions }
      | some _ ↦ record pg {
        positions = update_row id p.position_id (reopened stamp p) pg.positions;
      }
    ]

abbrev pub exited : Stamp → PositionClose → PgPosition → PgPosition
exited stamp p row = record row {
  status = p.status;
  exit_price = some p.exit_price;
  exit_ts = some p.exit_ts;
  exit_reason = some p.exit_reason;
  updated_at = some stamp.now;
}

unfoldable pub update_position_close : Stamp → PositionClose → Pg → Pg
update_position_close stamp p pg = record pg {
  positions = update_row (λ r. r.position_id) p.position_id (exited stamp p) pg.positions;
}
