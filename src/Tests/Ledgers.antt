-- ===== src/Tests/Ledgers.antt =====
-- src/sync/Ledger.js: runs of the ledger, on the bases of two mirrors.
use canvas_stored.Prelude.{◌≡◌, none, some, codes, if◌then◌else◌}
use canvas_stored.Lmdb.{lookup, text_key}
use canvas_stored.Lmdb.Memory.{no_rows}
use canvas_stored.Ledger.Rows.{Row, base, row_key}
use canvas_stored.Ledger.Methods.{put_base, bases}
use canvas_stored.Ledger.Bases.{is_reached, bases_lem}
use canvas_stored.Tests.Sample.{rows_table, agreed_base}

abbrev one_base : rows_table.Db
one_base = put_base rows_table (no_rows text_key Row) (codes "m") (codes "a.txt") agreed_base

bases_lem_example :
    lookup text_key (codes "a.txt") (bases rows_table one_base (codes "m") (codes "a")) ≡ (
      if is_reached (codes "a") (codes "a.txt")
      then rows_table.get one_base (row_key base (codes "m") (some (codes "a.txt")))
      else none)
bases_lem_example = bases_lem rows_table one_base (codes "m") (codes "a") (codes "a.txt")
