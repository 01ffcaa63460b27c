-- ===== src/Tests/Stores.antt =====
-- Examples for deltas, compaction and a sync over the store.
use mobile_db.Prelude.{
  ◌==◌, nat_eq, pair_eq, pos, ℤ_eq, Str, codes, str_eq, str_eq_inst, select, All, ◌≡◌, refl, true,
  false, ◌&&◌, none, some, List, [], ◌∷◌, Memᴰ,
}
use mobile_db.Prelude.Dict.{get, put}
use mobile_db.Prelude.Exec.{ok, Conn}
use mobile_db.Core.{SyncMessage, zero_hlc, CrdtOp}
use mobile_db.Crdt.Hlc.{before}
use mobile_db.Crdt.Merge.{value_at}
use mobile_db.Crdt.Merge.Picks.{pick}
use mobile_db.Storage.TableName.{dataset_table, table_key, sanitize}
use mobile_db.Storage.OpLog.{
  Logs, scan_row, order_rows, place, row_lt, is_after, Row, active, is_active, scan_rows, selected,
}
use mobile_db.Storage.OpLog.Ensure.{key_of, rows_at}
use mobile_db.Storage.OpLog.Inserts.{has_id}
use mobile_db.Storage.OpLog.Queries.{stamp_of, Reads}
use mobile_db.Storage.OpLog.Revive.{op_has}
use mobile_db.Storage.Backend.{
  get_delta, max_hlc, merge_ops_local, compact, compact_rest, kept_of, winners, add_winner,
}
use mobile_db.Storage.Backend.Delta.{get_delta_exact}
use mobile_db.Storage.Backend.Writes.{JsonTotal}
use mobile_db.Storage.Backend.Compaction.{compact-keeps, compact_rest-loses}
use mobile_db.Sync.{Site}
use mobile_db.Transport.{Hub}
use mobile_db.Tests.{early, first_op, second_op, in_order, plain_json, no_logs, empty_store}

abbrev first_row : Row
first_row = record {
  op_id = codes "1";
  doc_id = codes "d";
  field = codes "f";
  value = codes "v";
  ts_wall = pos 5;
  ts_logic = 0;
  device_id = codes "x";
  status = active;
}

abbrev second_row : Row
second_row = record first_row {
  op_id = codes "2";
  value = codes "w";
  ts_wall = pos 7;
  ts_logic = 1;
  device_id = codes "y";
}

abbrev two_rows : List Row
two_rows = first_row ∷ second_row ∷ []

-- The table of app "a", user "u" and dataset "d" holds two rows for one field.
abbrev full_logs : Logs
full_logs = record no_logs { op_logs = (codes "op_log_a_u_d", two_rows) ∷ []; snapshots = some [] }

abbrev full_store : Conn Logs
full_store = record empty_store { tables = full_logs }

stored : rows_at full_logs (key_of (codes "a") (codes "u") (codes "d")) ≡ two_rows
unfolding rows_at get dataset_table sanitize table_key str_eq
stored = refl

get_delta_exact_example :
    (ops : List (CrdtOp Str)) × ((get_delta plain_json
        (codes "a")
        (codes "u")
        (codes "d")
        early
        full_store).0
      ≡ ok (ops, max_hlc zero_hlc ops))
    × ((r : Row)
        → Memᴰ r (rows_at full_logs (key_of (codes "a") (codes "u") (codes "d")))
        → is_active r ≡ true
        → before early (stamp_of r) ≡ true
        → (op : CrdtOp Str) × Memᴰ op ops × Reads plain_json r op)
    × ((op : CrdtOp Str)
        → Memᴰ op ops
        → (r : Row) × Memᴰ r (rows_at full_logs (key_of (codes "a") (codes "u") (codes "d")))
          × (is_active r ≡ true)
          × (before early (stamp_of r) ≡ true)
          × Reads plain_json r op)
    × All (λ op. before (max_hlc zero_hlc ops) op.timestamp ≡ false) ops
unfolding str_eq
get_delta_exact_example =
    get_delta_exact plain_json (codes "a") (codes "u") (codes "d") early full_store (λ n. refl)
      (rw stored ((codes "v", refl), ((codes "w", refl), tt))) refl

total_json : JsonTotal plain_json
total_json = record { values = λ v. (v, refl); maps = λ m. ([], refl) }

compact-keeps_example :
    ((compact plain_json (codes "a") (codes "u") (codes "d") in_order full_store).0 ≡ ok tt)
    × (ops' : List (CrdtOp Str)) × (scan_rows plain_json (
          selected zero_hlc (
            rows_at
              (compact plain_json (codes "a") (codes "u") (codes "d") in_order full_store).1.tables
              (key_of (codes "a") (codes "u") (codes "d"))))
        ≡ ok ops')
    × All (λ op. pick op.doc_id op.field none (first_op ∷ second_op ∷ []) ≡ some op) ops'
    × ((x y : Str)
        → value_at (merge_ops_local in_order ops') x y
          ≡ value_at (merge_ops_local in_order (first_op ∷ second_op ∷ [])) x y)
unfolding has_id str_eq scan_rows scan_row selected order_rows place row_lt is_active is_after
    select
compact-keeps_example =
    compact-keeps plain_json total_json (codes "a") (codes "u") (codes "d") in_order full_store
      (λ n. refl) (first_op ∷ second_op ∷ []) (rw stored (refl, (refl, tt))) (rw stored refl)
      in_order in_order

compact_rest-loses_example :
    ((compact_rest plain_json
        (codes "a")
        (codes "u")
        (codes "d")
        in_order
        (first_op ∷ [])
        full_store).0
      ≡ ok tt)
    × All
        (λ x. (x.op_id == codes "2" && is_active x) ≡ false)
        (rows_at
          (compact_rest plain_json
            (codes "a")
            (codes "u")
            (codes "d")
            in_order
            (first_op ∷ [])
            full_store).1.tables
          (key_of (codes "a") (codes "u") (codes "d")))
unfolding has_id str_eq kept_of winners add_winner get put op_has dataset_table sanitize table_key
compact_rest-loses_example =
    compact_rest-loses plain_json total_json (codes "a") (codes "u") (codes "d") in_order
      (first_op ∷ []) two_rows [] full_store second_row (λ n. refl) refl refl (refl, (refl, tt))
      (refl, tt) refl

abbrev quiet_hub : Hub
quiet_hub = record { subs = []; made = 0; full = [] }

abbrev full_site : Site (Conn Logs) Hub
full_site = record {
  store = full_store;
  listeners = quiet_hub;
  clock = record { last = early; device_id = codes "s" };
}

abbrev fetch_all : SyncMessage Str
fetch_all = record {
  app_id = codes "a";
  user_id = codes "u";
  dataset_id = codes "d";
  clock = early;
  ops = [];
  client_schema_version = pos 0;
}
