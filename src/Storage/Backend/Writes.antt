-- ===== src/Storage/Backend/Writes.antt =====
-- The writes of `Compact` in storage/crsqlite/backend.go, each with the tables it leaves: the loop
-- over the documents and the one transaction that brings the kept rows back.
use mobile_db.Prelude.{
  Option-cases, nat_eq, pair_eq, ℤ_eq, Str, str_eq_inst, All-mem, ◌≡◌, refl, inl, inr, none, some,
  List, [], ◌∷◌, arith,
}
use mobile_db.Prelude.Dict.{Dict, get, put}
use mobile_db.Prelude.Exec.{Conn, stmt}
use mobile_db.Prelude.Exec.Runs.{
  Quiet, moved, Runs, Runs-pure, Runs-stmt, Runs-bind, Runs-transaction,
}
use mobile_db.Core.{CrdtOp}
use mobile_db.Storage.OpLog.{
  Logs, Json, Row, SnapshotRow, read_table, upsert_row, exec_all, create_snapshots, create_table,
  mark_crr, reactivate_ops, write_snapshot,
}
use mobile_db.Storage.OpLog.Inserts.{Marshals, text_of, tables_after, exec_all-Runs}
use mobile_db.Storage.OpLog.Ensure.{key_of, ensured}
use mobile_db.Storage.Backend.{DocState, write_docs, reactivate_kept}
use mobile_db.Storage.Backend.Merging.{read_table-some}

-- `json.Marshal` accepts every field value, and every map of such values.
pub record JsonTotal {V : Type 0} (json : Json V) : Type 0 where
  pub values : (v : V) → (s : Str) × (json.marshal v ≡ some s)
  pub maps : (m : Dict Str V) → (s : Str) × (json.marshal_fields m ≡ some s)

pub ensured_snapshots :
    (a u d : Str) (l : Logs)
    → (m : Dict (Str × (Str × Str)) SnapshotRow) × ((ensured a u d l).snapshots ≡ some m)
unfolding ensured create_snapshots create_table mark_crr
ensured_snapshots a u d l = elim (Option-cases l.snapshots) [
  | inl e ↦ ([], ground (arith, e))
  | inr (m, e) ↦ (m, ground (arith, e))
]

pub marshals : {V : Type 0} (json : Json V) → JsonTotal json → (op : CrdtOp V) → Marshals json op
unfolding text_of
marshals json total op = ground (arith, total.values op.value)

module _ {V : Type 0} (json : Json V) (total : JsonTotal json) (a u d : Str) where
  -- The row that a document's state is stored as.
  doc_row : DocState V → SnapshotRow
  doc_row ds = record {
    content = elim (json.marshal_fields ds.fields) [ none ↦ [] | some s ↦ s ];
    wall_time = ds.hlc.wall_time;
    logical = ds.hlc.logical;
    device_id = ds.dev_id;
  }

  -- The snapshots after the loop over the documents.
  pub snapshots_after :
      List (Str × DocState V)
      → Dict (Str × (Str × Str)) SnapshotRow
      → Dict (Str × (Str × Str)) SnapshotRow
  snapshots_after [] m = m
  snapshots_after ((k, ds) ∷ rest) m = snapshots_after rest (put m (d, (u, k)) (doc_row ds))

  write_snapshot-Runs :
      (c : Conn Logs) (key : Str × (Str × Str)) (row : SnapshotRow)
      (m : Dict (Str × (Str × Str)) SnapshotRow)
      → Quiet c
      → c.tables.snapshots ≡ some m
      → Runs (write_snapshot key row) c tt (record c.tables { snapshots = some (put m key row) })
  unfolding write_snapshot
  write_snapshot-Runs c key row m q h =
      Runs-stmt c _ tt (record c.tables { snapshots = some (put m key row) }) q (rw h)

  pub write_docs-Runs :
      (docs : List (Str × DocState V)) (c : Conn Logs) (m : Dict (Str × (Str × Str)) SnapshotRow)
      → Quiet c
      → c.tables.snapshots ≡ some m
      → Runs
          (write_docs json a u d docs)
          c
          tt
          (record c.tables { snapshots = some (snapshots_after docs m) })
  unfolding write_docs snapshots_after doc_row
  write_docs-Runs [] c m q h = rw (← h) (Runs-pure c tt)
  write_docs-Runs ((k, ds) ∷ rest) c m q h =
      let (s, e) = total.maps ds.fields in
      let row : SnapshotRow = record {
        content = s;
        wall_time = ds.hlc.wall_time;
        logical = ds.hlc.logical;
        device_id = ds.dev_id;
      } in
      let m' = put m (d, (u, k)) row in
      let l : Logs = record c.tables { snapshots = some m' } in
      rw (e, write_docs, doc_row)
        (Runs-bind c (write_snapshot (d, (u, k)) row) (λ _. write_docs json a u d rest) tt l tt
          (record l { snapshots = some (snapshots_after rest m') })
          (write_snapshot-Runs c (d, (u, k)) row m q h)
          (λ k'. write_docs-Runs rest (moved c l k') m' q refl))

  pub reactivate_kept-Runs :
      (ops : List (CrdtOp V)) (rows : List Row) (c : Conn Logs)
      → Quiet c
      → get c.tables.op_logs (key_of a u d) ≡ some rows
      → Runs
          (reactivate_kept json a u d ops)
          c
          tt
          (tables_after json upsert_row (key_of a u d) ops rows c.tables)
  unfolding reactivate_kept reactivate_ops tables_after
  reactivate_kept-Runs [] rows c q h = Runs-pure c tt
  reactivate_kept-Runs (op ∷ ops) rows c q h =
      let key = key_of a u d in
      let t = tables_after json upsert_row key (op ∷ ops) rows c.tables in
      Runs-transaction c _ tt t q (λ k.
        Runs-bind (moved c c.tables k) (stmt (read_table key (λ rows. tt)))
          (λ _. exec_all json key upsert_row (op ∷ ops)) tt c.tables tt t
          (Runs-stmt (moved c c.tables k) _ tt c.tables q
            (read_table-some key (λ rows. tt) rows c.tables h))
          (λ k'.
            exec_all-Runs json upsert_row key (op ∷ ops) rows (moved c c.tables k') q h
              (All-mem (Marshals json) (op ∷ ops) (λ x m. marshals json total x))))
