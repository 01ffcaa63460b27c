-- ===== src/Storage/OpLog.antt =====
-- storage/crsqlite/data.go: the op_log table of a dataset and the shared snapshots table. Each SQL
-- statement of the source is a function on the tables; `json` is encoding/json on field values.
pub mod Inserts
pub mod Stored
pub mod Atomic
pub mod Queries
pub mod Ensure
pub mod Revive
use mobile_db.Prelude.{
  ℕ, ltb, if◌then◌else◌, ◌==◌, nat_eq, pair_eq, ℤ, ltb_ℤ, ℤ_eq, Str, codes, str_lt, str_eq_inst,
  length, select, Bool, true, false, ◌&&◌, ◌||◌, not, Option, none, some, List, [], ◌∷◌, ◌++◌, map,
}
use mobile_db.Prelude.Dict.{Dict, get, put}
use mobile_db.Prelude.Exec.{
  marshal_failed, unmarshal_failed, Result, ok, err, Act, pure, raise, stmt, transaction, ◌>>=◌,
  ◌>>◌,
}
use mobile_db.Core.{Hlc, CrdtOp}
use mobile_db.Storage.TableName.{dataset_table, table_key}

pub data Status : Type 0 where
  active archived : Status

pub record Row : Type 0 where
  pub op_id : Str
  pub doc_id : Str
  pub field : Str
  pub value : Str
  pub ts_wall : ℤ
  pub ts_logic : ℕ
  pub device_id : Str
  pub status : Status

pub record SnapshotRow : Type 0 where
  pub content : Str
  pub wall_time : ℤ
  pub logical : ℕ
  pub device_id : Str

-- (dataset_id, user_id, doc_id), the primary key of the snapshots table
abbrev pub SnapshotKey : Type 0
SnapshotKey = Str × (Str × Str)

pub record Logs : Type 0 where
  -- by table key
  pub op_logs : Dict Str (List Row)
  -- the names of the `__crsql_clock` tables in sqlite_master
  pub shadows : List Str
  -- `none`: the table has not been created
  pub snapshots : Option (Dict SnapshotKey SnapshotRow)
  -- the schema versions, by app_id and dataset_id
  pub datasets : Dict (Str × Str) ℤ

-- `json.Marshal` of a value and of a map, and `json.Unmarshal` into an `any`; `none` is an error.
pub record Json (V : Type 0) : Type 0 where
  pub marshal : V → Option Str
  pub marshal_fields : Dict Str V → Option Str
  pub unmarshal : Str → Option V

abbrev pub Db : Type 0 → Type 0
Db A = Act Logs A

unfoldable pub contains : Str → List Str → Bool
contains s [] = false
contains s (x ∷ xs) = x == s || contains s xs

-- `CREATE TABLE IF NOT EXISTS snapshots`
unfoldable pub create_snapshots : Logs → Logs
create_snapshots l = elim l.snapshots [ none ↦ record l { snapshots = some [] } | some m ↦ l ]

-- `CREATE TABLE IF NOT EXISTS <tbl>`
unfoldable pub create_table : Str → Logs → Logs
create_table key l = elim (get l.op_logs key) [
  | none ↦ record l { op_logs = put l.op_logs key [] }
  | some rows ↦ l
]

-- `SELECT COUNT(*) FROM sqlite_master WHERE type='table' AND name=?`, compared with 0
unfoldable pub is_crr : Str → Logs → Bool
is_crr shadow l = contains shadow l.shadows

-- `SELECT crsql_as_crr('<tbl>')` adds the shadow clock table.
unfoldable pub mark_crr : Str → Logs → Logs
mark_crr shadow l = record l { shadows = shadow ∷ l.shadows }

unfoldable pub ensure_dataset : Str → Str → Str → Db (Unit {0})
ensure_dataset app_id user_id dataset_id =
    let tbl = dataset_table app_id user_id dataset_id in
    let shadow = tbl ++ codes "__crsql_clock" in
    do
      stmt (λ l. some (tt, create_snapshots l))
      stmt (λ l. some (tt, create_table (table_key tbl) l))
      marked ← stmt (λ l. some (is_crr shadow l, l))
      if marked then pure tt else stmt (λ l. some (tt, mark_crr shadow l))

-- A statement on the rows of one table; an error if the table is missing.
unfoldable pub on_table : Str → (List Row → List Row) → Logs → Option (Unit {0} × Logs)
on_table key f l = elim (get l.op_logs key) [
  | none ↦ none
  | some rows ↦ some (tt, record l { op_logs = put l.op_logs key (f rows) })
]

unfoldable pub read_table : {A : Type 0} → Str → (List Row → A) → Logs → Option (A × Logs)
read_table key f l = elim (get l.op_logs key) [ none ↦ none | some rows ↦ some (f rows, l) ]

-- `INSERT … ON CONFLICT(op_id) DO NOTHING`: the row is added unless its op_id is there.
unfoldable pub insert_row : Row → List Row → List Row
insert_row r [] = r ∷ []
insert_row r (x ∷ xs) = if x.op_id == r.op_id then x ∷ xs else x ∷ insert_row r xs

-- `INSERT … 'active' ON CONFLICT(op_id) DO UPDATE SET status = 'active'`
unfoldable pub upsert_row : Row → List Row → List Row
upsert_row r [] = r ∷ []
upsert_row r (x ∷ xs) =
    if x.op_id == r.op_id then record x { status = active } ∷ xs else x ∷ upsert_row r xs

-- The values that an insertion binds for an operation; the status is 'active' in both statements.
unfoldable pub row_of : {V : Type 0} → CrdtOp V → Str → Row
row_of op value_json = record {
  op_id = op.op_id;
  doc_id = op.doc_id;
  field = op.field;
  value = value_json;
  ts_wall = op.timestamp.wall_time;
  ts_logic = op.timestamp.logical;
  device_id = op.device_id;
  status = active;
}

-- `WHERE status = 'active' AND …`, with the tie-breaker only for a cursor with a device
unfoldable pub is_active : Row → Bool
is_active r = elim r.status [ active ↦ true | archived ↦ false ]

unfoldable pub is_after : Hlc → Row → Bool
is_after since r =
    if not (since.device_id == [])
    then ltb_ℤ since.wall_time r.ts_wall
      || (r.ts_wall == since.wall_time && ltb since.logical r.ts_logic)
      || (r.ts_wall == since.wall_time
          && r.ts_logic == since.logical
          && str_lt since.device_id r.device_id)
    else ltb_ℤ since.wall_time r.ts_wall
      || (r.ts_wall == since.wall_time && ltb since.logical r.ts_logic)

-- `ORDER BY ts_wall ASC, ts_logic ASC, device_id ASC`; rows that agree in all three keep the order
-- of their insertion, where SQLite leaves their order open.
unfoldable pub row_lt : Row → Row → Bool
row_lt a b =
    if not (a.ts_wall == b.ts_wall)
    then ltb_ℤ a.ts_wall b.ts_wall
    else if not (a.ts_logic == b.ts_logic)
    then ltb a.ts_logic b.ts_logic
    else str_lt a.device_id b.device_id

unfoldable pub place : Row → List Row → List Row
place r [] = r ∷ []
place r (x ∷ xs) = if row_lt x r then x ∷ place r xs else r ∷ x ∷ xs

unfoldable pub order_rows : List Row → List Row
order_rows [] = []
order_rows (r ∷ rs) = place r (order_rows rs)

unfoldable pub archive_row : Row → Row
archive_row r = record r { status = archived }

-- The rows that the query of `QueryOps` returns.
unfoldable pub selected : Hlc → List Row → List Row
selected since rows = order_rows (select (λ r. is_active r && is_after since r) rows)

-- One round of the loop over the rows of a query, before the rounds for the later rows; the
-- timestamp's device is the device column.
unfoldable pub scan_row :
    {V : Type 0} → Row → Option V → Result (List (CrdtOp V)) → Result (List (CrdtOp V))
scan_row r none rest = err unmarshal_failed
scan_row r (some v) (err e) = err e
scan_row r (some v) (ok ops) = ok (
    record {
      op_id = r.op_id;
      doc_id = r.doc_id;
      field = r.field;
      value = v;
      timestamp = record { wall_time = r.ts_wall; logical = r.ts_logic; device_id = r.device_id };
      device_id = r.device_id;
    }
    ∷ ops)

module _ {V : Type 0} (json : Json V) where
  -- The loops of `InsertOps` and `ReactivateOps`: one execution of the prepared statement for each
  -- operation, the first error ends the loop.
  unfoldable pub exec_all : Str → (Row → List Row → List Row) → List (CrdtOp V) → Db (Unit {0})
  exec_all key write [] = pure tt
  exec_all key write (op ∷ ops) =
      let rest = exec_all key write ops in
      elim (json.marshal op.value) [
        | none ↦ raise marshal_failed
        | some value_json ↦ do stmt (on_table key (write (row_of op value_json))); rest
      ]

  unfoldable pub insert_ops : Str → Str → Str → List (CrdtOp V) → Db (Unit {0})
  insert_ops app_id user_id dataset_id ops =
      let key = table_key (dataset_table app_id user_id dataset_id) in
      transaction (do stmt (read_table key (λ rows. tt)); exec_all key insert_row ops)

  unfoldable pub reactivate_ops : Str → Str → Str → List (CrdtOp V) → Db (Unit {0})
  reactivate_ops app_id user_id dataset_id ops =
      let key = table_key (dataset_table app_id user_id dataset_id) in
      transaction (do stmt (read_table key (λ rows. tt)); exec_all key upsert_row ops)

  unfoldable pub scan_rows : List Row → Result (List (CrdtOp V))
  scan_rows [] = ok []
  scan_rows (r ∷ rs) = scan_row r (json.unmarshal r.value) (scan_rows rs)

  unfoldable pub query_ops : Str → Str → Str → Hlc → Db (List (CrdtOp V))
  query_ops app_id user_id dataset_id since = do
    let key = table_key (dataset_table app_id user_id dataset_id)
    rows ← stmt (read_table key (selected since))
    λ c. (scan_rows rows, c)

unfoldable pub count_ops : Str → Str → Str → Db ℕ
count_ops app_id user_id dataset_id = stmt (
    read_table (table_key (dataset_table app_id user_id dataset_id))
      (λ rows. length (select is_active rows)))

unfoldable pub delete_ops : Str → Str → Str → Db (Unit {0})
delete_ops app_id user_id dataset_id =
    stmt (on_table (table_key (dataset_table app_id user_id dataset_id)) (λ rows. []))

-- Archiving an archived row changes nothing, so the statement's `WHERE` needs no test here.
unfoldable pub archive_ops : Str → Str → Str → Db (Unit {0})
archive_ops app_id user_id dataset_id =
    stmt (on_table (table_key (dataset_table app_id user_id dataset_id)) (map archive_row))

-- `INSERT OR REPLACE INTO snapshots`
unfoldable pub write_snapshot : SnapshotKey → SnapshotRow → Db (Unit {0})
write_snapshot key row = stmt (λ l. elim l.snapshots [
  | none ↦ none
  | some m ↦ some (tt, record l { snapshots = some (put m key row) })
])
