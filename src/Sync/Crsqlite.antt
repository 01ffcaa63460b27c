-- ===== src/Sync/Crsqlite.antt =====
-- storage/crsqlite/backend.go as the backend of core/sync/engine.go: a sync that only reads.
use mobile_db.Prelude.{
  if◌then◌else◌, Bool-cases, Option-cases, nat_eq, pair_eq, ℤ, ℤ_eq, Str, codes, str_eq_iff,
  str_eq_inst, ◌≡◌, refl, ◌∙◌, inl, inr, Bool, Option, some, List, [], ◌++◌, arith,
}
use mobile_db.Prelude.Dict.{Dict, get, get-put, MapOrder}
use mobile_db.Prelude.Exec.{Result, ok, err, Conn, Act, pure, stmt, continue, ◌>>=◌}
use mathlib.Core.Path.{subst}
use mobile_db.Prelude.Eff.Keeps.{Keeps}
use mobile_db.Core.{Hlc, zero_hlc, CrdtOp, SyncMessage}
use mobile_db.Storage.OpLog.{
  Logs, Json, Row, create_snapshots, create_table, is_crr, mark_crr, ensure_dataset, read_table,
  selected, scan_rows, query_ops,
}
use mobile_db.Storage.OpLog.Ensure.{rows_at}
use mobile_db.Storage.Meta.{version_of, get_schema_version}
use mobile_db.Storage.TableName.{dataset_table, table_key}
use mobile_db.Storage.Backend.{merge_ops, get_delta, get_snapshot, op_count, compact, max_hlc}
use mobile_db.Sync.{StorageBackend, Notifier, Site, sync}
use mobile_db.Sync.Readers.{sync_reads}

abbrev pub crsqlite : {V : Type 0} → Json V → MapOrder → StorageBackend V (Dict Str V) (Conn Logs)
crsqlite json o = record {
  merge_ops = merge_ops json;
  get_delta = get_delta json;
  get_snapshot = λ a u d. get_snapshot json a u d o;
  schema_version = get_schema_version;
  op_count = op_count;
  compact = λ a u d. compact json a u d o;
}

value_of_some : {A : Type 0} {a b : A} → some a ≡ some b → a ≡ b
value_of_some h = cc

module _ (key : Str) where
  abbrev rows_of : Conn Logs → List Row
  rows_of c = rows_at c.tables key

  stmt-Keeps :
      {A : Type 0} (f : Logs → Option (A × Logs))
      → ((l : Logs) (a : A) (l' : Logs) → f l ≡ some (a, l') → rows_at l' key ≡ rows_at l key)
      → Keeps rows_of (stmt f)
  unfolding stmt
  stmt-Keeps f k c = elim (Bool-cases (c.fails c.calls)) [
    | inl e ↦ rw (e, stmt) refl
    | inr e ↦ elim (Option-cases (f c.tables)) [
      | inl e' ↦ rw (e, e') refl
      | inr ((a, l'), e') ↦ rw (e, e') (k c.tables a l' e')
    ]
  ]

  step-Keeps :
      {A : Type 0} (g : Logs → A) (f : Logs → Logs)
      → ((l : Logs) → rows_at (f l) key ≡ rows_at l key)
      → Keeps rows_of (stmt (λ l. some (g l, f l)))
  step-Keeps g f k =
      stmt-Keeps (λ l. some (g l, f l))
        (λ l a l' e. subst (λ p. rows_at (p.1) key ≡ rows_at l key) (value_of_some e) (k l))

  continue-Keeps :
      {A B : Type 0} (r : Result A) (f : A → Act Logs B) (c : Conn Logs)
      → ((a : A) → Keeps rows_of (f a))
      → rows_of (continue r f c).1 ≡ rows_of c
  continue-Keeps (ok a) f c k = k a c
  continue-Keeps (err e) f c k = refl

  bind-Keeps :
      {A B : Type 0} (m : Act Logs A) (f : A → Act Logs B)
      → Keeps rows_of m
      → ((a : A) → Keeps rows_of (f a))
      → Keeps rows_of (m >>= f)
  bind-Keeps m f k k' c = continue-Keeps (m c).0 f (m c).1 k' ∙ k c

  create_table-rows_at : (tbl : Str) (l : Logs) → rows_at (create_table tbl l) key ≡ rows_at l key
  unfolding create_table rows_at
  create_table-rows_at tbl l = ground (arith, get-put l.op_logs tbl [] key, str_eq_iff tbl key)

  create_snapshots-rows_at : (l : Logs) → rows_at (create_snapshots l) key ≡ rows_at l key
  unfolding create_snapshots rows_at
  create_snapshots-rows_at l = ground arith

  ensure_dataset-Keeps : (a u d : Str) → Keeps rows_of (ensure_dataset a u d)
  unfolding ensure_dataset mark_crr rows_at
  ensure_dataset-Keeps a u d c =
      let key' = table_key (dataset_table a u d) in
      let shadow = dataset_table a u d ++ codes "__crsql_clock" in
      bind-Keeps {A = Unit {0}} {B = Unit {0}} (stmt (λ l. some (tt, create_snapshots l))) _
        (step-Keeps (λ l. tt) create_snapshots create_snapshots-rows_at)
        (λ x.
          bind-Keeps {A = Unit {0}} {B = Unit {0}} (stmt (λ l. some (tt, create_table key' l))) _
            (step-Keeps (λ l. tt) (create_table key') (create_table-rows_at key'))
            (λ y.
              bind-Keeps {A = Bool} {B = Unit {0}} (stmt (λ l. some (is_crr shadow l, l)))
                (λ marked. if marked then pure tt else stmt (λ l. some (tt, mark_crr shadow l)))
                (step-Keeps (is_crr shadow) (λ l. l) (λ l. refl))
                (λ marked c'. elim (Bool-cases marked) [
                  | inl e ↦ rw e refl
                  | inr e ↦ rw e (step-Keeps (λ l. tt) (mark_crr shadow) (λ l. refl) c')
                ])))
        c

  read_table-Keeps :
      {A : Type 0} (tbl : Str) (f : List Row → A) → Keeps rows_of (stmt (read_table tbl f))
  unfolding read_table
  read_table-Keeps tbl f = stmt-Keeps (read_table tbl f) (λ l a l' e.
      elim (Option-cases (get l.op_logs tbl)) [
        | inl e' ↦ let h = rw (e', read_table) at e in cc
        | inr (rows, e') ↦
            subst (λ p. rows_at (p.1) key ≡ rows_at l key)
              (value_of_some (rw (e', read_table) at e)) refl
      ])

  module _ {V : Type 0} (json : Json V) (o : MapOrder) (a u d : Str) where
    query_ops-Keeps : (since : Hlc) → Keeps rows_of (query_ops json a u d since)
    unfolding query_ops
    query_ops-Keeps since =
        bind-Keeps (stmt (read_table (table_key (dataset_table a u d)) (selected since)))
          (λ rows c. (scan_rows json rows, c)) (read_table-Keeps _ (selected since))
          (λ rows c. refl)

    get_delta-Keeps : (since : Hlc) → Keeps rows_of (get_delta json a u d since)
    unfolding get_delta
    get_delta-Keeps since c =
        bind-Keeps {A = Unit {0}} {B = List (CrdtOp V) × Hlc} (ensure_dataset a u d) _
          (ensure_dataset-Keeps a u d)
          (λ x.
            bind-Keeps {A = List (CrdtOp V)} {B = List (CrdtOp V) × Hlc}
              (query_ops json a u d since) (λ ops. pure (ops, max_hlc zero_hlc ops))
              (query_ops-Keeps since) (λ ops c'. refl))
          c

    get_snapshot-Keeps : Keeps rows_of (get_snapshot json a u d o)
    unfolding get_snapshot
    get_snapshot-Keeps c =
        bind-Keeps {A = Unit {0}} {B = Dict Str V × Hlc} (ensure_dataset a u d) _
          (ensure_dataset-Keeps a u d)
          (λ x.
            bind-Keeps {A = List (CrdtOp V)} {B = Dict Str V × Hlc} (query_ops json a u d zero_hlc)
              _ (query_ops-Keeps zero_hlc) (λ ops c'. refl))
          c

get_schema_version-Keeps : (key a d : Str) → Keeps (rows_of key) (get_schema_version a d)
unfolding get_schema_version
get_schema_version-Keeps key a d =
    step-Keeps key (λ l. version_of (get l.datasets (a, d))) (λ l. l) (λ l. refl)

-- Over the SQLite backend, a sync without operations changes no row of any operation table, whatever
-- its outcome and whichever statements fail, and it notifies nobody.
sync-rows_at :
    {V N : Type 0} (json : Json V) (o : MapOrder) (notifier : Notifier N) (threshold now : ℤ)
    (msg : SyncMessage V) (w : Site (Conn Logs) N) (key : Str)
    → msg.ops ≡ []
    → (rows_at (sync (crsqlite json o) notifier threshold now msg w).1.store.tables key
        ≡ rows_at w.store.tables key)
      × ((sync (crsqlite json o) notifier threshold now msg w).1.listeners ≡ w.listeners)
sync-rows_at json o notifier threshold now msg w key e =
    sync_reads (crsqlite json o) notifier (rows_of key) threshold now msg w
      (get_schema_version-Keeps key msg.app_id msg.dataset_id)
      (get_snapshot-Keeps key json o msg.app_id msg.user_id msg.dataset_id)
      (get_delta-Keeps key json o msg.app_id msg.user_id msg.dataset_id msg.clock) e
