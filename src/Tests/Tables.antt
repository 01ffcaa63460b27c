-- ===== src/Tests/Tables.antt =====
-- Examples for table names, schema versions, insertions and merges.
use mobile_db.Prelude.{
  if◌then◌else◌, ◌==◌, nat_eq, pair_eq, pos, ℤ_eq, codes, str_eq_inst, All, ◌≡◌, refl, ◌&&◌, [],
  ◌∷◌, arith,
}
use mobile_db.Prelude.Dict.{get}
use mobile_db.Prelude.Exec.{ok, Conn, stmt}
use mobile_db.Storage.TableName.{dataset_table}
use mobile_db.Storage.TableName.Safety.{IsNameByte, dataset_table-All}
use mobile_db.Storage.TableName.Isolation.{dataset_table-injective}
use mobile_db.Storage.OpLog.{Logs}
use mobile_db.Storage.OpLog.Ensure.{key_of, rows_at}
use mobile_db.Storage.OpLog.Inserts.{text_of}
use mobile_db.Storage.OpLog.Stored.{Inserted}
use mobile_db.Storage.Meta.{
  get_schema_version, set_schema_version, version_of, get-set_schema_version,
}
use mobile_db.Storage.Backend.{merge_ops}
use mobile_db.Storage.Backend.Merging.{merge_ops-twice}
use mobile_db.Tests.{first_op, plain_json, no_logs, empty_store}

dataset_table-All_example : All IsNameByte (dataset_table (codes "a;b") (codes "u") (codes "d"))
dataset_table-All_example = dataset_table-All (codes "a;b") (codes "u") (codes "d")

dataset_table-injective_example :
    (codes "a1" ≡ codes "a1") × (codes "u" ≡ codes "u") × (codes "d" ≡ codes "d")
dataset_table-injective_example =
    dataset_table-injective (codes "a1") (codes "u") (codes "d") (codes "a1") (codes "u")
      (codes "d") (ground arith) (ground arith) (ground arith) (ground arith) (ground arith)
      (ground arith) refl

get-set_schema_version_example :
    (get_schema_version
      (codes "a")
      (codes "d")
      (set_schema_version (codes "a") (codes "d") (pos 3) empty_store).1).0
    ≡ ok (
        if (codes "a" == codes "a") && (codes "d" == codes "d")
        then pos 3
        else version_of (get no_logs.datasets (codes "a", codes "d")))
unfolding set_schema_version stmt
get-set_schema_version_example =
    get-set_schema_version empty_store (codes "a") (codes "d") (codes "a") (codes "d") (pos 3) refl
      refl

-- The table is there; the third statement of the transaction fails, when one row has been written.
abbrev failing_store : Conn Logs
failing_store = record {
  tables = record no_logs { op_logs = (key_of (codes "a") (codes "u") (codes "d"), []) ∷ [] };
  calls = 0;
  fails = λ k. k == 3;
}

merge_ops-twice_example :
    let merge = merge_ops plain_json (codes "a") (codes "u") (codes "d") (first_op ∷ []) in
    let key = key_of (codes "a") (codes "u") (codes "d") in
    ((merge empty_store).0 ≡ ok tt)
    × Inserted plain_json
        (first_op ∷ [])
        (rows_at empty_store.tables key)
        (rows_at (merge empty_store).1.tables key)
    × ((merge (merge empty_store).1).0 ≡ ok tt)
    × (rows_at (merge (merge empty_store).1).1.tables key
        ≡ rows_at (merge empty_store).1.tables key)
unfolding text_of
merge_ops-twice_example =
    merge_ops-twice plain_json (codes "a") (codes "u") (codes "d") (first_op ∷ []) empty_store
      (λ n. refl) (refl, tt)
