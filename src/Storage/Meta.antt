-- ===== src/Storage/Meta.antt =====
-- storage/crsqlite/meta.go: schema versions, kept in the `datasets` table.
use mobile_db.Prelude.{
  if◌then◌else◌, ◌==◌, nat_eq, pair_eq, ℤ, pos, ℤ_eq, Str, str_eq_inst, ◌≡◌, false, ◌&&◌, Option,
  none, some, arith,
}
use mobile_db.Prelude.Dict.{get, put, get-put}
use mobile_db.Prelude.Exec.{ok, Conn, stmt}
use mobile_db.Storage.OpLog.{Logs, Db}

-- No row for the dataset: version 1.
unfoldable pub version_of : Option ℤ → ℤ
version_of none = pos 1
version_of (some v) = v

unfoldable pub get_schema_version : Str → Str → Db ℤ
unfolding version_of
get_schema_version app_id dataset_id =
    stmt (λ l. some (version_of (get l.datasets (app_id, dataset_id)), l))

unfoldable pub set_schema_version : Str → Str → ℤ → Db (Unit {0})
set_schema_version app_id dataset_id version =
    stmt (λ l. some (tt, record l { datasets = put l.datasets (app_id, dataset_id) version }))

-- After a version of a dataset has been set, a read that meets no driver error returns it, and
-- for any other dataset or app it returns what it would have returned before.
pub get-set_schema_version :
    (c : Conn Logs) (a d a' d' : Str) (v : ℤ)
    → (set_schema_version a d v c).0 ≡ ok tt
    → (set_schema_version a d v c).1.fails (set_schema_version a d v c).1.calls ≡ false
    → (get_schema_version a' d' (set_schema_version a d v c).1).0
      ≡ ok (if a == a' && d == d' then v else version_of (get c.tables.datasets (a', d')))
unfolding set_schema_version get_schema_version stmt
get-set_schema_version c a d a' d' v h quiet =
    ground (arith, get-put c.tables.datasets (a, d) v (a', d'))
