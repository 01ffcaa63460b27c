-- ===== src/Storage/Database.antt =====
-- storage/crsqlite/open.go, the metadata schema of storage/crsqlite/meta.go, storage/crsqlite/metadb.go,
-- and the opening and closing of storage/crsqlite/backend.go. `database/sql` is a table of drivers and
-- of open databases; each call of it may fail, and a database that is closed is closed also when
-- closing it returns an error. Of a schema the names are kept.
pub mod Backends
pub mod Drivers
pub mod Calls
pub mod Opening
pub mod Schema
use mobile_db.Prelude.{
  ℕ, suc, if◌then◌else◌, ◌==◌, nat_eq, pair_eq, ℤ_eq, Str, codes, str_eq_inst, Bool, true, false,
  not, Option, none, some, List, [], ◌∷◌,
}
use mobile_db.Prelude.Dict.{Dict, get, put, remove}
use mobile_db.Prelude.Exec.{sql_failed, Result, ok, err, Conn, Act, pure, stmt, ◌>>=◌, ◌>>◌}
use mobile_db.Storage.OpLog.{contains}

-- `driver_path` is the package's variable; `registered` counts the calls of `sql.Register`, which
-- panics on a second one; `opened` holds the open databases by number, each with the path of its file.
pub record Host : Type 0 where
  pub driver_path : Str
  pub registered : ℕ
  pub opened : Dict ℕ Str
  pub made : ℕ
  -- the tables and indexes of each file
  pub schemas : Dict Str (List Str)

unfoldable pub ensure_driver : Str → Act Host (Unit {0})
ensure_driver ext_path c =
    let h = c.tables in
    if h.driver_path == ext_path
    then (ok tt, c)
    else if not (h.driver_path == [])
    then (err sql_failed, c)
    else (
      ok tt,
      record c { tables = record h { driver_path = ext_path; registered = suc h.registered } },
    )

-- `sql.Open`, an error when the driver is not registered
unfoldable pub sql_open : Str → Act Host ℕ
sql_open path = stmt (λ h.
    if h.registered == 0
    then none
    else some (h.made, record h { opened = put h.opened h.made path; made = suc h.made }))

-- `db.PingContext`: the first connection, which loads the extension
unfoldable pub ping : ℕ → Act Host (Unit {0})
ping n = stmt (λ h. some (tt, h))

-- `db.Close`
unfoldable pub close_db : ℕ → Act Host (Unit {0})
close_db n c =
    let c' : Conn Host = record c {
      tables = record c.tables { opened = remove c.tables.opened n };
      calls = suc c.calls;
    } in
    if c.fails c.calls then (err sql_failed, c') else (ok tt, c')

-- `if err != nil { db.Close(); return nil, err }`
unfoldable pub or_close : ℕ → Result (Unit {0}) → Act Host ℕ
or_close n (ok u) c = (ok n, c)
or_close n (err e) c = (err e, (close_db n c).1)

unfoldable pub open_handle : Str → Str → Act Host ℕ
unfolding ensure_driver sql_open ping or_close
open_handle path ext_path = do
  ensure_driver ext_path
  n ← sql_open path
  λ c. or_close n (ping n c).0 (ping n c).1

-- The tables and indexes of `ApplyMetaDDL`, in the order of its statements.
abbrev pub meta_objects : List Str
meta_objects =
    codes "device_keys"
    ∷ codes "datasets"
    ∷ codes "refresh_tokens"
    ∷ codes "sync_events"
    ∷ codes "idx_device_keys_app"
    ∷ codes "idx_device_keys_device"
    ∷ codes "idx_refresh_tokens_user"
    ∷ codes "idx_sync_events_app"
    ∷ []

unfoldable pub names_at : Str → Host → List Str
names_at path h = elim (get h.schemas path) [ none ↦ [] | some names ↦ names ]

-- `CREATE … IF NOT EXISTS <name>` on a database, an error on one that is closed
unfoldable pub create_missing : ℕ → Str → Act Host (Unit {0})
unfolding names_at
create_missing n name = stmt (λ h. elim (get h.opened n) [
  | none ↦ none
  | some path ↦ some (
    tt,
    if contains name (names_at path h)
        then h
        else record h { schemas = put h.schemas path (name ∷ names_at path h) },
  )
])

-- The statements of one `ExecContext`; the first error ends it.
unfoldable pub exec_ddl : ℕ → List Str → Act Host (Unit {0})
unfolding create_missing
exec_ddl n [] = pure tt
exec_ddl n (name ∷ names) = do create_missing n name; exec_ddl n names

unfoldable pub apply_meta_ddl : ℕ → Act Host (Unit {0})
unfolding exec_ddl
apply_meta_ddl n = exec_ddl n meta_objects

-- `NewBackend`; a backend is the number of its database.
unfoldable pub new_backend : Str → Str → Act Host ℕ
unfolding open_handle apply_meta_ddl or_close
new_backend path ext_path = do
  n ← open_handle path ext_path
  λ c. or_close n (apply_meta_ddl n c).0 (apply_meta_ddl n c).1

pub record MetaDb : Type 0 where
  pub db : ℕ
  pub owner : Bool

-- `OpenMeta` makes the same calls as `NewBackend`, and owns the connection.
unfoldable pub open_meta : Str → Str → Act Host MetaDb
unfolding open_handle apply_meta_ddl or_close
open_meta path ext_path = do
  n ← open_handle path ext_path
  m ← λ c. or_close n (apply_meta_ddl n c).0 (apply_meta_ddl n c).1
  pure (record { db = m; owner = true })

-- `Backend.Meta`: a view that does not own the connection
unfoldable pub meta_of : ℕ → MetaDb
meta_of n = record { db = n; owner = false }

-- `MetaDB.Close`
unfoldable pub close_meta : MetaDb → Act Host (Unit {0})
unfolding close_db
close_meta m = if m.owner then close_db m.db else pure tt
