-- ===== src/Admin/Data.antt =====
-- storage/crsqlite/adminstore.go (documents) and admin/handlers_data.go: the data browser over the
-- snapshots and the datasets of the backend's tables. `created_at` gives the column that SQLite fills
-- in, by primary key; the order of `ORDER BY created_at DESC` is a parameter.
pub mod Deletion
use mobile_db.Prelude.{
  ℕ, if◌then◌else◌, ◌==◌, nat_eq, pair_eq, ℤ, ℤ_eq, Str, codes, str_eq_inst, select, Bool, ◌&&◌,
  ◌||◌, Option, none, some, List, [], ◌∷◌, map,
}
use mobile_db.Prelude.Rows.{RowOrder}
use mobile_db.Prelude.Dict.{Dict, get, remove}
use mobile_db.Prelude.Exec.{sql_failed, Result, ok, err, Conn, pure, raise, stmt, ◌>>=◌, ◌>>◌}
use mobile_db.Server.Requests.{Response}
use mobile_db.Storage.OpLog.{SnapshotKey, SnapshotRow, Logs, Db}
use mobile_db.Admin.Web.{PageRequest, query_get, Templates, reply, show_page, show_part}

-- `SELECT dataset_id FROM datasets WHERE app_id=?`
unfoldable pub dataset_ids : Str → Dict (Str × Str) ℤ → List Str
dataset_ids app [] = []
dataset_ids app (((a, d), v) ∷ rows) =
    let rest = dataset_ids app rows in if a == app then d ∷ rest else rest

unfoldable pub list_datasets : Str → Db (List Str)
unfolding dataset_ids
list_datasets app = stmt (λ l. some (dataset_ids app l.datasets, l))

pub record AdminDoc : Type 0 where
  pub doc_id : Str
  pub user_id : Str
  pub content : Str
  pub device_id : Str
  pub created_at : ℕ
  pub wall_time : ℤ

module _ (created_at : SnapshotKey → ℕ) where
  unfoldable pub doc_of_row : SnapshotKey → SnapshotRow → AdminDoc
  doc_of_row key row = record {
    doc_id = key.1.1;
    user_id = key.1.0;
    content = row.content;
    device_id = row.device_id;
    created_at = created_at key;
    wall_time = row.wall_time;
  }

  -- `WHERE dataset_id=? AND (?='' OR user_id=?)`
  unfoldable pub is_listed : Str → Str → SnapshotKey × SnapshotRow → Bool
  is_listed dataset user ((d, (u, k)), row) = d == dataset && (user == [] || u == user)

  unfoldable pub docs_in : RowOrder → Str → Str → Dict SnapshotKey SnapshotRow → List AdminDoc
  unfolding doc_of_row is_listed
  docs_in o dataset user m =
      o.arrange AdminDoc (λ d. d.created_at)
        (map (λ e. doc_of_row e.0 e.1) (select (is_listed dataset user) m))

  -- The app is not used.
  unfoldable pub list_docs : RowOrder → Str → Str → Str → Db (List AdminDoc)
  unfolding docs_in
  list_docs o app dataset user =
      stmt (λ l. elim l.snapshots [ none ↦ none | some m ↦ some (docs_in o dataset user m, l) ])

  -- No row is `sql.ErrNoRows`, an error like any other.
  unfoldable pub doc_found : SnapshotKey → Option SnapshotRow → Db AdminDoc
  unfolding doc_of_row
  doc_found key none = raise sql_failed
  doc_found key (some row) = pure (doc_of_row key row)

  unfoldable pub get_doc : SnapshotKey → Db AdminDoc
  unfolding doc_found
  get_doc key = do
    row ← stmt (λ l. elim l.snapshots [ none ↦ none | some m ↦ some (get m key, l) ])
    doc_found key row

-- `DELETE FROM snapshots WHERE dataset_id=? AND user_id=? AND doc_id=?`
unfoldable pub delete_doc : SnapshotKey → Db (Unit {0})
delete_doc key = stmt (λ l. elim l.snapshots [
  | none ↦ none
  | some m ↦ some (tt, record l { snapshots = some (remove m key) })
])

pub record BrowseView : Type 0 where
  pub app : Str
  pub datasets : List Str

pub record DocsView : Type 0 where
  pub docs : List AdminDoc
  pub app : Str
  pub dataset : Str
  pub user : Str

unfoldable pub key_of : PageRequest → SnapshotKey
unfolding query_get
key_of r = (
  query_get r (codes "dataset_id"),
  (query_get r (codes "user_id"), query_get r (codes "doc_id")),
)

-- `datasetID == "" || userID == "" || docID == ""`
unfoldable pub lacks_part : SnapshotKey → Bool
lacks_part (d, (u, k)) = d == [] || u == [] || k == []

-- The three templates, and the fixed texts for no dataset and for a row that was deleted.
pub record DataTexts : Type 0 where
  pub browse : Templates BrowseView
  pub docs : Templates DocsView
  pub modal : Templates AdminDoc
  pub no_dataset : Str
  pub deleted : Str

module _ (texts : DataTexts) where
  unfoldable pub datasets_read : Str → Result (List Str) → Response
  unfolding reply show_page
  datasets_read app (err e) = reply 500 []
  datasets_read app (ok ids) =
      show_page texts.browse (codes "Data Browser") (record { app = app; datasets = ids })

  unfoldable pub browse_page : PageRequest → Conn Logs → Response × Conn Logs
  unfolding query_get list_datasets datasets_read
  browse_page r c =
      let app = query_get r (codes "app_id") in
      let listed = list_datasets app c in
      if app == [] then (datasets_read app (ok []), c) else (datasets_read app listed.0, listed.1)

  unfoldable pub docs_read : Str → Str → Str → Result (List AdminDoc) → Response
  unfolding reply show_part
  docs_read app dataset user (err e) = reply 500 []
  docs_read app dataset user (ok docs) =
      show_part texts.docs (record { docs = docs; app = app; dataset = dataset; user = user })

  unfoldable pub doc_read : Result AdminDoc → Response
  unfolding reply show_part
  doc_read (err e) = reply 404 []
  doc_read (ok doc) = show_part texts.modal doc

  unfoldable pub doc_deleted : Result (Unit {0}) → Response
  unfolding reply
  doc_deleted (err e) = reply 500 []
  doc_deleted (ok u) = reply 200 texts.deleted

  unfoldable pub delete_page : PageRequest → Conn Logs → Response × Conn Logs
  unfolding reply key_of lacks_part delete_doc doc_deleted
  delete_page r c =
      let done = delete_doc (key_of r) c in
      if lacks_part (key_of r) then (reply 400 [], c) else (doc_deleted done.0, done.1)

module _ (created_at : SnapshotKey → ℕ) (texts : DataTexts) where
  unfoldable pub doc_modal : PageRequest → Conn Logs → Response × Conn Logs
  unfolding reply key_of lacks_part get_doc doc_read
  doc_modal r c =
      let fetched = get_doc created_at (key_of r) c in
      if lacks_part (key_of r) then (reply 400 [], c) else (doc_read texts fetched.0, fetched.1)

module _ (o : RowOrder) (created_at : SnapshotKey → ℕ) (texts : DataTexts) where
  unfoldable pub docs_partial : PageRequest → Conn Logs → Response × Conn Logs
  unfolding reply query_get list_docs docs_read
  docs_partial r c =
      let app = query_get r (codes "app_id") in
      let dataset = query_get r (codes "dataset_id") in
      let user = query_get r (codes "user_id") in
      let listed = list_docs created_at o app dataset user c in
      if dataset == []
      then (reply 200 texts.no_dataset, c)
      else (docs_read texts app dataset user listed.0, listed.1)

  unfoldable pub serve_data : PageRequest → Conn Logs → Response × Conn Logs
  unfolding reply browse_page docs_partial doc_modal delete_page
  serve_data r c =
      if r.method == codes "GET" && r.path == codes "/admin/data"
      then browse_page texts r c
      else if r.method == codes "GET" && r.path == codes "/admin/data/docs"
      then docs_partial r c
      else if r.method == codes "GET" && r.path == codes "/admin/data/doc"
      then doc_modal created_at texts r c
      else if r.method == codes "DELETE" && r.path == codes "/admin/data/doc"
      then delete_page texts r c
      else (reply 404 [], c)
