-- ===== src/Admin/Devices.antt =====
-- storage/crsqlite/adminstore.go (device keys) and admin/handlers_devices.go: the list of device keys,
-- their counts, and their revocation by an administrator, over the table of Server/Device.
pub mod Counts
pub mod Revoked
use mobile_db.Prelude.{
  ℕ, suc, ◌+◌, if◌then◌else◌, ◌==◌, nat_eq, pair_eq, ℤ_eq, Str, codes, str_eq_inst, select, Bool,
  ◌||◌, not, Option, none, some, List, [], ◌∷◌, map,
}
use mobile_db.Prelude.Rows.{RowOrder}
use mobile_db.Prelude.Dict.{Dict, get, put}
use mobile_db.Prelude.Exec.{
  device_not_found, Result, ok, err, Conn, Act, pure, raise, stmt, ◌>>=◌, ◌>>◌,
}
use mobile_db.Server.Requests.{Response}
use mobile_db.Server.Device.{DeviceKey, KeyTable}
use mobile_db.Admin.Web.{PageRequest, query_get, Templates, reply, show_page, last_segment}

-- The columns that the list selects: all but `last_seen_at`.
unfoldable pub listed_key : Str × DeviceKey → DeviceKey
listed_key (id, dk) = record dk { device_key_id = id; last_seen_at = none }

-- `WHERE (?='' OR status=?)`
unfoldable pub has_status : Str → DeviceKey → Bool
has_status status dk = status == [] || dk.status == status

unfoldable pub list_devices : RowOrder → Str → Act KeyTable (List DeviceKey)
unfolding listed_key has_status
list_devices o status = stmt (λ t. some (
  o.arrange DeviceKey (λ dk. dk.registered_at) (select (has_status status) (map listed_key t)),
  t,
))

-- `SELECT status, COUNT(*) … GROUP BY status`: the counts by status.
unfoldable pub counted : Option ℕ → ℕ
counted none = 0
counted (some n) = n

unfoldable pub status_groups : KeyTable → Dict Str ℕ
unfolding counted
status_groups [] = []
status_groups ((id, dk) ∷ t) =
    let groups = status_groups t in put groups dk.status (suc (counted (get groups dk.status)))

pub record DeviceCounts : Type 0 where
  pub all : ℕ
  pub active : ℕ
  pub revoked : ℕ

-- One row of the counts: `all += count`, and the switch on the status.
unfoldable pub add_group : DeviceCounts → Str × ℕ → DeviceCounts
add_group n (status, count) =
    if status == codes "active"
    then record n { all = n.all + count; active = count }
    else if status == codes "revoked"
    then record n { all = n.all + count; revoked = count }
    else record n { all = n.all + count }

unfoldable pub add_groups : DeviceCounts → List (Str × ℕ) → DeviceCounts
unfolding add_group
add_groups n [] = n
add_groups n (g ∷ gs) = add_groups (add_group n g) gs

abbrev pub no_devices : DeviceCounts
no_devices = record { all = 0; active = 0; revoked = 0 }

unfoldable pub device_counts : Act KeyTable DeviceCounts
unfolding status_groups add_groups
device_counts = stmt (λ t. some (add_groups no_devices (status_groups t), t))

-- `UPDATE device_keys SET status='revoked' WHERE device_key_id=?`, with the number of rows affected
unfoldable pub set_revoked : Str → KeyTable → ℕ × KeyTable
set_revoked id t = elim (get t id) [
  | none ↦ (0, t)
  | some dk ↦ (1, put t id (record dk { status = codes "revoked" }))
]

unfoldable pub revoke_device : Str → Act KeyTable (Unit {0})
unfolding set_revoked
revoke_device id = do
  n ← stmt (λ t. some (set_revoked id t))
  if n == 0 then raise device_not_found else pure tt

-- What the page shows.
pub record DevicesView : Type 0 where
  pub devices : List DeviceKey
  pub active_tab : Str
  pub counts : DeviceCounts

unfoldable pub is_tab : Str → Bool
is_tab status = status == [] || status == codes "active" || status == codes "revoked"

module _ (o : RowOrder) (tmpl : Templates DevicesView) where
  unfoldable pub counts_read : Str → List DeviceKey → Result DeviceCounts → Response
  unfolding reply show_page
  counts_read status devices (err e) = reply 500 []
  counts_read status devices (ok counts) =
      show_page tmpl (codes "Devices")
        (record { devices = devices; active_tab = status; counts = counts })

  unfoldable pub devices_read :
      Str → Result (List DeviceKey) → Conn KeyTable → Response × Conn KeyTable
  unfolding reply counts_read device_counts
  devices_read status (err e) c = (reply 500 [], c)
  devices_read status (ok devices) c =
      (counts_read status devices (device_counts c).0, (device_counts c).1)

  unfoldable pub list_page : PageRequest → Conn KeyTable → Response × Conn KeyTable
  unfolding reply query_get list_devices devices_read is_tab
  list_page r c =
      let status = query_get r (codes "status") in
      let listed = list_devices o status c in
      if not (is_tab status) then (reply 400 [], c) else devices_read status listed.0 listed.1

-- `revoked_row`: the row of the table with the key id escaped by `html.EscapeString`
module _ (revoked_row : Str → Str) where
  unfoldable pub revoke_answer : Str → Result (Unit {0}) → Response
  unfolding reply
  revoke_answer id (err e) = reply 500 []
  revoke_answer id (ok u) = reply 200 (revoked_row id)

  unfoldable pub revoke_page : PageRequest → Conn KeyTable → Response × Conn KeyTable
  unfolding reply last_segment revoke_device revoke_answer
  revoke_page r c =
      let id = last_segment r.path in
      let done = revoke_device id c in
      if id == [] || id == codes "devices"
      then (reply 400 [], c)
      else (revoke_answer id done.0, done.1)

unfoldable pub serve_devices :
    RowOrder
    → Templates DevicesView
    → (Str → Str)
    → PageRequest
    → Conn KeyTable
    → Response × Conn KeyTable
unfolding reply list_page revoke_page
serve_devices o tmpl revoked_row r c =
    if r.method == codes "GET"
    then list_page o tmpl r c
    else if r.method == codes "DELETE"
    then revoke_page revoked_row r c
    else (reply 405 [], c)
