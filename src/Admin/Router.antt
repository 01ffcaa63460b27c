-- ===== src/Admin/Router.antt =====
-- admin/router.go, and the rest of admin/handlers_misc.go: which page serves which path. The paths are
-- clean, as `ServeMux` makes them; the metrics page is Admin/Metrics.
use mobile_db.Prelude.{
  ℕ, if◌then◌else◌, ◌==◌, nat_eq, pair_eq, ℤ_eq, Str, codes, str_eq_inst, Bool, true, false, ◌||◌,
  none, some, List, [],
}
use mobile_db.Prelude.Dict.{MapOrder}
use mobile_db.Prelude.Rows.{RowOrder}
use mobile_db.Prelude.Exec.{Result, Conn}
use mobile_db.Server.Requests.{Response, after_prefix}
use mobile_db.Server.Device.{KeyTable}
use mobile_db.Storage.OpLog.{SnapshotKey, Logs}
use mobile_db.Admin.Web.{PageRequest, Templates, reply, show_page}
use mobile_db.Admin.Devices.{DevicesView, serve_devices}
use mobile_db.Admin.Events.{EventTable, SyncView, sync_page}
use mobile_db.Admin.Data.{DataTexts, serve_data}
use mobile_db.Admin.Metrics.{Floats, MetricFamily, MetricsView, serve_metrics}

-- The tables behind the pages, each with its connection.
pub record Stores : Type 0 where
  pub keys : Conn KeyTable
  pub events : Conn EventTable
  pub logs : Conn Logs

unfoldable pub keys_page : Templates Bool → Bool → PageRequest → Response
unfolding show_page
keys_page tmpl stale r = show_page tmpl (codes "Key Management") stale

unfoldable pub has_prefix : Str → Str → Bool
has_prefix p s = elim (after_prefix p s) [ none ↦ false | some rest ↦ true ]

-- What the pages are made with: their templates and texts, the order of rows, the row that SQLite
-- dates, the order of a map's entries, and what a request finds: the metrics and the time a day ago.
pub record Pages (F : Type 0) : Type 1 where
  pub order : RowOrder
  pub visits : MapOrder
  pub floats : Floats F
  pub devices : Templates DevicesView
  pub revoked_row : Str → Str
  pub sync : Templates SyncView
  pub keys : Templates Bool
  pub texts : DataTexts
  pub metrics : Templates MetricsView
  pub created_at : SnapshotKey → ℕ

pub record Moment (F : Type 0) : Type 0 where
  pub gathered : Result (List (MetricFamily F))
  pub day_ago : ℕ

unfoldable pub on_keys : Stores → Response × Conn KeyTable → Response × Stores
on_keys s (out, c) = (out, record s { keys = c })

unfoldable pub on_events : Stores → Response × Conn EventTable → Response × Stores
on_events s (out, c) = (out, record s { events = c })

unfoldable pub on_logs : Stores → Response × Conn Logs → Response × Stores
on_logs s (out, c) = (out, record s { logs = c })

-- The page that the mux of `NewAdminRouter` chooses for a path.
pub data AdminPage : Type 0 where
  devices_page data_page sync_activity keys_management metrics_page to_devices : AdminPage

unfoldable pub admin_page : Str → AdminPage
unfolding has_prefix
admin_page path =
    if path == codes "/admin/devices" || has_prefix (codes "/admin/devices/") path
    then devices_page
    else if path == codes "/admin/data"
        || path == codes "/admin/data/docs"
        || path == codes "/admin/data/doc"
    then data_page
    else if path == codes "/admin/sync"
    then sync_activity
    else if path == codes "/admin/keys"
    then keys_management
    else if path == codes "/admin/metrics"
    then metrics_page
    else to_devices

module _ {F : Type 0} (pages : Pages F) (now : Moment F) where
  unfoldable pub serve_page : AdminPage → PageRequest → Stores → Response × Stores
  unfolding reply keys_page on_keys on_events on_logs
  serve_page devices_page r s =
      on_keys s (serve_devices pages.order pages.devices pages.revoked_row r s.keys)
  serve_page data_page r s =
      on_logs s (serve_data pages.order pages.created_at pages.texts r s.logs)
  serve_page sync_activity r s =
      on_events s (sync_page pages.order now.day_ago pages.sync r s.events)
  serve_page keys_management r s = (keys_page pages.keys false r, s)
  serve_page metrics_page r s =
      (serve_metrics pages.floats pages.visits pages.metrics now.gathered r, s)
  serve_page to_devices r s = (reply 302 [], s)

  unfoldable pub serve_admin : PageRequest → Stores → Response × Stores
  unfolding admin_page serve_page
  serve_admin r s = serve_page (admin_page r.path) r s
