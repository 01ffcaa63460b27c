-- ===== src/Admin/Metrics.antt =====
-- admin/handlers_metrics.go: the metrics page. A family is what the Prometheus client gathers; float64
-- is an argument, with its sum and its conversion to int64 and to megabytes.
pub mod Totals
pub mod PerApp
use mobile_db.Prelude.{
  if◌then◌else◌, ◌==◌, nat_eq, pair_eq, ℤ, pos, ℤ_eq, add_int64, Str, codes, str_eq_inst, ◌||◌, not,
  Option, none, some, List, [], ◌∷◌, ◌++◌,
}
use mobile_db.Prelude.Dict.{Dict, get, put, MapOrder}
use mobile_db.Prelude.Exec.{Result, ok, err}
use mobile_db.Server.Requests.{Response}
use mobile_db.Admin.Web.{PageRequest, Templates, reply, show_page}

-- float64: zero, the sum, `int64(x)`, and `fmt.Sprintf("%.1f", x/1024/1024)`.
pub record Floats (F : Type 0) : Type 0 where
  pub zero_float : F
  pub add : F → F → F
  pub truncate : F → ℤ
  pub megabytes : F → Str

-- A sample with its labels; `GetGauge` and `GetCounter` are `none` for nil.
pub record Metric (F : Type 0) : Type 0 where
  pub labels : List (Str × Str)
  pub gauge : Option F
  pub counter : Option F

pub record MetricFamily (F : Type 0) : Type 0 where
  pub name : Str
  pub metrics : List (Metric F)

pub record AppMetricRow : Type 0 where
  pub app_id : Str
  pub syncs : ℤ
  pub db_bytes : ℤ

pub record MetricsView : Type 0 where
  pub active_devices : ℤ
  pub crdt_ops_total : ℤ
  pub sse_connections : ℤ
  pub compaction_runs : ℤ
  pub sync_requests_total : ℤ
  pub db_size_mb : Str
  pub per_app : List AppMetricRow

-- The label `app_id`, the last one if there are several; empty if there is none.
unfoldable pub app_label : Str → List (Str × Str) → Str
app_label app [] = app
app_label app ((name, value) ∷ labels) =
    if name == codes "app_id" then app_label value labels else app_label app labels

abbrev pub sync_requests : Str
sync_requests = codes "mobiledb_sync_requests_total"

abbrev pub db_size : Str
db_size = codes "mobiledb_db_size_bytes"

-- `m[k] += x` on an int64 map
unfoldable pub number : Option ℤ → ℤ
number none = pos 0
number (some x) = x

unfoldable pub value_at : Dict Str ℤ → Str → ℤ
unfolding number
value_at m k = number (get m k)

unfoldable pub bump : Dict Str ℤ → Str → ℤ → Dict Str ℤ
unfolding value_at
bump m k x = put m k (add_int64 (value_at m k) x)

-- The two maps of `perAppRows`.
pub record AppTotals : Type 0 where
  pub syncs : Dict Str ℤ
  pub db_bytes : Dict Str ℤ

module _ {F : Type 0} (floats : Floats F) where
  unfoldable pub metric_value : Metric F → F → F
  metric_value m sum = elim m.gauge [
    | some g ↦ floats.add sum g
    | none ↦ elim m.counter [ some c ↦ floats.add sum c | none ↦ sum ]
  ]

  unfoldable pub sum_values : F → List (Metric F) → F
  unfolding metric_value
  sum_values sum [] = sum
  sum_values sum (m ∷ ms) = sum_values (metric_value m sum) ms

  -- The sum of the first family with the name.
  unfoldable pub sum_metric : List (MetricFamily F) → Str → F
  unfolding sum_values
  sum_metric [] name = floats.zero_float
  sum_metric (mf ∷ mfs) name =
      let rest = sum_metric mfs name in
      if mf.name == name then sum_values floats.zero_float mf.metrics else rest

  unfoldable pub add_syncs : Str → Option F → AppTotals → AppTotals
  unfolding bump
  add_syncs app none t = t
  add_syncs app (some c) t = record t { syncs = bump t.syncs app (floats.truncate c) }

  unfoldable pub add_bytes : Str → Option F → AppTotals → AppTotals
  unfolding bump
  add_bytes app none t = t
  add_bytes app (some g) t = record t { db_bytes = bump t.db_bytes app (floats.truncate g) }

  -- The sample of a family that counts for the rows: a counter of the one, a gauge of the other.
  unfoldable pub add_sample : Str → Metric F → AppTotals → AppTotals
  unfolding add_syncs add_bytes
  add_sample name m t =
      let app = app_label [] m.labels in
      if app == []
      then t
      else if name == sync_requests
      then add_syncs app m.counter t
      else add_bytes app m.gauge t

  unfoldable pub add_samples : Str → List (Metric F) → AppTotals → AppTotals
  unfolding add_sample
  add_samples name [] t = t
  add_samples name (m ∷ ms) t = add_samples name ms (add_sample name m t)

  unfoldable pub app_totals : List (MetricFamily F) → AppTotals → AppTotals
  unfolding add_samples
  app_totals [] t = t
  app_totals (mf ∷ mfs) t = app_totals mfs (
      if mf.name == sync_requests || mf.name == db_size
      then add_samples mf.name mf.metrics t
      else t)

-- The loops over the two maps; a row for each app of the first, and for each of the second that the
-- first does not have.
unfoldable pub sync_rows : Dict Str ℤ → List (Str × ℤ) → List AppMetricRow
unfolding value_at
sync_rows db [] = []
sync_rows db ((app, n) ∷ es) =
    record { app_id = app; syncs = n; db_bytes = value_at db app } ∷ sync_rows db es

unfoldable pub unless_seen : Str → ℤ → Option ℤ → List AppMetricRow → List AppMetricRow
unless_seen app n none rest = record { app_id = app; syncs = pos 0; db_bytes = n } ∷ rest
unless_seen app n (some k) rest = rest

unfoldable pub other_rows : Dict Str ℤ → List (Str × ℤ) → List AppMetricRow
unfolding unless_seen
other_rows syncs [] = []
other_rows syncs ((app, n) ∷ es) = unless_seen app n (get syncs app) (other_rows syncs es)

unfoldable pub rows_of : MapOrder → AppTotals → List AppMetricRow
unfolding sync_rows other_rows
rows_of o t =
    sync_rows t.db_bytes (o.visit (Str × ℤ) t.syncs)
    ++ other_rows t.syncs (o.visit (Str × ℤ) t.db_bytes)

module _ {F : Type 0} (floats : Floats F) (o : MapOrder) where
  unfoldable pub per_app_rows : List (MetricFamily F) → List AppMetricRow
  unfolding app_totals rows_of
  per_app_rows mfs = rows_of o (app_totals floats mfs (record { syncs = []; db_bytes = [] }))

  unfoldable pub metrics_view : List (MetricFamily F) → MetricsView
  unfolding sum_metric per_app_rows
  metrics_view mfs = record {
    active_devices = floats.truncate (sum_metric floats mfs (codes "mobiledb_active_devices"));
    crdt_ops_total = floats.truncate (sum_metric floats mfs (codes "mobiledb_crdt_ops_total"));
    sse_connections = floats.truncate (sum_metric floats mfs (codes "mobiledb_sse_connections"));
    compaction_runs =
        floats.truncate (sum_metric floats mfs (codes "mobiledb_compaction_runs_total"));
    sync_requests_total = floats.truncate (sum_metric floats mfs sync_requests);
    db_size_mb = floats.megabytes (sum_metric floats mfs db_size);
    per_app = per_app_rows mfs;
  }

  -- `gathered`: what `Gather` returns
  unfoldable pub gathered_page : Templates MetricsView → Result (List (MetricFamily F)) → Response
  unfolding reply show_page metrics_view
  gathered_page tmpl (err e) = reply 500 []
  gathered_page tmpl (ok mfs) = show_page tmpl (codes "Metrics") (metrics_view mfs)

  unfoldable pub serve_metrics :
      Templates MetricsView → Result (List (MetricFamily F)) → PageRequest → Response
  unfolding reply gathered_page
  serve_metrics tmpl gathered r =
      if not (r.method == codes "GET") then reply 405 [] else gathered_page tmpl gathered
