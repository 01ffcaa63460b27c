-- ===== src/Admin/Events.antt =====
-- storage/crsqlite/adminstore.go and admin/handlers_misc.go: the sync events and the page that shows
-- them. Dates are numbers, so they need no parsing; the order of `ORDER BY synced_at DESC` is a
-- parameter of each query. Operation counts are summed without a bound.
pub mod Paging
pub mod Aggregates
use mobile_db.Prelude.{
  wrap_int64, ℕ, zero, suc, ◌+◌, ◌-◌, ◌*◌, ltb, if◌then◌else◌, ◌==◌, nat_eq, pair_eq, ℤ, pos,
  negsuc, pos_part, ltb_ℤ, ℤ_eq, inc_int64, Str, codes, str_eq_inst, length, select, Bool, ◌||◌,
  Option, none, some, List, [], ◌∷◌, ◌++◌, map,
}
use mobile_db.Prelude.Decimal.{atoi}
use mobile_db.Prelude.Rows.{take, drop, RowOrder}
use mobile_db.Prelude.Dict.{Dict, get, put}
use mobile_db.Prelude.Exec.{Result, ok, err, Conn, Act, pure, stmt, ◌>>=◌, ◌>>◌}
use mobile_db.Server.Requests.{Response}
use mobile_db.Admin.Web.{PageRequest, query_get, Templates, reply, show_page}

pub record SyncEvent : Type 0 where
  pub id : ℕ
  pub app_id : Str
  pub dataset_id : Str
  pub user_id : Str
  pub device_key_id : Str
  pub op_count : ℕ
  pub synced_at : ℕ

-- The `sync_events` table: its rows, and the last id that was given (`AUTOINCREMENT`).
pub record EventTable : Type 0 where
  pub rows : List SyncEvent
  pub last_id : ℕ

unfoldable pub insert_event : Str → Str → Str → Str → ℕ → ℕ → EventTable → EventTable
insert_event app dataset user key op_count now t =
    let e : SyncEvent = record {
      id = suc t.last_id;
      app_id = app;
      dataset_id = dataset;
      user_id = user;
      device_key_id = key;
      op_count = op_count;
      synced_at = now;
    } in
    record { rows = t.rows ++ (e ∷ []); last_id = suc t.last_id }

unfoldable pub write_sync_event : Str → Str → Str → Str → ℕ → ℕ → Act EventTable (Unit {0})
unfolding insert_event
write_sync_event app dataset user key op_count now =
    stmt (λ t. some (tt, insert_event app dataset user key op_count now t))

-- `WHERE (?='' OR app_id=?)`
unfoldable pub of_app : Str → SyncEvent → Bool
of_app app e = app == [] || e.app_id == app

-- `LIMIT ? OFFSET ?`: a negative offset is no offset.
unfoldable pub page_of {ℓ} : {A : Type ℓ} → ℕ → ℤ → List A → List A
page_of limit offset rows = take limit (drop (pos_part offset) rows)

-- `if page < 1 { page = 1 }`
unfoldable pub at_least_one : ℤ → ℕ
at_least_one (pos zero) = 1
at_least_one (pos (suc n)) = suc n
at_least_one (negsuc n) = 1

-- `(page - 1) * pageSize`
unfoldable pub page_offset : ℕ → ℕ → ℤ
unfolding wrap_int64
page_offset page page_size = wrap_int64 ((page - 1) * page_size)

module _ (o : RowOrder) where
  unfoldable pub ordered_events : Str → EventTable → List SyncEvent
  unfolding of_app
  ordered_events app t = o.arrange SyncEvent (λ e. e.synced_at) (select (of_app app) t.rows)

  -- The events of a page and the number of all events.
  unfoldable pub list_sync_events : Str → ℤ → ℕ → Act EventTable (List SyncEvent × ℕ)
  unfolding ordered_events page_of at_least_one page_offset
  list_sync_events app page page_size = do
    total ← stmt (λ t. some (length (select (of_app app) t.rows), t))
    events ← stmt (λ t.
        some
          (page_of page_size (page_offset (at_least_one page) page_size) (ordered_events app t), t))
    pure (events, total)

-- One row of the aggregates: an app's dataset, its operations, its syncs since `since`, and the
-- last sync.
pub record SyncAggregate : Type 0 where
  pub app_id : Str
  pub dataset_id : Str
  pub total_ops : ℕ
  pub syncs_24h : ℕ
  pub last_sync : ℕ

-- `COUNT(CASE WHEN synced_at >= datetime('now', '-1 day') THEN 1 END)`, one row's part
unfoldable pub recent : ℕ → SyncEvent → ℕ
recent since e = if ltb e.synced_at since then 0 else 1

unfoldable pub max_of : ℕ → ℕ → ℕ
max_of a b = if ltb a b then b else a

unfoldable pub add_event : ℕ → SyncEvent → Option SyncAggregate → SyncAggregate
unfolding recent
add_event since e none = record {
  app_id = e.app_id;
  dataset_id = e.dataset_id;
  total_ops = e.op_count;
  syncs_24h = recent since e;
  last_sync = e.synced_at;
}
add_event since e (some a) = record {
  app_id = e.app_id;
  dataset_id = e.dataset_id;
  total_ops = e.op_count + a.total_ops;
  syncs_24h = recent since e + a.syncs_24h;
  last_sync = max_of e.synced_at a.last_sync;
}

-- `GROUP BY app_id, dataset_id`
unfoldable pub group_events : ℕ → List SyncEvent → Dict (Str × Str) SyncAggregate
unfolding add_event
group_events since [] = []
group_events since (e ∷ es) =
    let groups = group_events since es in
    put groups (e.app_id, e.dataset_id) (add_event since e (get groups (e.app_id, e.dataset_id)))

unfoldable pub list_sync_aggregates : RowOrder → ℕ → Act EventTable (List SyncAggregate)
unfolding group_events
list_sync_aggregates o since = stmt (λ t.
    some
      (o.arrange SyncAggregate (λ a. a.last_sync) (map (λ p. p.1) (group_events since t.rows)), t))

abbrev pub sync_page_size : ℕ
sync_page_size = 25

-- `if n, err := strconv.Atoi(pageStr); err == nil && n > 1 { page = n }`
unfoldable pub page_number : Option ℤ → ℕ
unfolding at_least_one
page_number none = 1
page_number (some n) = at_least_one n

-- What the events tab shows. `page` is below 2^63, and the product of `from` and `to` wraps around.
pub record EventsView : Type 0 where
  pub events : List SyncEvent
  pub total : ℕ
  pub page : ℕ
  pub from : ℤ
  pub to : ℤ
  pub has_prev : Bool
  pub has_next : Bool
  pub prev_page : ℕ
  pub next_page : ℤ

pub data SyncView : Type 0 where
  aggregates_tab : List SyncAggregate → SyncView
  events_tab : EventsView → SyncView

-- `n + k` on ints
unfoldable pub add_count : ℤ → ℕ → ℤ
add_count n zero = n
add_count n (suc k) = inc_int64 (add_count n k)

unfoldable pub events_view : ℕ → List SyncEvent × ℕ → EventsView
unfolding page_offset add_count
events_view page (events, total) =
    let start = page_offset page sync_page_size in
    let to = add_count start (length events) in
    record {
      events = events;
      total = total;
      page = page;
      from = if length events == 0 then pos 0 else inc_int64 start;
      to = to;
      has_prev = ltb 1 page;
      has_next = ltb_ℤ to (pos total);
      prev_page = page - 1;
      next_page = inc_int64 (pos page);
    }

module _ (o : RowOrder) (since : ℕ) (tmpl : Templates SyncView) where
  unfoldable pub aggregates_page : Result (List SyncAggregate) → Response
  unfolding reply show_page
  aggregates_page (err e) = reply 500 []
  aggregates_page (ok aggs) = show_page tmpl (codes "Sync Activity") (aggregates_tab aggs)

  unfoldable pub events_page : ℕ → Result (List SyncEvent × ℕ) → Response
  unfolding reply show_page events_view
  events_page page (err e) = reply 500 []
  events_page page (ok listed) =
      show_page tmpl (codes "Sync Activity") (events_tab (events_view page listed))

  unfoldable pub sync_page : PageRequest → Conn EventTable → Response × Conn EventTable
  unfolding query_get list_sync_events list_sync_aggregates aggregates_page events_page page_number
  sync_page r c =
      let page = page_number (atoi (query_get r (codes "page"))) in
      let aggs = list_sync_aggregates o since c in
      let listed = list_sync_events o [] (pos page) sync_page_size c in
      if query_get r (codes "tab") == codes "aggregates"
      then (aggregates_page aggs.0, aggs.1)
      else (events_page page listed.0, listed.1)
