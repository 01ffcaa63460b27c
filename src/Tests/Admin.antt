-- ===== src/Tests/Admin.antt =====
-- Examples for the admin pages, the configuration, the account routes and the event streams.
use mobile_db.Prelude.{
  ℕ, ◌==◌, nat_eq, pair_eq, pos, ℤ_eq, wrap_int64, codes, str_eq, str_eq_inst, length, select, ◌≡◌,
  refl, ◌≢◌, false, none, some, List, [], ◌∷◌, arith,
}
use mobile_db.Prelude.Rows.{Falling, take, drop}
use mobile_db.Prelude.Dict.{get, put}
use mobile_db.Prelude.Exec.{ok, Conn, stmt}
use mathlib.Core.List.{Permᴰ}
use mobile_db.Storage.OpLog.{SnapshotKey, Logs}
use mobile_db.Server.Device.{DeviceKey, KeyTable, Bcrypt, verify}
use mobile_db.Server.Device.Keys.{Call, rotate_call, after_all}
use mobile_db.Admin.Web.{PageRequest, Templates, reply, query_get, last_segment, after_slash}
use mobile_db.Admin.Devices.{
  list_devices, listed_key, has_status, DeviceCounts, device_counts, status_groups, counted,
  add_groups, add_group, revoke_page, revoke_answer, revoke_device, set_revoked,
}
use mobile_db.Admin.Devices.Counts.{with_status, list_devices-counts}
use mobile_db.Admin.Devices.Revoked.{revoke_page-verify}
use mobile_db.Admin.Events.Aggregates.{belongs, SumsUp, is_for, list_sync_aggregates-Sums}
use mobile_db.Admin.Events.{
  SyncAggregate, group_events, list_sync_aggregates, add_event, recent, max_of, SyncEvent,
  EventTable, of_app, list_sync_events, ordered_events, page_of, at_least_one, page_offset,
  events_view,
}
use mobile_db.Admin.Events.Paging.{first_pages, first_pages-Permᴰ, Numbered, events_view-Numbered}
use mobile_db.Admin.Data.{
  DataTexts, key_of, lacks_part, delete_page, doc_deleted, delete_doc, doc_modal,
}
use mobile_db.Admin.Data.Deletion.{row_at, delete_page-doc_modal}
use mobile_db.Tests.{no_logs}
use mobile_db.Tests.Orders.{newest_first}

abbrev pub test_key : DeviceKey
test_key = record {
  device_key_id = codes "k";
  device_id = codes "d";
  app_id = codes "a";
  key_hash = codes "s";
  status = codes "active";
  registered_at = 1;
  last_seen_at = none;
}

abbrev pub old_key : DeviceKey
old_key = record test_key { device_key_id = codes "o"; status = codes "revoked"; registered_at = 2 }

abbrev pub two_keys : Conn KeyTable
two_keys = record {
  tables = (codes "k", test_key) ∷ (codes "o", old_key) ∷ [];
  calls = 0;
  fails = λ n. false;
}

abbrev two_counts : DeviceCounts
two_counts = record { all = 2; active = 1; revoked = 1 }

list_devices-counts_example :
    Permᴰ (old_key ∷ test_key ∷ []) (with_status [] two_keys.tables)
    × Falling (λ dk. dk.registered_at) (old_key ∷ test_key ∷ [])
    × (2 ≡ length two_keys.tables)
    × (1 ≡ length (with_status (codes "active") two_keys.tables))
    × (1 ≡ length (with_status (codes "revoked") two_keys.tables))
unfolding list_devices device_counts listed_key has_status select status_groups counted add_groups
    add_group get put str_eq stmt
list_devices-counts_example =
    list_devices-counts newest_first [] two_keys (old_key ∷ test_key ∷ []) two_counts refl refl

abbrev pub test_bcrypt : Bcrypt
test_bcrypt = record { generate = some; compare = λ h p. h == p }

abbrev revoke_k : PageRequest
revoke_k = record { method = codes "DELETE"; path = codes "/admin/devices/k"; query = [] }

abbrev rotations : List Call
rotations = rotate_call (codes "k") (codes "s") (codes "t") 5 ∷ []

revoke_page-verify_example :
    ((verify test_bcrypt
        (last_segment revoke_k.path)
        (codes "s")
        (after_all test_bcrypt rotations (revoke_page (λ id. id) revoke_k two_keys).1)).0
      ≢ ok tt)
    × (get (revoke_page (λ id. id) revoke_k two_keys).1.tables (codes "o")
        ≡ get two_keys.tables (codes "o"))
unfolding revoke_page revoke_answer revoke_device set_revoked last_segment after_slash get put
    str_eq stmt reply
revoke_page-verify_example =
    revoke_page-verify (λ id. id) test_bcrypt revoke_k two_keys rotations (codes "s") (codes "o")
      refl refl

abbrev pub first_event : SyncEvent
first_event = record {
  id = 1;
  app_id = codes "a";
  dataset_id = codes "d";
  user_id = codes "u";
  device_key_id = codes "k";
  op_count = 3;
  synced_at = 10;
}

abbrev pub two_events : Conn EventTable
two_events = record {
  tables = record {
    rows = first_event ∷ record first_event { id = 2; synced_at = 20 } ∷ [];
    last_id = 2;
  };
  calls = 0;
  fails = λ n. false;
}

first_pages-Permᴰ_example :
    Permᴰ
      (first_pages (λ k. newest_first) [] 1 2 two_events)
      (select (of_app []) two_events.tables.rows)
unfolding of_app select str_eq
first_pages-Permᴰ_example =
    first_pages-Permᴰ (λ k. newest_first) [] 1 2 two_events (λ n. refl) (omega arith) (omega arith)
      ((refl, tt), (tt, tt))

abbrev both_events : List SyncEvent × ℕ
both_events = (record first_event { id = 2; synced_at = 20 } ∷ first_event ∷ [], 2)

events_view-Numbered_example :
    Numbered 0 (length (select (of_app []) two_events.tables.rows)) (events_view 1 both_events)
unfolding of_app select list_sync_events ordered_events page_of at_least_one page_offset stmt str_eq
    take drop wrap_int64
events_view-Numbered_example =
    events_view-Numbered newest_first 0 two_events both_events (λ n. refl) (omega arith) refl

abbrev pub doc_key : SnapshotKey
doc_key = (codes "d", (codes "u", codes "x"))

abbrev pub one_doc : Conn Logs
one_doc = record {
  tables = record no_logs {
    snapshots = some (
        (doc_key, record { content = codes "c"; wall_time = pos 1; logical = 0; device_id = [] })
        ∷ []);
  };
  calls = 0;
  fails = λ n. false;
}

abbrev on_doc : PageRequest
on_doc = record {
  method = codes "DELETE";
  path = codes "/admin/data/doc";
  query =
      (codes "dataset_id", codes "d")
      ∷ (codes "user_id", codes "u")
      ∷ (codes "doc_id", codes "x")
      ∷ [];
}

abbrev pub no_text : {A : Type 0} → Templates A
no_text = record { content = λ v. none; base = λ t c. none }

abbrev pub data_texts : DataTexts
data_texts = record {
  browse = no_text;
  docs = no_text;
  modal = no_text;
  no_dataset = [];
  deleted = [];
}

delete_page-doc_modal_example :
    let c' = (delete_page data_texts on_doc one_doc).1 in
    ((doc_modal (λ key. 0) data_texts on_doc c').0 ≡ reply 404 [])
    × (row_at c'.tables (codes "e", (codes "u", codes "x"))
        ≡ row_at one_doc.tables (codes "e", (codes "u", codes "x")))
    × (c'.tables.op_logs ≡ one_doc.tables.op_logs)
    × (c'.tables.shadows ≡ one_doc.tables.shadows)
unfolding delete_page delete_doc doc_deleted key_of query_get lacks_part get str_eq stmt reply
delete_page-doc_modal_example =
    delete_page-doc_modal data_texts (λ key. 0) on_doc on_doc one_doc
      (codes "e", (codes "u", codes "x")) refl refl refl

list_sync_aggregates-Sums_example :
    let a : SyncAggregate = record {
      app_id = codes "a";
      dataset_id = codes "d";
      total_ops = 6;
      syncs_24h = 1;
      last_sync = 20;
    } in
    Falling (λ g. g.last_sync) (a ∷ [])
    × SumsUp 15
        (select (belongs (codes "a") (codes "d")) two_events.tables.rows)
        (select (is_for (codes "a") (codes "d")) (a ∷ []))
unfolding list_sync_aggregates group_events add_event recent max_of get put str_eq stmt
list_sync_aggregates-Sums_example =
    list_sync_aggregates-Sums newest_first 15 two_events
      (record {
        app_id = codes "a";
        dataset_id = codes "d";
        total_ops = 6;
        syncs_24h = 1;
        last_sync = 20;
      }
        ∷ [])
      (codes "a") (codes "d") refl
