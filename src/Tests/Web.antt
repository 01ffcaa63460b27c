-- ===== src/Tests/Web.antt =====
-- Examples for the muxes, the metrics, the event streams and the backup.
use mobile_db.Prelude.{
  All, ◌++◌, ℕ, suc, ◌+◌, ◌==◌, nat_eq, pair_eq, pos, ℤ_eq, Str, codes, str_eq, str_eq_inst, select,
  All, ◌≡◌, refl, true, false, none, some, [], ◌∷◌,
}
use mobile_db.Prelude.Dict.{get, put}
use mobile_db.Prelude.Exec.{ok, Conn, stmt}
use mobile_db.Server.Requests.{Handler, refuse, after_prefix}
use mobile_db.Server.Backup.{
  Files, target, run_once, backup_file, mkdir_all, copy_file, open_source, open_target, copy_bytes,
  text_of,
}
use mobile_db.Server.Backup.OneFile.{at}
use mobile_db.Server.Backup.Copies.{run_once-copies}
use mobile_db.Server.AdminGate.{has_password}
use mobile_db.Admin.Router.{Stores, Pages, Moment, has_prefix}
use mobile_db.Admin.Metrics.{Floats, MetricFamily, per_app_rows, sync_requests, db_size}
use mobile_db.Admin.Metrics.Totals.{tally_named}
use mobile_db.Admin.Metrics.PerApp.{is_app, rows_for, per_app_rows-tally}
use mobile_db.Site.{Incoming, World, AppHandlers, serve_main}
use mobile_db.Site.Guarded.{IsRefusal, serve_main-refuses}
use mobile_db.Transport.{subscribe, sub_key, subs_at, send_all}
use mobile_db.Transport.Streams
use mobile_db.Transport.Streams.{
  Stream, is_owed, event_count, open_stream, begin_notify, Steps, here, later, opens, notifies,
  no_streams,
}
use mobile_db.Transport.Streams.Wakeups.{covered, Steps-covered, owed_delivered}
use mobile_db.Tests.Accounts.{with_key}
use mobile_db.Tests.{in_order}
use mobile_db.Tests.Orders.{newest_first}
use mobile_db.Tests.Admin.{two_keys, two_events, one_doc, no_text, data_texts}
use mathlib.Core.List.Memᴰ.{head}

abbrev plain_floats : Floats ℕ
plain_floats = record { zero_float = 0; add = λ a b. a + b; truncate = pos; megabytes = λ n. [] }

abbrev app_family : MetricFamily ℕ
app_family = record {
  name = sync_requests;
  metrics =
      record { labels = (codes "app_id", codes "a") ∷ []; gauge = none; counter = some 3 } ∷ [];
}

per_app_rows-tally_example :
    select (is_app (codes "a")) (per_app_rows plain_floats in_order (app_family ∷ []))
    ≡ rows_for
        (codes "a")
        (tally_named plain_floats (λ m. m.counter) (codes "a") sync_requests (app_family ∷ []) none)
        (tally_named plain_floats (λ m. m.gauge) (codes "a") db_size (app_family ∷ []) none)
per_app_rows-tally_example =
    per_app_rows-tally plain_floats in_order (app_family ∷ []) (codes "a") (λ h. cc)

abbrev pages : Pages ℕ
pages = record {
  order = newest_first;
  visits = in_order;
  floats = plain_floats;
  devices = no_text;
  revoked_row = λ id. id;
  sync = no_text;
  keys = no_text;
  texts = data_texts;
  metrics = no_text;
  created_at = λ key. 0;
}

abbrev at_noon : Moment ℕ
at_noon = record { gathered = ok []; day_ago = 0 }

abbrev ok_handler : {S : Type 0} → Handler S
ok_handler r s = refuse 200 s

abbrev handlers : AppHandlers (Stores × Unit {0})
handlers = record {
  register = ok_handler;
  token = ok_handler;
  rotate = ok_handler;
  revoke = λ path. ok_handler;
  sync = ok_handler;
  events = ok_handler;
  health = ok_handler;
  metrics = ok_handler;
}

abbrev world : World (Unit {0})
world = record {
  buckets = [];
  stores = record { keys = two_keys; events = two_events; logs = one_doc };
  rest = tt;
}

abbrev no_password : Incoming
no_password = record {
  attempt = record {
    remote_addr = codes "h";
    password = none;
    at_limit = 1;
    at_test = 2;
    at_reset = 3;
  };
  page = record { method = codes "GET"; path = codes "/metrics"; query = [] };
  request = with_key;
}

serve_main-refuses_example :
    let out =
      serve_main
        (λ s. none)
        (λ s. s)
        (λ hash p. hash == p)
        (codes "h")
        []
        pages
        at_noon
        handlers
        no_password
        world in
    IsRefusal out.0 × (out.1.stores ≡ world.stores) × (out.1.rest ≡ tt)
unfolding has_prefix after_prefix str_eq has_password
serve_main-refuses_example =
    serve_main-refuses (λ s. none) (λ s. s) (λ hash p. hash == p) (codes "h") [] pages at_noon
      handlers no_password world refl refl

abbrev one_stream : Stream
one_stream = record { app_id = codes "a"; user_id = codes "u"; ch = 0 }

-- The stream is open, and a notification has begun.
abbrev notified :
    Steps no_streams
      (begin_notify (codes "a") (codes "u") (open_stream (codes "a") (codes "u") no_streams))
notified = later (later here (opens (codes "a") (codes "u"))) (notifies (codes "a") (codes "u"))

Steps-covered_example :
    covered 0
      (begin_notify (codes "a") (codes "u") (open_stream (codes "a") (codes "u") no_streams))
    ≡ true
unfolding is_owed begin_notify open_stream subscribe sub_key subs_at send_all get put str_eq
Steps-covered_example = Steps-covered 0 notified refl

owed_delivered_example :
    let w = begin_notify (codes "a") (codes "u") (open_stream (codes "a") (codes "u") no_streams) in
    (v : Streams.World) × Steps w v
    × (event_count 0 v ≡ suc (event_count 0 w))
    × (is_owed 0 v ≡ false)
unfolding is_owed begin_notify open_stream subscribe sub_key subs_at send_all get put str_eq
owed_delivered_example = owed_delivered one_stream _ notified (head refl) refl

abbrev one_file : Conn Files
one_file = record {
  tables = record { contents = (codes "db", codes "rows") ∷ []; dirs = [] };
  calls = 0;
  fails = λ n. false;
}

abbrev join_slash : Str → Str → Str
join_slash d f = d ++ (codes "/" ++ f)

run_once-copies_example :
    All
      (λ src.
        at
          (target join_slash (λ s. s) (codes "b") (codes "t") src)
          (run_once join_slash
            (λ s. s)
            (λ s. [])
            (codes "b")
            (codes "t")
            (codes "db" ∷ [])
            one_file).1
        ≡ at src one_file)
      (codes "db" ∷ [])
unfolding target run_once backup_file mkdir_all copy_file open_source open_target copy_bytes text_of
    get put str_eq stmt
run_once-copies_example =
    run_once-copies join_slash (λ s. s) (λ s. []) (codes "b") (codes "t") (codes "db" ∷ []) one_file
      (refl, tt, tt) refl
