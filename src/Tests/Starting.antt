-- ===== src/Tests/Starting.antt =====
-- Examples for opening databases, the backup loop and the whole run of the server.
use mobile_db.Prelude.{
  ℕ, suc, ◌≤◌, if◌then◌else◌, ◌==◌, nat_eq, Str, codes, str_eq_inst, ◌≡◌, refl, ◌⊎◌, inl, Bool,
  true, false, Option, none, some, List, [], ◌∷◌, ℤ, pos, ltb_ℤ, arith,
}
use mobile_db.Prelude.Dict.{get}
use mobile_db.Prelude.Exec.{ok, Conn}
use mobile_db.Server.Backup.{Files, run_once}
use mobile_db.Server.Backup.Loop.{Loop, Event, ticks, backs_up, ends, loop_step, run_loop}
use mobile_db.Server.Backup.Stopping.{backup_count, late_count, tick_count, stop_ends}
use mobile_db.Server.Config.{Config}
use mobile_db.Server.Lifecycle.{Process, backup_interval}
use mobile_db.Storage.Database.{Host, new_backend}
use mobile_db.Storage.Database.Opening.{Fresh, Opened}
use mobile_db.Storage.Database.Backends.{HasMeta, new_backend_all_or_nothing}
use mobile_db.Storage.Database.Calls.{
  opens, opens_meta, closes, Call, run_calls, numbers, Rising, new_process, registers_once,
}

-- One database is open, and the seventh call fails: a statement of the metadata schema.
abbrev host_with_one : Conn Host
host_with_one = record {
  tables = record {
    driver_path = codes "x.so";
    registered = 1;
    opened = (0, codes "a.db") ∷ [];
    made = 1;
    schemas = [];
  };
  calls = 0;
  fails = λ k. k == 6;
}

one-Fresh : Fresh host_with_one.tables
unfolding get
one-Fresh k le = ground (arith, le)

new_backend_all_or_nothing_example :
    let opened = new_backend (codes "b.db") (codes "x.so") host_with_one in
    (Opened (codes "b.db") host_with_one.tables opened.0 opened.1.tables)
    × ((n : ℕ) → opened.0 ≡ ok n → HasMeta (codes "b.db") opened.1.tables)
    × Fresh opened.1.tables
new_backend_all_or_nothing_example =
    new_backend_all_or_nothing (codes "b.db") (codes "x.so") host_with_one one-Fresh

-- Two openings with one library, a third with another one, and a closing; the first ping fails.
abbrev some_calls : List Call
some_calls =
    opens (codes "a.db") (codes "x.so")
    ∷ opens_meta (codes "a.db") (codes "x.so")
    ∷ opens (codes "c.db") (codes "y.so")
    ∷ closes 1
    ∷ []

registers_once_example :
    let c = run_calls some_calls (new_process (λ k. k == 1) []) in
    (c.tables.registered ≡ (if c.tables.driver_path == [] then 0 else 1))
    × (c.tables.registered ≤ 1)
    × Rising 0 (numbers some_calls (new_process (λ k. k == 1) []))
registers_once_example = registers_once (λ k. k == 1) [] some_calls

abbrev no_files : Conn Files
no_files = record { tables = record { contents = []; dirs = [] }; calls = 0; fails = λ k. false }

abbrev told_to_stop : Loop
told_to_stop = record { tick_waits = true; stop_waits = true; ended = false; files = no_files }

-- A tick is taken although the signal waits, another comes, and the loop ends.
abbrev last_turns : List Event
last_turns = backs_up (codes "t") ∷ ticks ∷ ends ∷ []

abbrev same : Str → Str
same s = s

abbrev first : Str → Str → Str
first a b = a

stop_ends_example :
    let l : Loop = record {
      tick_waits = true;
      stop_waits = false;
      ended = true;
      files = no_files;
    } in
    (backup_count last_turns ≤ suc (tick_count last_turns))
    × (late_count last_turns ≡ 0)
    × ((l.ended ≡ true)
        ⊎ ((m : Loop) × (loop_step first same same (codes "b") [] ends l ≡ some m)
            × (m.ended ≡ true)))
unfolding run_loop loop_step run_once
stop_ends_example = stop_ends first same same (codes "b") [] last_turns told_to_stop _ refl refl

abbrev small_config : Config
small_config = record {
  admin_password_hash = codes "h";
  db_encryption_key = [];
  keycloak_url = codes "k";
  keycloak_realm = codes "r";
  keycloak_client_id = codes "i";
  backup_destination = codes "b";
  backup_interval = [];
  log_level = codes "info";
  compaction_threshold = 10;
  admin_allowed_ips = [];
  data_dir = codes "d";
  listen_addr = codes ":1";
  crsqlite_ext_path = codes "x.so";
}

-- The shutdown is the call that fails.
abbrev new_server : Conn Process
new_server = record {
  tables = record {
    dirs = [];
    host = (new_process (λ k. false) []).tables;
    files = no_files;
    runner = none;
  };
  calls = 0;
  fails = λ k. k == 12;
}
