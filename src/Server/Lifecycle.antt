-- ===== src/Server/Lifecycle.antt =====
-- server/server.go and main.go: `Run`, from the data directory to the deferred closing, with the
-- handlers left to Site.antt. The path and duration functions of the Go library are arguments, and so is what the turns
-- of the backup loop make of it until `Run` stops it. A panic of a goroutine ends the process.
pub mod Releases
use mobile_db.Prelude.{
  ℕ, if◌then◌else◌, ◌==◌, Str, codes, str_eq_inst, Option, none, some, List, [], ◌∷◌, ℤ, pos,
}
use mobile_db.Prelude.Exec.{sql_failed, Result, ok, err, Conn, Act, raise, stmt, ◌>>=◌, ◌>>◌}
use mobile_db.Server.Config.{Config, Loaded, loaded, refused}
use mobile_db.Server.Backup.{Files}
use mobile_db.Server.Backup.Loop.{Loop, start_loop, signal}
use mobile_db.Storage.Database.{Host, close_db, new_backend}

pub record Process : Type 0 where
  pub dirs : List Str
  pub host : Host
  pub files : Conn Files
  -- the loop of the backup runner, once it has been started
  pub runner : Option Loop

-- What the `select` at the end of `Run` receives.
pub data Ending : Type 0 where
  listen_failed cancelled : Ending

pub data Outcome : Type 0 where
  returned : Result (Unit {0}) → Outcome
  crashed : Outcome

-- `os.Exit(1)` of the logger's `Fatal`, or 2 after a panic
unfoldable pub exit_status : Outcome → ℕ
exit_status (returned (ok u)) = 0
exit_status (returned (err e)) = 1
exit_status crashed = 2

-- `os.MkdirAll`
unfoldable pub make_data_dir : Str → Act Process (Unit {0})
make_data_dir dir = stmt (λ p. some (tt, record p { dirs = dir ∷ p.dirs }))

abbrev pub host_conn : Conn Process → Conn Host
host_conn c = record { tables = c.tables.host; calls = c.calls; fails = c.fails }

module _ {A : Type 0} where
  abbrev pub on_host : Act Host A → Act Process A
  on_host m c =
      let r = m (host_conn c) in
      (r.0, record c { tables = record c.tables { host = r.1.tables }; calls = r.1.calls })

-- `admin.LoadTemplates`
unfoldable pub load_templates : Act Process (Unit {0})
load_templates = stmt (λ p. some (tt, p))

-- 24 hours, unless the text parses
unfoldable pub backup_interval : (Str → Option ℤ) → Str → ℤ
backup_interval parse_duration text =
    let day = pos 86400000000000 in
    if text == [] then day else elim (parse_duration text) [ none ↦ day | some d ↦ d ]

-- `srv.Shutdown`, or the error of `ListenAndServe`
unfoldable pub wait_for : Ending → Act Process (Unit {0})
wait_for listen_failed = raise sql_failed
wait_for cancelled = stmt (λ p. some (tt, p))

-- `defer br.Stop()`
unfoldable pub stop_runner : Loop → Result (Unit {0}) → Conn Process → Outcome × Conn Process
unfolding signal
stop_runner l r c = (returned r, record c { tables = record c.tables { runner = some (signal l) } })

-- `defer store.Close()`, which a crash skips
unfoldable pub closing : ℕ → Outcome → Conn Process → Outcome × Conn Process
closing n crashed c = (crashed, c)
closing n (returned r) c = (returned r, (on_host (close_db n) c).1)

module _ (parse_duration : Str → Option ℤ) (join : Str → Str → Str) (turns : Loop → Loop) where
  -- `go br.Start()`, the server, and the end of both
  unfoldable pub with_backup : Option Loop → Ending → Conn Process → Outcome × Conn Process
  unfolding wait_for stop_runner
  with_backup none ending c = (crashed, c)
  with_backup (some l) ending c = let (r, c') = wait_for ending c in stop_runner (turns l) r c'

  unfoldable pub serve_all :
      Config → Ending → Result (Unit {0}) → Conn Process → Outcome × Conn Process
  unfolding with_backup backup_interval wait_for
  serve_all cfg ending (err e) c = (returned (err e), c)
  serve_all cfg ending (ok u) c =
      if cfg.backup_destination == []
      then (let (r, c') = wait_for ending c in (returned r, c'))
      else with_backup
          (start_loop (backup_interval parse_duration cfg.backup_interval) c.tables.files) ending c

  -- what follows `NewBackend`
  unfoldable pub with_store : Config → Ending → Result ℕ → Conn Process → Outcome × Conn Process
  unfolding load_templates serve_all closing
  with_store cfg ending (err e) c = (returned (err e), c)
  with_store cfg ending (ok n) c =
      let (found, c1) = load_templates c in
      let (out, c2) = serve_all cfg ending found c1 in closing n out c2

  unfoldable pub open_store : Config → Act Process ℕ
  unfolding make_data_dir
  open_store cfg = do
    make_data_dir cfg.data_dir
    on_host (new_backend (join cfg.data_dir (codes "mobile-db.db")) cfg.crsqlite_ext_path)

  -- `Run`
  unfoldable pub run_server : Config → Ending → Conn Process → Outcome × Conn Process
  unfolding open_store with_store
  run_server cfg ending c = let (r, c') = open_store cfg c in with_store cfg ending r c'

  -- `main` of main.go, with the status of the process
  unfoldable pub run_main : Loaded → Ending → Conn Process → ℕ × Conn Process
  unfolding run_server exit_status
  run_main (refused why) ending c = (1, c)
  run_main (loaded cfg) ending c = let (out, c') = run_server cfg ending c in (exit_status out, c')
