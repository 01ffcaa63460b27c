-- ===== src/Server/Lifecycle/Releases.antt =====
-- What `Run` leaves behind when it returns.
use mobile_db.Prelude.{
  ℕ, ◌==◌, nat_eq, Str, str_eq_inst, ◌≡◌, ◌⊎◌, true, Option, none, some, [], ℤ, pos, ltb_ℤ,
}
use mobile_db.Prelude.Dict.{get}
use mobile_db.Prelude.Exec.{Conn}
use mobile_db.Server.Config.{Config}
use mobile_db.Server.Backup.Loop.{Loop}
use mobile_db.Storage.Database.{Host}
use mobile_db.Server.Lifecycle.{Process, Outcome, returned, crashed, backup_interval}

-- No backup loop runs on without the signal to end.
abbrev pub Signalled : Option Loop → Type 0
Signalled none = Unit
Signalled (some l) = l.stop_waits ≡ true

-- The host is that of `c`, and a loop that has been started is signalled.
abbrev Served : Conn Process → Outcome × Conn Process → Type 0
Served c (returned r, c') = (c'.tables.host ≡ c.tables.host) × Signalled c'.tables.runner
Served c (crashed, c') = ⊥

-- The open databases are those of `h`, and a loop that has been started is signalled.
abbrev pub Released : Host → Outcome × Conn Process → Type 0
Released h (returned r, c') =
    ((k : ℕ) → get c'.tables.host.opened k ≡ get h.opened k) × Signalled c'.tables.runner
Released h (crashed, c') = ⊥

-- No backup is asked for, or one at an interval that the ticker takes.
abbrev pub CanBackUp : (Str → Option ℤ) → Config → Type 0
CanBackUp parse_duration cfg =
    ((cfg.backup_destination == []) ≡ true)
    ⊎ (ltb_ℤ (pos 0) (backup_interval parse_duration cfg.backup_interval) ≡ true)
