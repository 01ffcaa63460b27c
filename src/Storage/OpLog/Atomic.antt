-- ===== src/Storage/OpLog/Atomic.antt =====
-- `InsertOps` is all or nothing.
use mobile_db.Prelude.{nat_eq, pair_eq, ℤ_eq, str_eq_inst}
use mobile_db.Prelude.Exec.{◌>>◌}
