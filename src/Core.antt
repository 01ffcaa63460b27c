-- ===== src/Core.antt =====
-- core/types.go: timestamps, operations and the two messages of a sync. A field's JSON value (Go's
-- `any`) is the parameter `V`.
use mobile_db.Prelude.{ℕ, ℤ, Str, Option, List}

pub record Hlc : Type 0 where
  pub wall_time : ℤ
  pub logical : ℕ
  pub device_id : Str

-- Go's zero value, `core.HLC{}`.
abbrev pub zero_hlc : Hlc
zero_hlc = record { wall_time = ℤ.pos 0; logical = 0; device_id = List.[] }

module _ (V : Type 0) where
  pub record CrdtOp : Type 0 where
    pub op_id : Str
    pub doc_id : Str
    pub field : Str
    pub value : V
    pub timestamp : Hlc
    pub device_id : Str

  pub record SyncMessage : Type 0 where
    pub app_id : Str
    pub user_id : Str
    pub dataset_id : Str
    pub clock : Hlc
    pub ops : List CrdtOp
    pub client_schema_version : ℤ

  -- `Snap` is what a snapshot is: `none` is Go's nil.
  pub record SyncResponse (Snap : Type 0) : Type 0 where
    pub new_clock : Hlc
    pub ops : List CrdtOp
    pub snapshot : Option Snap
    pub schema_version : ℤ
