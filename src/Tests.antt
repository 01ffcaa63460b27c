-- ===== src/Tests.antt =====
-- Concrete data for the examples of the properties.
pub mod Clocks
pub mod Tables
pub mod Stores
pub mod Delivery
pub mod Services
pub mod Gate
pub mod Tokens
pub mod Orders
pub mod Admin
pub mod Accounts
pub mod Web
pub mod Starting
use mobile_db.Prelude.{pos, Str, codes, refl, false, none, some, []}
use mobile_db.Prelude.Dict.{MapOrder}
use mobile_db.Prelude.Exec.{Conn}
use mathlib.Core.List.Permᴰ
use mobile_db.Core.{Hlc, CrdtOp}
use mobile_db.Storage.OpLog.{Json, Logs}

abbrev pub early : Hlc
early = record { wall_time = pos 5; logical = 0; device_id = codes "x" }

abbrev pub late : Hlc
late = record { wall_time = pos 7; logical = 1; device_id = codes "y" }

abbrev pub first_op : CrdtOp Str
first_op = record {
  op_id = codes "1";
  doc_id = codes "d";
  field = codes "f";
  value = codes "v";
  timestamp = early;
  device_id = codes "x";
}

abbrev pub second_op : CrdtOp Str
second_op = record first_op {
  op_id = codes "2";
  value = codes "w";
  timestamp = late;
  device_id = codes "y";
}

abbrev pub in_order : MapOrder
in_order = record { visit = λ A l. l; visit_perm = λ A l. Permᴰ.refl l }

-- Values that are texts, stored as they are.
abbrev pub plain_json : Json Str
plain_json = record { marshal = some; marshal_fields = λ m. some []; unmarshal = some }

abbrev pub no_logs : Logs
no_logs = record { op_logs = []; shadows = []; snapshots = none; datasets = [] }

abbrev pub empty_store : Conn Logs
empty_store = record { tables = no_logs; calls = 0; fails = λ n. false }
