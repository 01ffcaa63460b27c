-- ===== src/Tests/Delivery.antt =====
-- Examples for what one client gets of what another pushed.
use mobile_db.Prelude.{
  pos, codes, Str, ◌≡◌, refl, false, List, [], ◌∷◌, Memᴰ, ℤ, str_eq, str_eq_inst, arith,
}
use mathlib.Core.List.Memᴰ.{head}
use mobile_db.Prelude.Dict.{Dict, get}
use mobile_db.Prelude.Exec.{ok, Conn}
use mobile_db.Core.{CrdtOp, SyncMessage, SyncResponse}
use mobile_db.Crdt.Hlc.{before}
use mobile_db.Storage.OpLog.{Logs}
use mobile_db.Storage.OpLog.Inserts.{has_id}
use mobile_db.Storage.OpLog.Ensure.{rows_at}
use mobile_db.Storage.OpLog.Revive.{op_has}
use mobile_db.Storage.Backend.Holds.{stored_at}
use mobile_db.Sync.{Site, sync}
use mobile_db.Sync.Crsqlite.{crsqlite}
use mobile_db.Sync.Delivery.{after_syncs, sync_delivers}
use mobile_db.Sync.Rounds.{JsonWorks}
use mobile_db.Transport.{Hub, broadcaster}
use mobile_db.Tests.{first_op, second_op, in_order, plain_json, empty_store}

works : JsonWorks plain_json
works = record {
  total = record { values = λ v. (v, refl); maps = λ m. ([], refl) };
  reads = λ v s h. (s, refl);
}

abbrev no_subs : Hub
no_subs = record { subs = []; made = 0; full = [] }

abbrev shop : Site (Conn Logs) Hub
shop = record {
  store = empty_store;
  listeners = no_subs;
  clock = record {
    last = record { wall_time = pos 0; logical = 0; device_id = codes "s" };
    device_id = codes "s";
  };
}

-- A message with these operations, and a cursor of device "r" at the time `since`.
abbrev message : ℤ → List (CrdtOp Str) → SyncMessage Str
message since ops = record {
  app_id = codes "a";
  user_id = codes "u";
  dataset_id = codes "d";
  clock = record { wall_time = since; logical = 0; device_id = codes "r" };
  ops = ops;
  client_schema_version = pos 1;
}

-- A first write is pushed and then a second one to the same field, each with a compaction; another
-- device then asks for what is after time 4.
sync_delivers_example :
    let serve = sync (crsqlite plain_json in_order) broadcaster (pos 0) in
    let first = (serve (pos 6) (message (pos 1) (first_op ∷ [])) shop).1 in
    let later : List (ℤ × SyncMessage Str) = (pos 8, message (pos 2) (second_op ∷ [])) ∷ [] in
    (reply : SyncResponse Str (Dict Str Str)) × ((serve
        (pos 9)
        (message (pos 4) [])
        (after_syncs plain_json in_order broadcaster (pos 0) later first)).0
      ≡ ok reply)
    × (got : CrdtOp Str) × Memᴰ got reply.ops
    × (got.doc_id ≡ first_op.doc_id)
    × (got.field ≡ first_op.field)
    × (before got.timestamp (stored_at first_op) ≡ false)
unfolding str_eq before rows_at get has_id op_has
sync_delivers_example =
    sync_delivers plain_json in_order broadcaster (pos 0) works (message (pos 1) (first_op ∷ []))
      (message (pos 4) []) (pos 6) (pos 9) ((pos 8, message (pos 2) (second_op ∷ [])) ∷ []) shop
      first_op (λ n. refl) (record { distinct = tt; readable = tt }) (head refl) (refl, tt) refl
      (omega arith) (refl, tt) refl refl refl
