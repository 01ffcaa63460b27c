-- ===== src/Tests/Services.antt =====
-- Examples for a sync, the device keys and the sync route.
use mobile_db.Prelude.{
  ◌==◌, nat_eq, pair_eq, pos, ℤ_eq, Str, codes, str_eq, str_eq_inst, length, ◌≡◌, refl, ◌⊎◌, ◌≢◌,
  true, false, none, some, List, [], ◌∷◌, ◌++◌, arith,
}
use mobile_db.Prelude.Dict.{get}
use mobile_db.Prelude.Exec.{ok, err, Conn}
use mobile_db.Prelude.Eff.{Eff, return}
use mobile_db.Prelude.Exec.{invalid_secret}
use mobile_db.Core.{CrdtOp, SyncMessage, SyncResponse}
use mobile_db.Crdt.Hlc.{before}
use mobile_db.Sync.{StorageBackend, Site, sync}
use mobile_db.Sync.Replies.{sync-clock}
use mobile_db.Server.Device.{DeviceKey, KeyTable, Bcrypt, register, verify}
use mobile_db.Server.Device.Keys.{
  Call, revoke_call, rotate_call, after_all, register-verify, revoked_stays,
}
use mobile_db.Server.Device.Statuses.{status_at}
use mobile_db.Server.Requests.{
  Request, Claims, SyncParts, sync_route, require_device_key, device_split, device_verified,
  split_colon, require_jwt, token_cut, token_valid, after_prefix, serve_sync, body_read, unpacked,
  decoded, synced, send, claimed, trusted, note_event,
}
use mobile_db.Server.RequestLog.{LogEntry, Logging, Arrival}
use mobile_db.Server.RequestLog.Entries.{ByKeyAndToken, logged_sync, sync_logged}
use mobile_db.Server.Requests.Route.{Authorized, sync_route-Authorized}
use mobile_db.Transport.{Hub, broadcaster}
use mobile_db.Tests.{early, late, first_op, second_op}

-- A store that keeps a list of operations, at version 2.
abbrev list_store : StorageBackend Str Str (List (CrdtOp Str))
list_store = record {
  merge_ops = λ a u d ops s. (ok tt, ops ++ s);
  get_delta = λ a u d since s. (ok (s, late), s);
  get_snapshot = λ a u d. return (codes "all", late);
  schema_version = λ a d. return (pos 2);
  op_count = λ a u d s. (ok (length s), s);
  compact = λ a u d. return tt;
}

abbrev no_subs : Hub
no_subs = record { subs = []; made = 0; full = [] }

abbrev site : Site (List (CrdtOp Str)) Hub
site = record {
  store = first_op ∷ [];
  listeners = no_subs;
  clock = record { last = early; device_id = codes "s" };
}

abbrev pull : SyncMessage Str
pull = record {
  app_id = codes "a";
  user_id = codes "u";
  dataset_id = codes "d";
  clock = early;
  ops = [];
  client_schema_version = pos 1;
}

abbrev push : SyncMessage Str
push = record pull { clock = late; ops = second_op ∷ [] }

abbrev reply : SyncResponse Str Str
reply = record {
  new_clock = late;
  ops = first_op ∷ [];
  snapshot = some (codes "all");
  schema_version = pos 2;
}

sync-clock_example :
    (before early (sync list_store broadcaster (pos 9) (pos 6) push site).1.clock.last ≡ true)
    × (before late (sync list_store broadcaster (pos 9) (pos 6) push site).1.clock.last ≡ true)
sync-clock_example =
    sync-clock list_store broadcaster (pos 9) (pos 6) push site (omega arith) (omega arith)
      (omega arith) (omega arith) (omega arith)

nonempty : second_op ∷ [] ≢ []
nonempty h = cc

-- A hash that is the password itself.
abbrev plain_bcrypt : Bcrypt
plain_bcrypt = record { generate = some; compare = λ h p. h == p }

abbrev no_keys : Conn KeyTable
no_keys = record { tables = []; calls = 0; fails = λ n. false }

register-verify_example :
    ((register plain_bcrypt (some (codes "s")) (codes "k") 1 (codes "a") (codes "d") no_keys).0
      ≡ ok (record { device_key_id = codes "k"; device_secret = codes "s" }))
    × ((verify plain_bcrypt
          (codes "k")
          (codes "s")
          (register plain_bcrypt
            (some (codes "s"))
            (codes "k")
            1
            (codes "a")
            (codes "d")
            no_keys).1).0
        ≡ ok tt)
    × ((verify plain_bcrypt
          (codes "k")
          (codes "t")
          (register plain_bcrypt
            (some (codes "s"))
            (codes "k")
            1
            (codes "a")
            (codes "d")
            no_keys).1).0
        ≡ err invalid_secret)
unfolding str_eq get
register-verify_example =
    register-verify plain_bcrypt (codes "s") (codes "s") (codes "t") (codes "k") 1 (codes "a")
      (codes "d") no_keys (λ n. refl) refl refl refl refl

abbrev live_key : DeviceKey
live_key = record {
  device_key_id = codes "k";
  device_id = codes "d";
  app_id = codes "a";
  key_hash = codes "s";
  status = codes "active";
  registered_at = 1;
  last_seen_at = none;
}

abbrev live : Conn KeyTable
live = record no_keys { tables = (codes "k", live_key) ∷ [] }

abbrev dead : Conn KeyTable
dead = record no_keys { tables = (codes "k", record live_key { status = codes "revoked" }) ∷ [] }

abbrev calls : List Call
calls = rotate_call (codes "k") (codes "s") (codes "t") 5 ∷ revoke_call (codes "k") 6 ∷ []

revoked_stays_example :
    (status_at (codes "k") (after_all plain_bcrypt calls dead).tables ≡ some (codes "revoked"))
    × ((verify plain_bcrypt (codes "k") (codes "s") (after_all plain_bcrypt calls dead)).0 ≢ ok tt)
unfolding str_eq get
revoked_stays_example = revoked_stays plain_bcrypt (codes "k") (codes "s") calls dead refl

-- Parts that take every body for one message and store nothing.
abbrev plain_parts : SyncParts Str Str (Unit {0})
plain_parts = record {
  read_limited = λ s. s;
  decompress = some;
  decode = λ s. some pull;
  run_sync = λ m. return (record reply { ops = m.ops });
  write_event = none;
  encode = λ resp. some (codes "reply");
  compress = some;
}

abbrev request : Request
request = record {
  method = codes "POST";
  device_key_header = codes "k:s";
  authorization = codes "Bearer t";
  body = some [];
  ctx_device = none;
  ctx_app = none;
  ctx_user = none;
}

sync_route-Authorized_example :
    Authorized plain_parts
      (λ id secret. return tt)
      (λ token. return (record { app_id = codes "b"; subject = codes "v" }))
      request
      tt
unfolding sync_route require_device_key device_split device_verified split_colon require_jwt
    token_cut token_valid after_prefix serve_sync body_read unpacked decoded synced send claimed
    trusted note_event str_eq
sync_route-Authorized_example =
    sync_route-Authorized plain_parts (λ app s. s) (λ id secret. return tt)
      (λ token. return (record { app_id = codes "b"; subject = codes "v" })) request tt refl

abbrev one_claim : Str → Eff (Unit {0}) Claims
one_claim token = return (record { app_id = codes "b"; subject = codes "v" })

abbrev arrival : Arrival
arrival = record { path = codes "/sync"; remote_addr = codes "h"; duration_ms = 3 }

abbrev empty_log : Logging (Unit {0})
empty_log = record { rest = tt; meta_app = []; entries = [] }

sync_logged_example :
    let answered =
      logged_sync plain_parts (λ id secret. return tt) one_claim arrival request empty_log in
    (e : LogEntry) × (answered.1.entries ≡ e ∷ [])
    × (e.method ≡ codes "POST")
    × (e.path ≡ codes "/sync")
    × (e.status ≡ answered.0.status)
    × (((e.status ≡ 401) × (e.app_id ≡ []))
        ⊎ ByKeyAndToken (λ id secret. return tt) one_claim request tt e.app_id)
sync_logged_example =
    sync_logged plain_parts (λ id secret. return tt) one_claim arrival request empty_log
