-- ===== src/Server/Device.antt =====
-- server/auth/store.go, server/auth/device.go and storage/crsqlite/authstore.go: device keys. The
-- tables are the `device_keys` rows by key id; bcrypt, the random bytes, the uuid and the clock's
-- readings are arguments.
pub mod Statuses
pub mod Keys
use mobile_db.Prelude.{
  ℕ, if◌then◌else◌, ◌==◌, nat_eq, pair_eq, ℤ_eq, Str, codes, str_eq_inst, Bool, not, Option, none,
  some,
}
use mobile_db.Prelude.Dict.{Dict, get, put}
use mobile_db.Prelude.Exec.{
  device_not_found, device_revoked, invalid_secret, hash_failed, random_failed, Result, ok, err,
  Act, pure, raise, stmt, ◌>>=◌, ◌>>◌,
}

pub record DeviceKey : Type 0 where
  pub device_key_id : Str
  pub device_id : Str
  pub app_id : Str
  pub key_hash : Str
  pub status : Str
  pub registered_at : ℕ
  pub last_seen_at : Option ℕ

abbrev pub KeyTable : Type 0
KeyTable = Dict Str DeviceKey

pub record RegistrationResult : Type 0 where
  pub device_key_id : Str
  pub device_secret : Str

-- `GenerateFromPassword` (`none`: an error) and `CompareHashAndPassword`.
pub record Bcrypt : Type 0 where
  pub generate : Str → Option Str
  pub compare : Str → Str → Bool

-- `INSERT INTO device_keys`, an error when the key id is taken; `last_seen_at` is not written.
unfoldable pub insert_key : DeviceKey → KeyTable → Option (Unit {0} × KeyTable)
insert_key dk t = elim (get t dk.device_key_id) [
  | none ↦ some (tt, put t dk.device_key_id (record dk { last_seen_at = none }))
  | some old ↦ none
]

unfoldable pub create_device_key : DeviceKey → Act KeyTable (Unit {0})
unfolding insert_key
create_device_key dk = stmt (insert_key dk)

-- No row for the key id is `ErrDeviceNotFound`; the row that is selected has the key id asked for.
unfoldable pub found : Str → Option DeviceKey → Act KeyTable DeviceKey
found device_key_id none = raise device_not_found
found device_key_id (some dk) = pure (record dk { device_key_id = device_key_id })

unfoldable pub get_device_key : Str → Act KeyTable DeviceKey
unfolding found
get_device_key device_key_id = do
  row ← stmt (λ t. some (get t device_key_id, t))
  found device_key_id row

-- `UPDATE device_keys SET key_hash=?, status=?, last_seen_at=? WHERE device_key_id=?`
unfoldable pub update_key : DeviceKey → ℕ → KeyTable → KeyTable
update_key dk now t = elim (get t dk.device_key_id) [
  | none ↦ t
  | some old ↦
      put t dk.device_key_id
        (record old { key_hash = dk.key_hash; status = dk.status; last_seen_at = some now })
]

unfoldable pub update_device_key : DeviceKey → ℕ → Act KeyTable (Unit {0})
unfolding update_key
update_device_key dk now = stmt (λ t. some (tt, update_key dk now t))

-- `dk, err := GetDeviceKey(…); if err != nil { return ErrDeviceNotFound }`
unfoldable pub known : Result DeviceKey → Result DeviceKey
known (ok dk) = ok dk
known (err e) = err device_not_found

unfoldable pub lookup : Str → Act KeyTable DeviceKey
unfolding known get_device_key
lookup device_key_id c =
    (known (get_device_key device_key_id c).0, (get_device_key device_key_id c).1)

module _ (bcrypt : Bcrypt) where
  -- The key of a device that is active and has this secret.
  unfoldable pub checked : DeviceKey → Str → Act KeyTable DeviceKey
  checked dk secret =
      if not (dk.status == codes "active")
      then raise device_revoked
      else if not (bcrypt.compare dk.key_hash secret)
      then raise invalid_secret
      else pure dk

  -- `Register` after the secret has been hashed.
  unfoldable pub register_hash :
      Option Str → Str → Str → ℕ → Str → Str → Act KeyTable RegistrationResult
  register_hash none secret uuid now app_id device_id = raise hash_failed
  register_hash (some hash) secret uuid now app_id device_id = do
    create_device_key (record {
      device_key_id = uuid;
      device_id = device_id;
      app_id = app_id;
      key_hash = hash;
      status = codes "active";
      registered_at = now;
      last_seen_at = none;
    })
    pure (record { device_key_id = uuid; device_secret = secret })

  -- `random`: the hex text of 32 random bytes, `none` on an error.
  unfoldable pub register : Option Str → Str → ℕ → Str → Str → Act KeyTable RegistrationResult
  register none uuid now app_id device_id = raise random_failed
  register (some secret) uuid now app_id device_id =
      register_hash (bcrypt.generate secret) secret uuid now app_id device_id

  unfoldable pub verify : Str → Str → Act KeyTable (Unit {0})
  unfolding checked lookup
  verify device_key_id secret = do dk ← lookup device_key_id; checked dk secret; pure tt

  unfoldable pub rehash : DeviceKey → Option Str → ℕ → Act KeyTable (Unit {0})
  rehash dk none now = raise hash_failed
  rehash dk (some hash) now = update_device_key (record dk { key_hash = hash }) now

  unfoldable pub rotate_key : Str → Str → Str → ℕ → Act KeyTable (Unit {0})
  rotate_key device_key_id old_secret new_secret now = do
    dk ← lookup device_key_id
    checked dk old_secret
    rehash dk (bcrypt.generate new_secret) now

unfoldable pub revoke : Str → ℕ → Act KeyTable (Unit {0})
revoke device_key_id now = do
  dk ← lookup device_key_id
  update_device_key (record dk { status = codes "revoked" }) now
