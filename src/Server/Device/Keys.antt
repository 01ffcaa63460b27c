-- ===== src/Server/Device/Keys.antt =====
-- server/auth/device.go: what registering, rotating and revoking a device key mean for verifying it.
use mobile_db.Prelude.{
  ℕ, Bool-cases, ◌==◌, nat_eq, pair_eq, ℤ_eq, Str, codes, str_eq, str_eq_iff, str_eq_inst, ◌≡◌,
  refl, sym, ap, ◌∙◌, ◌≢◌, inl, inr, true, false, Option, none, some, List, [], ◌∷◌, arith,
}
use mobile_db.Prelude.Dict.{get, get-put_self}
use mobile_db.Prelude.Exec.{ok, err, Conn, Act, stmt}
use mobile_db.Prelude.Exec.Runs.{Quiet}
use mobile_db.Prelude.Exec.{invalid_secret}
use mobile_db.Server.Device.{
  DeviceKey, KeyTable, Bcrypt, insert_key, create_device_key, found, get_device_key, update_key,
  update_device_key, known, lookup, checked, register_hash, register, verify, rehash, rotate_key,
  revoke,
}
use mobile_db.Server.Device.Statuses.{
  status_at, KeepsRevoked, lookup_lem, Result-cases, update-KeepsRevoked, insert_key-KeepsRevoked,
  revoked≢active, other_key, revoke-KeepsRevoked,
}

-- The calls of the device service, with what the environment gives each.
pub data Call : Type 0 where
  register_call : Option Str → Str → ℕ → Str → Str → Call
  verify_call : Str → Str → Call
  rotate_call : Str → Str → Str → ℕ → Call
  revoke_call : Str → ℕ → Call

module _ (bcrypt : Bcrypt) where
  -- A key registered with a key id that is not taken verifies with the secret that was returned, and
  -- a secret that does not match the stored hash is refused, on a connection without driver errors.
  pub register-verify :
      (secret hash wrong uuid : Str) (now : ℕ) (a d : Str) (c : Conn KeyTable)
      → Quiet c
      → bcrypt.generate secret ≡ some hash
      → bcrypt.compare hash secret ≡ true
      → bcrypt.compare hash wrong ≡ false
      → get c.tables uuid ≡ none
      → ((register bcrypt (some secret) uuid now a d c).0
          ≡ ok (record { device_key_id = uuid; device_secret = secret }))
        × ((verify bcrypt uuid secret (register bcrypt (some secret) uuid now a d c).1).0 ≡ ok tt)
        × ((verify bcrypt uuid wrong (register bcrypt (some secret) uuid now a d c).1).0
            ≡ err invalid_secret)
  unfolding register register_hash create_device_key insert_key verify lookup known get_device_key
      found checked stmt str_eq
  register-verify secret hash wrong uuid now a d c q g m m' free =
      rw (g, register_hash)
        (rw (q, free, insert_key) (rw (q, get-put_self, m, m', checked) (refl, refl, refl)))

  checked_lem :
      (dk : DeviceKey) (secret : Str) (c : Conn KeyTable)
      → ((checked bcrypt dk secret c).1 ≡ c)
        × ((dk' : DeviceKey) → (checked bcrypt dk secret c).0 ≡ ok dk' → dk.status ≡ codes "active")
  unfolding checked
  checked_lem dk secret c = elim (Bool-cases (dk.status == codes "active")) [
    | inl e ↦ (ground arith, λ dk' h. (str_eq_iff dk.status (codes "active")).0 e)
    | inr e ↦ rw (e, checked) (refl, λ dk' h. cc)
  ]

  rehash-KeepsRevoked :
      (id : Str) (dk : DeviceKey) (hash : Option Str) (now : ℕ) (c : Conn KeyTable)
      → (dk.device_key_id == id) ≡ false
      → status_at id (rehash bcrypt dk hash now c).1.tables ≡ status_at id c.tables
  unfolding rehash
  rehash-KeepsRevoked id dk none now c k = refl
  rehash-KeepsRevoked id dk (some hash) now c k =
      update-KeepsRevoked id (record dk { key_hash = hash }) now c (inl k)

  rotate_key-KeepsRevoked :
      (id key old new : Str) (now : ℕ) → KeepsRevoked id (rotate_key bcrypt key old new now)
  unfolding rotate_key
  rotate_key-KeepsRevoked id key old new now c h =
      let (same, read) = lookup_lem key c in
      let c' = (lookup key c).1 in
      elim (Result-cases (lookup key c).0) [
        | inl (e, e') ↦ rw (e', same) h
        | inr (dk, e) ↦
            let (same', active) = checked_lem dk old c' in
            elim (Result-cases (checked bcrypt dk old c').0) [
              | inl (e', e'') ↦ rw (e, e'', same', same) h
              | inr (dk', e') ↦
                  let (at, row) = read dk e in
                  let other : (dk.device_key_id == id) ≡ false =
                    other_key dk key id c.tables at row (active dk' e') h in
                  rw (e, e', same')
                    (rehash-KeepsRevoked id dk (bcrypt.generate new) now c' other ∙ rw same h)
            ]
      ]

  hash-KeepsRevoked :
      (id : Str) (hash : Option Str) (secret uuid : Str) (now : ℕ) (a d : Str)
      → KeepsRevoked id (register_hash bcrypt hash secret uuid now a d)
  unfolding register_hash create_device_key
  hash-KeepsRevoked id none secret uuid now a d c h = h
  hash-KeepsRevoked id (some hash) secret uuid now a d c h =
      let dk : DeviceKey = record {
        device_key_id = uuid;
        device_id = d;
        app_id = a;
        key_hash = hash;
        status = codes "active";
        registered_at = now;
        last_seen_at = none;
      } in
      let m : Act KeyTable (Unit {0}) = stmt (insert_key dk) in
      elim (Result-cases (m c).0) [
        | inl (e, e') ↦ rw e' (insert_key-KeepsRevoked id dk c h)
        | inr (u, e') ↦ rw e' (insert_key-KeepsRevoked id dk c h)
      ]

  register-KeepsRevoked :
      (id : Str) (random : Option Str) (uuid : Str) (now : ℕ) (a d : Str)
      → KeepsRevoked id (register bcrypt random uuid now a d)
  unfolding register
  register-KeepsRevoked id none uuid now a d c h = h
  register-KeepsRevoked id (some secret) uuid now a d c h =
      hash-KeepsRevoked id (bcrypt.generate secret) secret uuid now a d c h

  -- A verification changes no row, and succeeds only for a key whose status is active.
  verify_lem :
      (key secret : Str) (c : Conn KeyTable)
      → ((verify bcrypt key secret c).1.tables ≡ c.tables)
        × ((verify bcrypt key secret c).0 ≡ ok tt → status_at key c.tables ≡ some (codes "active"))
  unfolding verify
  verify_lem key secret c =
      let (same, read) = lookup_lem key c in
      let c' = (lookup key c).1 in
      elim (Result-cases (lookup key c).0) [
        | inl (e, e') ↦ rw e' (same, λ h. cc)
        | inr (dk, e) ↦
            let (same', active) = checked_lem dk secret c' in
            elim (Result-cases (checked bcrypt dk secret c').0) [
              | inl (e', e'') ↦ rw (e, e'', same') (same, λ h. cc)
              | inr (dk', e') ↦
                  rw (e, e', same') (same, λ h. (read dk e).1 ∙ ap (λ s. some s) (active dk' e'))
            ]
      ]

  -- The connection after a call.
  unfoldable pub after : Call → Conn KeyTable → Conn KeyTable
  after (register_call random uuid now a d) c = (register bcrypt random uuid now a d c).1
  after (verify_call key secret) c = (verify bcrypt key secret c).1
  after (rotate_call key old new now) c = (rotate_key bcrypt key old new now c).1
  after (revoke_call key now) c = (revoke key now c).1

  unfoldable pub after_all : List Call → Conn KeyTable → Conn KeyTable
  after_all [] c = c
  after_all (call ∷ calls) c = after_all calls (after call c)

  after-KeepsRevoked :
      (id : Str) (call : Call) (c : Conn KeyTable)
      → status_at id c.tables ≡ some (codes "revoked")
      → status_at id (after call c).tables ≡ some (codes "revoked")
  unfolding after
  after-KeepsRevoked id (register_call random uuid now a d) c h =
      register-KeepsRevoked id random uuid now a d c h
  after-KeepsRevoked id (verify_call key secret) c h = rw (verify_lem key secret c).0 h
  after-KeepsRevoked id (rotate_call key old new now) c h =
      rotate_key-KeepsRevoked id key old new now c h
  after-KeepsRevoked id (revoke_call key now) c h = revoke-KeepsRevoked id key now c h

  after_all-KeepsRevoked :
      (id : Str) (calls : List Call) (c : Conn KeyTable)
      → status_at id c.tables ≡ some (codes "revoked")
      → status_at id (after_all calls c).tables ≡ some (codes "revoked")
  unfolding after_all
  after_all-KeepsRevoked id [] c h = h
  after_all-KeepsRevoked id (call ∷ calls) c h =
      after_all-KeepsRevoked id calls (after call c) (after-KeepsRevoked id call c h)

  -- A key that is revoked stays revoked, and no secret verifies for it, after any sequence of calls of
  -- the device service that run one after the other, on any connection: whichever calls fail, whatever
  -- secrets are given, and also when the key id is registered again.
  pub revoked_stays :
      (id secret : Str) (calls : List Call) (c : Conn KeyTable)
      → status_at id c.tables ≡ some (codes "revoked")
      → (status_at id (after_all calls c).tables ≡ some (codes "revoked"))
        × ((verify bcrypt id secret (after_all calls c)).0 ≢ ok tt)
  revoked_stays id secret calls c h =
      let kept = after_all-KeepsRevoked id calls c h in
      (
        kept,
        λ verified.
            revoked≢active (sym kept ∙ (verify_lem id secret (after_all calls c)).1 verified),
      )

  -- When a revocation runs between the check that a rotation makes and its update, the update writes
  -- the status it has read back: the key that was revoked is active again. Without driver errors.
  rotate_unrevokes :
      (id hash : Str) (now later : ℕ) (dk : DeviceKey) (c : Conn KeyTable)
      → Quiet c
      → get c.tables id ≡ some dk
      → dk.device_key_id ≡ id
      → dk.status ≡ codes "active"
      → (status_at id (revoke id now c).1.tables ≡ some (codes "revoked"))
        × (status_at id (rehash bcrypt dk (some hash) later (revoke id now c).1).1.tables
            ≡ some (codes "active"))
  unfolding revoke rehash lookup known get_device_key found update_device_key update_key stmt
  rotate_unrevokes id hash now later dk c q row at active =
      rw (q, row, at, update_device_key)
        (rw (q, row, update_key)
          (rw get-put_self (refl, rw (q, get-put_self) (ap (λ s. some s) active))))
