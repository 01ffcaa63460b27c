-- ===== src/Server/Device/Statuses.antt =====
-- The status of a device key, and the calls of server/auth/device.go that leave a revoked one revoked.
use mobile_db.Prelude.{
  ℕ, if◌then◌else◌, Bool-cases, Option-cases, ◌==◌, nat_eq, pair_eq, ℤ_eq, Str, codes, str_eq_iff,
  str_eq_inst, ◌≡◌, refl, sym, ap, ◌∙◌, ◌⊎◌, inl, inr, false, Option, none, some, arith,
}
use mobile_db.Prelude.Dict.{get, put, get-put}
use mobile_db.Prelude.Exec.{Failure, Result, ok, err, Conn, Act, stmt}
use mathlib.Core.Path.{subst}
use mobile_db.Prelude.Eff.Keeps.{value_of_ok}
use mobile_db.Server.Device.{
  DeviceKey, KeyTable, insert_key, found, get_device_key, update_key, update_device_key, known,
  lookup, revoke,
}

abbrev pub status_of : Option DeviceKey → Option Str
status_of none = none
status_of (some dk) = some dk.status

-- The status in the row of a key.
abbrev pub status_at : Str → KeyTable → Option Str
status_at id t = status_of (get t id)

pub status_at-put :
    (t : KeyTable) (id : Str) (dk : DeviceKey) (id' : Str)
    → status_at id' (put t id dk) ≡ (if id == id' then some dk.status else status_at id' t)
status_at-put t id dk id' = ground (arith, get-put t id dk id')

-- An update of a row that is there sets its status, and leaves the status of every other key.
pub status_at-update :
    (dk : DeviceKey) (now : ℕ) (t : KeyTable) (id : Str)
    → (dk.device_key_id == id) ≡ false ⊎ (some dk.status ≡ status_at id t)
    → status_at id (update_key dk now t) ≡ status_at id t
unfolding update_key
status_at-update dk now t id h = elim (Option-cases (get t dk.device_key_id)) [
  | inl e ↦ rw (e, update_key) refl
  | inr (old, e) ↦
      rw (e, update_key)
        (ground (
          arith,
          h,
          status_at-put t dk.device_key_id
              (record old { key_hash = dk.key_hash; status = dk.status; last_seen_at = some now })
              id,
        ))
]

-- A call that keeps the status of a revoked key.
abbrev pub KeepsRevoked : {A : Type 0} → Str → Act KeyTable A → Type 0
KeepsRevoked id m =
    (c : Conn KeyTable)
    → status_at id c.tables ≡ some (codes "revoked")
    → status_at id (m c).1.tables ≡ some (codes "revoked")

pub lookup_lem :
    (id : Str) (c : Conn KeyTable)
    → ((lookup id c).1.tables ≡ c.tables)
      × ((dk : DeviceKey)
          → (lookup id c).0 ≡ ok dk
          → (dk.device_key_id ≡ id) × (status_at id c.tables ≡ some dk.status))
unfolding lookup known get_device_key found stmt
lookup_lem id c = elim (Bool-cases (c.fails c.calls)) [
  | inl e ↦ rw (e, stmt) (refl, λ dk h. cc)
  | inr e ↦ elim (Option-cases (get c.tables id)) [
    | inl e' ↦ rw (e, e') (refl, λ dk h. cc)
    | inr (dk, e') ↦
        rw (e, e')
          (
            refl,
            λ dk' h. (
              ap (λ x. x.device_key_id) (sym (value_of_ok h)),
              ap (λ x. some (x.status)) (value_of_ok h),
            ),
          )
  ]
]

pub Result-cases :
    {A : Type 0} (r : Result A) → ((e : Failure) × (r ≡ err e)) ⊎ ((a : A) × (r ≡ ok a))
Result-cases (err e) = inl (e, refl)
Result-cases (ok a) = inr (a, refl)

pub update-KeepsRevoked :
    (id : Str) (dk : DeviceKey) (now : ℕ) (c : Conn KeyTable)
    → (dk.device_key_id == id) ≡ false ⊎ (some dk.status ≡ status_at id c.tables)
    → status_at id (update_device_key dk now c).1.tables ≡ status_at id c.tables
unfolding update_device_key stmt
update-KeepsRevoked id dk now c k = elim (Bool-cases (c.fails c.calls)) [
  | inl e ↦ rw (e, stmt) refl
  | inr e ↦ rw (e, stmt) (status_at-update dk now c.tables id k)
]

pub stmt-KeepsRevoked :
    {A : Type 0} (id : Str) (f : KeyTable → Option (A × KeyTable))
    → ((t : KeyTable) (a : A) (t' : KeyTable)
        → status_at id t ≡ some (codes "revoked")
        → f t ≡ some (a, t')
        → status_at id t' ≡ some (codes "revoked"))
    → KeepsRevoked id (stmt f)
unfolding stmt
stmt-KeepsRevoked id f k c h = elim (Bool-cases (c.fails c.calls)) [
  | inl e ↦ rw (e, stmt) h
  | inr e ↦ elim (Option-cases (f c.tables)) [
    | inl e' ↦ rw (e, e') h
    | inr ((a, t'), e') ↦ rw (e, e') (k c.tables a t' h e')
  ]
]

pub none≢some : {A : Type 0} {a : A} → none ≡ some a → ⊥
none≢some h = cc

pub some-inj : {A : Type 0} {a b : A} → some a ≡ some b → a ≡ b
some-inj h = cc

pub insert_key-KeepsRevoked : (id : Str) (dk : DeviceKey) → KeepsRevoked id (stmt (insert_key dk))
unfolding insert_key
insert_key-KeepsRevoked id dk = stmt-KeepsRevoked id (insert_key dk) (λ t a t' h e.
    elim (Option-cases (get t dk.device_key_id)) [
      | inr (old, e') ↦ let e'' = rw (e', insert_key) at e in elim (none≢some e'') [ ]
      | inl e' ↦
          let e'' = some-inj (rw (e', insert_key) at e) in
          let fresh = record dk { last_seen_at = none } in
          subst (λ p. status_at id (p.1) ≡ some (codes "revoked")) e''
            (ground
              (arith, status_at-put t dk.device_key_id fresh id, str_eq_iff dk.device_key_id id))
    ])

pub revoked≢active : some (codes "revoked") ≡ some (codes "active") → ⊥
revoked≢active h = ground (arith, h)

pub other_key :
    (dk : DeviceKey) (key id : Str) (t : KeyTable)
    → dk.device_key_id ≡ key
    → status_at key t ≡ some dk.status
    → dk.status ≡ codes "active"
    → status_at id t ≡ some (codes "revoked")
    → (dk.device_key_id == id) ≡ false
other_key dk key id t at row active h = elim (Bool-cases (dk.device_key_id == id)) [
  | inr e ↦ e
  | inl e ↦
      let e' = (str_eq_iff dk.device_key_id id).0 e in
      elim (revoked≢active (
        sym h
        ∙ ap (λ k. status_at k t) (sym e')
        ∙ ap (λ k. status_at k t) at
        ∙ row
        ∙ ap (λ s. some s) active)) [ ]
]

pub revoke-KeepsRevoked : (id key : Str) (now : ℕ) → KeepsRevoked id (revoke key now)
unfolding revoke
revoke-KeepsRevoked id key now c h =
    let (same, read) = lookup_lem key c in
    let c' = (lookup key c).1 in
    elim (Result-cases (lookup key c).0) [
      | inl (e, e') ↦ rw (e', same) h
      | inr (dk, e) ↦
          let dk' = record dk { status = codes "revoked" } in
          let keeps : (dk.device_key_id == id) ≡ false
              ⊎ (some (codes "revoked") ≡ status_at id c'.tables) =
            inr (rw same (sym h)) in
          rw e (update-KeepsRevoked id dk' now c' keeps ∙ rw same h)
    ]
