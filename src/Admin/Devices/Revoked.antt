-- ===== src/Admin/Devices/Revoked.antt =====
-- A key that an administrator has revoked.
use mobile_db.Prelude.{
  Bool-cases, Option-cases, ◌==◌, nat_eq, pair_eq, ℤ_eq, Str, codes, str_eq_inst, ◌≡◌, refl, ◌≢◌,
  inl, inr, false, ◌||◌, some, List, [], arith,
}
use mobile_db.Prelude.Dict.{get, get-put, get-put_self}
use mobile_db.Prelude.Exec.{Result, ok, err, Conn, stmt}
use mobile_db.Server.Device.{KeyTable, Bcrypt, verify}
use mobile_db.Server.Device.Statuses.{status_at}
use mobile_db.Server.Device.Keys.{Call, after_all, revoked_stays}
use mobile_db.Admin.Web.{PageRequest, reply, last_segment}
use mobile_db.Admin.Devices.{set_revoked, revoke_device, revoke_answer, revoke_page}

set_revoked_lem :
    (id : Str) (t : KeyTable)
    → ((set_revoked id t).0 ≡ 0 → (set_revoked id t).1 ≡ t)
      × ((set_revoked id t).0 ≢ 0 → status_at id (set_revoked id t).1 ≡ some (codes "revoked"))
      × ((j : Str) → (id == j) ≡ false → get (set_revoked id t).1 j ≡ get t j)
unfolding set_revoked
set_revoked_lem id t = elim (Option-cases (get t id)) [
  | inl e ↦ rw (e, set_revoked) ((λ h. refl), (λ h. absurd (h refl)), λ j h. refl)
  | inr (dk, e) ↦
      let dk' = record dk { status = codes "revoked" } in
      rw (e, set_revoked)
        (
          (λ h. absurd (omega (arith, h))),
          (λ h. rw (get-put_self t id dk') refl),
          λ j h. rw (get-put t id dk' j) (rw h refl),
        )
]

revoke_device_lem :
    (id : Str) (c : Conn KeyTable)
    → ((revoke_device id c).0 ≡ ok tt
        → status_at id (revoke_device id c).1.tables ≡ some (codes "revoked"))
      × ((j : Str) → (id == j) ≡ false → get (revoke_device id c).1.tables j ≡ get c.tables j)
unfolding revoke_device stmt
revoke_device_lem id c =
    let (none_set, is_set, others) = set_revoked_lem id c.tables in
    elim (Bool-cases (c.fails c.calls)) [
      | inl e ↦ rw (e, stmt) ((λ h. cc), λ j h. refl)
      | inr e ↦ elim (Bool-cases ((set_revoked id c.tables).0 == 0)) [
        | inl z ↦ rw (e, z) ((λ h. cc), others)
        | inr z ↦ rw (e, z) ((λ h. is_set (λ zero. ground (arith, z, zero))), others)
      ]
    ]

module _ (revoked_row : Str → Str) where
  answered :
      (id : Str) (r : Result (Unit {0})) → (revoke_answer revoked_row id r).status ≡ 200 → r ≡ ok tt
  unfolding revoke_answer reply
  answered id (err e) h = absurd (omega (arith, h))
  answered id (ok u) h = refl

  -- After a DELETE that was answered with 200 the key in the path is revoked: no secret verifies for
  -- it after any later calls of the device service, and no other row has changed.
  pub revoke_page-verify :
      (bcrypt : Bcrypt) (r : PageRequest) (c : Conn KeyTable) (calls : List Call)
      (secret other : Str)
      → (last_segment r.path == other) ≡ false
      → (revoke_page revoked_row r c).0.status ≡ 200
      → let id = last_segment r.path in
        let c' = (revoke_page revoked_row r c).1 in
        ((verify bcrypt id secret (after_all bcrypt calls c')).0 ≢ ok tt)
        × (get c'.tables other ≡ get c.tables other)
  unfolding revoke_page reply
  revoke_page-verify bcrypt r c calls secret other differs h =
      let id = last_segment r.path in
      let (revoked, others) = revoke_device_lem id c in
      elim (Bool-cases (id == [] || id == codes "devices")) [
        | inl e ↦ absurd (let h' = (rw e at h) in omega (arith, h'))
        | inr e ↦
            let done = revoked (answered id (revoke_device id c).0 (rw e at h)) in
            rw e (
              (revoked_stays bcrypt id secret calls (revoke_device id c).1 done).1,
              others other differs,
            )
      ]
