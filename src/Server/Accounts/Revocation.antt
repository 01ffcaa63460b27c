-- ===== src/Server/Accounts/Revocation.antt =====
-- What the answers of the account routes say about device keys.
use mobile_db.Prelude.{
  ℕ, Bool-cases, Option-cases, ◌==◌, nat_eq, pair_eq, ℤ_eq, Str, codes, str_eq_inst, ◌≡◌, refl, sym,
  ap, ◌∙◌, ◌≢◌, inl, inr, Option, none, some, List, [], arith,
}
use mobile_db.Prelude.Dict.{get, get-put_self}
use mobile_db.Prelude.Exec.{ok, Conn, stmt}
use mobile_db.Prelude.Eff.{Eff}
use mobile_db.Server.Device.{
  DeviceKey, KeyTable, Bcrypt, verify, lookup, update_key, update_device_key, revoke,
}
use mobile_db.Server.Device.Statuses.{status_at, status_of, lookup_lem, Result-cases}
use mobile_db.Server.Device.Keys.{Call, after_all, revoked_stays}
use mobile_db.Server.Requests.{
  Request, Response, Claims, split_colon, require_device_key, device_split, device_verified,
  after_prefix,
}
use mobile_db.Server.Accounts.{
  AccountParts, serve_token, token_decoded, token_verified, bearer, token_claims, serve_revoke,
  revoked, revoke_route, device_parts,
}
use mobile_db.Admin.Web.{last_segment}
use mathlib.Core.Path.{subst}

status_at-update_self :
    (dk : DeviceKey) (now : ℕ) (t : KeyTable) (s : Str)
    → status_at dk.device_key_id t ≡ some s
    → status_at dk.device_key_id (update_key dk now t) ≡ some dk.status
unfolding update_key
status_at-update_self dk now t s h = elim (Option-cases (get t dk.device_key_id)) [
  | inl e ↦ absurd (let h' = (rw e at h) in cc)
  | inr (old, e) ↦
      let new = record old {
        key_hash = dk.key_hash;
        status = dk.status;
        last_seen_at = some now;
      } in
      rw (e, update_key) (ap status_of (get-put_self t dk.device_key_id new))
]

-- A revocation that returns without an error has revoked the key.
pub revoke_lem :
    (id : Str) (now : ℕ) (c : Conn KeyTable)
    → (revoke id now c).0 ≡ ok tt
    → status_at id (revoke id now c).1.tables ≡ some (codes "revoked")
unfolding revoke update_device_key stmt
revoke_lem id now c h =
    let (same, read) = lookup_lem id c in
    let c' = (lookup id c).1 in
    elim (Result-cases (lookup id c).0) [
      | inl (e, e') ↦ absurd (let h' = (rw e' at h) in cc)
      | inr (dk, e) ↦ elim (Bool-cases (c'.fails c'.calls)) [
        | inl f ↦ absurd (let h' = (rw (e, f) at h) in cc)
        | inr f ↦
            let (at, row) = read dk e in
            let dk' = record dk { status = codes "revoked" } in
            rw (e, f)
              (subst (λ k. status_at k (update_key dk' now c'.tables) ≡ some (codes "revoked")) at
                (status_at-update_self dk' now c'.tables dk.status (rw (same, at) row)))
      ]
    ]

module _ {S : Type 0} (verify : Str → Str → Eff S (Unit {0})) (next : Request → S → Response × S)
    (r : Request) where
  -- A request that the device gate has let through: the key it came with, which has been verified.
  pub record Passed (s : S) : Type 0 where
    pub id : Str
    pub secret : Str
    pub presented : split_colon r.device_key_header ≡ some (id, secret)
    pub verified : (verify id secret s).0 ≡ ok tt
    pub answered :
        require_device_key verify next r s
        ≡ next (record r { ctx_device = some id }) (verify id secret s).1

  split_Passed :
      (parts : Option (Str × Str)) (s : S)
      → split_colon r.device_key_header ≡ parts
      → require_device_key verify next r s ≡ device_split verify next r parts s
      → (device_split verify next r parts s).0.status ≢ 401
      → Passed s
  unfolding device_split device_verified
  split_Passed none s p e h = absurd (h refl)
  split_Passed (some (id, secret)) s p e h = elim (Result-cases (verify id secret s).0) [
    | inl (f, e') ↦ absurd (h (rw (e', device_verified) refl))
    | inr (u, e') ↦ record {
      id = id;
      secret = secret;
      presented = p;
      verified = e';
      answered = e ∙ rw (e', device_verified) refl;
    }
  ]

  pub require_device_key-Passed :
      (s : S) → (require_device_key verify next r s).0.status ≢ 401 → Passed s
  unfolding require_device_key
  require_device_key-Passed s h = elim (Bool-cases (r.device_key_header == [])) [
    | inl e ↦ absurd (h (rw (e, require_device_key) refl))
    | inr e ↦
        split_Passed (split_colon r.device_key_header) s refl (rw (e, require_device_key) refl)
          (rw (e, require_device_key) at h)
  ]

serve_revoke_lem :
    {S : Type 0} (parts : AccountParts S) (path : Str) (r : Request) (s : S)
    → (serve_revoke parts path r s).0.status ≡ 204
    → let done = parts.revoke (last_segment path) s in
      (done.0 ≡ ok tt) × ((serve_revoke parts path r s).1 ≡ done.1)
unfolding serve_revoke revoked
serve_revoke_lem parts path r s h = elim (Bool-cases (last_segment path == [])) [
  | inl e ↦ absurd (let h' = (rw e at h) in omega (arith, h'))
  | inr e ↦ elim (Result-cases (parts.revoke (last_segment path) s).0) [
    | inl (f, e') ↦ absurd (let h' = (rw (e, e') at h) in omega (arith, h'))
    | inr (u, e') ↦ (e', rw (e, e') refl)
  ]
]

module _ (bcrypt : Bcrypt) (random : Option Str) (uuid : Str) (now : ℕ)
    (base : AccountParts (Conn KeyTable)) where
  -- A DELETE that was answered with 204 came with a device key that was verified, and the key in its
  -- path is revoked: no secret verifies for it after any later calls of the device service.
  pub revoke_route-verify :
      (path : Str) (r : Request) (c : Conn KeyTable) (calls : List Call) (secret : Str)
      → let parts = device_parts bcrypt random uuid now base in
        (revoke_route parts path r c).0.status ≡ 204
        → Passed (verify bcrypt) (serve_revoke parts path) r c
          × ((verify bcrypt
                (last_segment path)
                secret
                (after_all bcrypt calls (revoke_route parts path r c).1)).0
              ≢ ok tt)
  unfolding revoke_route device_parts
  revoke_route-verify path r c calls secret h =
      let parts = device_parts bcrypt random uuid now base in
      let gate =
        require_device_key-Passed (verify bcrypt) (serve_revoke parts path) r c
          (λ e. absurd (omega (arith, h, e))) in
      let r' = record r { ctx_device = some gate.id } in
      let c' = (verify bcrypt gate.id gate.secret c).1 in
      let (done, same) =
        serve_revoke_lem parts path r' c' (ap (λ p. p.0.status) (sym gate.answered) ∙ h) in
      let revoked_now = revoke_lem (last_segment path) now c' done in
      (
        gate,
        subst
            (λ c''.
              (verify bcrypt (last_segment path) secret (after_all bcrypt calls c'')).0 ≢ ok tt)
            (sym same ∙ ap (λ p. p.1) (sym gate.answered))
            (revoked_stays bcrypt (last_segment path) secret calls _ revoked_now).1,
      )

module _ {S : Type 0} where
  -- The validator accepts the token, where there are both.
  abbrev pub ValidatedBy : Option Str → Option (Str → Eff S Claims) → S → Type 0
  ValidatedBy (some token) (some validate) s =
      (claims : Claims) × ((validate token s).0 ≡ ok claims)
  ValidatedBy (some token) none s = Unit
  ValidatedBy none v s = Unit

module _ {S : Type 0} (parts : AccountParts S) where
  -- What a token request that succeeds has shown: a device key that was verified, and a token that was
  -- validated if one was presented and there is a validator.
  pub record Granted (r : Request) (s : S) : Type 0 where
    pub id : Str
    pub secret : Str
    pub presented : parts.decode_token r.body ≡ some (id, secret)
    pub verified : (parts.verify id secret s).0 ≡ ok tt
    pub validated :
        ValidatedBy
          (after_prefix (codes "Bearer ") r.authorization)
          parts.validate
          (parts.verify id secret s).1

  bearer_lem :
      (token : Option Str) (validate : Option (Str → Eff S Claims)) (s : S)
      → (bearer parts token validate s).0.status ≡ 200
      → ValidatedBy token validate s
  unfolding bearer token_claims
  bearer_lem none validate s h = tt
  bearer_lem (some token) none s h = tt
  bearer_lem (some token) (some validate) s h = elim (Result-cases (validate token s).0) [
    | inl (e, e') ↦ absurd (let h' = (rw e' at h) in omega (arith, h'))
    | inr (claims, e') ↦ (claims, e')
  ]

  decoded_Granted :
      (r : Request) (o : Option (Str × Str)) (s : S)
      → parts.decode_token r.body ≡ o
      → (token_decoded parts r o s).0.status ≡ 200
      → Granted r s
  unfolding token_decoded token_verified
  decoded_Granted r none s p h = absurd (omega (arith, h))
  decoded_Granted r (some (id, secret)) s p h = elim (Result-cases (parts.verify id secret s).0) [
    | inl (e, e') ↦ absurd (let h' = (rw (e', token_verified) at h) in omega (arith, h'))
    | inr (u, e') ↦ record {
      id = id;
      secret = secret;
      presented = p;
      verified = e';
      validated =
          bearer_lem (after_prefix (codes "Bearer ") r.authorization) parts.validate
            (parts.verify id secret s).1 (rw (e', token_verified) at h);
    }
  ]

  -- A token request that is answered with 200 came with a device key that was verified, and with a
  -- token that was validated if one was presented and there is a validator.
  pub serve_token-Granted :
      (r : Request) (s : S) → (serve_token parts r s).0.status ≡ 200 → Granted r s
  unfolding serve_token
  serve_token-Granted r s h = decoded_Granted r (parts.decode_token r.body) s refl h
