-- ===== src/Server/Requests/Route.antt =====
-- What a successful response of `POST /sync` implies.
use mobile_db.Prelude.{
  ℕ, ltb, Bool-cases, ◌==◌, nat_eq, pair_eq, ℤ_eq, Str, codes, str_eq_iff, str_eq_inst, ◌≡◌, refl,
  ◌⊎◌, inl, inr, true, false, Option, none, some, [], arith,
}
use mobile_db.Prelude.Exec.{Result, ok, err}
use mobile_db.Prelude.Eff.{Eff}
use mobile_db.Core.{SyncMessage, SyncResponse}
use mobile_db.Server.Requests.{
  Request, Claims, Handler, split_colon, device_verified, device_split, require_device_key,
  after_prefix, token_valid, token_cut, require_jwt, trusted, SyncParts, claimed, synced, decoded,
  unpacked, body_read, serve_sync, sync_route,
}

-- The handler answers with success.
abbrev pub Succeeds : {S : Type 0} → Handler S → Request → S → Type 0
Succeeds h r s = (h r s).0.status ≡ 200

not_success : (n : ℕ) → ltb 200 n ≡ true → n ≡ 200 → ⊥
not_success n h e = ground arith

module _ {S : Type 0} (verify : Str → Str → Eff S (Unit {0})) (validate : Str → Eff S Claims)
    (note_app : Str → S → S) (next : Handler S) where
  -- A device key was presented and verified, and what follows succeeded.
  pub record Device (r : Request) (s : S) : Type 0 where
    pub id : Str
    pub secret : Str
    pub presented : split_colon r.device_key_header ≡ some (id, secret)
    pub verified : (verify id secret s).0 ≡ ok tt
    pub passed : Succeeds next (record r { ctx_device = some id }) (verify id secret s).1

  verified_Device :
      (r : Request) (id secret : Str) (res : Result (Unit {0})) (s s' : S)
      → split_colon r.device_key_header ≡ some (id, secret)
      → (verify id secret s).0 ≡ res
      → (verify id secret s).1 ≡ s'
      → (device_verified next r id res s').0.status ≡ 200
      → Device r s
  unfolding device_verified
  verified_Device r id secret (err e) s s' p v t h = elim (not_success 401 refl h) [ ]
  verified_Device r id secret (ok u) s s' p v t h = record {
    id = id;
    secret = secret;
    presented = p;
    verified = v;
    passed = rw t h;
  }

  split_Device :
      (r : Request) (parts : Option (Str × Str)) (s : S)
      → split_colon r.device_key_header ≡ parts
      → (device_split verify next r parts s).0.status ≡ 200
      → Device r s
  unfolding device_split
  split_Device r none s p h = elim (not_success 401 refl h) [ ]
  split_Device r (some (id, secret)) s p h = verified_Device r id secret _ s _ p refl refl h

  require_device_key-Device :
      (r : Request) (s : S) → Succeeds (require_device_key verify next) r s → Device r s
  unfolding require_device_key
  require_device_key-Device r s h = elim (Bool-cases (r.device_key_header == [])) [
    | inl e ↦ elim (not_success 401 refl (rw (e, require_device_key) at h)) [ ]
    | inr e ↦
        split_Device r (split_colon r.device_key_header) s refl (rw (e, require_device_key) at h)
  ]

  -- A token was presented and validated, with an app, and what follows succeeded.
  pub record Token (r : Request) (s : S) : Type 0 where
    pub token : Str
    pub claims : Claims
    pub presented : after_prefix (codes "Bearer ") r.authorization ≡ some token
    pub validated : (validate token s).0 ≡ ok claims
    pub has_app : (claims.app_id == []) ≡ false
    pub passed :
        Succeeds next
          (record r { ctx_app = some claims.app_id; ctx_user = some claims.subject })
          (note_app claims.app_id (validate token s).1)

  valid_Token :
      (r : Request) (token : Str) (res : Result Claims) (s s' : S)
      → after_prefix (codes "Bearer ") r.authorization ≡ some token
      → (validate token s).0 ≡ res
      → (validate token s).1 ≡ s'
      → (token_valid note_app next r res s').0.status ≡ 200
      → Token r s
  unfolding token_valid
  valid_Token r token (err e) s s' p v t h = elim (not_success 401 refl h) [ ]
  valid_Token r token (ok claims) s s' p v t h = elim (Bool-cases (claims.app_id == [])) [
    | inl e ↦ elim (not_success 401 refl (rw e at h)) [ ]
    | inr e ↦ record {
      token = token;
      claims = claims;
      presented = p;
      validated = v;
      has_app = e;
      passed = rw t (rw e at h);
    }
  ]

  cut_Token :
      (r : Request) (token : Option Str) (s : S)
      → after_prefix (codes "Bearer ") r.authorization ≡ token
      → (token_cut note_app validate next r token s).0.status ≡ 200
      → Token r s
  unfolding token_cut
  cut_Token r none s p h = elim (not_success 401 refl h) [ ]
  cut_Token r (some token) s p h = valid_Token r token _ s _ p refl refl h

  require_jwt-Token :
      (r : Request) (s : S) → Succeeds (require_jwt note_app validate next) r s → Token r s
  unfolding require_jwt
  require_jwt-Token r s h = cut_Token r _ s refl h

module _ {V Snap S : Type 0} (parts : SyncParts V Snap S) where
  -- The engine ran one sync, of the message decoded from the body with the app and the user of the
  -- context, and it returned a reply.
  pub record Ran (r : Request) (s : S) : Type 0 where
    pub raw : Str
    pub msg : SyncMessage V
    pub reply : SyncResponse V Snap
    pub sent : parts.decode raw ≡ some msg
    pub ran : (parts.run_sync (claimed parts r msg) s).0 ≡ ok reply

  decoded_Ran :
      (r : Request) (raw : Str) (msg : SyncMessage V) (res : Result (SyncResponse V Snap))
      (s s' : S)
      → parts.decode raw ≡ some msg
      → (parts.run_sync (claimed parts r msg) s).0 ≡ res
      → (synced parts r (claimed parts r msg) res s').0.status ≡ 200
      → Ran r s
  unfolding synced
  decoded_Ran r raw msg (err e) s s' d t h = elim (not_success 500 refl h) [ ]
  decoded_Ran r raw msg (ok reply) s s' d t h = record {
    raw = raw;
    msg = msg;
    reply = reply;
    sent = d;
    ran = t;
  }

  raw_Ran :
      (r : Request) (raw : Str) (msg : Option (SyncMessage V)) (s : S)
      → parts.decode raw ≡ msg
      → (decoded parts r msg s).0.status ≡ 200
      → Ran r s
  unfolding decoded
  raw_Ran r raw none s d h = elim (not_success 400 refl h) [ ]
  raw_Ran r raw (some msg) s d h = decoded_Ran r raw msg _ s _ d refl h

  body_Ran :
      (r : Request) (body : Option Str) (s : S)
      → (body_read parts r body s).0.status ≡ 200
      → Ran r s
  unfolding body_read unpacked
  body_Ran r none s h = elim (not_success 400 refl h) [ ]
  body_Ran r (some body) s h = raw_of (parts.decompress (parts.read_limited body)) h
    where
      raw_of : (raw : Option Str) → (unpacked parts r raw s).0.status ≡ 200 → Ran r s
      raw_of none h' = elim (not_success 400 refl h') [ ]
      raw_of (some raw) h' = raw_Ran r raw (parts.decode raw) s refl h'

  serve_sync-Ran : (r : Request) (s : S) → Succeeds (serve_sync parts) r s → Ran r s
  unfolding serve_sync
  serve_sync-Ran r s h = elim (Bool-cases (r.method == codes "POST")) [
    | inl e ↦ body_Ran r r.body s (rw (e, serve_sync) at h)
    | inr e ↦ elim (not_success 405 refl (rw (e, serve_sync) at h)) [ ]
  ]

  -- A sync that was authorized: the key verified, the token was valid, and the engine ran a message
  -- that belongs to the token's app and, if the token has a subject, to that user.
  pub record Authorized (verify : Str → Str → Eff S (Unit {0})) (validate : Str → Eff S Claims)
      (r : Request) (s : S) : Type 0 where
    pub id : Str
    pub secret : Str
    pub token : Str
    pub claims : Claims
    pub msg : SyncMessage V
    pub reply : SyncResponse V Snap
    pub before_token : S
    pub before_sync : S
    pub key_presented : split_colon r.device_key_header ≡ some (id, secret)
    pub key_verified : (verify id secret s).0 ≡ ok tt
    pub token_presented : after_prefix (codes "Bearer ") r.authorization ≡ some token
    pub token_validated : (validate token before_token).0 ≡ ok claims
    pub synced_msg : (parts.run_sync msg before_sync).0 ≡ ok reply
    pub own_app : msg.app_id ≡ claims.app_id
    pub own_user : (msg.user_id ≡ claims.subject) ⊎ (claims.subject ≡ [])

  trusted_cases : (v own : Str) → (trusted (some v) own ≡ v) ⊎ (v ≡ [])
  unfolding trusted
  trusted_cases v own = ground (arith, str_eq_iff v [])

  trusted_set : (v own : Str) → (v == []) ≡ false → trusted (some v) own ≡ v
  unfolding trusted
  trusted_set v own h = rw h refl

  -- If `POST /sync` answers with success, the request presented a device key that verified and a token
  -- that was valid, and the engine ran a sync of a message whose app is the token's and whose user is
  -- the token's subject, unless that subject is empty.
  pub sync_route-Authorized :
      (note_app : Str → S → S) (verify : Str → Str → Eff S (Unit {0}))
      (validate : Str → Eff S Claims) (r : Request) (s : S)
      → Succeeds (sync_route parts note_app verify validate) r s
      → Authorized verify validate r s
  unfolding sync_route claimed
  sync_route-Authorized note_app verify validate r s h =
      let key =
        require_device_key-Device verify validate note_app
          (require_jwt note_app validate (serve_sync parts)) r s h in
      let token = require_jwt-Token verify validate note_app (serve_sync parts) _ _ key.passed in
      let run = serve_sync-Ran _ _ token.passed in
      record {
        id = key.id;
        secret = key.secret;
        token = token.token;
        claims = token.claims;
        msg = _;
        reply = run.reply;
        before_token = _;
        before_sync = _;
        key_presented = key.presented;
        key_verified = key.verified;
        token_presented = token.presented;
        token_validated = token.validated;
        synced_msg = run.ran;
        own_app = trusted_set token.claims.app_id run.msg.app_id token.has_app;
        own_user = trusted_cases token.claims.subject run.msg.user_id;
      }
