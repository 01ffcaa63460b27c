-- ===== src/Server/RequestLog/Entries.antt =====
-- What the log has of `POST /sync`.
use mobile_db.Prelude.{
  ltb, Bool-cases, Option-cases, ◌==◌, nat_eq, Str, codes, str_eq_inst, ◌≡◌, refl, ap, ◌∙◌, ◌⊎◌,
  inl, inr, Option, none, some, [], ◌∷◌, length,
}
use mobile_db.Prelude.Exec.{Result, ok, err}
use mobile_db.Prelude.Eff.{Eff}
use mobile_db.Core.{SyncMessage, SyncResponse}
use mobile_db.Server.Requests.{
  Request, Response, Claims, Handler, split_colon, device_verified, device_split,
  require_device_key, after_prefix, token_valid, token_cut, require_jwt, SyncParts, claimed,
  note_event, send, synced, decoded, unpacked, body_read, serve_sync, sync_route,
}
use mobile_db.Server.RequestLog.{
  LogEntry, Logging, Arrival, note_app, entry_of, request_logger, on_rest, logging_parts,
}

-- The answer leaves the log and what it will say of the request.
abbrev SameLog : {S : Type 0} → Logging S → Response × Logging S → Type 0
SameLog l (out, l') = (l'.meta_app ≡ l.meta_app) × (l'.entries ≡ l.entries)

module _ {V Snap S : Type 0} (parts : SyncParts V Snap S) where
  abbrev lifted : SyncParts V Snap (Logging S)
  lifted = logging_parts parts

  send-SameLog : (resp : SyncResponse V Snap) (l : Logging S) → SameLog l (send lifted resp l)
  unfolding send
  send-SameLog resp l = elim (Option-cases (parts.encode resp)) [
    | inl e ↦ rw (send, e) (refl, refl)
    | inr (encoded, e) ↦ elim (Option-cases (parts.compress encoded)) [
      | inl e' ↦ rw (send, e, e') (refl, refl)
      | inr (out, e') ↦ rw (send, e, e') (refl, refl)
    ]
  ]

  note_event-SameLog :
      (r : Request) (msg : SyncMessage V) (l : Logging S)
      → ((note_event lifted r msg l).meta_app ≡ l.meta_app)
        × ((note_event lifted r msg l).entries ≡ l.entries)
  unfolding note_event
  note_event-SameLog r msg l = elim (Option-cases parts.write_event) [
    | inl e ↦ rw e (refl, refl)
    | inr (write, e) ↦ elim (Bool-cases (ltb 0 (length msg.ops))) [
      | inl b ↦ rw (e, b) (refl, refl)
      | inr b ↦ rw (e, b) (refl, refl)
    ]
  ]

  synced-SameLog :
      (r : Request) (msg : SyncMessage V) (res : Result (SyncResponse V Snap)) (l : Logging S)
      → SameLog l (synced lifted r msg res l)
  unfolding synced
  synced-SameLog r msg (err e) l = (refl, refl)
  synced-SameLog r msg (ok resp) l =
      let noted = note_event-SameLog r msg l in
      let sent = send-SameLog resp (note_event lifted r msg l) in
      (sent.0 ∙ noted.0, sent.1 ∙ noted.1)

  decoded-SameLog :
      (r : Request) (msg : Option (SyncMessage V)) (l : Logging S)
      → SameLog l (decoded lifted r msg l)
  unfolding decoded
  decoded-SameLog r none l = (refl, refl)
  decoded-SameLog r (some msg) l =
      let m = claimed lifted r msg in
      synced-SameLog r m (lifted.run_sync m l).0 (lifted.run_sync m l).1

  unpacked-SameLog :
      (r : Request) (raw : Option Str) (l : Logging S) → SameLog l (unpacked lifted r raw l)
  unfolding unpacked
  unpacked-SameLog r none l = (refl, refl)
  unpacked-SameLog r (some raw) l = decoded-SameLog r (parts.decode raw) l

  body_read-SameLog :
      (r : Request) (body : Option Str) (l : Logging S) → SameLog l (body_read lifted r body l)
  unfolding body_read
  body_read-SameLog r none l = (refl, refl)
  body_read-SameLog r (some body) l =
      unpacked-SameLog r (parts.decompress (parts.read_limited body)) l

  serve_sync-SameLog : (r : Request) (l : Logging S) → SameLog l (serve_sync lifted r l)
  unfolding serve_sync
  serve_sync-SameLog r l = elim (Bool-cases (r.method == codes "POST")) [
    | inl e ↦ rw e (body_read-SameLog r r.body l)
    | inr e ↦ rw e (refl, refl)
  ]

-- The answer leaves the entries, and either the request was turned away with 401 and no app noted, or
-- the app noted is one that `Named` allows.
abbrev NamesApp : {S : Type 0} → (Str → Type 0) → Logging S → Response × Logging S → Type 0
NamesApp Named l (out, l') =
    (l'.entries ≡ l.entries)
    × (((out.status ≡ 401) × (l'.meta_app ≡ l.meta_app)) ⊎ Named l'.meta_app)

-- The request presented a token that is valid in `s`, for this app.
abbrev pub ByToken : {S : Type 0} → (Str → Eff S Claims) → Request → S → Str → Type 0
ByToken validate r s app =
    (token : Str) × (claims : Claims) × (after_prefix (codes "Bearer ") r.authorization
      ≡ some token)
    × ((validate token s).0 ≡ ok claims)
    × (app ≡ claims.app_id)

-- The request presented a device key that verifies in `s`, and a token that is then valid for this app.
abbrev pub ByKeyAndToken :
    {S : Type 0}
    → (Str → Str → Eff S (Unit {0}))
    → (Str → Eff S Claims)
    → Request
    → S
    → Str
    → Type 0
ByKeyAndToken verify validate r s app =
    (id : Str) × (secret : Str) × (split_colon r.device_key_header ≡ some (id, secret))
    × ((verify id secret s).0 ≡ ok tt)
    × ByToken validate r (verify id secret s).1 app

module _ {S : Type 0} (validate : Str → Eff S Claims) (next : Handler (Logging S))
    (same : (r : Request) (l : Logging S) → SameLog l (next r l)) where
  valid-NamesApp :
      (r : Request) (token : Str) (res : Result Claims) (l : Logging S)
      → after_prefix (codes "Bearer ") r.authorization ≡ some token
      → (validate token l.rest).0 ≡ res
      → NamesApp
          (ByToken validate r l.rest)
          l
          (token_valid note_app next r res (on_rest (validate token) l).1)
  unfolding token_valid note_app
  valid-NamesApp r token (err e) l p v = (refl, inl (refl, refl))
  valid-NamesApp r token (ok claims) l p v = elim (Bool-cases (claims.app_id == [])) [
    | inl e ↦ rw e (refl, inl (refl, refl))
    | inr e ↦
        let kept =
          same (record r { ctx_app = some claims.app_id; ctx_user = some claims.subject })
            (note_app claims.app_id (on_rest (validate token) l).1) in
        rw e (kept.1, inr (token, claims, p, v, kept.0))
  ]

  cut-NamesApp :
      (r : Request) (token : Option Str) (l : Logging S)
      → after_prefix (codes "Bearer ") r.authorization ≡ token
      → NamesApp
          (ByToken validate r l.rest)
          l
          (token_cut note_app (λ t. on_rest (validate t)) next r token l)
  unfolding token_cut
  cut-NamesApp r none l p = (refl, inl (refl, refl))
  cut-NamesApp r (some token) l p = valid-NamesApp r token (validate token l.rest).0 l p refl

  require_jwt-NamesApp :
      (r : Request) (l : Logging S)
      → NamesApp
          (ByToken validate r l.rest)
          l
          (require_jwt note_app (λ t. on_rest (validate t)) next r l)
  unfolding require_jwt
  require_jwt-NamesApp r l = cut-NamesApp r _ l refl

module _ {S : Type 0} (verify : Str → Str → Eff S (Unit {0})) (validate : Str → Eff S Claims)
    (next : Handler (Logging S))
    (names : (r : Request) (l : Logging S)
      → NamesApp (ByToken validate r l.rest) l (next r l)) where
  verified-NamesApp :
      (r : Request) (id secret : Str) (res : Result (Unit {0})) (l : Logging S)
      → split_colon r.device_key_header ≡ some (id, secret)
      → (verify id secret l.rest).0 ≡ res
      → NamesApp
          (ByKeyAndToken verify validate r l.rest)
          l
          (device_verified next r id res (on_rest (verify id secret) l).1)
  unfolding device_verified
  verified-NamesApp r id secret (err e) l p v = (refl, inl (refl, refl))
  verified-NamesApp r id secret (ok u) l p v =
      let (kept, named) =
        names (record r { ctx_device = some id }) (on_rest (verify id secret) l).1 in
      (
        kept,
        elim named [ inl refused ↦ inl refused | inr by_token ↦ inr (id, secret, p, v, by_token) ],
      )

  split-NamesApp :
      (r : Request) (p : Option (Str × Str)) (l : Logging S)
      → split_colon r.device_key_header ≡ p
      → NamesApp
          (ByKeyAndToken verify validate r l.rest)
          l
          (device_split (λ id secret. on_rest (verify id secret)) next r p l)
  unfolding device_split
  split-NamesApp r none l p = (refl, inl (refl, refl))
  split-NamesApp r (some (id, secret)) l p =
      verified-NamesApp r id secret (verify id secret l.rest).0 l p refl

  require_device_key-NamesApp :
      (r : Request) (l : Logging S)
      → NamesApp
          (ByKeyAndToken verify validate r l.rest)
          l
          (require_device_key (λ id secret. on_rest (verify id secret)) next r l)
  unfolding require_device_key
  require_device_key-NamesApp r l = elim (Bool-cases (r.device_key_header == [])) [
    | inl e ↦ rw e (refl, inl (refl, refl))
    | inr e ↦ rw e (split-NamesApp r (split_colon r.device_key_header) l refl)
  ]

module _ {V Snap S : Type 0} (parts : SyncParts V Snap S) (verify : Str → Str → Eff S (Unit {0}))
    (validate : Str → Eff S Claims) where
  abbrev pub logged_sync : Arrival → Handler (Logging S)
  logged_sync a = request_logger a (
      sync_route (logging_parts parts) note_app (λ id secret. on_rest (verify id secret))
        (λ t. on_rest (validate t)))

  -- The log of `POST /sync` gets one entry for each request, with the method of the request, the path
  -- and the status of the answer. Unless the answer is a 401 with no app in its entry, the request
  -- presented a device key that verifies and then a token that is valid, and the app of the entry is
  -- that of the token.
  pub sync_logged :
      (a : Arrival) (r : Request) (l : Logging S)
      → (e : LogEntry) × ((logged_sync a r l).1.entries ≡ e ∷ l.entries)
        × (e.method ≡ r.method)
        × (e.path ≡ a.path)
        × (e.status ≡ (logged_sync a r l).0.status)
        × (((e.status ≡ 401) × (e.app_id ≡ [])) ⊎ ByKeyAndToken verify validate r l.rest e.app_id)
  unfolding request_logger entry_of sync_route
  sync_logged a r l =
      let checked =
        require_jwt note_app (λ t. on_rest (validate t)) (serve_sync (logging_parts parts)) in
      let fresh : Logging S = record l { meta_app = [] } in
      let (out, l') =
        require_device_key (λ id secret. on_rest (verify id secret)) checked r fresh in
      let (kept, names) =
        require_device_key-NamesApp verify validate checked
          (require_jwt-NamesApp validate (serve_sync (logging_parts parts))
            (serve_sync-SameLog parts))
          r fresh in
      (entry_of a r out l', ap (λ es. entry_of a r out l' ∷ es) kept, refl, refl, refl, names)
