-- ===== src/Server/Requests.antt =====
-- server/middleware/auth.go, the sync route of server/router.go, and server/handlers/sync.go. The
-- verification of a device key, the validation of a token, the engine's sync, the codec, the
-- compressor and the writer of sync events are arguments, over a state `S`; a response keeps its
-- status and its body, the texts of errors are left out. A compressor is set, as server.go sets one.
pub mod Route
use mobile_db.Prelude.{
  ℕ, ltb, if◌then◌else◌, ◌==◌, nat_eq, pair_eq, ℤ_eq, Str, codes, str_eq_inst, length, not, Option,
  none, some, [], ◌∷◌,
}
use mobile_db.Prelude.Exec.{Result, ok, err}
use mobile_db.Prelude.Eff.{Eff}
use mobile_db.Core.{SyncMessage, SyncResponse}

-- `none` in a context field: no middleware has set it.
pub record Request : Type 0 where
  pub method : Str
  pub device_key_header : Str
  pub authorization : Str
  -- `none`: the body cannot be read
  pub body : Option Str
  pub ctx_device : Option Str
  pub ctx_app : Option Str
  pub ctx_user : Option Str

pub record Response : Type 0 where
  pub status : ℕ
  pub body : Str

pub record Claims : Type 0 where
  pub app_id : Str
  pub subject : Str

abbrev pub Handler : Type 0 → Type 0
Handler S = Request → S → Response × S

abbrev pub refuse : {S : Type 0} → ℕ → S → Response × S
refuse status s = (record { status = status; body = [] }, s)

-- `strings.SplitN(header, ":", 2)`: the parts around the first colon, `none` if there is none.
unfoldable pub split_colon : Str → Option (Str × Str)
split_colon [] = none
split_colon (c ∷ s) =
    let rest = split_colon s in
    if c == b':' then some ([], s) else elim rest [ none ↦ none | some p ↦ some (c ∷ p.0, p.1) ]

-- `strings.HasPrefix` and `strings.TrimPrefix`
unfoldable pub after_prefix : Str → Str → Option Str
after_prefix [] s = some s
after_prefix (p ∷ ps) [] = none
after_prefix (p ∷ ps) (c ∷ s) = let rest = after_prefix ps s in if p == c then rest else none

module _ {S : Type 0} where
  -- `RequireDeviceKey` after `Verify`, and after the header has been split.
  unfoldable pub device_verified : Handler S → Request → Str → Result (Unit {0}) → S → Response × S
  device_verified next r id (err e) s = refuse 401 s
  device_verified next r id (ok u) s = next (record r { ctx_device = some id }) s

  unfoldable pub device_split :
      (Str → Str → Eff S (Unit {0})) → Handler S → Request → Option (Str × Str) → S → Response × S
  device_split verify next r none s = refuse 401 s
  device_split verify next r (some (id, secret)) s =
      device_verified next r id (verify id secret s).0 (verify id secret s).1

  unfoldable pub require_device_key : (Str → Str → Eff S (Unit {0})) → Handler S → Handler S
  require_device_key verify next r s =
      if r.device_key_header == []
      then refuse 401 s
      else device_split verify next r (split_colon r.device_key_header) s

module _ {S : Type 0} (note_app : Str → S → S) where
  -- `RequireJWT` after `Validate`, and after the prefix has been cut. `note_app` leaves the app id for
  -- the request log.
  unfoldable pub token_valid : Handler S → Request → Result Claims → S → Response × S
  token_valid next r (err e) s = refuse 401 s
  token_valid next r (ok claims) s =
      if claims.app_id == []
      then refuse 401 s
      else next (record r { ctx_app = some claims.app_id; ctx_user = some claims.subject })
          (note_app claims.app_id s)

  unfoldable pub token_cut :
      (Str → Eff S Claims) → Handler S → Request → Option Str → S → Response × S
  token_cut validate next r none s = refuse 401 s
  token_cut validate next r (some token) s =
      token_valid next r (validate token s).0 (validate token s).1

  unfoldable pub require_jwt : (Str → Eff S Claims) → Handler S → Handler S
  require_jwt validate next r s =
      token_cut validate next r (after_prefix (codes "Bearer ") r.authorization) s

-- A context value takes the place of the client's if it is set and not empty.
unfoldable pub trusted : Option Str → Str → Str
trusted none own = own
trusted (some v) own = if v == [] then own else v

unfoldable pub context_text : Option Str → Str
context_text none = []
context_text (some v) = v

-- What the sync handler calls.
pub record SyncParts (V Snap S : Type 0) : Type 0 where
  pub read_limited : Str → Str
  pub decompress : Str → Option Str
  pub decode : Str → Option (SyncMessage V)
  pub run_sync : SyncMessage V → Eff S (SyncResponse V Snap)
  -- `none`: no writer is set
  pub write_event : Option (Str → Str → Str → Str → ℕ → Eff S (Unit {0}))
  pub encode : SyncResponse V Snap → Option Str
  pub compress : Str → Option Str

module _ {V Snap S : Type 0} (parts : SyncParts V Snap S) where
  unfoldable pub claimed : Request → SyncMessage V → SyncMessage V
  claimed r msg = record msg {
    app_id = trusted r.ctx_app msg.app_id;
    user_id = trusted r.ctx_user msg.user_id;
  }

  unfoldable pub note_event : Request → SyncMessage V → S → S
  note_event r msg s = elim parts.write_event [
    | none ↦ s
    | some write ↦
        if ltb 0 (length msg.ops)
        then (write msg.app_id msg.dataset_id msg.user_id (context_text r.ctx_device)
            (length msg.ops) s).1
        else s
  ]

  unfoldable pub send : SyncResponse V Snap → S → Response × S
  send resp s = elim (parts.encode resp) [
    | none ↦ refuse 500 s
    | some encoded ↦ elim (parts.compress encoded) [
      | none ↦ refuse 500 s
      | some out ↦ (record { status = 200; body = out }, s)
    ]
  ]

  unfoldable pub synced : Request → SyncMessage V → Result (SyncResponse V Snap) → S → Response × S
  synced r msg (err e) s = refuse 500 s
  synced r msg (ok resp) s = send resp (note_event r msg s)

  unfoldable pub decoded : Request → Option (SyncMessage V) → S → Response × S
  decoded r none s = refuse 400 s
  decoded r (some msg) s =
      let m = claimed r msg in synced r m (parts.run_sync m s).0 (parts.run_sync m s).1

  unfoldable pub unpacked : Request → Option Str → S → Response × S
  unpacked r none s = refuse 400 s
  unpacked r (some raw) s = decoded r (parts.decode raw) s

  unfoldable pub body_read : Request → Option Str → S → Response × S
  body_read r none s = refuse 400 s
  body_read r (some body) s = unpacked r (parts.decompress (parts.read_limited body)) s

  unfoldable pub serve_sync : Handler S
  serve_sync r s = if not (r.method == codes "POST") then refuse 405 s else body_read r r.body s

  -- `POST /sync`
  unfoldable pub sync_route :
      (Str → S → S) → (Str → Str → Eff S (Unit {0})) → (Str → Eff S Claims) → Handler S
  sync_route note_app verify validate =
      require_device_key verify (require_jwt note_app validate serve_sync)
