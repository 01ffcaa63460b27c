-- ===== src/Server/Accounts.antt =====
-- server/auth/handlers.go and the routes of server/router.go that lead there. The device service, the
-- token validator (`none`: Keycloak is not configured) and encoding/json are arguments, over a state
-- `S`; the texts of errors are left out.
pub mod Revocation
use mobile_db.Prelude.{
  ℕ, if◌then◌else◌, ◌==◌, nat_eq, pair_eq, ℤ_eq, Str, codes, str_eq_inst, ◌||◌, Option, none, some,
  List, [], ◌∷◌,
}
use mobile_db.Prelude.Exec.{Result, ok, err, Conn}
use mobile_db.Prelude.Eff.{Eff}
use mobile_db.Server.Device.{
  KeyTable, Bcrypt, RegistrationResult, register, verify, rotate_key, revoke,
}
use mobile_db.Server.Requests.{
  Request, Response, Claims, Handler, refuse, after_prefix, require_device_key,
}
use mobile_db.Admin.Web.{last_segment}

-- What the handlers call.
pub record AccountParts (S : Type 0) : Type 0 where
  pub register : Str → Str → Eff S RegistrationResult
  pub verify : Str → Str → Eff S (Unit {0})
  pub rotate_key : Str → Str → Str → Eff S (Unit {0})
  pub revoke : Str → Eff S (Unit {0})
  pub validate : Option (Str → Eff S Claims)
  -- the fields of a body's JSON object, `none` when it is none
  pub decode_register : Option Str → Option (Str × Str)
  pub decode_token : Option Str → Option (Str × Str)
  pub decode_rotate : Option Str → Option (Str × (Str × Str))
  pub encode_pairs : List (Str × Str) → Str

module _ {S : Type 0} (parts : AccountParts S) where
  unfoldable pub write_json : ℕ → List (Str × Str) → S → Response × S
  write_json code v s = (record { status = code; body = parts.encode_pairs v }, s)

  unfoldable pub registered : Result RegistrationResult → S → Response × S
  unfolding write_json
  registered (err e) s = refuse 500 s
  registered (ok result) s =
      write_json 201
        ((codes "device_key_id", result.device_key_id)
          ∷ (codes "device_secret", result.device_secret)
          ∷ [])
        s

  unfoldable pub register_decoded : Option (Str × Str) → S → Response × S
  unfolding registered
  register_decoded none s = refuse 400 s
  register_decoded (some (app, device)) s =
      let done = parts.register app device s in
      if app == [] || device == [] then refuse 400 s else registered done.0 done.1

  -- `POST /devices/register`
  unfoldable pub serve_register : Handler S
  unfolding register_decoded
  serve_register r s = register_decoded (parts.decode_register r.body) s

  unfoldable pub token_claims : Result Claims → S → Response × S
  unfolding write_json
  token_claims (err e) s = refuse 401 s
  token_claims (ok claims) s =
      write_json 200 ((codes "app_id", claims.app_id) ∷ (codes "user_id", claims.subject) ∷ []) s

  -- After the device key has been verified: the bearer token if there is one, and a validator.
  unfoldable pub bearer : Option Str → Option (Str → Eff S Claims) → S → Response × S
  unfolding token_claims
  bearer (some token) (some validate) s = token_claims (validate token s).0 (validate token s).1
  bearer _ _ s = refuse 200 s

  unfoldable pub token_verified : Request → Result (Unit {0}) → S → Response × S
  unfolding bearer
  token_verified r (err e) s = refuse 401 s
  token_verified r (ok u) s =
      bearer (after_prefix (codes "Bearer ") r.authorization) parts.validate s

  unfoldable pub token_decoded : Request → Option (Str × Str) → S → Response × S
  unfolding token_verified
  token_decoded r none s = refuse 400 s
  token_decoded r (some (id, secret)) s =
      token_verified r (parts.verify id secret s).0 (parts.verify id secret s).1

  -- `POST /auth/token`
  unfoldable pub serve_token : Handler S
  unfolding token_decoded
  serve_token r s = token_decoded r (parts.decode_token r.body) s

  unfoldable pub rotated : Result (Unit {0}) → S → Response × S
  rotated (err e) s = refuse 401 s
  rotated (ok u) s = refuse 204 s

  unfoldable pub rotate_decoded : Option (Str × (Str × Str)) → S → Response × S
  unfolding rotated
  rotate_decoded none s = refuse 400 s
  rotate_decoded (some (id, (old, new))) s =
      rotated (parts.rotate_key id old new s).0 (parts.rotate_key id old new s).1

  -- `POST /devices/rotate-key`
  unfoldable pub serve_rotate : Handler S
  unfolding rotate_decoded
  serve_rotate r s = rotate_decoded (parts.decode_rotate r.body) s

  unfoldable pub revoked : Result (Unit {0}) → S → Response × S
  revoked (err e) s = refuse 404 s
  revoked (ok u) s = refuse 204 s

  -- `RevokeDevice` at a path
  unfoldable pub serve_revoke : Str → Handler S
  unfolding revoked last_segment
  serve_revoke path r s =
      let id = last_segment path in
      let done = parts.revoke id s in if id == [] then refuse 400 s else revoked done.0 done.1

  -- `DELETE /devices/`
  unfoldable pub revoke_route : Str → Handler S
  unfolding serve_revoke
  revoke_route path = require_device_key parts.verify (serve_revoke path)

-- The handlers over the device service, as `NewHandlers` gets it: the random bytes, the uuid and the
-- clock's reading of a request, and the other parts.
unfoldable pub device_parts :
    Bcrypt → Option Str → Str → ℕ → AccountParts (Conn KeyTable) → AccountParts (Conn KeyTable)
device_parts bcrypt random uuid now parts = record parts {
  register = register bcrypt random uuid now;
  verify = verify bcrypt;
  rotate_key = λ id old new. rotate_key bcrypt id old new now;
  revoke = λ id. revoke id now;
}
