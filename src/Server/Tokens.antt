-- ===== src/Server/Tokens.antt =====
-- server/auth/jwt.go: the validation of tokens and the cache of the issuer's public keys. Times are
-- nanoseconds. The HTTP fetch of the key document, and the parsing and the signature check of
-- golang-jwt are arguments; the type of keys is any, and Jwk decodes those of the program. The fetches
-- run one after the other; the group that joins fetches in flight is left out.
pub mod Checks
pub mod Jwk
pub mod Urls
use mobile_db.Prelude.{
  ℕ, ◌-◌, ◌*◌, ltb, if◌then◌else◌, ◌==◌, nat_eq, pair_eq, ℤ_eq, Str, codes, str_eq_inst, Bool,
  false, ◌&&◌, ◌||◌, not, Option, none, some, List, [], ◌∷◌, ◌++◌,
}
use mobile_db.Prelude.Dict.{Dict, get, put}
use mobile_db.Prelude.Exec.{ok, keys_unavailable, token_refused}
use mobile_db.Prelude.Eff.{Eff, return, fail, ◌>>=◌, ◌>>◌}

pub record OidcClaims : Type 0 where
  pub app_id : Str
  pub issuer : Str
  pub subject : Str
  pub audience : List Str

-- The configuration and the cached keys, of type `K`.
pub record OidcValidator (K : Type 0) : Type 0 where
  pub issuer : Str
  pub client_id : Str
  pub keys : Dict Str K
  pub fetched_at : ℕ

-- `strings.TrimRight(s, "/")`
unfoldable pub trim_slashes : Str → Str
trim_slashes [] = []
trim_slashes (c ∷ s) =
    let rest = trim_slashes s in if (rest == []) && (c == b'/') then [] else c ∷ rest

-- The issuer, and the address of the document of its keys.
unfoldable pub realm_url : Str → Str → Str
unfolding trim_slashes
realm_url keycloak_url realm = trim_slashes keycloak_url ++ (codes "/realms/" ++ realm)

unfoldable pub jwks_url : Str → Str → Str
unfolding realm_url
jwks_url keycloak_url realm = realm_url keycloak_url realm ++ codes "/protocol/openid-connect/certs"

-- `NewOIDCValidator`; the zero time of `fetchedAt` is long before any reading.
unfoldable pub new_oidc_validator : {K : Type 0} → Str → Str → Str → OidcValidator K
unfolding realm_url
new_oidc_validator keycloak_url realm client_id = record {
  issuer = realm_url keycloak_url realm;
  client_id = client_id;
  keys = [];
  fetched_at = 0;
}

-- A key of the document; `decoded` is `none` for an unknown type or a key that cannot be decoded.
pub record JwkKey (K : Type 0) : Type 0 where
  pub kid : Str
  pub decoded : Option K

-- What the header of a token says: whether its method is supported, and its key id.
pub record TokenHeader : Type 0 where
  pub supported : Bool
  pub kid : Str

-- A clock reading with the answer that a fetch would get then, `none` for an error.
pub record Moment (K : Type 0) : Type 0 where
  pub now : ℕ
  pub document : Option (List (JwkKey K))

-- `10 * time.Minute`
abbrev pub jwks_cache_ttl : ℕ
jwks_cache_ttl = 10 * 60 * 1000000000

-- `5 * time.Second`
abbrev pub recent_window : ℕ
recent_window = 5 * 1000000000

unfoldable pub among_audience : Str → List Str → Bool
among_audience client [] = false
among_audience client (a ∷ rest) = a == client || among_audience client rest

module _ {K : Type 0} where
  -- The body of the loop over the document's keys.
  unfoldable pub take_key : JwkKey K → Dict Str K → Dict Str K
  take_key k keys =
      if k.kid == [] then keys else elim k.decoded [ none ↦ keys | some key ↦ put keys k.kid key ]

  unfoldable pub usable_keys : List (JwkKey K) → Dict Str K → Dict Str K
  usable_keys [] keys = keys
  usable_keys (k ∷ ks) keys = usable_keys ks (take_key k keys)

  unfoldable pub store_keys : ℕ → Dict Str K → Eff (OidcValidator K) (Unit {0})
  store_keys now [] v = fail keys_unavailable v
  store_keys now (entry ∷ keys) v = (ok tt, record v { keys = entry ∷ keys; fetched_at = now })

  unfoldable pub fetch_jwks : Moment K → Eff (OidcValidator K) (Unit {0})
  fetch_jwks m = elim m.document [
    | none ↦ fail keys_unavailable
    | some doc ↦ store_keys m.now (usable_keys doc [])
  ]

  unfoldable pub refresh_if_stale : Moment K → Eff (OidcValidator K) (Unit {0})
  refresh_if_stale m v =
      if ltb jwks_cache_ttl (m.now - v.fetched_at) then fetch_jwks m v else (ok tt, v)

  unfoldable pub known_key : Option K → Eff (OidcValidator K) K
  known_key none = fail token_refused
  known_key (some key) = return key

  -- The second look-up, after a fetch for an unknown key id.
  unfoldable pub fetched_key : Str → Moment K → Eff (OidcValidator K) K
  fetched_key kid m = do fetch_jwks m; λ v. known_key (get v.keys kid) v

  unfoldable pub key_func : TokenHeader → Moment K → Eff (OidcValidator K) K
  key_func h m v = if not h.supported then fail token_refused v else elim (get v.keys h.kid) [
    | some key ↦ return key v
    | none ↦
        if ltb (m.now - v.fetched_at) recent_window
        then fail token_refused v
        else fetched_key h.kid m v
  ]

  unfoldable pub check_claims : OidcClaims → Eff (OidcValidator K) OidcClaims
  check_claims claims v =
      if not (claims.issuer == v.issuer)
      then fail token_refused v
      else if not (v.client_id == []) && not (among_audience v.client_id claims.audience)
      then fail token_refused v
      else if not (v.client_id == []) && not (claims.app_id == v.client_id)
      then fail token_refused v
      else return claims v

  unfoldable pub parsed_claims : Option OidcClaims → Eff (OidcValidator K) OidcClaims
  parsed_claims none = fail token_refused
  parsed_claims (some claims) = check_claims claims

  -- `Validate` after the refresh: `claims_of` checks the signature by a key and the times of the
  -- token, and gives its claims.
  unfoldable pub parse_token :
      (K → Str → Option OidcClaims)
      → Moment K
      → Str
      → Option TokenHeader
      → Eff (OidcValidator K) OidcClaims
  parse_token claims_of m token none = fail token_refused
  parse_token claims_of m token (some h) =
      key_func h m >>= λ key. parsed_claims (claims_of key token)

  -- `header` reads a token's header, `none` on an error.
  unfoldable pub validate :
      (Str → Option TokenHeader)
      → (K → Str → Option OidcClaims)
      → Moment K
      → Moment K
      → Str
      → Eff (OidcValidator K) OidcClaims
  validate header claims_of first second token = do
    refresh_if_stale first
    parse_token claims_of second token (header token)
