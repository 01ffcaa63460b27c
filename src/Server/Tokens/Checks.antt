-- ===== src/Server/Tokens/Checks.antt =====
-- What a token that is accepted has passed, and what a validation does to the cached keys.
use mobile_db.Prelude.{
  ℕ, ◌-◌, ltb, Bool-cases, Option-cases, nat_eq, pair_eq, ℤ_eq, Str, str_eq_iff, str_eq_inst, ◌≡◌,
  refl, sym, ◌⊎◌, inl, inr, true, Option, none, some, [], ◌∷◌, arith,
}
use mobile_db.Prelude.Dict.{Dict, get}
use mobile_db.Prelude.Exec.{ok}
use mobile_db.Prelude.Eff.Keeps.{Keeps, Keeps-bind, bind-ok}
use mobile_db.Server.Tokens.{
  jwks_cache_ttl, recent_window, OidcClaims, OidcValidator, TokenHeader, Moment, usable_keys,
  store_keys, fetch_jwks, refresh_if_stale, known_key, fetched_key, key_func, among_audience,
  check_claims, parsed_claims, parse_token, validate,
}

module _ {K X : Type 0} (view : OidcValidator K → X)
    (stored : (v : OidcValidator K) (now : ℕ) (entry : Str × K) (keys : Dict Str K)
      → view (record v { keys = entry ∷ keys; fetched_at = now }) ≡ view v) where
  store_keys-Keeps : (now : ℕ) (keys : Dict Str K) → Keeps view (store_keys now keys)
  unfolding store_keys
  store_keys-Keeps now [] v = refl
  store_keys-Keeps now (entry ∷ keys) v = stored v now entry keys

  fetch_jwks-Keeps : (m : Moment K) → Keeps view (fetch_jwks m)
  unfolding fetch_jwks
  fetch_jwks-Keeps m v = elim (Option-cases m.document) [
    | inl e ↦ rw (e, fetch_jwks) refl
    | inr (doc, e) ↦ rw (e, fetch_jwks) (store_keys-Keeps m.now (usable_keys doc []) v)
  ]

  refresh_if_stale-Keeps : (m : Moment K) → Keeps view (refresh_if_stale m)
  unfolding refresh_if_stale
  refresh_if_stale-Keeps m v = elim (Bool-cases (ltb jwks_cache_ttl (m.now - v.fetched_at))) [
    | inl e ↦ rw (e, refresh_if_stale) (fetch_jwks-Keeps m v)
    | inr e ↦ rw (e, refresh_if_stale) refl
  ]

  known_key-Keeps : (key : Option K) → Keeps view (known_key key)
  unfolding known_key
  known_key-Keeps none v = refl
  known_key-Keeps (some key) v = refl

  fetched_key-Keeps : (kid : Str) (m : Moment K) → Keeps view (fetched_key kid m)
  unfolding fetched_key
  fetched_key-Keeps kid m v =
      Keeps-bind view (fetch_jwks m) _ (fetch_jwks-Keeps m)
        (λ u v'. known_key-Keeps (get v'.keys kid) v') v

  key_func-Keeps : (h : TokenHeader) (m : Moment K) → Keeps view (key_func h m)
  unfolding key_func
  key_func-Keeps h m v = elim (Bool-cases h.supported) [
    | inr e ↦ rw (e, key_func) refl
    | inl e ↦ elim (Option-cases (get v.keys h.kid)) [
      | inr (key, e') ↦ rw (e, e', key_func) refl
      | inl e' ↦ elim (Bool-cases (ltb (m.now - v.fetched_at) recent_window)) [
        | inl e'' ↦ rw (e, e', e'', key_func) refl
        | inr e'' ↦ rw (e, e', e'', key_func) (fetched_key-Keeps h.kid m v)
      ]
    ]
  ]

module _ {K : Type 0} where
  abbrev issuer_of : OidcValidator K → Str
  issuer_of v = v.issuer

  abbrev client_of : OidcValidator K → Str
  client_of v = v.client_id

  -- The claims name the issuer and, if a client is configured, that client twice.
  abbrev pub Meets : OidcValidator K → OidcClaims → Type 0
  Meets v claims =
      (claims.issuer ≡ v.issuer)
      × ((v.client_id ≡ [])
          ⊎ ((among_audience v.client_id claims.audience ≡ true) × (claims.app_id ≡ v.client_id)))

  check_claims-Meets :
      (parsed claims : OidcClaims) (v : OidcValidator K)
      → (check_claims parsed v).0 ≡ ok claims
      → Meets v claims
  unfolding check_claims
  check_claims-Meets parsed claims v h = ground (
    arith,
    h,
    str_eq_iff parsed.issuer v.issuer,
    str_eq_iff v.client_id [],
    str_eq_iff parsed.app_id v.client_id,
  )

  parsed_claims-Meets :
      (parsed : Option OidcClaims) (claims : OidcClaims) (v : OidcValidator K)
      → (parsed_claims parsed v).0 ≡ ok claims
      → Meets v claims
  unfolding parsed_claims
  parsed_claims-Meets none claims v h = cc
  parsed_claims-Meets (some parsed) claims v h = check_claims-Meets parsed claims v h

  Meets-same :
      (v w : OidcValidator K) (claims : OidcClaims)
      → w.issuer ≡ v.issuer
      → w.client_id ≡ v.client_id
      → Meets w claims
      → Meets v claims
  Meets-same v w claims e e' h = rw (sym e, sym e') h

  parse_token-Meets :
      (claims_of : K → Str → Option OidcClaims) (m : Moment K) (token : Str)
      (h : Option TokenHeader) (claims : OidcClaims) (v : OidcValidator K)
      → (parse_token claims_of m token h v).0 ≡ ok claims
      → Meets v claims
  unfolding parse_token
  parse_token-Meets claims_of m token none claims v e = cc
  parse_token-Meets claims_of m token (some h) claims v e =
      let (key, e', e'') =
        bind-ok (key_func h m) (λ k. parsed_claims (claims_of k token)) v claims e in
      let w = (key_func h m v).1 in
      Meets-same v w claims (key_func-Keeps issuer_of (λ v' n entry keys. refl) h m v)
        (key_func-Keeps client_of (λ v' n entry keys. refl) h m v)
        (parsed_claims-Meets (claims_of key token) claims w e'')

  -- Claims that a validation returns name the validator's issuer; and if the validator has a client,
  -- that client is in their audience and is the party they were issued for. This holds whatever the
  -- fetches of the key document answer.
  pub validate-Meets :
      (header : Str → Option TokenHeader) (claims_of : K → Str → Option OidcClaims)
      (first second : Moment K) (token : Str) (claims : OidcClaims) (v : OidcValidator K)
      → (validate header claims_of first second token v).0 ≡ ok claims
      → Meets v claims
  unfolding validate
  validate-Meets header claims_of first second token claims v h =
      let (u, e, h') =
        bind-ok (refresh_if_stale first) (λ x. parse_token claims_of second token (header token)) v
          claims h in
      let w = (refresh_if_stale first v).1 in
      Meets-same v w claims (refresh_if_stale-Keeps issuer_of (λ v' n entry keys. refl) first v)
        (refresh_if_stale-Keeps client_of (λ v' n entry keys. refl) first v)
        (parse_token-Meets claims_of second token (header token) claims w h')
