-- ===== src/Tests/Tokens.antt =====
-- Examples for the validation of tokens.
use mobile_db.Prelude.{
  ◌↔◌, wrap_int64, ℕ, nat_eq, pair_eq, pos, ℤ_eq, Str, codes, str_eq, str_eq_inst, ◌≡◌, refl, true,
  none, some, [], ◌∷◌,
}
use mobile_db.Prelude.Dict.{get}
use mobile_db.Server.Tokens.{
  OidcClaims, OidcValidator, Moment, validate, parse_token, refresh_if_stale, key_func,
  parsed_claims, check_claims, among_audience,
}
use mobile_db.Server.Tokens.Checks.{Meets, validate-Meets}
use mobile_db.Server.Tokens.Jwk.{JwkFields, rsa_key, jwk_to_rsa, big_endian, jwk_to_rsa-exponent}

abbrev issued : OidcClaims
issued = record {
  app_id = codes "c";
  issuer = codes "i";
  subject = codes "u";
  audience = codes "c" ∷ [];
}

-- A validator with one cached key, the number 1.
abbrev validator : OidcValidator ℕ
validator = record {
  issuer = codes "i";
  client_id = codes "c";
  keys = (codes "k", 1) ∷ [];
  fetched_at = 10;
}

abbrev offline : Moment ℕ
offline = record { now = 20; document = none }

validate-Meets_example : Meets validator issued
unfolding validate parse_token refresh_if_stale key_func parsed_claims check_claims among_audience
    get str_eq
validate-Meets_example =
    validate-Meets (λ t. some (record { supported = true; kid = codes "k" })) (λ key t. some issued)
      offline offline (codes "t") issued validator refl

-- A key whose texts are their own bytes, with the exponent 65537.
abbrev jwk : JwkFields
jwk = record {
  kid = codes "k";
  kty = codes "RSA";
  n = 9 ∷ [];
  e = 1 ∷ 0 ∷ 1 ∷ [];
  crv = [];
  x = [];
  y = [];
}

jwk_to_rsa-exponent_example : (jwk_to_rsa some (λ s. 9) jwk ≡ some (rsa_key 9 (pos 65537))) ↔ (
    (n : Str) × (e : Str) × (some jwk.n ≡ some n)
    × (some jwk.e ≡ some e)
    × (rsa_key 9 (pos 65537) ≡ rsa_key 9 (wrap_int64 (big_endian e))))
jwk_to_rsa-exponent_example = jwk_to_rsa-exponent some (λ s. 9) jwk (rsa_key 9 (pos 65537))
