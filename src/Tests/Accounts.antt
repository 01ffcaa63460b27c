-- ===== src/Tests/Accounts.antt =====
-- Examples for the configuration and the account routes.
use mobile_db.Prelude.{
  ℕ, ◌≤◌, if◌then◌else◌, ◌==◌, nat_eq, pair_eq, ℤ_eq, Str, codes, str_eq, str_eq_inst, length, All,
  ◌≡◌, refl, ◌≢◌, ◌↔◌, none, some, List, [], ◌∷◌,
}
use mobile_db.Prelude.Dict.{get, put}
use mobile_db.Prelude.Exec.{sql_failed, ok, Conn, stmt}
use mobile_db.Prelude.Eff.{return, fail}
use mobile_db.Server.Config.{loaded, required, config_with, load_config}
use mobile_db.Server.Config.Valid.{Sets, load_config-Sets}
use mobile_db.Server.Device.{
  KeyTable, verify, revoke, lookup, known, get_device_key, found, checked, update_device_key,
  update_key,
}
use mobile_db.Server.Device.Keys.{Call, verify_call, after_all}
use mobile_db.Server.Requests.{
  Request, split_colon, require_device_key, device_split, device_verified, after_prefix,
}
use mobile_db.Server.Accounts.{
  AccountParts, serve_token, token_decoded, token_verified, bearer, serve_revoke, revoked,
  revoke_route, device_parts,
}
use mobile_db.Server.Accounts.Revocation.{Passed, revoke_route-verify, Granted, serve_token-Granted}
use mobile_db.Admin.Web.{last_segment, after_slash}
use mobile_db.Tests.Admin.{test_bcrypt, two_keys}

abbrev long_text : Str
long_text = codes "0123456789abcdef0123456789abcdef"

abbrev environ : Str → Str
environ key = if key == codes "COMPACTION_THRESHOLD" then codes "50" else long_text

load_config-Sets_example :
    (load_config environ (λ s. s) ≡ loaded (config_with environ (λ s. s) 50)) ↔ (
      (n : ℕ) × Sets (environ (codes "COMPACTION_THRESHOLD")) n
      × All (λ key. environ key ≢ []) required
      × (32 ≤ length (environ (codes "DB_ENCRYPTION_KEY")))
      × (config_with environ (λ s. s) n ≡ config_with environ (λ s. s) 50))
load_config-Sets_example = load_config-Sets environ (λ s. s) (config_with environ (λ s. s) 50)

abbrev no_parts : {S : Type 0} → AccountParts S
no_parts = record {
  register = λ app device. fail sql_failed;
  verify = λ id secret. return tt;
  rotate_key = λ id old new. return tt;
  revoke = λ id. return tt;
  validate = none;
  decode_register = λ b. none;
  decode_token = λ b. some (codes "k", codes "s");
  decode_rotate = λ b. none;
  encode_pairs = λ ps. [];
}

abbrev pub with_key : Request
with_key = record {
  method = codes "DELETE";
  device_key_header = codes "k:s";
  authorization = [];
  body = some [];
  ctx_device = none;
  ctx_app = none;
  ctx_user = none;
}

abbrev key_parts : AccountParts (Conn KeyTable)
key_parts = no_parts

abbrev later_calls : List Call
later_calls = verify_call (codes "o") (codes "s") ∷ []

revoke_route-verify_example :
    Passed
      (verify test_bcrypt)
      (serve_revoke (device_parts test_bcrypt none [] 9 key_parts) (codes "/devices/o"))
      with_key
      two_keys
    × ((verify test_bcrypt (last_segment (codes "/devices/o")) (codes "s") (
          after_all test_bcrypt later_calls
            (revoke_route
              (device_parts test_bcrypt none [] 9 key_parts)
              (codes "/devices/o")
              with_key
              two_keys).1)).0
        ≢ ok tt)
unfolding revoke_route device_parts serve_revoke revoked last_segment after_slash require_device_key
    device_split device_verified split_colon verify revoke lookup known get_device_key found checked
    update_device_key update_key get put str_eq stmt
revoke_route-verify_example =
    revoke_route-verify test_bcrypt none [] 9 key_parts (codes "/devices/o") with_key two_keys
      later_calls (codes "s") refl

serve_token-Granted_example : Granted no_parts with_key (tt {0})
unfolding serve_token token_decoded token_verified bearer after_prefix
serve_token-Granted_example = serve_token-Granted no_parts with_key tt refl
