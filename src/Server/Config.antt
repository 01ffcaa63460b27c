-- ===== src/Server/Config.antt =====
-- server/config.go: the configuration from the environment variables. `environ` is `os.Getenv`, empty
-- for a variable that is not set; `strings.TrimSpace` is an argument.
pub mod Valid
use mobile_db.Prelude.{
  ℕ, ltb, if◌then◌else◌, ◌==◌, nat_eq, pair_eq, ℤ, pos, negsuc, ℤ_eq, Str, codes, str_eq_inst,
  length, Option, none, some, List, [], ◌∷◌, map,
}
use mobile_db.Prelude.Decimal.{atoi}

pub record Config : Type 0 where
  pub admin_password_hash : Str
  pub db_encryption_key : Str
  pub keycloak_url : Str
  pub keycloak_realm : Str
  pub keycloak_client_id : Str
  pub backup_destination : Str
  pub backup_interval : Str
  pub log_level : Str
  pub compaction_threshold : ℕ
  pub admin_allowed_ips : List Str
  pub data_dir : Str
  pub listen_addr : Str
  pub crsqlite_ext_path : Str

-- Why a configuration is refused; `missing_vars` names the variables.
pub data Refusal : Type 0 where
  threshold_not_integer threshold_negative : Refusal
  missing_vars : List Str → Refusal
  key_too_short : Refusal

pub data Loaded : Type 0 where
  loaded : Config → Loaded
  refused : Refusal → Loaded

-- `opt(key, def)`
unfoldable pub opt : (Str → Str) → Str → Str → Str
opt environ key def = if environ key == [] then def else environ key

-- The variables of `require`, in the order in which the literal of `cfg` evaluates them.
abbrev pub required : List Str
required =
    codes "ADMIN_PASSWORD_HASH"
    ∷ codes "DB_ENCRYPTION_KEY"
    ∷ codes "KEYCLOAK_URL"
    ∷ codes "KEYCLOAK_REALM"
    ∷ []

-- `missing` after the calls of `require`
unfoldable pub missing_of : (Str → Str) → List Str → List Str
missing_of environ [] = []
missing_of environ (key ∷ keys) =
    let rest = missing_of environ keys in if environ key == [] then key ∷ rest else rest

-- `COMPACTION_THRESHOLD`: a number, or why it is refused.
pub data Threshold : Type 0 where
  threshold : ℕ → Threshold
  bad_threshold : Refusal → Threshold

unfoldable pub threshold_of : Option ℤ → Threshold
threshold_of none = bad_threshold threshold_not_integer
threshold_of (some (negsuc n)) = bad_threshold threshold_negative
threshold_of (some (pos n)) = threshold n

unfoldable pub read_threshold : Str → Threshold
unfolding threshold_of
read_threshold raw = if raw == [] then threshold 1000 else threshold_of (atoi raw)

-- `strings.Split(raw, ",")`
unfoldable pub add_to_first : ℕ → List Str → List Str
add_to_first c [] = (c ∷ []) ∷ []
add_to_first c (p ∷ ps) = (c ∷ p) ∷ ps

unfoldable pub split_commas : Str → List Str
unfolding add_to_first
split_commas [] = [] ∷ []
split_commas (c ∷ s) =
    let parts = split_commas s in if c == b',' then [] ∷ parts else add_to_first c parts

unfoldable pub allowed_ips : (Str → Str) → Str → List Str
unfolding split_commas
allowed_ips trim_space raw = if raw == [] then [] else map trim_space (split_commas raw)

-- The two tests at the end.
unfoldable pub complete : Config → List Str → Loaded
complete cfg (key ∷ missing) = refused (missing_vars (key ∷ missing))
complete cfg [] =
    if ltb (length cfg.db_encryption_key) 32 then refused key_too_short else loaded cfg

module _ (environ : Str → Str) (trim_space : Str → Str) where
  unfoldable pub config_with : ℕ → Config
  unfolding opt allowed_ips
  config_with n = record {
    admin_password_hash = environ (codes "ADMIN_PASSWORD_HASH");
    db_encryption_key = environ (codes "DB_ENCRYPTION_KEY");
    keycloak_url = environ (codes "KEYCLOAK_URL");
    keycloak_realm = environ (codes "KEYCLOAK_REALM");
    keycloak_client_id = opt environ (codes "KEYCLOAK_CLIENT_ID") [];
    backup_destination = opt environ (codes "BACKUP_DESTINATION") [];
    backup_interval = opt environ (codes "BACKUP_INTERVAL") (codes "24h");
    log_level = opt environ (codes "LOG_LEVEL") (codes "info");
    compaction_threshold = n;
    admin_allowed_ips = allowed_ips trim_space (environ (codes "ADMIN_ALLOWED_IPS"));
    data_dir = opt environ (codes "DATA_DIR") (codes "./data");
    listen_addr = opt environ (codes "LISTEN_ADDR") (codes ":8443");
    crsqlite_ext_path = opt environ (codes "CRSQLITE_EXT_PATH") (codes "./crsqlite.so");
  }

  unfoldable pub with_threshold : Threshold → Loaded
  unfolding config_with complete missing_of
  with_threshold (bad_threshold e) = refused e
  with_threshold (threshold n) = complete (config_with n) (missing_of environ required)

  unfoldable pub load_config : Loaded
  unfolding with_threshold read_threshold
  load_config = with_threshold (read_threshold (environ (codes "COMPACTION_THRESHOLD")))
