-- ===== src/Config.antt =====
-- internal/config/config.go. The environment and the parsers of the standard library are parameters,
-- and so is the order in which Go visits the entries of a map.
pub mod Required
use beebase_auth_service.Prelude.{
  ℕ, ◌*◌, Bool, not, Option, none, some, List, [], ◌∷◌, Text, codes, text_eq, is_empty,
  if◌then◌else◌,
}

-- A Go int or time.Duration, the latter in nanoseconds.
pub data ℤ : Type 0 where
  pos negsuc : ℕ → ℤ

abbrev pub seconds : ℕ → ℤ
seconds n = pos (n * 1_000_000_000)

abbrev pub minutes : ℕ → ℤ
minutes n = seconds (n * 60)

-- os.LookupEnv, time.ParseDuration, strconv.Atoi and strconv.ParseBool; `visit` is how a loop over a
-- map orders its entries.
pub record Platform : Type 0 where
  pub lookup_env : Text → Option Text
  pub parse_duration : Text → Option ℤ
  pub parse_int : Text → Option ℤ
  pub parse_bool : Text → Option Bool
  pub visit : List (Text × Text) → List (Text × Text)

pub record Config : Type 0 where
  pub env : Text
  pub http_port : Text
  pub http_read_timeout : ℤ
  pub http_write_timeout : ℤ
  pub http_idle_timeout : ℤ
  pub http_shutdown_timeout : ℤ
  pub database_url : Text
  pub database_connect_timeout : ℤ
  pub redis_addr : Text
  pub redis_connect_timeout : ℤ
  pub log_level : Text
  pub jwt_private_key : Text
  pub access_token_ttl : ℤ
  pub refresh_token_ttl : ℤ
  pub cookie_domain : Text
  pub cookie_secure : Bool
  pub media_service_url : Text
  pub apiary_service_url : Text
  pub hive_service_url : Text
  pub inspection_service_url : Text
  pub harvest_service_url : Text
  pub notification_service_url : Text
  pub subscription_service_url : Text
  pub internal_service_token : Text
  pub deletion_worker_interval : ℤ
  pub totp_encryption_key : Text
  pub totp_issuer : Text
  pub totp_setup_token_ttl : ℤ
  pub login_challenge_ttl : ℤ
  pub password_reset_flow_ttl : ℤ
  pub password_reset_token_ttl : ℤ
  pub totp_max_failed_attempts : ℤ
  pub totp_lockout_duration : ℤ
  pub password_reset_flow_max_otp_attempts : ℤ

-- `fmt.Errorf("config: %s is required", name)`, or the configuration.
pub data Loaded : Type 0 where
  missing : Text → Loaded
  loaded : Config → Loaded

-- What is set to a text that is not empty.
abbrev pub non_empty : Option Text → Option Text
non_empty none = none
non_empty (some []) = none
non_empty (some (c ∷ v)) = some (c ∷ v)

abbrev pub or_else : {A : Type 0} → Option A → A → A
or_else none fallback = fallback
or_else (some a) fallback = a

abbrev pub parsed : {A : Type 0} → (Text → Option A) → Option Text → A → A
parsed parse none fallback = fallback
parsed parse (some v) fallback = or_else (parse v) fallback

-- `if value == "" { return nil, … }` before the rest.
abbrev pub require : Text → Text → Loaded → Loaded
require name value rest = if is_empty value then missing name else rest

abbrev pub require_all : List (Text × Text) → Loaded → Loaded
require_all [] rest = rest
require_all ((name, value) ∷ entries) rest = require name value (require_all entries rest)

-- The map that the loop visits.
abbrev pub loop_entries : Config → List (Text × Text)
loop_entries cfg =
    (codes "HIVE_SERVICE_URL", cfg.hive_service_url)
    ∷ (codes "INSPECTION_SERVICE_URL", cfg.inspection_service_url)
    ∷ (codes "HARVEST_SERVICE_URL", cfg.harvest_service_url)
    ∷ (codes "NOTIFICATION_SERVICE_URL", cfg.notification_service_url)
    ∷ (codes "SUBSCRIPTION_SERVICE_URL", cfg.subscription_service_url)
    ∷ (codes "INTERNAL_SERVICE_TOKEN", cfg.internal_service_token)
    ∷ []

module _ (p : Platform) where
  abbrev pub get_env : Text → Text → Text
  get_env key fallback = or_else (non_empty (p.lookup_env key)) fallback

  abbrev pub get_duration : Text → ℤ → ℤ
  get_duration key fallback = parsed p.parse_duration (non_empty (p.lookup_env key)) fallback

  abbrev pub get_int : Text → ℤ → ℤ
  get_int key fallback = parsed p.parse_int (non_empty (p.lookup_env key)) fallback

  abbrev pub get_bool : Text → Bool → Bool
  get_bool key fallback = parsed p.parse_bool (non_empty (p.lookup_env key)) fallback

  -- The literal of `cfg`.
  unfoldable pub read : Unit {0} → Config
  read _ =
      let env = get_env (codes "APP_ENV") (codes "development") in
      record {
        env = env;
        http_port = get_env (codes "HTTP_PORT") (codes "8080");
        http_read_timeout = get_duration (codes "HTTP_READ_TIMEOUT") (seconds 5);
        http_write_timeout = get_duration (codes "HTTP_WRITE_TIMEOUT") (seconds 10);
        http_idle_timeout = get_duration (codes "HTTP_IDLE_TIMEOUT") (seconds 60);
        http_shutdown_timeout = get_duration (codes "HTTP_SHUTDOWN_TIMEOUT") (seconds 15);
        database_url = get_env (codes "DATABASE_URL") [];
        database_connect_timeout = get_duration (codes "DATABASE_CONNECT_TIMEOUT") (seconds 5);
        redis_addr = get_env (codes "REDIS_ADDR") [];
        redis_connect_timeout = get_duration (codes "REDIS_CONNECT_TIMEOUT") (seconds 5);
        log_level = get_env (codes "LOG_LEVEL") (codes "info");
        jwt_private_key = get_env (codes "JWT_PRIVATE_KEY") [];
        access_token_ttl = get_duration (codes "ACCESS_TOKEN_TTL") (minutes 15);
        refresh_token_ttl = get_duration (codes "REFRESH_TOKEN_TTL") (minutes (720 * 60));
        cookie_domain = get_env (codes "COOKIE_DOMAIN") [];
        cookie_secure = get_bool (codes "COOKIE_SECURE") (not (text_eq env (codes "development")));
        media_service_url = get_env (codes "MEDIA_SERVICE_URL") [];
        apiary_service_url = get_env (codes "APIARY_SERVICE_URL") [];
        hive_service_url = get_env (codes "HIVE_SERVICE_URL") [];
        inspection_service_url = get_env (codes "INSPECTION_SERVICE_URL") [];
        harvest_service_url = get_env (codes "HARVEST_SERVICE_URL") [];
        notification_service_url = get_env (codes "NOTIFICATION_SERVICE_URL") [];
        subscription_service_url = get_env (codes "SUBSCRIPTION_SERVICE_URL") [];
        internal_service_token = get_env (codes "INTERNAL_SERVICE_TOKEN") [];
        deletion_worker_interval = get_duration (codes "DELETION_WORKER_INTERVAL") (seconds 5);
        totp_encryption_key = get_env (codes "TOTP_ENCRYPTION_KEY") [];
        totp_issuer = get_env (codes "TOTP_ISSUER") (codes "BeeBase");
        totp_setup_token_ttl = get_duration (codes "TOTP_SETUP_TOKEN_TTL") (minutes 15);
        login_challenge_ttl = get_duration (codes "LOGIN_CHALLENGE_TTL") (minutes 5);
        password_reset_flow_ttl = get_duration (codes "PASSWORD_RESET_FLOW_TTL") (minutes 10);
        password_reset_token_ttl = get_duration (codes "PASSWORD_RESET_TOKEN_TTL") (minutes 10);
        totp_max_failed_attempts = get_int (codes "TOTP_MAX_FAILED_ATTEMPTS") (pos 5);
        totp_lockout_duration = get_duration (codes "TOTP_LOCKOUT_DURATION") (minutes 15);
        password_reset_flow_max_otp_attempts =
            get_int (codes "PASSWORD_RESET_FLOW_MAX_OTP_ATTEMPTS") (pos 5);
      }

  unfoldable pub check : Config → Loaded
  check cfg = require (codes "DATABASE_URL") cfg.database_url (
      require (codes "REDIS_ADDR") cfg.redis_addr (
        require (codes "JWT_PRIVATE_KEY") cfg.jwt_private_key (
          require (codes "MEDIA_SERVICE_URL") cfg.media_service_url (
            require (codes "APIARY_SERVICE_URL") cfg.apiary_service_url (
              require_all (p.visit (loop_entries cfg))
                (require (codes "TOTP_ENCRYPTION_KEY") cfg.totp_encryption_key (loaded cfg)))))))

  unfoldable pub load : Unit {0} → Loaded
  load _ = check (read tt)
