-- ===== src/Auth/Ports.antt =====
-- internal/application/auth/ports.go, dto.go and the Service of service.go: what a service is
-- configured with and depends on. What stands behind a port is a parameter; a function of an event
-- number may answer otherwise at every call.
use beebase_auth_service.Prelude.{
  ℕ, ◌≡◌, ◌≢◌, Bool, Option, none, some, List, Text, map, trim_space,
}
use beebase_auth_service.World.{Result, ok, Env}
use beebase_auth_service.Platform.Totp.{HotpValidate}
use beebase_auth_service.Platform.Totpsecret.{Aead}
use beebase_auth_service.Platform.Tokenhash

pub record SecurityConfig : Type 0 where
  pub refresh_ttl : ℕ
  pub setup_token_ttl : ℕ
  pub login_challenge_ttl : ℕ
  pub password_reset_flow_ttl : ℕ
  pub password_reset_token_ttl : ℕ
  pub otp_max_attempts : ℕ
  pub otp_lockout_duration : ℕ
  pub reset_flow_max_otp_attempts : ℕ
  pub totp_issuer : Text

-- What `deletion` holds: nothing, a DeletionRequester, or one that is a SessionCleanupRequester
-- too. The requester is the postgres DeletionStore.
pub data DeletionPort : Type 0 where
  absent request_only request_and_cleanup : DeletionPort

pub record Service : Type 1 where
  pub env : Env
  pub security : SecurityConfig
  pub deletion : DeletionPort
  -- crypto/sha256, unicode.ToLower, pquerna/otp and AES-256-GCM.
  pub sha256 : List ℕ → List ℕ
  pub to_lower : ℕ → ℕ
  pub hotp : HotpValidate
  pub generate_totp : ℕ → Text → Text → Result (Text × Text)
  pub aead : Aead
  -- PasswordHasher: the arguments of `verify_password` are the hash and the password.
  pub hash_password : ℕ → Text → Result Text
  pub verify_password : Text → Text → Bool
  -- AccessTokenIssuer, and GenerationAccessTokenIssuer if the issuer is one.
  pub issue : ℕ → ℕ → ℕ → Result (Text × ℕ)
  pub issue_with_generation : Option (ℕ → ℕ → ℕ → ℕ → Result (Text × ℕ))
  -- SessionActivator.
  pub Sessions : Type 0
  pub activate : ℕ → Sessions → ℕ → ℕ → ℕ → Result (Option ℕ × ℕ) × Sessions
  pub deactivate : ℕ → Sessions → ℕ → Result (Unit {0}) × Sessions
  pub deactivate_if_current : ℕ → Sessions → ℕ → ℕ → Result Bool × Sessions
  pub deactivate_and_return_previous : ℕ → Sessions → ℕ → Result (Option ℕ) × Sessions
  -- MediaClient and ApiaryCascadeDeleter.
  pub verify_ownership : ℕ → Text → List ℕ → Result (Unit {0})
  pub delete_media_by_ids : ℕ → Text → List ℕ → Result (Unit {0})
  pub delete_all_media : ℕ → Text → Result (Unit {0})
  pub delete_all_apiaries : ℕ → Text → Result (Unit {0})

-- What the comments on SessionActivator promise of its operations that end well, in terms of the
-- session that is active for a user.
pub record SessionLaws (s : Service) : Type 0 where
  pub active : s.Sessions → ℕ → Option ℕ
  pub active-activate :
      (n : ℕ) (x : s.Sessions) (user session ttl : ℕ) (r : Option ℕ × ℕ)
      → (s.activate n x user session ttl).0 ≡ ok r
      → active (s.activate n x user session ttl).1 user ≡ some session
  pub active-deactivate :
      (n : ℕ) (x : s.Sessions) (user : ℕ) (r : Unit {0})
      → (s.deactivate n x user).0 ≡ ok r
      → active (s.deactivate n x user).1 user ≡ none
  pub active-deactivate_if_current :
      (n : ℕ) (x : s.Sessions) (user session : ℕ) (r : Bool)
      → (s.deactivate_if_current n x user session).0 ≡ ok r
      → active (s.deactivate_if_current n x user session).1 user ≢ some session
  pub active-deactivate_and_return_previous :
      (n : ℕ) (x : s.Sessions) (user : ℕ) (r : Option ℕ)
      → (s.deactivate_and_return_previous n x user).0 ≡ ok r
      → active (s.deactivate_and_return_previous n x user).1 user ≡ none

pub record RegisterInput : Type 0 where
  pub email : Text
  pub password : Text

pub record LoginInput : Type 0 where
  pub email : Text
  pub password : Text

pub record Session : Type 0 where
  pub user_id : ℕ
  pub email : Text
  pub created_at : ℕ
  pub access_token : Text
  pub access_token_expires_at : ℕ
  pub refresh_token : Text
  pub refresh_token_expires_at : ℕ

-- A nil MediaID removes the avatar.
pub record AvatarChange : Type 0 where
  pub media_id : Option ℕ

pub record UpdateProfileInput : Type 0 where
  pub first_name : Text
  pub last_name : Text
  pub avatar : Option AvatarChange

pub record RegisterResult : Type 0 where
  pub user_id : ℕ
  pub setup_token : Text
  pub otpauth_uri : Text
  pub secret : Text
  pub expires_at : ℕ

pub data LoginStatus : Type 0 where
  otp_required totp_setup_required : LoginStatus

pub record LoginResult : Type 0 where
  pub status : LoginStatus
  pub challenge_token : Text
  pub setup_token : Text
  pub otpauth_uri : Text
  pub secret : Text
  pub expires_at : ℕ

pub record ChangePasswordInput : Type 0 where
  pub current_password : Text
  pub new_password : Text
  pub otp : Text

pub record PasswordResetRequestResult : Type 0 where
  pub flow_token : Text
  pub expires_at : ℕ

pub record PasswordResetOtpResult : Type 0 where
  pub reset_token : Text
  pub expires_at : ℕ

module _ (s : Service) where
  -- `tokenhash.Hash`.
  abbrev pub hash_token : Text → Text
  hash_token raw = Tokenhash.hash s.sha256 raw

  -- `normalizeEmail`.
  unfoldable pub normalize_email : Text → Text
  normalize_email email = map s.to_lower (trim_space email)
