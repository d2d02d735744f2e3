-- ===== src/Auth/Login.antt =====
-- Login and CurrentUser of internal/application/auth/service.go.
pub mod Refusal
use beebase_auth_service.Prelude.{ℕ, Bool, false, Option, none, some, [], if◌then◌else◌}
use beebase_auth_service.Errors.{
  user_not_found, credential_not_found, invalid_credentials, sentinel,
}
use beebase_auth_service.World.{App, ◌>>=◌, pure, raise, replacing, optional}
use beebase_auth_service.Domain.User.{User, is_pending}
use beebase_auth_service.Domain.Totp.{Credential, is_enabled}
use beebase_auth_service.Repository.Users
use beebase_auth_service.Repository.Credentials
use beebase_auth_service.Auth.Ports.{
  Service, LoginInput, LoginResult, RegisterResult, totp_setup_required, normalize_email,
}
use beebase_auth_service.Auth.Setup.{begin_totp_setup, issue_login_challenge}

abbrev pub enabled : Option Credential → Bool
enabled none = false
enabled (some cred) = is_enabled cred

abbrev pub setup_result : RegisterResult → LoginResult
setup_result setup = record {
  status = totp_setup_required;
  challenge_token = [];
  setup_token = setup.setup_token;
  otpauth_uri = setup.otpauth_uri;
  secret = setup.secret;
  expires_at = setup.expires_at;
}

module _ (s : Service) where
  -- Login up to the point where the password has been checked.
  unfoldable pub check_credentials : LoginInput → App s.Sessions User
  check_credentials input = do
    u ←
        replacing user_not_found (sentinel invalid_credentials)
          (Users.get_by_email s.env (normalize_email s input.email))
    if s.verify_password u.password_hash input.password
        then (if is_pending u.deletion_status then raise (sentinel invalid_credentials) else pure u)
        else raise (sentinel invalid_credentials)

  -- What follows.
  unfoldable pub begin_second_factor : User → App s.Sessions LoginResult
  begin_second_factor u = do
    cred ← optional credential_not_found (Credentials.get_by_user_id s.env u.id)
    if enabled cred
        then issue_login_challenge s u
        else (do setup ← begin_totp_setup s u; pure (setup_result setup))

  unfoldable pub login : LoginInput → App s.Sessions LoginResult
  login input = do u ← check_credentials input; begin_second_factor u

  unfoldable pub current_user : ℕ → App s.Sessions User
  current_user user_id = Users.get_by_id s.env user_id
