-- ===== src/Auth/Verify.antt =====
-- SetupVerifyOTP, LoginVerifyOTP and ChangePassword of
-- internal/application/auth/service_totp.go.
pub mod SingleUse
use beebase_auth_service.Prelude.{ℕ, ◌||◌, Text, if◌then◌else◌}
use beebase_auth_service.Errors.{
  credential_not_found, challenge_not_found, setup_token_invalid, challenge_invalid,
  invalid_credentials, current_password_invalid, otp_invalid, sentinel,
}
use beebase_auth_service.World.{
  App, ◌>>=◌, ◌>>◌, pure, raise, wrapping, replacing, ask, on_sessions, now_utc,
}
use beebase_auth_service.Domain.User.{User, is_pending}
use beebase_auth_service.Domain.Totp.{Credential, is_setup_token_expired, enable}
use beebase_auth_service.Domain.LoginChallenge.{LoginChallenge, is_expired, is_consumed}
use beebase_auth_service.Repository.Users
use beebase_auth_service.Repository.RefreshTokens
use beebase_auth_service.Repository.Credentials
use beebase_auth_service.Repository.LoginChallenges
use beebase_auth_service.Auth.Ports.{Service, Session, ChangePasswordInput, hash_token}
use beebase_auth_service.Auth.Session.{issue_session, start_cleanup_of}
use beebase_auth_service.Auth.Otp.{verify_otp}

module _ (s : Service) where
  -- The credential is only enabled once the session has been issued.
  unfoldable pub finish_setup : User → Credential → App s.Sessions Session
  finish_setup u cred = do
    session ← issue_session s u
    now ← now_utc s.env
    wrapping "auth: enable totp credential" (Credentials.update s.env (enable now cred))
    pure session

  unfoldable pub setup_verify_otp : Text → Text → App s.Sessions Session
  setup_verify_otp setup_token code = do
    cred ←
        replacing credential_not_found (sentinel setup_token_invalid)
          (Credentials.get_by_setup_token_hash s.env (hash_token s setup_token))
    now ← now_utc s.env
    if is_setup_token_expired now cred then raise (sentinel setup_token_invalid) else (do
      u ← Users.get_by_id s.env cred.user_id
      verified ← verify_otp s u.email cred code
      if is_pending u.deletion_status
          then raise (sentinel invalid_credentials)
          else finish_setup u verified)

  -- LoginVerifyOTP once the challenge has been found open.
  unfoldable pub answer_challenge : LoginChallenge → Text → App s.Sessions Session
  answer_challenge challenge code = do
    cred ←
        replacing credential_not_found (sentinel challenge_invalid)
          (Credentials.get_by_user_id s.env challenge.user_id)
    u ← Users.get_by_id s.env challenge.user_id
    verified ← verify_otp s u.email cred code
    if is_pending u.deletion_status then raise (sentinel challenge_invalid) else (do
      session ← issue_session s u
      wrapping "auth: consume login challenge" (LoginChallenges.consume s.env challenge.id)
      pure session)

  unfoldable pub login_verify_otp : Text → Text → App s.Sessions Session
  login_verify_otp challenge_token code = do
    challenge ←
        replacing challenge_not_found (sentinel challenge_invalid)
          (LoginChallenges.get_by_hash s.env (hash_token s challenge_token))
    now ← now_utc s.env
    if is_expired now challenge || is_consumed challenge
        then raise (sentinel challenge_invalid)
        else answer_challenge challenge code

  -- ChangePassword once both checks have passed.
  unfoldable pub replace_password : ℕ → Text → App s.Sessions (Unit {0})
  replace_password user_id new_password = do
    new_hash ← wrapping "auth: hash new password" (ask λ n. s.hash_password n new_password)
    Users.update_password s.env user_id new_hash
    wrapping "auth: revoke sessions after password change"
        (RefreshTokens.revoke_all_for_user s.env user_id)
    previous ←
        wrapping "auth: deactivate session after password change"
          (on_sessions λ n x. s.deactivate_and_return_previous n x user_id)
    start_cleanup_of s.deletion user_id previous

  unfoldable pub change_password : ℕ → ChangePasswordInput → App s.Sessions (Unit {0})
  change_password user_id input = do
    u ← Users.get_by_id s.env user_id
    if s.verify_password u.password_hash input.current_password
        then (do
          cred ←
              replacing credential_not_found (sentinel otp_invalid)
                (Credentials.get_by_user_id s.env user_id)
          verified ← verify_otp s u.email cred input.otp
          replace_password user_id input.new_password)
        else raise (sentinel current_password_invalid)
