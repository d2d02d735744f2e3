-- ===== src/Auth/Reset.antt =====
-- internal/application/auth/service_password_reset.go.
pub mod Confirm
pub mod Code
use beebase_auth_service.Prelude.{
  ℕ, Bool, true, false, ◌||◌, ◌&&◌, not, Option, none, some, Text, if◌then◌else◌,
}
use beebase_auth_service.Errors.{
  user_not_found, credential_not_found, flow_not_found, password_reset_flow_invalid,
  password_reset_token_invalid, otp_invalid, otp_locked, sentinel,
}
use beebase_auth_service.World.{
  App, ◌>>=◌, ◌>>◌, pure, raise, wrapping, replacing, optional, ask, on_sessions, now_utc, new_uuid,
}
use beebase_auth_service.Domain.User.{User}
use beebase_auth_service.Domain.Totp.{Credential, is_enabled, is_code_consumed, mark_code_used}
use beebase_auth_service.Domain.PasswordReset
use beebase_auth_service.Domain.PasswordReset.{
  PasswordResetFlow, is_expired, is_consumed, is_otp_verified, is_otp_locked, record_otp_failure,
  mark_otp_verified, issue_reset_token, is_reset_token_valid, consume,
}
use beebase_auth_service.Repository.Users
use beebase_auth_service.Repository.RefreshTokens
use beebase_auth_service.Repository.Credentials
use beebase_auth_service.Repository.PasswordResetFlows
use beebase_auth_service.Platform.Tokenhash
use beebase_auth_service.Auth.Ports.{
  Service, PasswordResetRequestResult, PasswordResetOtpResult, hash_token, normalize_email,
}
use beebase_auth_service.Auth.Session.{start_cleanup_of}
use beebase_auth_service.Auth.Setup.{deref}
use beebase_auth_service.Auth.Otp.{Validation, validate_otp}
use beebase_auth_service.Auth.Login.{enabled}

module _ (s : Service) where
  unfoldable pub eligible_if_found : Option User → App s.Sessions (Option ℕ)
  eligible_if_found none = pure none
  eligible_if_found (some u) = do
    cred ← optional credential_not_found (Credentials.get_by_user_id s.env u.id)
    pure (if enabled cred then some u.id else none)

  -- The user that the flow is for: none of an unknown email, or with no enabled credential.
  unfoldable pub eligible_user : Text → App s.Sessions (Option ℕ)
  eligible_user email = do
    found ← optional user_not_found (Users.get_by_email s.env (normalize_email s email))
    eligible_if_found found

  unfoldable pub open_flow : Option ℕ → App s.Sessions PasswordResetRequestResult
  open_flow user_id = do
    raw_flow_token ← wrapping "auth: generate password reset flow token" (Tokenhash.generate s.env)
    now ← now_utc s.env
    id ← new_uuid s.env
    let flow =
        PasswordReset.new id now user_id (hash_token s raw_flow_token)
          s.security.password_reset_flow_ttl
    wrapping "auth: store password reset flow" (PasswordResetFlows.create s.env flow)
    pure (record { flow_token = raw_flow_token; expires_at = flow.expires_at })

  unfoldable pub request_password_reset : Text → App s.Sessions PasswordResetRequestResult
  request_password_reset email = do user_id ← eligible_user email; open_flow user_id

  -- The code is right and unused; a demo code leaves no trace.
  unfoldable pub use_code : Credential → Validation → App s.Sessions Bool
  use_code cred v =
      if v.is_ok && (v.is_demo_code || not (is_code_consumed cred v.counter))
      then (if v.is_demo_code then pure true else (do
        now ← now_utc s.env
        wrapping "auth: persist totp anti-replay state"
            (Credentials.update s.env (mark_code_used now cred v.counter))
        pure true))
      else pure false

  unfoldable pub check_against : ℕ → Text → Option Credential → App s.Sessions Bool
  check_against user_id code none = pure false
  check_against user_id code (some cred) =
      if is_enabled cred
      then (do
        u ← Users.get_by_id s.env user_id
        v ← validate_otp s u.email cred code
        use_code cred v)
      else pure false

  -- `valid`, of the flow's user.
  unfoldable pub check_code : Option ℕ → Text → App s.Sessions Bool
  check_code none code = pure false
  check_code (some user_id) code = do
    found ← optional credential_not_found (Credentials.get_by_user_id s.env user_id)
    check_against user_id code found

  unfoldable pub fail_flow : PasswordResetFlow → App s.Sessions PasswordResetOtpResult
  fail_flow flow = do
    let failure = record_otp_failure flow s.security.reset_flow_max_otp_attempts
    wrapping "auth: persist password reset otp failure" (PasswordResetFlows.update s.env failure.0)
    raise (sentinel (if failure.1 then otp_locked else otp_invalid))

  unfoldable pub pass_flow : PasswordResetFlow → App s.Sessions PasswordResetOtpResult
  pass_flow flow = do
    raw_reset_token ← wrapping "auth: generate password reset token" (Tokenhash.generate s.env)
    verified_now ← now_utc s.env
    issued_now ← now_utc s.env
    let flow' =
        issue_reset_token issued_now (mark_otp_verified verified_now flow)
          (hash_token s raw_reset_token) s.security.password_reset_token_ttl
    wrapping "auth: persist password reset otp success" (PasswordResetFlows.update s.env flow')
    pure (record { reset_token = raw_reset_token; expires_at = deref flow'.reset_token_expires_at })

  unfoldable pub verify_password_reset_otp : Text → Text → App s.Sessions PasswordResetOtpResult
  verify_password_reset_otp flow_token code = do
    flow ←
        replacing flow_not_found (sentinel password_reset_flow_invalid)
          (PasswordResetFlows.get_by_flow_token_hash s.env (hash_token s flow_token))
    now ← now_utc s.env
    if is_expired now flow || is_consumed flow || is_otp_verified flow
        then raise (sentinel password_reset_flow_invalid)
        else if is_otp_locked flow s.security.reset_flow_max_otp_attempts
        then raise (sentinel otp_locked)
        else (do
          valid ← check_code flow.user_id code
          if valid then pass_flow flow else fail_flow flow)

  -- ConfirmPasswordReset once the flow has been found ready, for its user.
  unfoldable pub reset_password : PasswordResetFlow → ℕ → Text → App s.Sessions (Unit {0})
  reset_password flow user_id new_password = do
    new_hash ← wrapping "auth: hash new password" (ask λ n. s.hash_password n new_password)
    Users.update_password s.env user_id new_hash
    now ← now_utc s.env
    wrapping "auth: consume password reset flow"
        (PasswordResetFlows.update s.env (consume now flow))
    wrapping "auth: revoke sessions after password reset"
        (RefreshTokens.revoke_all_for_user s.env user_id)
    previous ←
        wrapping "auth: deactivate session after password reset"
          (on_sessions λ n x. s.deactivate_and_return_previous n x user_id)
    start_cleanup_of s.deletion user_id previous

  unfoldable pub reset_for : PasswordResetFlow → Text → Option ℕ → App s.Sessions (Unit {0})
  reset_for flow new_password none = raise (sentinel password_reset_token_invalid)
  reset_for flow new_password (some user_id) = reset_password flow user_id new_password

  -- Two readings of the clock: of the flow's window and of the reset token's.
  abbrev pub is_ready : ℕ → ℕ → PasswordResetFlow → Bool
  is_ready now token_now flow =
      not (is_expired now flow)
      && not (is_consumed flow)
      && is_otp_verified flow
      && is_reset_token_valid token_now flow

  unfoldable pub confirm_password_reset : Text → Text → App s.Sessions (Unit {0})
  confirm_password_reset reset_token new_password = do
    flow ←
        replacing flow_not_found (sentinel password_reset_token_invalid)
          (PasswordResetFlows.get_by_reset_token_hash s.env (hash_token s reset_token))
    now ← now_utc s.env
    token_now ← now_utc s.env
    if is_ready now token_now flow
        then reset_for flow new_password flow.user_id
        else raise (sentinel password_reset_token_invalid)
