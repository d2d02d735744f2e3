-- ===== src/Auth/Untouched.antt =====
-- The operations of Service that leave the users, the refresh tokens and the jobs as they are.
use beebase_auth_service.Prelude.{ℕ, Option, none, some, List, Text}
use beebase_auth_service.World.{JobRow}
use beebase_auth_service.World.Keeps.{Keeps}
use beebase_auth_service.Domain.User.{User}
use beebase_auth_service.Domain.Token.{RefreshToken}
use beebase_auth_service.Domain.Totp.{Credential}
use beebase_auth_service.Repository.Untouched.{HasTables, untouched_rules}
use beebase_auth_service.Platform.Tokenhash
use beebase_auth_service.Platform.Totpsecret
use beebase_auth_service.Auth.Ports.{Service, LoginInput}
use beebase_auth_service.Auth.Otp.{Validation, verify_otp, accept_otp, reject_otp, validate_otp}
use beebase_auth_service.Auth.Setup.{
  begin_totp_setup, store_setup, write_setup, issue_login_challenge,
}
use beebase_auth_service.Auth.Login.{check_credentials, begin_second_factor, login, current_user}
use beebase_auth_service.Domain.PasswordReset.{PasswordResetFlow}
use beebase_auth_service.Auth.Reset

module _ (s : Service) (users : List User) (tokens : List RefreshToken) (jobs : List JobRow) where
  pub generate-Keeps :
      Keeps {S = s.Sessions} (HasTables users tokens jobs) (Tokenhash.generate s.env)
  unfolding Tokenhash.generate
  generate-Keeps = search untouched_rules

  encrypt-Keeps :
      (secret : Text)
      → Keeps {S = s.Sessions}
          (HasTables users tokens jobs)
          (Totpsecret.encrypt s.env s.aead secret)
  unfolding Totpsecret.encrypt
  encrypt-Keeps secret = search untouched_rules

  accept_otp-Keeps :
      (cred : Credential) (counter : ℕ)
      → Keeps (HasTables users tokens jobs) (accept_otp s cred counter)
  unfolding accept_otp
  accept_otp-Keeps cred counter = search untouched_rules

  reject_otp-Keeps : (cred : Credential) → Keeps (HasTables users tokens jobs) (reject_otp s cred)
  unfolding reject_otp
  reject_otp-Keeps cred = search untouched_rules

  pub verify_otp-Keeps :
      (email : Text) (cred : Credential) (code : Text)
      → Keeps (HasTables users tokens jobs) (verify_otp s email cred code)
  unfolding verify_otp validate_otp
  verify_otp-Keeps email cred code = search (untouched_rules, accept_otp-Keeps, reject_otp-Keeps)

  write_setup-Keeps :
      (now user_id : ℕ) (secret hash : Text) (old : Option Credential)
      → Keeps (HasTables users tokens jobs) (write_setup s now user_id secret hash old)
  unfolding write_setup
  write_setup-Keeps now user_id secret hash none = search untouched_rules
  write_setup-Keeps now user_id secret hash (some old) = search untouched_rules

  pub begin_totp_setup-Keeps :
      (u : User) → Keeps (HasTables users tokens jobs) (begin_totp_setup s u)
  unfolding begin_totp_setup store_setup
  begin_totp_setup-Keeps u =
      search (untouched_rules, generate-Keeps, encrypt-Keeps, write_setup-Keeps) depth 12

  issue_login_challenge-Keeps :
      (u : User) → Keeps (HasTables users tokens jobs) (issue_login_challenge s u)
  unfolding issue_login_challenge
  issue_login_challenge-Keeps u = search (untouched_rules, generate-Keeps) depth 12

  pub login-Keeps : (input : LoginInput) → Keeps (HasTables users tokens jobs) (login s input)
  unfolding login check_credentials begin_second_factor
  login-Keeps input = search (untouched_rules, begin_totp_setup-Keeps, issue_login_challenge-Keeps)

  pub current_user-Keeps : (id : ℕ) → Keeps (HasTables users tokens jobs) (current_user s id)
  unfolding current_user
  current_user-Keeps id = search untouched_rules

  eligible_if_found-Keeps :
      (found : Option User) → Keeps (HasTables users tokens jobs) (Reset.eligible_if_found s found)
  unfolding Reset.eligible_if_found
  eligible_if_found-Keeps none = search untouched_rules
  eligible_if_found-Keeps (some u) = search untouched_rules

  pub request_password_reset-Keeps :
      (email : Text) → Keeps (HasTables users tokens jobs) (Reset.request_password_reset s email)
  unfolding Reset.request_password_reset Reset.eligible_user Reset.open_flow
  request_password_reset-Keeps email =
      search (untouched_rules, generate-Keeps, eligible_if_found-Keeps) depth 12

  use_code-Keeps :
      (cred : Credential) (v : Validation)
      → Keeps (HasTables users tokens jobs) (Reset.use_code s cred v)
  unfolding Reset.use_code
  use_code-Keeps cred v = search untouched_rules depth 9

  check_against-Keeps :
      (user_id : ℕ) (code : Text) (found : Option Credential)
      → Keeps (HasTables users tokens jobs) (Reset.check_against s user_id code found)
  unfolding Reset.check_against validate_otp
  check_against-Keeps user_id code none = search untouched_rules
  check_against-Keeps user_id code (some cred) = search (untouched_rules, use_code-Keeps) depth 12

  check_code-Keeps :
      (user_id : Option ℕ) (code : Text)
      → Keeps (HasTables users tokens jobs) (Reset.check_code s user_id code)
  unfolding Reset.check_code
  check_code-Keeps none code = search untouched_rules
  check_code-Keeps (some user_id) code = search (untouched_rules, check_against-Keeps)

  fail_flow-Keeps :
      (flow : PasswordResetFlow) → Keeps (HasTables users tokens jobs) (Reset.fail_flow s flow)
  unfolding Reset.fail_flow
  fail_flow-Keeps flow = search untouched_rules

  pass_flow-Keeps :
      (flow : PasswordResetFlow) → Keeps (HasTables users tokens jobs) (Reset.pass_flow s flow)
  unfolding Reset.pass_flow
  pass_flow-Keeps flow = search (untouched_rules, generate-Keeps) depth 12

  pub verify_password_reset_otp-Keeps :
      (flow_token code : Text)
      → Keeps (HasTables users tokens jobs) (Reset.verify_password_reset_otp s flow_token code)
  unfolding Reset.verify_password_reset_otp
  verify_password_reset_otp-Keeps flow_token code =
      search (untouched_rules, check_code-Keeps, fail_flow-Keeps, pass_flow-Keeps) depth 12
