-- ===== src/Lifecycle/Doomed/Operations.antt =====
-- The operations of Service that open and end sessions bring no account back that is being deleted.
use beebase_auth_service.Prelude.{ℕ, Option, none, some, Text}
use beebase_auth_service.World.Keeps.{Keeps, keeps_rules}
use beebase_auth_service.Domain.User.{User}
use beebase_auth_service.Domain.Token
use beebase_auth_service.Domain.Token.{RefreshToken}
use beebase_auth_service.Domain.Totp.{Credential}
use beebase_auth_service.Domain.LoginChallenge.{LoginChallenge}
use beebase_auth_service.Domain.PasswordReset.{PasswordResetFlow}
use beebase_auth_service.Repository.Untouched.{
  get_by_id-Keeps, get_token-Keeps, get_credential-Keeps, get_by_setup_hash-Keeps,
  get_challenge-Keeps, get_by_reset_hash-Keeps, update_credential-Keeps, consume-Keeps,
  update_flow-Keeps, Keeps-tables,
}
use beebase_auth_service.Repository.Users
use beebase_auth_service.Repository.RefreshTokens
use beebase_auth_service.Repository.Credentials
use beebase_auth_service.Repository.LoginChallenges
use beebase_auth_service.Repository.PasswordResetFlows
use beebase_auth_service.Platform.Tokenhash
use beebase_auth_service.Auth.Ports.{Service}
use beebase_auth_service.Auth.Otp.{verify_otp}
use beebase_auth_service.Auth.Session.{
  issue_session, rotate, refresh, end_session, end_if_found, logout,
}
use beebase_auth_service.Auth.Verify
use beebase_auth_service.Auth.Untouched.{verify_otp-Keeps, generate-Keeps}
use beebase_auth_service.Lifecycle.Sessions.{cleanup-Keeps, cleanup_of-Keeps}
use beebase_auth_service.Lifecycle.Doomed.{
  IsDoomed, IsDoomedIn, revoke_all-IsDoomed, revoke-IsDoomed, create_token-IsDoomed,
}

module _ (s : Service) (k : ℕ) where
  generate-IsDoomed : Keeps {S = s.Sessions} (IsDoomedIn k) (Tokenhash.generate s.env)
  generate-IsDoomed =
      Keeps-tables (IsDoomed k) _ λ users tokens jobs. generate-Keeps s users tokens jobs

  pub verify_otp-IsDoomed :
      (email : Text) (cred : Credential) (code : Text)
      → Keeps {S = s.Sessions} (IsDoomedIn k) (verify_otp s email cred code)
  verify_otp-IsDoomed email cred code =
      Keeps-tables (IsDoomed k) _
        λ users tokens jobs. verify_otp-Keeps s users tokens jobs email cred code

  pub get_by_id-IsDoomed :
      (id : ℕ) → Keeps {S = s.Sessions} (IsDoomedIn k) (Users.get_by_id s.env id)
  get_by_id-IsDoomed id =
      Keeps-tables (IsDoomed k) _ λ users tokens jobs. get_by_id-Keeps s.env users tokens jobs id

  get_token-IsDoomed :
      (hash : Text) → Keeps {S = s.Sessions} (IsDoomedIn k) (RefreshTokens.get_by_hash s.env hash)
  get_token-IsDoomed hash =
      Keeps-tables (IsDoomed k) _ λ users tokens jobs. get_token-Keeps s.env users tokens jobs hash

  pub get_credential-IsDoomed :
      (id : ℕ) → Keeps {S = s.Sessions} (IsDoomedIn k) (Credentials.get_by_user_id s.env id)
  get_credential-IsDoomed id =
      Keeps-tables (IsDoomed k) _
        λ users tokens jobs. get_credential-Keeps s.env users tokens jobs id

  get_setup-IsDoomed :
      (hash : Text)
      → Keeps {S = s.Sessions} (IsDoomedIn k) (Credentials.get_by_setup_token_hash s.env hash)
  get_setup-IsDoomed hash =
      Keeps-tables (IsDoomed k) _
        λ users tokens jobs. get_by_setup_hash-Keeps s.env users tokens jobs hash

  get_challenge-IsDoomed :
      (hash : Text) → Keeps {S = s.Sessions} (IsDoomedIn k) (LoginChallenges.get_by_hash s.env hash)
  get_challenge-IsDoomed hash =
      Keeps-tables (IsDoomed k) _
        λ users tokens jobs. get_challenge-Keeps s.env users tokens jobs hash

  pub get_flow-IsDoomed :
      (hash : Text)
      → Keeps {S = s.Sessions}
          (IsDoomedIn k)
          (PasswordResetFlows.get_by_reset_token_hash s.env hash)
  get_flow-IsDoomed hash =
      Keeps-tables (IsDoomed k) _
        λ users tokens jobs. get_by_reset_hash-Keeps s.env users tokens jobs hash

  update_credential-IsDoomed :
      (c : Credential) → Keeps {S = s.Sessions} (IsDoomedIn k) (Credentials.update s.env c)
  update_credential-IsDoomed c =
      Keeps-tables (IsDoomed k) _
        λ users tokens jobs. update_credential-Keeps s.env users tokens jobs c

  consume-IsDoomed :
      (id : ℕ) → Keeps {S = s.Sessions} (IsDoomedIn k) (LoginChallenges.consume s.env id)
  consume-IsDoomed id =
      Keeps-tables (IsDoomed k) _ λ users tokens jobs. consume-Keeps s.env users tokens jobs id

  pub update_flow-IsDoomed :
      (f : PasswordResetFlow)
      → Keeps {S = s.Sessions} (IsDoomedIn k) (PasswordResetFlows.update s.env f)
  update_flow-IsDoomed f =
      Keeps-tables (IsDoomed k) _ λ users tokens jobs. update_flow-Keeps s.env users tokens jobs f

  issue_session-IsDoomed : (u : User) → Keeps (IsDoomedIn k) (issue_session s u)
  unfolding issue_session Token.new
  issue_session-IsDoomed u =
      search
        (
          keeps_rules, generate-IsDoomed, revoke_all-IsDoomed, create_token-IsDoomed,
          cleanup_of-Keeps,
        )
        depth 40

  rotate-IsDoomed : (rt : RefreshToken) → Keeps (IsDoomedIn k) (rotate s rt)
  unfolding rotate
  rotate-IsDoomed rt =
      search
        (
          keeps_rules, get_by_id-IsDoomed, revoke_all-IsDoomed, revoke-IsDoomed,
          issue_session-IsDoomed,
        )
        depth 15

  pub refresh-IsDoomed : (raw_token : Text) → Keeps (IsDoomedIn k) (refresh s raw_token)
  unfolding refresh
  refresh-IsDoomed raw_token =
      search (keeps_rules, get_token-IsDoomed, revoke_all-IsDoomed, rotate-IsDoomed) depth 12

  end_session-IsDoomed : (rt : RefreshToken) → Keeps (IsDoomedIn k) (end_session s rt)
  unfolding end_session
  end_session-IsDoomed rt = search (keeps_rules, revoke-IsDoomed, cleanup-Keeps) depth 12

  end_if_found-IsDoomed :
      (found : Option RefreshToken) → Keeps (IsDoomedIn k) (end_if_found s found)
  unfolding end_if_found
  end_if_found-IsDoomed none = search keeps_rules
  end_if_found-IsDoomed (some rt) = search (keeps_rules, end_session-IsDoomed)

  pub logout-IsDoomed : (raw_token : Text) → Keeps (IsDoomedIn k) (logout s raw_token)
  unfolding logout
  logout-IsDoomed raw_token = search (keeps_rules, get_token-IsDoomed, end_if_found-IsDoomed)

  finish_setup-IsDoomed :
      (u : User) (cred : Credential) → Keeps (IsDoomedIn k) (Verify.finish_setup s u cred)
  unfolding Verify.finish_setup
  finish_setup-IsDoomed u cred =
      search (keeps_rules, issue_session-IsDoomed, update_credential-IsDoomed) depth 15

  pub setup_verify_otp-IsDoomed :
      (setup_token code : Text) → Keeps (IsDoomedIn k) (Verify.setup_verify_otp s setup_token code)
  unfolding Verify.setup_verify_otp
  setup_verify_otp-IsDoomed setup_token code =
      search
        (
          keeps_rules, get_setup-IsDoomed, get_by_id-IsDoomed, verify_otp-IsDoomed,
          finish_setup-IsDoomed,
        )
        depth 20

  answer_challenge-IsDoomed :
      (challenge : LoginChallenge) (code : Text)
      → Keeps (IsDoomedIn k) (Verify.answer_challenge s challenge code)
  unfolding Verify.answer_challenge
  answer_challenge-IsDoomed challenge code =
      search
        (
          keeps_rules, get_by_id-IsDoomed, get_credential-IsDoomed, verify_otp-IsDoomed,
          issue_session-IsDoomed, consume-IsDoomed,
        )
        depth 20

  pub login_verify_otp-IsDoomed :
      (challenge_token code : Text)
      → Keeps (IsDoomedIn k) (Verify.login_verify_otp s challenge_token code)
  unfolding Verify.login_verify_otp
  login_verify_otp-IsDoomed challenge_token code =
      search (keeps_rules, get_challenge-IsDoomed, answer_challenge-IsDoomed) depth 12
