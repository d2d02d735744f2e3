-- ===== src/Lifecycle/Operations.antt =====
-- Register and the two operations that open a session after a one-time code keep every state sound.
use beebase_auth_service.Prelude.{ℕ, Text}
use beebase_auth_service.World.Keeps.{
  Keeps-raise, Keeps-if, Keeps-now_utc, Keeps-replacing, Keeps, Keeps-bind, keeps_rules,
}
use beebase_auth_service.World.Leads.{
  Leads, Leads-bind, Leads-kept, Leads-if, Leads-Keeps, Leads-raise, Leads-from,
}
use beebase_auth_service.Domain.User.{User, is_pending}
use beebase_auth_service.Domain.Totp.{Credential}
use beebase_auth_service.Domain.LoginChallenge.{LoginChallenge}
use beebase_auth_service.Repository.Untouched.{
  get_challenge-Keeps, get_credential-Keeps, update_credential-Keeps, consume-Keeps,
  get_by_setup_hash-Keeps, Keeps-tables,
}
use beebase_auth_service.Repository.Credentials
use beebase_auth_service.Repository.LoginChallenges
use beebase_auth_service.Auth.Ports.{Service, RegisterInput}
use beebase_auth_service.Auth.Otp.{verify_otp}
use beebase_auth_service.Auth.Setup
use beebase_auth_service.Auth.Verify
use beebase_auth_service.Lifecycle.{IsSound, IsSoundIn}
use beebase_auth_service.Lifecycle.Statements.{
  IsFetched, IsReadyIn, IsFetchedIn, IsFetched-IsReady, get_by_id-IsFetched, create_user-IsSound,
}
use beebase_auth_service.Auth.Untouched.{verify_otp-Keeps, begin_totp_setup-Keeps}
use beebase_auth_service.Lifecycle.Sessions.{issue_session-Leads}

module _ (s : Service) (k : ℕ) where
  setup-Keeps : (u : User) → Keeps (IsSoundIn k) (Setup.begin_totp_setup s u)
  setup-Keeps u =
      Keeps-tables (IsSound k) _ λ users tokens jobs. begin_totp_setup-Keeps s users tokens jobs u

  pub register-Keeps : (input : RegisterInput) → Keeps (IsSoundIn k) (Setup.register s input)
  unfolding Setup.register
  register-Keeps input = search (keeps_rules, create_user-IsSound, setup-Keeps) depth 12

  -- The credential's row, and what verifyOTP does, leave a user that has been read as it is.
  verified-Leads :
      (u : User) (cred : Credential) (code : Text)
      → Leads
          (IsFetchedIn k u)
          (λ _. IsFetchedIn k u)
          (IsSoundIn k)
          (verify_otp s u.email cred code)
  verified-Leads u cred code =
      Leads-kept _ (λ d h. h.0)
        (Keeps-tables (IsFetched k u) _
          λ users tokens jobs. verify_otp-Keeps s users tokens jobs u.email cred code)

  update_credential-IsSound :
      (c : Credential) → Keeps {S = s.Sessions} (IsSoundIn k) (Credentials.update s.env c)
  update_credential-IsSound c =
      Keeps-tables (IsSound k) _
        λ users tokens jobs. update_credential-Keeps s.env users tokens jobs c

  pub get_credential-IsSound :
      (id : ℕ) → Keeps {S = s.Sessions} (IsSoundIn k) (Credentials.get_by_user_id s.env id)
  get_credential-IsSound id =
      Keeps-tables (IsSound k) _
        λ users tokens jobs. get_credential-Keeps s.env users tokens jobs id

  get_setup-IsSound :
      (hash : Text)
      → Keeps {S = s.Sessions} (IsSoundIn k) (Credentials.get_by_setup_token_hash s.env hash)
  get_setup-IsSound hash =
      Keeps-tables (IsSound k) _
        λ users tokens jobs. get_by_setup_hash-Keeps s.env users tokens jobs hash

  get_challenge-IsSound :
      (hash : Text) → Keeps {S = s.Sessions} (IsSoundIn k) (LoginChallenges.get_by_hash s.env hash)
  get_challenge-IsSound hash =
      Keeps-tables (IsSound k) _
        λ users tokens jobs. get_challenge-Keeps s.env users tokens jobs hash

  consume-IsSound :
      (id : ℕ) → Keeps {S = s.Sessions} (IsSoundIn k) (LoginChallenges.consume s.env id)
  consume-IsSound id =
      Keeps-tables (IsSound k) _ λ users tokens jobs. consume-Keeps s.env users tokens jobs id

  finish_setup-Leads :
      (u : User) (cred : Credential)
      → Leads (IsReadyIn k u.id) (λ _. IsSoundIn k) (IsSoundIn k) (Verify.finish_setup s u cred)
  unfolding Verify.finish_setup
  finish_setup-Leads u cred =
      Leads-bind _ _ (issue_session-Leads s k u)
        λ session. Leads-kept _ (λ d h. h) (search (keeps_rules, update_credential-IsSound))

  pub setup_verify_otp-Keeps :
      (setup_token code : Text) → Keeps (IsSoundIn k) (Verify.setup_verify_otp s setup_token code)
  unfolding Verify.setup_verify_otp
  setup_verify_otp-Keeps setup_token code =
      Keeps-bind _ _ (Keeps-replacing _ _ _ (get_setup-IsSound _)) λ cred.
        Keeps-bind _ _ (Keeps-now_utc s.env) λ now. Keeps-if _ _ _ (Keeps-raise _) (
          Leads-Keeps _ (
            Leads-bind _ _ (get_by_id-IsFetched s.env k cred.user_id) λ u.
              Leads-bind _ _ (verified-Leads u cred code) λ verified.
                Leads-if (is_pending u.deletion_status) _ _ (λ pending. Leads-raise _ λ d h. h.0)
                  λ active.
                    Leads-from _ (λ d h. IsFetched-IsReady k u d active h)
                      (finish_setup-Leads u verified)))

  answer_challenge-Keeps :
      (challenge : LoginChallenge) (code : Text)
      → Keeps (IsSoundIn k) (Verify.answer_challenge s challenge code)
  unfolding Verify.answer_challenge
  answer_challenge-Keeps challenge code =
      Keeps-bind _ _ (Keeps-replacing _ _ _ (get_credential-IsSound _)) λ cred. Leads-Keeps _ (
        Leads-bind _ _ (get_by_id-IsFetched s.env k challenge.user_id) λ u.
          Leads-bind _ _ (verified-Leads u cred code) λ verified.
            Leads-if (is_pending u.deletion_status) _ _ (λ pending. Leads-raise _ λ d h. h.0)
              λ active.
                Leads-from _ (λ d h. IsFetched-IsReady k u d active h)
                  (Leads-bind _ _ (issue_session-Leads s k u)
                    λ session. Leads-kept _ (λ d h. h) (search (keeps_rules, consume-IsSound))))

  pub login_verify_otp-Keeps :
      (challenge_token code : Text)
      → Keeps (IsSoundIn k) (Verify.login_verify_otp s challenge_token code)
  unfolding Verify.login_verify_otp
  login_verify_otp-Keeps challenge_token code =
      search (keeps_rules, get_challenge-IsSound, answer_challenge-Keeps) depth 12
