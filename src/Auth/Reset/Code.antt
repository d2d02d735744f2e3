-- ===== src/Auth/Reset/Code.antt =====
-- What VerifyPasswordResetOTP guarantees.
use beebase_auth_service.Prelude.{
  ap, ◌∙◌, update_where, find, ℕ, ◌+◌, ◌≡◌, refl, true, false, ◌&&◌, ◌||◌, not, Option, none, some,
  Text, arith,
}
use mathlib.Core.Path.{subst}
use beebase_auth_service.World.{World, Db, ok, next_event}
use beebase_auth_service.World.Ensures.{
  Ensures, Ensures-ok, Ensures-bind, Ensures-mono, Ensures-wrapping, Ensures-replacing,
  Ensures-optional, Ensures-if, Ensures-raise, Ensures-lift, Ensures-answer, Ensures-now_utc,
  Ensures-pure, with_db,
}
use beebase_auth_service.Domain.User.{User}
use beebase_auth_service.Domain.Totp.{Credential, is_enabled, is_code_consumed}
use beebase_auth_service.Domain.PasswordReset.{
  PasswordResetFlow, is_expired, is_consumed, is_otp_verified, is_otp_locked, mark_otp_verified,
  issue_reset_token,
}
use beebase_auth_service.Repository.Users.{has_id}
use beebase_auth_service.Repository.Credentials.{of_user}
use beebase_auth_service.Repository.PasswordResetFlows.{has_flow_id, has_flow_hash, updated}
use beebase_auth_service.Repository.Effects.{
  get_credential-missing, get_by_id-Ensures, get_credential-Ensures, get_by_flow_hash-Ensures,
  update_flow-Ensures, update_credential-Ensures,
}
use beebase_auth_service.Platform.Tokenhash
use beebase_auth_service.Auth.Ports.{Service, hash_token, PasswordResetOtpResult}
use beebase_auth_service.Auth.Otp.{Validation, validation, validate_otp}
use beebase_auth_service.Auth.Reset.{
  use_code, check_against, check_code, fail_flow, pass_flow, verify_password_reset_otp,
}

module _ (s : Service) where
  -- The user has an enabled credential, and the code is right for it at the time and unused, or the
  -- demo account's.
  pub record IsRight (user_id : ℕ) (code : Text) (t : ℕ) (d : Db) : Type 0 where
    pub cred : Credential
    pub enrolled : find (of_user user_id) d.credentials ≡ some cred
    pub enabled : is_enabled cred ≡ true
    pub u : User
    pub found : find (has_id user_id) d.users ≡ some u
    pub v : Validation
    pub checked : validation s u.email cred code t ≡ ok v
    pub passes : (v.is_ok && (v.is_demo_code || not (is_code_consumed cred v.counter))) ≡ true

  -- Whatever the answer, the flows are left as they are.
  use_code-Ensures :
      (cred : Credential) (v : Validation) (w : World s.Sessions)
      → Ensures (use_code s cred v) w (λ valid w'.
        (valid ≡ true
          → (v.is_ok && (v.is_demo_code || not (is_code_consumed cred v.counter))) ≡ true)
        × (w'.db.password_reset_flows ≡ w.db.password_reset_flows))
  unfolding use_code
  use_code-Ensures cred v w =
      Ensures-if (v.is_ok && (v.is_demo_code || not (is_code_consumed cred v.counter))) _ _
        (λ p.
          Ensures-if v.is_demo_code _ _ (λ q. Ensures-pure true (λ _. p, refl))
            λ q. Ensures-bind _ _ (Ensures-now_utc s.env) λ now w1 e1.
              Ensures-bind _ _ (Ensures-wrapping _ _ (update_credential-Ensures s.env w1 _))
                λ _ w2 e2. Ensures-pure true (λ _. p, ground arith))
        λ p. Ensures-pure false (λ h. absurd (ground (arith, h)), refl)

  check_against-Ensures :
      (user_id : ℕ) (code : Text) (found : Option Credential) (w : World s.Sessions)
      → find (of_user user_id) w.db.credentials ≡ found
      → Ensures (check_against s user_id code found) w (λ valid w'.
        (valid ≡ true → IsRight user_id code (s.env.now (w.event + 1)) w.db)
        × (w'.db.password_reset_flows ≡ w.db.password_reset_flows))
  unfolding check_against validate_otp
  check_against-Ensures user_id code none w f =
      Ensures-pure false (λ h. absurd (ground (arith, h)), refl)
  check_against-Ensures user_id code (some cred) w f =
      Ensures-if (is_enabled cred) _ _
        (λ p. Ensures-bind _ _ (get_by_id-Ensures s.env w user_id) λ u w1 e1.
          Ensures-bind
            {R = λ v w2.
              (validation s u.email cred code (s.env.now (w.event + 1)) ≡ ok v) × (w2.db ≡ w.db)}
            _ _
            (Ensures-bind _ _ (Ensures-now_utc s.env) λ t w2 e2. Ensures-lift _ λ v e.
              let time : s.env.now (w.event + 1) ≡ t = ground arith in (rw time e, ground arith))
            λ v w2 e2. Ensures-mono (use_code-Ensures cred v w2) λ valid w3 e3. (
              λ h. record {
                cred = cred;
                enrolled = f;
                enabled = p;
                u = u;
                found = e1.0;
                v = v;
                checked = e2.0;
                passes = e3.0 h;
              },
              ground (arith, e3.1, e2.1),
            ))
        λ p. Ensures-pure false (λ h. absurd (ground (arith, h)), refl)

  check_code-Ensures :
      (user_id : Option ℕ) (code : Text) (w : World s.Sessions)
      → Ensures (check_code s user_id code) w (λ valid w'.
        (valid ≡ true
          → (id : ℕ) × (user_id ≡ some id) × IsRight id code (s.env.now (w.event + 1 + 1)) w.db)
        × (w'.db.password_reset_flows ≡ w.db.password_reset_flows))
  unfolding check_code
  check_code-Ensures none code w = Ensures-pure false (λ h. absurd (ground (arith, h)), refl)
  check_code-Ensures (some id) code w =
      Ensures-bind _ _
        (Ensures-optional
          {Q = λ o v. (find (of_user id) w.db.credentials ≡ o) × (v ≡ with_db w w.db)} _ _
          (get_credential-Ensures s.env w id)
          λ e failed missing. get_credential-missing s.env w id e failed missing)
        λ o v e. Ensures-mono (check_against-Ensures id code o v (rw e.1 e.0)) λ valid w' h. (
          λ yes. (
            id,
            refl,
            subst (λ (x : World s.Sessions). IsRight id code (s.env.now (x.event + 1)) x.db) e.1
                (h.0 yes),
          ),
          ground (arith, h.1, e.1),
        )

  pub record IsPassed (raw code : Text) (w : World s.Sessions) (r : PasswordResetOtpResult)
      (w' : World s.Sessions) : Type 0 where
    pub f : PasswordResetFlow
    pub found : find (has_flow_hash (hash_token s raw)) w.db.password_reset_flows ≡ some f
    pub opened :
        (is_expired (s.env.now (w.event + 1)) f || is_consumed f || is_otp_verified f) ≡ false
    pub unlocked : is_otp_locked f s.security.reset_flow_max_otp_attempts ≡ false
    pub user_id : ℕ
    pub owner : f.user_id ≡ some user_id
    pub right : IsRight user_id code (s.env.now (w.event + 1 + 1 + 1 + 1)) w.db
    pub verified_now : ℕ
    pub issued_now : ℕ
    pub flows :
        w'.db.password_reset_flows
        ≡ update_where
            (has_flow_id f.id)
            (updated (
              issue_reset_token issued_now
                (mark_otp_verified verified_now f)
                (hash_token s r.reset_token)
                s.security.password_reset_token_ttl))
            w.db.password_reset_flows

  pub verify_password_reset_otp-Ensures :
      (raw code : Text) (w : World s.Sessions)
      → Ensures (verify_password_reset_otp s raw code) w (IsPassed raw code w)
  unfolding verify_password_reset_otp pass_flow fail_flow issue_reset_token mark_otp_verified
      Tokenhash.generate
  verify_password_reset_otp-Ensures raw code w =
      Ensures-bind _ _
        (Ensures-replacing _ _ _ (get_by_flow_hash-Ensures s.env w (hash_token s raw)))
        λ f w1 e1. Ensures-bind _ _ (Ensures-now_utc s.env) λ now w2 e2.
          Ensures-if (is_expired now f || is_consumed f || is_otp_verified f) _ _
            (λ p. Ensures-raise _)
            λ p.
              Ensures-if (is_otp_locked f s.security.reset_flow_max_otp_attempts) _ _
                (λ q. Ensures-raise _)
                λ q. Ensures-bind _ _ (check_code-Ensures f.user_id code w2) λ valid w3 e3.
                  Ensures-if valid _ _
                    (λ yes.
                      Ensures-bind _ _ (Ensures-wrapping _ _ (Ensures-answer _)) λ token w4 e4.
                        Ensures-bind _ _ (Ensures-now_utc s.env) λ t5 w5 e5.
                          Ensures-bind _ _ (Ensures-now_utc s.env) λ t6 w6 e6.
                            Ensures-bind _ _ (Ensures-wrapping _ _ (update_flow-Ensures s.env w6 _))
                              λ _ w7 e7.
                                let same : w2 ≡ next_event (next_event w) =
                                  e2.1 ∙ ap next_event e1.1 in
                                let time : s.env.now (w.event + 1) ≡ now = ground arith in
                                let right = e3.0 yes in
                                let kept = e3.1 in
                                Ensures-pure _ (record {
                                  f = f;
                                  found = e1.0;
                                  opened = rw time p;
                                  unlocked = q;
                                  user_id = right.0;
                                  owner = right.1;
                                  right =
                                      subst
                                        (λ (x : World s.Sessions).
                                          IsRight right.0 code (s.env.now (x.event + 1 + 1)) x.db)
                                        same right.2;
                                  verified_now = t5;
                                  issued_now = t6;
                                  flows = ground arith;
                                }))
                    λ no.
                      Ensures-bind {R = λ _ _. Unit {0}} _ _
                        (Ensures-wrapping _ _
                          (Ensures-mono (update_flow-Ensures s.env w3 _) λ _ _ _. tt))
                        λ _ w4 _. Ensures-raise _

  -- VerifyPasswordResetOTP ends well only for a stored flow that is open, below its own limit of
  -- failures and of a user, whose enabled credential the code is right and unused for (or the demo
  -- account's) at the reading of the clock that follows the four calls before the check. Then the flow is stored as verified, with the hash of the reset token that the
  -- caller is given.
  pub verify_password_reset_otp_sound :
      (raw code : Text) (w w' : World s.Sessions) (r : PasswordResetOtpResult)
      → verify_password_reset_otp s raw code w ≡ (ok r, w')
      → (f : PasswordResetFlow) × (user_id verified_now issued_now : ℕ) × (find
            (has_flow_hash (hash_token s raw))
            w.db.password_reset_flows
          ≡ some f)
        × ((is_expired (s.env.now (w.event + 1)) f || is_consumed f || is_otp_verified f) ≡ false)
        × (is_otp_locked f s.security.reset_flow_max_otp_attempts ≡ false)
        × (f.user_id ≡ some user_id)
        × IsRight user_id code (s.env.now (w.event + 1 + 1 + 1 + 1)) w.db
        × (w'.db.password_reset_flows
            ≡ update_where
                (has_flow_id f.id)
                (updated (
                  issue_reset_token issued_now
                    (mark_otp_verified verified_now f)
                    (hash_token s r.reset_token)
                    s.security.password_reset_token_ttl))
                w.db.password_reset_flows)
  verify_password_reset_otp_sound raw code w w' r e =
      let h = Ensures-ok (verify_password_reset_otp-Ensures raw code w) r w' e in
      (
        h.f, h.user_id, h.verified_now, h.issued_now, h.found, h.opened, h.unlocked, h.owner,
        h.right, h.flows,
      )
