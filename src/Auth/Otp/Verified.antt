-- ===== src/Auth/Otp/Verified.antt =====
-- What verifyOTP guarantees where it accepts a code.
use beebase_auth_service.Prelude.{ℕ, ◌+◌, ◌≡◌, refl, true, false, Text, arith, update_where}
use beebase_auth_service.World.{World, ok}
use beebase_auth_service.World.Ensures.{
  Ensures, Ensures-bind, Ensures-mono, Ensures-wrapping, Ensures-if, Ensures-raise, Ensures-lift,
  Ensures-now_utc, Ensures-pure,
}
use beebase_auth_service.Domain.Totp.{Credential, is_locked, record_success}
use beebase_auth_service.Repository.Credentials.{of_user, updated}
use beebase_auth_service.Repository.Effects.{update_credential-Ensures}
use beebase_auth_service.Auth.Ports.{Service}
use beebase_auth_service.Auth.Otp.{
  Validation, validation, validate_otp, is_accepted, accept_otp, reject_otp, verify_otp,
}

module _ (s : Service) where
  pub record IsVerified (email : Text) (cred : Credential) (code : Text) (w : World s.Sessions)
      (cred' : Credential) (w' : World s.Sessions) : Type 0 where
    pub unlocked : is_locked (s.env.now w.event) cred ≡ false
    pub v : Validation
    pub checked : validation s email cred code (s.env.now (w.event + 1)) ≡ ok v
    pub accepted : is_accepted s cred v ≡ true
    pub now : ℕ
    pub changed : cred' ≡ record_success now cred v.counter
    pub db : w'.db ≡ record w.db {
      credentials = update_where (of_user cred.user_id) (updated cred') w.db.credentials;
    }
    pub sessions : w'.sessions ≡ w.sessions
    pub calls : w'.calls ≡ w.calls

  reject_otp-Ensures :
      (cred : Credential) (w : World s.Sessions) {Q : Credential → World s.Sessions → Type 0}
      → Ensures (reject_otp s cred) w Q
  unfolding reject_otp
  reject_otp-Ensures cred w {Q} =
      Ensures-bind {R = λ _ _. Unit {0}} _ _ (Ensures-mono (Ensures-now_utc s.env) λ _ _ _. tt)
        λ t1 w1 _.
          Ensures-bind {R = λ _ _. Unit {0}} _ _ (Ensures-mono (Ensures-now_utc s.env) λ _ _ _. tt)
            λ t2 w2 _.
              Ensures-bind {R = λ _ _. Unit {0}} _ _
                (Ensures-wrapping _ _
                  (Ensures-mono (update_credential-Ensures s.env w2 _) λ _ _ _. tt))
                λ _ w3 _.
                  Ensures-bind {R = λ _ _. Unit {0}} _ _
                    (Ensures-mono (Ensures-now_utc s.env) λ _ _ _. tt) λ t4 w4 _. Ensures-raise _

  pub verify_otp-Ensures :
      (email : Text) (cred : Credential) (code : Text) (w : World s.Sessions)
      → Ensures (verify_otp s email cred code) w (IsVerified email cred code w)
  unfolding verify_otp validate_otp accept_otp record_success
  verify_otp-Ensures email cred code w = Ensures-bind _ _ (Ensures-now_utc s.env) λ now w1 e1.
      Ensures-if (is_locked now cred) _ _ (λ p. Ensures-raise _)
        λ p.
          Ensures-bind
            {R = λ v w2.
              (validation s email cred code (s.env.now (w.event + 1)) ≡ ok v)
              × (w2.db ≡ w.db)
              × (w2.sessions ≡ w.sessions)
              × (w2.calls ≡ w.calls)}
            _ _
            (Ensures-bind _ _ (Ensures-now_utc s.env) λ t w2 e2. Ensures-lift _ λ v e.
              let time : s.env.now (w.event + 1) ≡ t = ground arith in
              (rw time e, ground arith, ground arith, ground arith))
            λ v w2 e2.
              Ensures-if (is_accepted s cred v) _ _
                (λ q. Ensures-bind _ _ (Ensures-now_utc s.env) λ t w3 e3.
                  Ensures-bind _ _ (Ensures-wrapping _ _ (update_credential-Ensures s.env w3 _))
                    λ _ w4 e4. Ensures-pure _ (record {
                      unlocked = let time : s.env.now w.event ≡ now = ground arith in rw time p;
                      v = v;
                      checked = e2.0;
                      accepted = q;
                      now = t;
                      changed = refl;
                      db = ground arith;
                      sessions = ground arith;
                      calls = ground arith;
                    }))
                λ q. reject_otp-Ensures cred w2
