-- ===== src/Auth/Verify/SingleUse.antt =====
-- What LoginVerifyOTP and ChangePassword guarantee.
use beebase_auth_service.Prelude.{
  ap, ◌∙◌, Bool-cases, ℕ, ◌+◌, ◌≡◌, ◌≢◌, refl, Bool, true, false, ◌||◌, none, some, Text, All, List,
  arith, find, update_where, find-update_where, inl, inr, Bool-cases, ==_refl,
}
use mathlib.Core.Path.{subst}
use beebase_auth_service.World.{World, Db, ok, next_event}
use beebase_auth_service.World.Ensures.{
  Ensures, Ensures-ok, Ensures-bind, Ensures-mono, Ensures-wrapping, Ensures-replacing, Ensures-if,
  Ensures-raise, Ensures-answer, with_db, Ensures-now_utc, Ensures-pure,
}
use beebase_auth_service.Domain.User.{User, is_pending}
use beebase_auth_service.Domain.Totp.{Credential}
use beebase_auth_service.Domain.LoginChallenge.{LoginChallenge, is_expired, is_consumed}
use beebase_auth_service.Repository.Users.{has_id}
use beebase_auth_service.Repository.Credentials.{of_user, updated}
use beebase_auth_service.Repository.LoginChallenges.{has_hash, is_open}
use beebase_auth_service.Repository.Effects.{
  get_by_id-Ensures, get_credential-Ensures, get_challenge-Ensures, consume-Ensures,
  update_password-Ensures, IsDead, revoke_of-IsDead,
}
use beebase_auth_service.Auth.Ports.{Service, SessionLaws, Session, hash_token, ChangePasswordInput}
use beebase_auth_service.Auth.Session.Issue.{issue_session-Ensures}
use beebase_auth_service.Auth.Session.SignedOut.{IsSignedOut, sign_out-Ensures}
use beebase_auth_service.Auth.Otp.Verified.{IsVerified, verify_otp-Ensures}
use beebase_auth_service.Auth.Verify.{
  answer_challenge, login_verify_otp, replace_password, change_password,
}

abbrev pub consume_open : ℕ → ℕ → List LoginChallenge → List LoginChallenge
consume_open now id = update_where (is_open id) (λ c. record c { consumed_at = some now })

or-right : (a b : Bool) → (a || b) ≡ false → b ≡ false
or-right a b e = ground (arith, e)

-- A challenge that was found is consumed once its row has been.
spent_challenge :
    (hash : Text) (c : LoginChallenge) (now : ℕ) (cs : List LoginChallenge)
    → find (has_hash hash) cs ≡ some c
    → (x : LoginChallenge) × (find (has_hash hash) (consume_open now c.id cs) ≡ some x)
      × (is_consumed x ≡ true)
spent_challenge hash c now cs found =
    let next =
      find-update_where (has_hash hash) (is_open c.id) (λ x. record x { consumed_at = some now }) cs
        {x = c} (λ y. refl) found in
    elim (Bool-cases (is_consumed c)) [
      | inl used ↦ (c, ground (arith, next, used), used)
      | inr unused ↦
          (record c { consumed_at = some now }, ground (arith, next, unused, ==_refl c.id), refl)
    ]

module _ (s : Service) (laws : SessionLaws s) where
  -- From an open challenge to the session that answers it.
  pub record IsAnswered (c : LoginChallenge) (code : Text) (w : World s.Sessions)
      (session : Session) (w' : World s.Sessions) : Type 0 where
    pub cred : Credential
    pub u : User
    pub enrolled : find (of_user c.user_id) w.db.credentials ≡ some cred
    pub found : find (has_id c.user_id) w.db.users ≡ some u
    pub is_active : is_pending u.deletion_status ≡ false
    pub verified : Credential
    pub after : World s.Sessions
    pub checked : IsVerified s u.email cred code (next_event (next_event w)) verified after
    pub credentials :
        w'.db.credentials ≡ update_where (of_user cred.user_id) (updated verified) w.db.credentials
    pub now : ℕ
    pub user : session.user_id ≡ u.id
    pub challenges : w'.db.login_challenges ≡ consume_open now c.id w.db.login_challenges

  answer_challenge-Ensures :
      (c : LoginChallenge) (code : Text) (w : World s.Sessions)
      → Ensures (answer_challenge s c code) w (IsAnswered c code w)
  unfolding answer_challenge
  answer_challenge-Ensures c code w =
      Ensures-bind _ _ (Ensures-replacing _ _ _ (get_credential-Ensures s.env w c.user_id))
        λ cred w1 e1. Ensures-bind _ _ (get_by_id-Ensures s.env w1 c.user_id) λ u w2 e2.
          Ensures-bind _ _ (verify_otp-Ensures s u.email cred code w2) λ verified w3 e3.
            Ensures-if (is_pending u.deletion_status) _ _ (λ p. Ensures-raise _)
              λ p. Ensures-bind _ _ (issue_session-Ensures s laws u w3) λ session w4 issued.
                Ensures-bind _ _ (Ensures-wrapping _ _ (consume-Ensures s.env w4 c.id)) λ _ w5 e5.
                  let at : w2 ≡ next_event (next_event w) =
                    e2.1 ∙ ap (λ (x : World s.Sessions). with_db x x.db) e1.1 in
                  let kept = e3.db in
                  let others = issued.others in
                  Ensures-pure session (record {
                    cred = cred;
                    u = u;
                    enrolled = e1.0;
                    found = ground arith;
                    is_active = p;
                    verified = verified;
                    after = w3;
                    checked = subst (λ x. IsVerified s u.email cred code x verified w3) at e3;
                    credentials = ground arith;
                    now = s.env.now w4.event;
                    user = issued.user;
                    challenges = ground arith;
                  })

  pub record IsLoggedIn (raw code : Text) (w : World s.Sessions) (session : Session)
      (w' : World s.Sessions) : Type 0 where
    pub c : LoginChallenge
    pub found : find (has_hash (hash_token s raw)) w.db.login_challenges ≡ some c
    pub opened : (is_expired (s.env.now (w.event + 1)) c || is_consumed c) ≡ false
    pub answered : IsAnswered c code (next_event (next_event w)) session w'

  pub login_verify_otp-Ensures :
      (raw code : Text) (w : World s.Sessions)
      → Ensures (login_verify_otp s raw code) w (IsLoggedIn raw code w)
  unfolding login_verify_otp
  login_verify_otp-Ensures raw code w =
      Ensures-bind _ _ (Ensures-replacing _ _ _ (get_challenge-Ensures s.env w (hash_token s raw)))
        λ c w1 e1. Ensures-bind _ _ (Ensures-now_utc s.env) λ now w2 e2.
          Ensures-if (is_expired now c || is_consumed c) _ _ (λ p. Ensures-raise _)
            λ p.
              let same : w2 ≡ next_event (next_event w) = e2.1 ∙ ap next_event e1.1 in
              let time : s.env.now (w.event + 1) ≡ now = ground arith in
              Ensures-mono (answer_challenge-Ensures c code w2) λ session w' h. record {
                c = c;
                found = e1.0;
                opened = rw time p;
                answered = subst (λ x. IsAnswered c code x session w') same h;
              }

  -- LoginVerifyOTP ends well only for a stored challenge that is neither expired nor consumed, of a
  -- user who is not being deleted, and after verifyOTP, run on what the four reads before it have
  -- left, has accepted the code for the user's stored credential; the session is that user's, and of
  -- the credentials exactly that user's is changed, to the one that verifyOTP has returned.
  pub login_verify_otp_sound :
      (raw code : Text) (w w' : World s.Sessions) (session : Session)
      → login_verify_otp s raw code w ≡ (ok session, w')
      → (c : LoginChallenge) × (u : User) × (cred verified : Credential) × (after : World
          s.Sessions)
        × (find (has_hash (hash_token s raw)) w.db.login_challenges ≡ some c)
        × ((is_expired (s.env.now (w.event + 1)) c || is_consumed c) ≡ false)
        × (find (has_id c.user_id) w.db.users ≡ some u)
        × (find (of_user c.user_id) w.db.credentials ≡ some cred)
        × (is_pending u.deletion_status ≡ false)
        × IsVerified s u.email cred code
            (next_event (next_event (next_event (next_event w))))
            verified
            after
        × (session.user_id ≡ u.id)
        × (w'.db.credentials
            ≡ update_where (of_user cred.user_id) (updated verified) w.db.credentials)
  login_verify_otp_sound raw code w w' session e =
      let h = Ensures-ok (login_verify_otp-Ensures raw code w) session w' e in
      let a = h.answered in
      (
        h.c, a.u, a.cred, a.verified, a.after, h.found, h.opened, a.found, a.enrolled, a.is_active,
        a.checked, a.user, a.credentials,
      )

  -- A login challenge is good for one login: after a LoginVerifyOTP that ended well, the same
  -- challenge never yields a session again, whatever the code, while the table of challenges stays
  -- as that login left it.
  pub login_verify_otp-single_use :
      (raw code other : Text) (w w' v v' : World s.Sessions) (session again : Session)
      → login_verify_otp s raw code w ≡ (ok session, w')
      → v.db.login_challenges ≡ w'.db.login_challenges
      → login_verify_otp s raw other v ≢ (ok again, v')
  login_verify_otp-single_use raw code other w w' v v' session again e same e' =
      let h = Ensures-ok (login_verify_otp-Ensures raw code w) session w' e in
      let h' = Ensures-ok (login_verify_otp-Ensures raw other v) again v' e' in
      let (x, found, dead) =
        spent_challenge (hash_token s raw) h.c h.answered.now w.db.login_challenges h.found in
      let unused : is_consumed h'.c ≡ false =
        or-right (is_expired (s.env.now (v.event + 1)) h'.c) (is_consumed h'.c) h'.opened in
      cc (found, dead, unused, h'.found, same, h.answered.challenges)

  pub record IsChanged (user_id : ℕ) (input : ChangePasswordInput) (w w' : World s.Sessions)
      : Type 0 where
    pub u : User
    pub found : find (has_id user_id) w.db.users ≡ some u
    pub password : s.verify_password u.password_hash input.current_password ≡ true
    pub cred : Credential
    pub enrolled : find (of_user user_id) w.db.credentials ≡ some cred
    pub verified : Credential
    pub after : World s.Sessions
    pub checked : IsVerified s u.email cred input.otp (next_event (next_event w)) verified after
    pub credentials :
        w'.db.credentials ≡ update_where (of_user cred.user_id) (updated verified) w.db.credentials
    pub new_hash : Text
    pub n : ℕ
    pub hashed : s.hash_password n input.new_password ≡ ok new_hash
    pub at : ℕ
    pub users :
        w'.db.users
        ≡ update_where
            (has_id user_id)
            (λ x. record x { password_hash = new_hash; updated_at = at })
            w.db.users
    pub d' : Db
    pub signed_out : IsSignedOut s laws user_id d' w'
    pub tokens : d'.refresh_tokens ≡ w.db.refresh_tokens

  change_password-Ensures :
      (user_id : ℕ) (input : ChangePasswordInput) (w : World s.Sessions)
      → Ensures (change_password s user_id input) w (λ _ w'. IsChanged user_id input w w')
  unfolding change_password replace_password
  change_password-Ensures user_id input w =
      Ensures-bind _ _ (get_by_id-Ensures s.env w user_id) λ u w1 e1.
        Ensures-if (s.verify_password u.password_hash input.current_password) _ _
          (λ p.
            Ensures-bind _ _ (Ensures-replacing _ _ _ (get_credential-Ensures s.env w1 user_id))
              λ cred w2 e2.
                Ensures-bind _ _ (verify_otp-Ensures s u.email cred input.otp w2) λ verified w3 e3.
                  Ensures-bind _ _ (Ensures-wrapping _ _ (Ensures-answer _)) λ hash w4 e4.
                    Ensures-bind _ _ (update_password-Ensures s.env w4 user_id hash) λ _ w5 e5.
                      let kept = e3.db in
                      Ensures-mono (sign_out-Ensures s laws _ _ user_id w5) λ _ w6 h.
                        let signed = h.db in
                        let at_check : w2 ≡ next_event (next_event w) =
                          e2.1 ∙ ap (λ (x : World s.Sessions). with_db x x.db) e1.1 in
                        record {
                          u = u;
                          found = e1.0;
                          password = p;
                          cred = cred;
                          enrolled = ground arith;
                          verified = verified;
                          after = w3;
                          checked =
                              subst (λ x. IsVerified s u.email cred input.otp x verified w3)
                                at_check e3;
                          credentials = ground arith;
                          new_hash = hash;
                          n = w3.event;
                          hashed = e4.0;
                          at = s.env.now w4.event;
                          users = ground arith;
                          d' = w5.db;
                          signed_out = h;
                          tokens = ground arith;
                        })
          λ p. Ensures-raise _

  -- ChangePassword ends well only where the current password is the stored user's and verifyOTP, run
  -- on what the two reads before it have left, has accepted the code for the user's stored
  -- credential. Then exactly that user's credential is changed, to the one that verifyOTP has
  -- returned, the hash of the new password is stored for the user and for nobody else, no refresh
  -- token of the user is live, and the store has no session for the user.
  pub change_password_sound :
      (user_id : ℕ) (input : ChangePasswordInput) (w w' : World s.Sessions)
      → change_password s user_id input w ≡ (ok tt, w')
      → (u : User) × (cred verified : Credential) × (after : World s.Sessions) × (n at : ℕ)
        × (hash : Text) × (find (has_id user_id) w.db.users ≡ some u)
        × (s.verify_password u.password_hash input.current_password ≡ true)
        × (find (of_user user_id) w.db.credentials ≡ some cred)
        × IsVerified s u.email cred input.otp (next_event (next_event w)) verified after
        × (w'.db.credentials
            ≡ update_where (of_user cred.user_id) (updated verified) w.db.credentials)
        × (s.hash_password n input.new_password ≡ ok hash)
        × (w'.db.users
            ≡ update_where
                (has_id user_id)
                (λ x. record x { password_hash = hash; updated_at = at })
                w.db.users)
        × All (IsDead user_id) w'.db.refresh_tokens
        × (laws.active w'.sessions user_id ≡ none)
  change_password_sound user_id input w w' e =
      let h = Ensures-ok (change_password-Ensures user_id input w) tt w' e in
      let dead = revoke_of-IsDead h.signed_out.now user_id h.d'.refresh_tokens in
      (
        h.u,
        h.cred,
        h.verified,
        h.after,
        h.n,
        h.at,
        h.new_hash,
        h.found,
        h.password,
        h.enrolled,
        h.checked,
        h.credentials,
        h.hashed,
        h.users,
        rw h.signed_out.db dead,
        h.signed_out.inactive,
      )
