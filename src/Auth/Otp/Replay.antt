-- ===== src/Auth/Otp/Replay.antt =====
-- What verifyOTP promises: what it accepts, in which order, and how it rejects.
use beebase_auth_service.Prelude.{
  ◌∷◌, suc, leb, exists, sym, ℕ, ◌+◌, ◌<◌, ◌≡◌, refl, true, false, Option, none, some, Text, ◌⊎◌,
  inl, inr, arith, update_where, if◌then◌else◌, Bool-cases,
}
use beebase_auth_service.Errors.{otp_locked, otp_invalid, sentinel, wrap}
use beebase_auth_service.World.{Result, World, ok, err, next_event, ◌>>=◌}
use beebase_auth_service.World.Ensures.{Ensures-ok}
use beebase_auth_service.Domain.Totp.{
  Credential, is_locked, is_code_consumed, record_success, record_failure, mark_code_used,
}
use beebase_auth_service.Domain.Totp.Lockout.{
  Readings, number, record_failures, record_failures-lockout,
}
use beebase_auth_service.Repository.Credentials
use beebase_auth_service.Repository.Credentials.{hash_taken, of_user, updated}
use beebase_auth_service.Platform.Totp.{validate_at}
use beebase_auth_service.Platform.Totpsecret.{decrypt}
use beebase_auth_service.Auth.Ports.{Service}
use beebase_auth_service.Auth.Otp.{
  Validation, is_demo, validation, validate_otp, is_accepted, reject_otp, verify_otp, from_match,
}
use beebase_auth_service.Auth.Otp.Verified.{verify_otp-Ensures}

module _ (s : Service) where
  -- A code that the secret yields at a counter above the last one used.
  pub record IsFresh (cred : Credential) (code : Text) (t counter : ℕ) : Type 0 where
    pub secret : Text
    pub decrypted : decrypt s.aead cred.secret_encrypted ≡ ok secret
    pub matched : validate_at s.hotp code secret t ≡ some counter
    pub unused : is_code_consumed cred counter ≡ false

  -- Over the answer of the search for a counter.
  match-IsFresh :
      (cred : Credential) (v : Validation) (m : Option ℕ)
      → from_match m ≡ v
      → is_accepted s cred v ≡ true
      → (m ≡ some v.counter) × (is_code_consumed cred v.counter ≡ false)
  match-IsFresh cred v none e a = absurd (ground arith)
  match-IsFresh cred v (some c) e a = ground arith

  secret-IsFresh :
      (cred : Credential) (code : Text) (t : ℕ) (v : Validation) (r : Result Text)
      → decrypt s.aead cred.secret_encrypted ≡ r
      → (elim r [
        | err e ↦ err (wrap "auth: decrypt totp secret" e)
        | ok secret ↦ ok (from_match (validate_at s.hotp code secret t))
      ])
        ≡ ok v
      → is_accepted s cred v ≡ true
      → IsFresh cred code t v.counter
  secret-IsFresh cred code t v (err x) d e a = cc
  secret-IsFresh cred code t v (ok secret) d e a =
      let same : from_match (validate_at s.hotp code secret t) ≡ v = cc in
      let (m, unused) = match-IsFresh cred v (validate_at s.hotp code secret t) same a in
      record { secret = secret; decrypted = d; matched = m; unused = unused }

  validation-IsFresh :
      (email : Text) (cred : Credential) (code : Text) (t : ℕ) (v : Validation)
      → is_demo email code ≡ false
      → validation s email cred code t ≡ ok v
      → is_accepted s cred v ≡ true
      → IsFresh cred code t v.counter
  unfolding validation
  validation-IsFresh email cred code t v real e a =
      secret-IsFresh cred code t v (decrypt s.aead cred.secret_encrypted) refl (rw real at e) a

  -- verifyOTP ends well only for a credential that is not locked and for a code that is the demo
  -- account's or matches the decrypted secret at a counter above the last one used. It stores the
  -- credential that it returns, with the failures and the lockout cleared, and changes nothing else.
  pub verify_otp_sound :
      (email : Text) (cred cred' : Credential) (code : Text) (w w' : World s.Sessions)
      → verify_otp s email cred code w ≡ (ok cred', w')
      → (is_locked (s.env.now w.event) cred ≡ false)
        × ((is_demo email code ≡ true)
            ⊎ ((c : ℕ) × IsFresh cred code (s.env.now (w.event + 1)) c
                × (cred'.last_used_counter ≡ some c)))
        × (cred'.failed_attempts ≡ 0)
        × (cred'.locked_until ≡ none)
        × (cred'.secret_encrypted ≡ cred.secret_encrypted)
        × (w'.db ≡ record w.db {
          credentials = update_where (of_user cred.user_id) (updated cred') w.db.credentials;
        })
        × (w'.sessions ≡ w.sessions)
        × (w'.calls ≡ w.calls)
  unfolding record_success mark_code_used
  verify_otp_sound email cred cred' code w w' e =
      let h = Ensures-ok (verify_otp-Ensures s email cred code w) cred' w' e in
      (
        h.unlocked,
        elim (Bool-cases (is_demo email code)) [
          | inl demo ↦ inl demo
          | inr real ↦ inr (
            h.v.counter,
            validation-IsFresh email cred code _ h.v real h.checked h.accepted,
            rw h.changed,
          )
        ],
        rw h.changed,
        rw h.changed,
        rw h.changed,
        h.db,
        h.sessions,
        h.calls,
      )

  real-IsFresh :
      (email : Text) (cred cred' : Credential) (code : Text) (w w' : World s.Sessions)
      → is_demo email code ≡ false
      → verify_otp s email cred code w ≡ (ok cred', w')
      → (c : ℕ) × IsFresh cred code (s.env.now (w.event + 1)) c
        × (cred'.last_used_counter ≡ some c)
        × (cred'.secret_encrypted ≡ cred.secret_encrypted)
  real-IsFresh email cred cred' code w w' real e =
      let h = verify_otp_sound email cred cred' code w w' e in
      elim h.1 [ inl demo ↦ absurd (cc (demo, real)) | inr (c, f, last) ↦ (c, f, last, h.4) ]

  IsFresh-above :
      (cred : Credential) (code : Text) (t c c' : ℕ)
      → IsFresh cred code t c'
      → cred.last_used_counter ≡ some c
      → c < c'
  IsFresh-above cred code t c c' f last = let unused = f.unused in ground (arith, last, unused)

  -- Codes are accepted in the order of their counters: when verifyOTP has accepted a code, and then,
  -- at whatever time, accepts a code with the credential that it returned, neither being the demo
  -- account's, the second code matches the secret at a counter above the first one's. The same code
  -- again passes only where the secret yields it at such a later counter as well, of those that are
  -- tried at that time.
  pub verify_otp-no_replay :
      (email : Text) (cred cred' again : Credential) (code other : Text)
      (w w' v v' : World s.Sessions)
      → is_demo email code ≡ false
      → is_demo email other ≡ false
      → verify_otp s email cred code w ≡ (ok cred', w')
      → verify_otp s email cred' other v ≡ (ok again, v')
      → (secret : Text) × (c c' : ℕ) × (decrypt s.aead cred.secret_encrypted ≡ ok secret)
        × (validate_at s.hotp code secret (s.env.now (w.event + 1)) ≡ some c)
        × (validate_at s.hotp other secret (s.env.now (v.event + 1)) ≡ some c')
        × (c < c')
        × (cred'.last_used_counter ≡ some c)
        × (again.last_used_counter ≡ some c')
  verify_otp-no_replay email cred cred' again code other w w' v v' real real' e e' =
      let (c, f, last, same) = real-IsFresh email cred cred' code w w' real e in
      let (c', f', last', same') = real-IsFresh email cred' again other v v' real' e' in
      let secrets : f'.secret ≡ f.secret = cc (f.decrypted, f'.decrypted, same) in
      let later : validate_at s.hotp other f.secret (s.env.now (v.event + 1)) ≡ some c' =
        rw (sym secrets) f'.matched in
      (
        f.secret,
        c,
        c',
        f.decrypted,
        f.matched,
        later,
        IsFresh-above cred' other _ c c' f' last,
        last,
        last',
      )

  -- A locked credential is refused whatever the code, with the error for that and with no effect but
  -- a reading of the clock.
  verify_otp-locked :
      (email : Text) (cred : Credential) (code : Text) (w : World s.Sessions)
      → is_locked (s.env.now w.event) cred ≡ true
      → verify_otp s email cred code w ≡ (err (sentinel otp_locked), next_event w)
  unfolding verify_otp ◌>>=◌
  verify_otp-locked email cred code w locked = simp locked refl

  -- A credential with no failures counted on which as many failures in a row have then been recorded
  -- as the service allows, at whatever times, is refused, whatever the code, before the end of the lockout that starts at the
  -- last failure, with no effect but a reading of the clock.
  pub verify_otp-locked_out :
      (email : Text) (cred : Credential) (code : Text) (w : World s.Sessions)
      (lock_now update_now : ℕ) (rest : Readings)
      → cred.failed_attempts ≡ 0
      → s.security.otp_max_attempts ≡ suc (number rest)
      → s.env.now w.event < lock_now + s.security.otp_lockout_duration
      → verify_otp s email
          (record_failures
            ((lock_now, update_now) ∷ rest)
            s.security.otp_max_attempts
            s.security.otp_lockout_duration
            cred)
          code
          w
        ≡ (err (sentinel otp_locked), next_event w)
  verify_otp-locked_out email cred code w lock_now update_now rest fresh limit early =
      let lockout =
        record_failures-lockout s.security.otp_max_attempts s.security.otp_lockout_duration cred
          lock_now update_now rest fresh limit in
      verify_otp-locked email _ code w (rw (lockout.3 (s.env.now w.event)) (ground (arith, early)))

  -- Where the credential is not locked, its row is stored, no other row has the hash of its setup
  -- token and writing the row does not fail, a code that is checked and does not pass is counted: the
  -- stored row becomes the credential after RecordFailure, and the error says whether that has locked
  -- it. No other row changes.
  pub verify_otp-rejects :
      (email : Text) (cred : Credential) (code : Text) (w : World s.Sessions) (v : Validation)
      → is_locked (s.env.now w.event) cred ≡ false
      → validation s email cred code (s.env.now (w.event + 1)) ≡ ok v
      → is_accepted s cred v ≡ false
      → s.env.fault (w.event + 1 + 1 + 1 + 1) ≡ false
      → exists (of_user cred.user_id) w.db.credentials ≡ true
      → exists (hash_taken cred) w.db.credentials ≡ false
      → let failed =
          record_failure
            (s.env.now (w.event + 1 + 1))
            (s.env.now (w.event + 1 + 1 + 1))
            cred
            s.security.otp_max_attempts
            s.security.otp_lockout_duration in
        ((verify_otp s email cred code w).0
          ≡ err (
              sentinel (
                if is_locked (s.env.now (w.event + 1 + 1 + 1 + 1 + 1)) failed
                then otp_locked
                else otp_invalid)))
        × ((verify_otp s email cred code w).1.db ≡ record w.db {
          credentials = update_where (of_user cred.user_id) (updated failed) w.db.credentials;
        })
  unfolding verify_otp validate_otp reject_otp record_failure Credentials.update ◌>>=◌
  verify_otp-rejects email cred code w v unlocked checked refused fine stored free =
      elim (Bool-cases (leb s.security.otp_max_attempts (cred.failed_attempts + 1))) [
        | inl b ↦ simp (unlocked, checked, refused, fine, stored, free, b) (refl, refl)
        | inr b ↦ simp (unlocked, checked, refused, fine, stored, free, b) (refl, refl)
      ]

  -- The demo account's code that verifyOTP accepts sets the last used counter back to zero, so that
  -- every later counter, one used before included, counts as unused.
  pub verify_otp-demo_resets :
      (email : Text) (cred cred' : Credential) (code : Text) (w w' : World s.Sessions) (counter : ℕ)
      → is_demo email code ≡ true
      → verify_otp s email cred code w ≡ (ok cred', w')
      → 0 < counter
      → (cred'.last_used_counter ≡ some 0) × (is_code_consumed cred' counter ≡ false)
  unfolding validation record_success mark_code_used
  verify_otp-demo_resets email cred cred' code w w' counter demo e positive =
      let h = Ensures-ok (verify_otp-Ensures s email cred code w) cred' w' e in
      let v : record { is_ok = true; counter = 0; is_demo_code = true } ≡ h.v =
        cc (rw demo at h.checked) in
      let last : cred'.last_used_counter ≡ some 0 = rw (h.changed, sym v) in
      (last, rw last (ground arith))
