-- ===== src/Tests/Codes.antt =====
-- Witnesses of the theorems on one-time codes and on password resets.
use beebase_auth_service.Prelude.{
  ◌+◌, ◌<◌, zero, suc, ap, sym, arith, [], ◌∷◌, ◌*◌, exists, [], ℕ, ◌≡◌, ◌≢◌, refl, true, false,
  some, none, Text, codes,
}
use beebase_auth_service.Errors.{sentinel, otp_invalid, otp_locked}
use beebase_auth_service.Repository.Credentials.{of_user, hash_taken}
use beebase_auth_service.World.{World, ok, err, next_event}
use beebase_auth_service.Domain.Totp.{is_code_consumed, Credential}
use beebase_auth_service.Domain.Totp.Lockout.{Readings, record_failures, record_failures-lockout}
use beebase_auth_service.Platform.Totp.{matches, validate_at}
use beebase_auth_service.Platform.Totp.Window.{validate_at-IsFirstMatch, IsFirstMatch}
use beebase_auth_service.Auth.Ports.{PasswordResetOtpResult}
use beebase_auth_service.Auth.Otp.{
  validation, is_demo, Validation, demo_account_email, demo_otp_code, verify_otp,
}
use beebase_auth_service.Auth.Otp.Replay.{
  verify_otp_sound, verify_otp-no_replay, verify_otp-rejects, verify_otp-locked_out,
  verify_otp-demo_resets,
}
use beebase_auth_service.Auth.Reset.{verify_password_reset_otp, confirm_password_reset}
use beebase_auth_service.Auth.Reset.Code.{verify_password_reset_otp_sound}
use beebase_auth_service.Auth.Reset.Confirm.{
  confirm_password_reset_sound, confirm_password_reset-single_use,
}
use beebase_auth_service.Platform.Totpsecret.{length, encrypt, decrypt}
use beebase_auth_service.Platform.Totpsecret.RoundTrip.{encrypt-decrypt}
use beebase_auth_service.Tests.{
  aead, repeat, service, laws, begin, Store, bee, credential, evaluation, value, second, hotp,
}

abbrev code : Text
code = 3 ∷ []

abbrev verified : World Store
verified = (verify_otp service bee.email credential code begin).1

abbrev used : Credential
used = value credential (verify_otp service bee.email credential code begin).0

verify_run : verify_otp service bee.email credential code begin ≡ (ok used, verified)
unfolding evaluation
verify_run = refl

verify_otp-sound_example : used.failed_attempts ≡ 0
verify_otp-sound_example =
    (verify_otp_sound service bee.email credential used code begin verified verify_run).2

not_demo : is_demo bee.email code ≡ false
unfolding evaluation
not_demo = refl

-- The code of the next counter, which is tried as well.
abbrev next_code : Text
next_code = 4 ∷ []

abbrev again : World Store
again = (verify_otp service bee.email used next_code verified).1

abbrev used_again : Credential
used_again = value credential (verify_otp service bee.email used next_code verified).0

again_run : verify_otp service bee.email used next_code verified ≡ (ok used_again, again)
unfolding evaluation
again_run = refl

next_not_demo : is_demo bee.email next_code ≡ false
unfolding evaluation
next_not_demo = refl

verify_otp-no_replay_example :
    let h =
      verify_otp-no_replay service bee.email credential used used_again code next_code begin
        verified verified again not_demo next_not_demo verify_run again_run in
    h.1 < h.2
verify_otp-no_replay_example =
    (verify_otp-no_replay service bee.email credential used used_again code next_code begin verified
      verified again not_demo next_not_demo verify_run again_run).6

abbrev nothing : Validation
nothing = record { is_ok = false; counter = 0; is_demo_code = false }

wrong : validation service bee.email credential (6 ∷ []) (service.env.now 1) ≡ ok nothing
unfolding evaluation
wrong = refl

stored : exists (of_user 1) begin.db.credentials ≡ true
unfolding evaluation
stored = refl

untaken : exists (hash_taken credential) begin.db.credentials ≡ false
unfolding evaluation
untaken = refl

verify_otp-rejects_example :
    (verify_otp service bee.email credential (6 ∷ []) begin).0 ≡ err (sentinel otp_invalid)
unfolding evaluation
verify_otp-rejects_example =
    (verify_otp-rejects service bee.email credential (6 ∷ []) begin nothing refl wrong refl refl
      stored untaken).0

-- Three failures, a second apart.
abbrev earlier_failures : Readings
earlier_failures = (89 * second, 89 * second + 1) ∷ (88 * second, 88 * second + 1) ∷ []

verify_otp-locked_out_example :
    verify_otp service bee.email
      (record_failures
        ((90 * second, 90 * second + 1) ∷ earlier_failures)
        3
        (60 * second)
        credential)
      code
      begin
    ≡ (err (sentinel otp_locked), next_event begin)
verify_otp-locked_out_example =
    verify_otp-locked_out service bee.email credential code begin (90 * second) (90 * second + 1)
      earlier_failures refl refl (omega arith)

abbrev demo_used : Credential
demo_used =
    value credential (verify_otp service demo_account_email credential demo_otp_code begin).0

abbrev demo_verified : World Store
demo_verified = (verify_otp service demo_account_email credential demo_otp_code begin).1

demo_run :
    verify_otp service demo_account_email credential demo_otp_code begin
    ≡ (ok demo_used, demo_verified)
unfolding evaluation
demo_run = refl

demo : is_demo demo_account_email demo_otp_code ≡ true
unfolding evaluation
demo = refl

verify_otp-demo_resets_example :
    (demo_used.last_used_counter ≡ some 0) × (is_code_consumed demo_used 2 ≡ false)
verify_otp-demo_resets_example =
    verify_otp-demo_resets service demo_account_email credential demo_used demo_otp_code begin
      demo_verified 2 demo demo_run (omega arith)

validate_at-IsFirstMatch_example :
    IsFirstMatch (λ c. matches (hotp code c [])) 3 (validate_at hotp code [] (90 * second))
validate_at-IsFirstMatch_example = validate_at-IsFirstMatch hotp code [] (90 * second)

record_failures-lockout_example :
    (record_failures
      ((90 * second, 90 * second + 1) ∷ earlier_failures)
      3
      10
      credential).locked_until
    ≡ some (90 * second + 10)
record_failures-lockout_example =
    (record_failures-lockout 3 10 credential (90 * second) (90 * second + 1) earlier_failures refl
      refl).1

abbrev passed : World Store
passed = (verify_password_reset_otp service (codes "f") code begin).1

abbrev result : PasswordResetOtpResult
result =
    value (record { reset_token = []; expires_at = 0 })
      (verify_password_reset_otp service (codes "f") code begin).0

pass_run : verify_password_reset_otp service (codes "f") code begin ≡ (ok result, passed)
unfolding evaluation
pass_run = refl

verify_password_reset_otp-sound_example :
    (verify_password_reset_otp_sound service
      (codes "f")
      code
      begin
      passed
      result
      pass_run).0.user_id
    ≡ some (verify_password_reset_otp_sound service (codes "f") code begin passed result pass_run).1
verify_password_reset_otp-sound_example =
    (verify_password_reset_otp_sound service (codes "f") code begin passed result pass_run).7

abbrev reset : World Store
reset = (confirm_password_reset service (codes "p") (codes "nectar") begin).1

reset_run : confirm_password_reset service (codes "p") (codes "nectar") begin ≡ (ok tt, reset)
unfolding evaluation
reset_run = refl

confirm_password_reset-sound_example :
    laws.active reset.sessions
      (confirm_password_reset_sound service laws
        (codes "p")
        (codes "nectar")
        begin
        reset
        reset_run).1
    ≡ none
confirm_password_reset-sound_example =
    (confirm_password_reset_sound service laws (codes "p") (codes "nectar") begin reset
      reset_run).14

confirm_password_reset-single_use_example :
    confirm_password_reset service (codes "p") (codes "honey") reset ≢ (ok tt, begin)
confirm_password_reset-single_use_example =
    confirm_password_reset-single_use service laws (codes "p") (codes "nectar") (codes "honey")
      begin reset reset begin reset_run refl

length-repeat : (k n : ℕ) → length (repeat k n) ≡ k
length-repeat zero n = refl
length-repeat (suc k) n = ap suc (length-repeat k n)

full : (n k : ℕ) (bytes : Text) → service.env.rand_read n k ≡ some bytes → length bytes ≡ k
full n k bytes e = let same : repeat k n ≡ bytes = cc e in rw (sym same) (length-repeat k n)

abbrev sealed_secret : Text
sealed_secret = value [] (encrypt {S = Store} service.env aead (9 ∷ []) begin).0

encrypt_run :
    encrypt service.env aead (9 ∷ []) begin
    ≡ (ok sealed_secret, (encrypt service.env aead (9 ∷ []) begin).1)
unfolding evaluation
encrypt_run = refl

encrypt-decrypt_example : decrypt aead sealed_secret ≡ ok (9 ∷ [])
encrypt-decrypt_example =
    encrypt-decrypt service.env aead (9 ∷ []) sealed_secret begin
      (encrypt service.env aead (9 ∷ []) begin).1 (λ n p. refl) full encrypt_run
