-- ===== src/Auth/Otp.antt =====
-- validateOTP and verifyOTP of internal/application/auth/service_totp.go.
pub mod Verified
pub mod Replay
use beebase_auth_service.Prelude.{
  ℕ, Bool, true, false, ◌&&◌, not, Option, none, some, Text, codes, text_eq, if◌then◌else◌,
}
use beebase_auth_service.Errors.{otp_invalid, otp_locked, sentinel, wrap}
use beebase_auth_service.World.{
  Result, ok, err, App, ◌>>=◌, ◌>>◌, pure, raise, lift, wrapping, now_utc,
}
use beebase_auth_service.Domain.Totp.{
  Credential, is_locked, is_code_consumed, record_failure, record_success,
}
use beebase_auth_service.Repository.Credentials
use beebase_auth_service.Platform.Totp.{validate_at}
use beebase_auth_service.Platform.Totpsecret.{decrypt}
use beebase_auth_service.Auth.Ports.{Service}

abbrev pub demo_account_email : Text
demo_account_email = codes "demo@gmail.com"

abbrev pub demo_otp_code : Text
demo_otp_code = codes "123456"

-- The three results of validateOTP beside its error.
pub record Validation : Type 0 where
  pub is_ok : Bool
  pub counter : ℕ
  pub is_demo_code : Bool

abbrev pub from_match : Option ℕ → Validation
from_match none = record { is_ok = false; counter = 0; is_demo_code = false }
from_match (some counter) = record { is_ok = true; counter = counter; is_demo_code = false }

abbrev pub is_demo : Text → Text → Bool
is_demo email code = text_eq email demo_account_email && text_eq code demo_otp_code

module _ (s : Service) where
  -- The secret is base32, so its bytes are its characters. `now` is the reading of the clock.
  unfoldable pub validation : Text → Credential → Text → ℕ → Result Validation
  validation email cred code now =
      if is_demo email code
      then ok (record { is_ok = true; counter = 0; is_demo_code = true })
      else elim (decrypt s.aead cred.secret_encrypted) [
        | err e ↦ err (wrap "auth: decrypt totp secret" e)
        | ok secret ↦ ok (from_match (validate_at s.hotp code secret now))
      ]

  unfoldable pub validate_otp : Text → Credential → Text → App s.Sessions Validation
  validate_otp email cred code = do now ← now_utc s.env; lift (validation email cred code now)

  -- `ok` after the anti-replay check.
  abbrev pub is_accepted : Credential → Validation → Bool
  is_accepted cred v =
      if v.is_ok && not v.is_demo_code && is_code_consumed cred v.counter then false else v.is_ok

  unfoldable pub reject_otp : Credential → App s.Sessions Credential
  reject_otp cred = do
    lock_now ← now_utc s.env
    update_now ← now_utc s.env
    let cred' =
        record_failure lock_now update_now cred s.security.otp_max_attempts
          s.security.otp_lockout_duration
    wrapping "auth: persist otp failure" (Credentials.update s.env cred')
    now ← now_utc s.env
    raise (sentinel (if is_locked now cred' then otp_locked else otp_invalid))

  unfoldable pub accept_otp : Credential → ℕ → App s.Sessions Credential
  accept_otp cred counter = do
    now ← now_utc s.env
    let cred' = record_success now cred counter
    wrapping "auth: persist otp success" (Credentials.update s.env cred')
    pure cred'

  -- The credential is changed in place: where the code is accepted, the caller goes on with the
  -- changed one.
  unfoldable pub verify_otp : Text → Credential → Text → App s.Sessions Credential
  verify_otp email cred code = do
    now ← now_utc s.env
    if is_locked now cred then raise (sentinel otp_locked) else (do
      v ← validate_otp email cred code
      if is_accepted cred v then accept_otp cred v.counter else reject_otp cred)
