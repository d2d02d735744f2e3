-- ===== src/Errors.antt =====
-- internal/application/auth/errors.go and the errors.go of the domain packages: the sentinel
-- errors, errors that wrap them with `%w`, and `errors.Is`.
use beebase_auth_service.Prelude.{ℕ, String, Bool, false, ◌==◌}

pub data Sentinel : Type 0 where
  user_not_found email_taken token_not_found credential_not_found : Sentinel
  challenge_not_found flow_not_found : Sentinel
  invalid_credentials invalid_refresh_token avatar_not_found otp_invalid : Sentinel
  otp_locked setup_token_invalid challenge_invalid current_password_invalid : Sentinel
  password_reset_flow_invalid password_reset_token_invalid : Sentinel

-- `sentinel` is one of the package variables, `failed` any other error of a driver, a network call
-- or `fmt.Errorf` with no `%w`, and `wrap` is `fmt.Errorf("…: %w", err)`.
pub data Error : Type 0 where
  sentinel : Sentinel → Error
  failed : String → Error
  wrap : String → Error → Error

abbrev pub sentinel_code : Sentinel → ℕ
sentinel_code user_not_found = 0
sentinel_code email_taken = 1
sentinel_code token_not_found = 2
sentinel_code credential_not_found = 3
sentinel_code challenge_not_found = 4
sentinel_code flow_not_found = 5
sentinel_code invalid_credentials = 6
sentinel_code invalid_refresh_token = 7
sentinel_code avatar_not_found = 8
sentinel_code otp_invalid = 9
sentinel_code otp_locked = 10
sentinel_code setup_token_invalid = 11
sentinel_code challenge_invalid = 12
sentinel_code current_password_invalid = 13
sentinel_code password_reset_flow_invalid = 14
sentinel_code password_reset_token_invalid = 15

-- `errors.Is(err, target)`: it looks through every wrapping.
abbrev pub is : Error → Sentinel → Bool
is (sentinel s) target = sentinel_code s == sentinel_code target
is (failed message) target = false
is (wrap message e) target = is e target
