-- ===== src/Http/Responses.antt =====
-- writeServiceError of internal/transport/http/auth/handler.go and of
-- internal/transport/http/profile/handler.go: the response to an error of the service.
use beebase_auth_service.Prelude.{ℕ, if◌then◌else◌}
use beebase_auth_service.Errors.{
  Sentinel, Error, is, user_not_found, email_taken, invalid_credentials, invalid_refresh_token,
  avatar_not_found, otp_invalid, otp_locked, setup_token_invalid, challenge_invalid,
  current_password_invalid, password_reset_flow_invalid, password_reset_token_invalid,
}

-- `rejected` names the sentinel whose code the body holds; `validation_error` is of the field
-- avatar.
pub data Response : Type 0 where
  rejected : ℕ → Sentinel → Response
  validation_error : Response
  internal_error : Response

unfoldable pub auth_error : Error → Response
auth_error e =
    if is e email_taken
    then rejected 409 email_taken
    else if is e user_not_found
    then rejected 404 user_not_found
    else if is e invalid_credentials
    then rejected 401 invalid_credentials
    else if is e invalid_refresh_token
    then rejected 401 invalid_refresh_token
    else if is e otp_invalid
    then rejected 400 otp_invalid
    else if is e otp_locked
    then rejected 429 otp_locked
    else if is e setup_token_invalid
    then rejected 401 setup_token_invalid
    else if is e challenge_invalid
    then rejected 401 challenge_invalid
    else if is e current_password_invalid
    then rejected 401 current_password_invalid
    else if is e password_reset_flow_invalid
    then rejected 400 password_reset_flow_invalid
    else if is e password_reset_token_invalid
    then rejected 400 password_reset_token_invalid
    else internal_error

unfoldable pub profile_error : Error → Response
profile_error e =
    if is e user_not_found
    then rejected 404 user_not_found
    else if is e avatar_not_found
    then validation_error
    else if is e otp_invalid
    then rejected 400 otp_invalid
    else if is e otp_locked
    then rejected 429 otp_locked
    else internal_error
