-- ===== src/Http/Handlers.antt =====
-- internal/transport/http/auth/handler.go, and decodeAndValidate of requests.go. A request is what
-- the decoder makes of its body, `none` where it is not valid JSON; `user` is what RequireAuth has
-- put into the context, and `cookie` the value of the refresh token's cookie.
use beebase_auth_service.Prelude.{ℕ, Bool, Option, none, some, [], ◌∷◌, Text}
use beebase_auth_service.Auth.Ports.{
  Service, Session, LoginResult, LoginStatus, otp_required, totp_setup_required,
}
use beebase_auth_service.Auth.Session
use beebase_auth_service.Auth.Setup
use beebase_auth_service.Auth.Login
use beebase_auth_service.Auth.Verify
use beebase_auth_service.Auth.Reset
use beebase_auth_service.Http.Requests.{
  Fields, validate_register, validate_login, validate_setup_verify, validate_login_verify_otp,
  validate_change_password, validate_reset_request, validate_reset_verify_otp,
  validate_reset_confirm,
}
use beebase_auth_service.Http.Responses.{auth_error}
use beebase_auth_service.Http.Replies.{
  Reply, Serve, Answer, json, no_content, invalid_body, invalid_fields, missing_authorization,
  missing_refresh_token, set_cookie, clear_cookie, plain, served, refused, user_body, session_body,
  setup_body, login_body, flow_body, reset_body, new_user_response, new_session_response,
  setup_response_from_register, setup_response_from_login, new_login_otp_required_response,
  new_password_reset_requested_response, new_password_reset_otp_verified_response,
}

pub record RegisterRequest : Type 0 where
  pub email : Text
  pub password : Text

pub record LoginRequest : Type 0 where
  pub email : Text
  pub password : Text

pub record SetupVerifyRequest : Type 0 where
  pub setup_token : Text
  pub otp : Text

pub record LoginVerifyOtpRequest : Type 0 where
  pub challenge_token : Text
  pub otp : Text

pub record ChangePasswordRequest : Type 0 where
  pub current_password : Text
  pub new_password : Text
  pub otp : Text

pub record PasswordResetRequestRequest : Type 0 where
  pub email : Text

pub record PasswordResetVerifyOtpRequest : Type 0 where
  pub flow_token : Text
  pub otp : Text

pub record PasswordResetConfirmRequest : Type 0 where
  pub reset_token : Text
  pub new_password : Text
  pub confirm_password : Text

-- mail.ParseAddress, unicode.IsDigit and uuid.Parse.
pub record Parsers : Type 0 where
  pub parse_address : Text → Bool
  pub is_digit : ℕ → Bool
  pub parse_uuid : Text → Option ℕ

-- `len(fields) > 0`.
abbrev pub with_fields : {S : Type 0} → Fields → Serve S → Serve S
with_fields [] handle = handle
with_fields (field ∷ fields) handle = refused (invalid_fields (field ∷ fields))

abbrev pub decode_and_validate : {S A : Type 0} → (A → Fields) → Option A → (A → Serve S) → Serve S
decode_and_validate validate none handle = refused invalid_body
decode_and_validate validate (some request) handle = with_fields (validate request) (handle request)

abbrev pub require_user : {S : Type 0} → Option ℕ → (ℕ → Serve S) → Serve S
require_user none handle = refused missing_authorization
require_user (some user_id) handle = handle user_id

-- A cookie with an empty value counts as none.
abbrev pub refresh_token_from_cookie : {S : Type 0} → Option Text → (Text → Serve S) → Serve S
refresh_token_from_cookie none handle = refused missing_refresh_token
refresh_token_from_cookie (some []) handle = refused missing_refresh_token
refresh_token_from_cookie (some (c ∷ value)) handle = handle (c ∷ value)

abbrev pub session_reply : Session → Reply
session_reply session = record {
  cookie = set_cookie session.refresh_token session.refresh_token_expires_at;
  answer = json 200 (session_body (new_session_response session));
}

abbrev pub login_answer : LoginStatus → LoginResult → Answer
login_answer otp_required result = json 200 (login_body (new_login_otp_required_response result))
login_answer totp_setup_required result = json 200 (setup_body (setup_response_from_login result))

module _ (s : Service) (parsers : Parsers) where
  unfoldable pub register : Option RegisterRequest → Serve s.Sessions
  register request =
      decode_and_validate
        (λ (r : RegisterRequest).
          validate_register parsers.parse_address parsers.is_digit r.email r.password)
        request
        λ r.
          served auth_error (Setup.register s (record { email = r.email; password = r.password }))
            λ result. plain (json 201 (setup_body (setup_response_from_register result)))

  unfoldable pub login : Option LoginRequest → Serve s.Sessions
  login request =
      decode_and_validate
        (λ (r : LoginRequest). validate_login parsers.parse_address r.email r.password) request
        λ r.
          served auth_error (Login.login s (record { email = r.email; password = r.password }))
            λ result. plain (login_answer result.status result)

  unfoldable pub setup_verify_otp : Option SetupVerifyRequest → Serve s.Sessions
  setup_verify_otp request =
      decode_and_validate (λ (r : SetupVerifyRequest). validate_setup_verify r.setup_token r.otp)
        request λ r. served auth_error (Verify.setup_verify_otp s r.setup_token r.otp) session_reply

  unfoldable pub login_verify_otp : Option LoginVerifyOtpRequest → Serve s.Sessions
  login_verify_otp request =
      decode_and_validate
        (λ (r : LoginVerifyOtpRequest). validate_login_verify_otp r.challenge_token r.otp) request
        λ r. served auth_error (Verify.login_verify_otp s r.challenge_token r.otp) session_reply

  unfoldable pub change_password : Option ℕ → Option ChangePasswordRequest → Serve s.Sessions
  change_password user request = require_user user λ user_id.
      decode_and_validate
        (λ (r : ChangePasswordRequest).
          validate_change_password parsers.is_digit r.current_password r.new_password r.otp)
        request
        λ r.
          served auth_error
            (Verify.change_password s user_id (record {
              current_password = r.current_password;
              new_password = r.new_password;
              otp = r.otp;
            }))
            λ _. plain no_content

  unfoldable pub request_password_reset : Option PasswordResetRequestRequest → Serve s.Sessions
  request_password_reset request =
      decode_and_validate
        (λ (r : PasswordResetRequestRequest). validate_reset_request parsers.parse_address r.email)
        request
        λ r.
          served auth_error (Reset.request_password_reset s r.email)
            λ result. plain (json 200 (flow_body (new_password_reset_requested_response result)))

  unfoldable pub verify_password_reset_otp : Option PasswordResetVerifyOtpRequest → Serve s.Sessions
  verify_password_reset_otp request =
      decode_and_validate
        (λ (r : PasswordResetVerifyOtpRequest). validate_reset_verify_otp r.flow_token r.otp)
        request
        λ r.
          served auth_error (Reset.verify_password_reset_otp s r.flow_token r.otp) λ result.
            plain (json 200 (reset_body (new_password_reset_otp_verified_response result)))

  unfoldable pub confirm_password_reset : Option PasswordResetConfirmRequest → Serve s.Sessions
  confirm_password_reset request =
      decode_and_validate
        (λ (r : PasswordResetConfirmRequest).
          validate_reset_confirm parsers.is_digit r.reset_token r.new_password r.confirm_password)
        request
        λ r.
          served auth_error (Reset.confirm_password_reset s r.reset_token r.new_password)
            λ _. plain no_content

module _ (s : Service) where
  unfoldable pub refresh : Option Text → Serve s.Sessions
  refresh cookie =
      refresh_token_from_cookie cookie
        λ raw_token. served auth_error (Session.refresh s raw_token) session_reply

  unfoldable pub logout : Option Text → Serve s.Sessions
  logout cookie = refresh_token_from_cookie cookie λ raw_token.
      served auth_error (Session.logout s raw_token)
        λ _. record { cookie = clear_cookie; answer = no_content }

  unfoldable pub me : Option ℕ → Serve s.Sessions
  me user = require_user user λ user_id.
      served auth_error (Login.current_user s user_id)
        λ u. plain (json 200 (user_body (new_user_response u)))
