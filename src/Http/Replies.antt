-- ===== src/Http/Replies.antt =====
-- What a handler writes: internal/transport/http/auth/responses.go,
-- internal/transport/http/profile/responses.go and the calls of httpx in the two handlers.
use beebase_auth_service.Prelude.{ℕ, Option, Text, codes}
use beebase_auth_service.Errors.{Error}
use beebase_auth_service.World.{Result, ok, err, World, App}
use beebase_auth_service.Domain.User.{User}
use beebase_auth_service.Platform.Totp.{unix}
use beebase_auth_service.Auth.Ports.{
  Session, RegisterResult, LoginResult, LoginStatus, otp_required, totp_setup_required,
  PasswordResetRequestResult, PasswordResetOtpResult,
}
use beebase_auth_service.Http.Requests.{Fields}
use beebase_auth_service.Http.Responses.{Response}

-- The JSON of a user, and of the answers to each request: times are in seconds.
pub record UserResponse : Type 0 where
  pub id : ℕ
  pub email : Text
  pub created_at : ℕ

pub record SessionResponse : Type 0 where
  pub access_token : Text
  pub access_token_expires_at : ℕ
  pub refresh_token_expires_at : ℕ
  pub user : UserResponse

pub record TotpSetupResponse : Type 0 where
  pub status : Text
  pub setup_token : Text
  pub otpauth_uri : Text
  pub secret : Text
  pub expires_at : ℕ

pub record LoginOtpRequiredResponse : Type 0 where
  pub status : Text
  pub challenge_token : Text
  pub expires_at : ℕ

pub record PasswordResetRequestedResponse : Type 0 where
  pub flow_token : Text
  pub expires_at : ℕ

pub record PasswordResetOtpVerifiedResponse : Type 0 where
  pub reset_token : Text
  pub expires_at : ℕ

pub record ProfileResponse : Type 0 where
  pub id : ℕ
  pub email : Text
  pub first_name : Text
  pub last_name : Text
  pub avatar : Option ℕ

abbrev pub login_status : LoginStatus → Text
login_status otp_required = codes "otp_required"
login_status totp_setup_required = codes "totp_setup_required"

abbrev pub new_user_response : User → UserResponse
new_user_response u = record { id = u.id; email = u.email; created_at = u.created_at }

abbrev pub new_session_response : Session → SessionResponse
new_session_response s = record {
  access_token = s.access_token;
  access_token_expires_at = unix s.access_token_expires_at;
  refresh_token_expires_at = unix s.refresh_token_expires_at;
  user = record { id = s.user_id; email = s.email; created_at = s.created_at };
}

abbrev pub setup_response_from_register : RegisterResult → TotpSetupResponse
setup_response_from_register r = record {
  status = login_status totp_setup_required;
  setup_token = r.setup_token;
  otpauth_uri = r.otpauth_uri;
  secret = r.secret;
  expires_at = unix r.expires_at;
}

abbrev pub setup_response_from_login : LoginResult → TotpSetupResponse
setup_response_from_login r = record {
  status = login_status r.status;
  setup_token = r.setup_token;
  otpauth_uri = r.otpauth_uri;
  secret = r.secret;
  expires_at = unix r.expires_at;
}

abbrev pub new_login_otp_required_response : LoginResult → LoginOtpRequiredResponse
new_login_otp_required_response r = record {
  status = login_status r.status;
  challenge_token = r.challenge_token;
  expires_at = unix r.expires_at;
}

abbrev pub new_password_reset_requested_response :
    PasswordResetRequestResult → PasswordResetRequestedResponse
new_password_reset_requested_response r = record {
  flow_token = r.flow_token;
  expires_at = unix r.expires_at;
}

abbrev pub new_password_reset_otp_verified_response :
    PasswordResetOtpResult → PasswordResetOtpVerifiedResponse
new_password_reset_otp_verified_response r = record {
  reset_token = r.reset_token;
  expires_at = unix r.expires_at;
}

abbrev pub new_profile_response : User → ProfileResponse
new_profile_response u = record {
  id = u.id;
  email = u.email;
  first_name = u.first_name;
  last_name = u.last_name;
  avatar = u.avatar_media_id;
}

pub data Body : Type 0 where
  user_body : UserResponse → Body
  session_body : SessionResponse → Body
  setup_body : TotpSetupResponse → Body
  login_body : LoginOtpRequiredResponse → Body
  flow_body : PasswordResetRequestedResponse → Body
  reset_body : PasswordResetOtpVerifiedResponse → Body
  profile_body : ProfileResponse → Body

-- `json` is httpx.WriteJSON with a status, `no_content` the bare status 204, `failure` what
-- writeServiceError writes; the others are the errors that the handlers find themselves: a body that
-- is not JSON, fields that are not valid, no authenticated user, no cookie with a refresh token.
-- `denied` is what RequireAuth writes where it passes a request on to no handler.
pub data Answer : Type 0 where
  json : ℕ → Body → Answer
  no_content : Answer
  failure : Response → Answer
  invalid_body : Answer
  invalid_fields : Fields → Answer
  missing_authorization : Answer
  missing_refresh_token : Answer
  denied : Answer

-- What happens to the cookie with the refresh token: its value and its expiry are set.
pub data CookieChange : Type 0 where
  keep_cookie clear_cookie : CookieChange
  set_cookie : Text → ℕ → CookieChange

pub record Reply : Type 0 where
  pub cookie : CookieChange
  pub answer : Answer

abbrev pub plain : Answer → Reply
plain answer = record { cookie = keep_cookie; answer = answer }

-- A handler, once the request is in its hands.
abbrev pub Serve : Type 0 → Type 0
Serve S = World S → Reply × World S

abbrev pub answer_with :
    {S A : Type 0} → (Error → Response) → (A → Reply) → Result A → World S → Reply × World S
answer_with on_error respond (ok a) w = (respond a, w)
answer_with on_error respond (err e) w = (plain (failure (on_error e)), w)

-- `if err != nil { h.writeServiceError(w, err); return }`, and the reply otherwise.
unfoldable pub served : {S A : Type 0} → (Error → Response) → App S A → (A → Reply) → Serve S
served on_error m respond w = let (r, w') = m w in answer_with on_error respond r w'

unfoldable pub refused : {S : Type 0} → Answer → Serve S
refused answer w = (plain answer, w)
