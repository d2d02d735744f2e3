-- ===== src/Http/Router.antt =====
-- The routes of internal/transport/http/router.go that lead to the two handlers. RequireAuth and the
-- parser of access tokens are a parameter: `authenticate` gives the user of a header Authorization.
pub mod Rejected
pub mod Overlong
use beebase_auth_service.Prelude.{ℕ, Option, none, some, Text}
use beebase_auth_service.World.{World}
use beebase_auth_service.Auth.Ports.{Service}
use beebase_auth_service.Http.Replies.{Serve, Reply, denied, refused}
use beebase_auth_service.Http.Handlers
use beebase_auth_service.Http.Handlers.{
  Parsers, RegisterRequest, LoginRequest, SetupVerifyRequest, LoginVerifyOtpRequest,
  ChangePasswordRequest, PasswordResetRequestRequest, PasswordResetVerifyOtpRequest,
  PasswordResetConfirmRequest,
}
use beebase_auth_service.Http.Profile
use beebase_auth_service.Http.Profile.{UpdateProfileRequest, DeleteAccountRequest}

-- A request to one of the routes, with what its handler reads of it.
pub data Request : Type 0 where
  post_register : Option RegisterRequest → Request
  post_login : Option LoginRequest → Request
  post_refresh : Option Text → Request
  post_logout : Option Text → Request
  post_setup_verify : Option SetupVerifyRequest → Request
  post_login_verify_otp : Option LoginVerifyOtpRequest → Request
  post_reset_request : Option PasswordResetRequestRequest → Request
  post_reset_verify_otp : Option PasswordResetVerifyOtpRequest → Request
  post_reset_confirm : Option PasswordResetConfirmRequest → Request
  get_me : Text → Request
  post_change_password : Text → Option ChangePasswordRequest → Request
  get_profile : Text → Request
  put_profile : Text → Option UpdateProfileRequest → Request
  delete_profile : Text → Option DeleteAccountRequest → Request

abbrev pub require_auth : {S : Type 0} → Option ℕ → (Option ℕ → Serve S) → Serve S
require_auth none handle = refused denied
require_auth (some user_id) handle = handle (some user_id)

module _ (s : Service) (parsers : Parsers) (authenticate : World s.Sessions → Text → Option ℕ) where
  unfoldable pub dispatch : Request → Serve s.Sessions
  dispatch (post_register r) w = Handlers.register s parsers r w
  dispatch (post_login r) w = Handlers.login s parsers r w
  dispatch (post_refresh cookie) w = Handlers.refresh s cookie w
  dispatch (post_logout cookie) w = Handlers.logout s cookie w
  dispatch (post_setup_verify r) w = Handlers.setup_verify_otp s parsers r w
  dispatch (post_login_verify_otp r) w = Handlers.login_verify_otp s parsers r w
  dispatch (post_reset_request r) w = Handlers.request_password_reset s parsers r w
  dispatch (post_reset_verify_otp r) w = Handlers.verify_password_reset_otp s parsers r w
  dispatch (post_reset_confirm r) w = Handlers.confirm_password_reset s parsers r w
  dispatch (get_me header) w = require_auth (authenticate w header) (Handlers.me s) w
  dispatch (post_change_password header r) w =
      require_auth (authenticate w header) (λ user. Handlers.change_password s parsers user r) w
  dispatch (get_profile header) w = require_auth (authenticate w header) (Profile.get s parsers) w
  dispatch (put_profile header r) w =
      require_auth (authenticate w header) (λ user. Profile.update s parsers user header r) w
  dispatch (delete_profile header r) w =
      require_auth (authenticate w header) (λ user. Profile.delete s parsers user header r) w
