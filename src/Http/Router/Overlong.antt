-- ===== src/Http/Router/Overlong.antt =====
-- A password that the validation accepts and bcrypt does not.
use beebase_auth_service.Prelude.{ℕ, ◌≡◌, refl, ◌<◌, some, [], Text, byte_length}
use beebase_auth_service.Errors.{failed}
use beebase_auth_service.World.{World, err, next_event, ◌>>=◌}
use beebase_auth_service.Auth.Ports.{Service}
use beebase_auth_service.Auth.Setup
use beebase_auth_service.Http.Requests.{validate_register}
use beebase_auth_service.Http.Responses.{internal_error, auth_error}
use beebase_auth_service.Http.Replies.{plain, failure, served}
use beebase_auth_service.Http.Handlers
use beebase_auth_service.Http.Handlers.{Parsers, RegisterRequest}

module _ (s : Service) (parsers : Parsers) where
  -- Where the hasher refuses passwords of more than 72 bytes, as bcrypt does, a registration whose
  -- fields all pass validation is answered with an internal error for such a password.
  pub register-overlong :
      (r : RegisterRequest) (w : World s.Sessions)
      → ((n : ℕ) (password : Text)
          → 72 < byte_length password
          → s.hash_password n password ≡ err (failed "bcrypt: password length exceeds 72 bytes"))
      → validate_register parsers.parse_address parsers.is_digit r.email r.password ≡ []
      → 72 < byte_length r.password
      → Handlers.register s parsers (some r) w ≡ (plain (failure internal_error), next_event w)
  unfolding Handlers.register served Setup.register ◌>>=◌ auth_error
  register-overlong r w limit valid long = rw (valid, limit w.event r.password long) refl
