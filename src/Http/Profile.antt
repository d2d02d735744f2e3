-- ===== src/Http/Profile.antt =====
-- internal/transport/http/profile/handler.go. `header` is the request's header Authorization.
use beebase_auth_service.Prelude.{
  codes, ◌==◌, if◌then◌else◌, ℕ, Option, none, some, [], ◌∷◌, Text, trim_space, is_some,
}
use beebase_auth_service.Auth.Ports.{Service, AvatarChange}
use beebase_auth_service.Auth.Account
use beebase_auth_service.Auth.Login
use beebase_auth_service.Http.Requests.{validate_update_profile, validate_delete_account}
use beebase_auth_service.Http.Responses.{profile_error}
use beebase_auth_service.Http.Replies.{
  Serve, json, no_content, plain, served, profile_body, new_profile_response,
}
use beebase_auth_service.Http.Handlers.{Parsers, decode_and_validate, require_user}

-- A JSON null, or no field, is `none`.
pub record UpdateProfileRequest : Type 0 where
  pub first_name : Text
  pub last_name : Text
  pub avatar : Option Text

pub record DeleteAccountRequest : Type 0 where
  pub otp : Text

-- What `id, _ := uuid.Parse` leaves in `id`: the nil uuid on an error.
abbrev pub parsed_or_nil : Option ℕ → ℕ
parsed_or_nil none = 0
parsed_or_nil (some id) = id

-- An empty text removes the avatar; the id of any other has been checked.
abbrev pub avatar_change : Parsers → Option Text → Option AvatarChange
avatar_change parsers none = none
avatar_change parsers (some []) = some (record { media_id = none })
avatar_change parsers (some (c ∷ id)) =
    some (record { media_id = some (parsed_or_nil (parsers.parse_uuid (c ∷ id))) })

-- `strings.TrimPrefix`: a text that does not start so is left as it is.
abbrev pub after_prefix : Text → Text → Option Text
after_prefix [] s = some s
after_prefix (p ∷ prefix) [] = none
after_prefix (p ∷ prefix) (c ∷ s) = if p == c then after_prefix prefix s else none

abbrev pub trim_prefix : Text → Text → Text
trim_prefix s prefix = elim (after_prefix prefix s) [ none ↦ s | some rest ↦ rest ]

-- The token of `requireAuth`.
abbrev pub access_token : Text → Text
access_token header = trim_prefix header (codes "Bearer ")

module _ (s : Service) (parsers : Parsers) where
  unfoldable pub get : Option ℕ → Serve s.Sessions
  get user = require_user user λ user_id.
      served profile_error (Login.current_user s user_id)
        λ u. plain (json 200 (profile_body (new_profile_response u)))

  unfoldable pub update : Option ℕ → Text → Option UpdateProfileRequest → Serve s.Sessions
  update user header request = require_user user λ user_id.
      decode_and_validate
        (λ (r : UpdateProfileRequest).
          validate_update_profile (λ id. is_some (parsers.parse_uuid id)) r.first_name r.last_name
            r.avatar)
        request
        λ r.
          served profile_error
            (Account.update_profile s user_id (access_token header) (record {
              first_name = trim_space r.first_name;
              last_name = trim_space r.last_name;
              avatar = avatar_change parsers r.avatar;
            }))
            λ u. plain (json 200 (profile_body (new_profile_response u)))

  unfoldable pub delete : Option ℕ → Text → Option DeleteAccountRequest → Serve s.Sessions
  delete user header request = require_user user λ user_id.
      decode_and_validate (λ (r : DeleteAccountRequest). validate_delete_account r.otp) request
        λ r.
          served profile_error (Account.delete_account s user_id (access_token header) r.otp)
            λ _. plain no_content
