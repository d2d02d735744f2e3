-- ===== src/Repository/PasswordResetFlows.antt =====
-- internal/repository/postgres/password_reset_flow_repository.go.
use beebase_auth_service.Prelude.{
  ℕ, Bool, true, ◌||◌, ◌&&◌, not, Option, none, some, List, ◌∷◌, Text, ◌==◌, text_eq, find, exists,
  update_where, if◌then◌else◌,
}
use beebase_auth_service.Errors.{flow_not_found, sentinel, failed, wrap}
use beebase_auth_service.Domain.PasswordReset.{PasswordResetFlow}
use beebase_auth_service.Domain.User.{User}
use beebase_auth_service.Repository.Users.{has_id}
use beebase_auth_service.Repository.Credentials.{equals_hash, same_hash}
use beebase_auth_service.World.{Result, ok, err, Db, Env, App, query}

abbrev pub has_flow_id : ℕ → PasswordResetFlow → Bool
has_flow_id id f = f.id == id

abbrev pub has_flow_hash : Text → PasswordResetFlow → Bool
has_flow_hash hash f = text_eq f.flow_token_hash hash

abbrev pub has_reset_hash : Text → PasswordResetFlow → Bool
has_reset_hash hash f = equals_hash f.reset_token_hash hash

abbrev pub scan_one : Option PasswordResetFlow → Db → Result PasswordResetFlow × Db
scan_one none d = (err (sentinel flow_not_found), d)
scan_one (some f) d = (ok f, d)

abbrev pub conflicts : PasswordResetFlow → PasswordResetFlow → Bool
conflicts f x =
    has_flow_id f.id x
    || has_flow_hash f.flow_token_hash x
    || same_hash x.reset_token_hash f.reset_token_hash

-- A NULL user_id refers to nobody.
abbrev pub owner_exists : Option ℕ → List User → Bool
owner_exists none users = true
owner_exists (some id) users = exists (has_id id) users

-- The UPDATE sets the columns that change after the flow is created.
abbrev pub updated : PasswordResetFlow → PasswordResetFlow → PasswordResetFlow
updated f x = record x {
  otp_verified_at = f.otp_verified_at;
  otp_attempts = f.otp_attempts;
  reset_token_hash = f.reset_token_hash;
  reset_token_expires_at = f.reset_token_expires_at;
  consumed_at = f.consumed_at;
}

abbrev pub hash_taken : PasswordResetFlow → PasswordResetFlow → Bool
hash_taken f x = not (has_flow_id f.id x) && same_hash x.reset_token_hash f.reset_token_hash

module _ {S : Type 0} (env : Env) where
  unfoldable pub create : PasswordResetFlow → App S (Unit {0})
  create f = query env "postgres: create password reset flow" λ now d.
      if exists (conflicts f) d.password_reset_flows || not (owner_exists f.user_id d.users)
      then (err (wrap "postgres: create password reset flow" (failed "constraint violation")), d)
      else (ok tt, record d { password_reset_flows = f ∷ d.password_reset_flows })

  unfoldable pub get_by_flow_token_hash : Text → App S PasswordResetFlow
  get_by_flow_token_hash hash =
      query env "postgres: get password reset flow"
        λ now d. scan_one (find (has_flow_hash hash) d.password_reset_flows) d

  unfoldable pub get_by_reset_token_hash : Text → App S PasswordResetFlow
  get_by_reset_token_hash hash =
      query env "postgres: get password reset flow"
        λ now d. scan_one (find (has_reset_hash hash) d.password_reset_flows) d

  unfoldable pub update : PasswordResetFlow → App S (Unit {0})
  update f = query env "postgres: update password reset flow" λ now d.
      if not (exists (has_flow_id f.id) d.password_reset_flows)
      then (err (sentinel flow_not_found), d)
      else if exists (hash_taken f) d.password_reset_flows
      then (err (wrap "postgres: update password reset flow" (failed "constraint violation")), d)
      else (
        ok tt,
        record d {
          password_reset_flows = update_where (has_flow_id f.id) (updated f) d.password_reset_flows;
        },
      )
