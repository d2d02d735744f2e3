-- ===== src/Repository/Credentials.antt =====
-- internal/repository/postgres/two_factor_credential_repository.go.
use beebase_auth_service.Prelude.{
  ℕ, Bool, false, ◌||◌, ◌&&◌, not, Option, none, some, ◌∷◌, Text, ◌==◌, text_eq, find, exists,
  update_where, if◌then◌else◌,
}
use beebase_auth_service.Errors.{credential_not_found, sentinel, failed, wrap}
use beebase_auth_service.Domain.Totp.{Credential}
use beebase_auth_service.Repository.Users.{has_id}
use beebase_auth_service.World.{Result, ok, err, Db, Env, App, query}

abbrev pub of_user : ℕ → Credential → Bool
of_user user_id c = c.user_id == user_id

-- `setup_token_hash = $1`: never true of NULL.
abbrev pub equals_hash : Option Text → Text → Bool
equals_hash none hash = false
equals_hash (some h) hash = text_eq h hash

abbrev pub has_setup_hash : Text → Credential → Bool
has_setup_hash hash c = equals_hash c.setup_token_hash hash

-- The UNIQUE constraint on a column that may be NULL.
abbrev pub same_hash : Option Text → Option Text → Bool
same_hash h none = false
same_hash h (some hash) = equals_hash h hash

abbrev pub scan_one : Option Credential → Db → Result Credential × Db
scan_one none d = (err (sentinel credential_not_found), d)
scan_one (some c) d = (ok c, d)

-- The UPDATE sets every column but the key and created_at.
abbrev pub updated : Credential → Credential → Credential
updated c x = record c { user_id = x.user_id; created_at = x.created_at }

-- Another row holds the setup token's hash already.
abbrev pub hash_taken : Credential → Credential → Bool
hash_taken c x = not (of_user c.user_id x) && same_hash x.setup_token_hash c.setup_token_hash

module _ {S : Type 0} (env : Env) where
  unfoldable pub create : Credential → App S (Unit {0})
  create c = query env "postgres: create totp credential" λ now d.
      if exists (λ x. of_user c.user_id x || same_hash x.setup_token_hash c.setup_token_hash)
          d.credentials
        || not (exists (has_id c.user_id) d.users)
      then (err (wrap "postgres: create totp credential" (failed "constraint violation")), d)
      else (ok tt, record d { credentials = c ∷ d.credentials })

  unfoldable pub get_by_user_id : ℕ → App S Credential
  get_by_user_id user_id =
      query env "postgres: get totp credential"
        λ now d. scan_one (find (of_user user_id) d.credentials) d

  unfoldable pub get_by_setup_token_hash : Text → App S Credential
  get_by_setup_token_hash hash =
      query env "postgres: get totp credential"
        λ now d. scan_one (find (has_setup_hash hash) d.credentials) d

  unfoldable pub update : Credential → App S (Unit {0})
  update c = query env "postgres: update totp credential" λ now d.
      if not (exists (of_user c.user_id) d.credentials)
      then (err (sentinel credential_not_found), d)
      else if exists (hash_taken c) d.credentials
      then (err (wrap "postgres: update totp credential" (failed "constraint violation")), d)
      else (
        ok tt,
        record d { credentials = update_where (of_user c.user_id) (updated c) d.credentials },
      )
