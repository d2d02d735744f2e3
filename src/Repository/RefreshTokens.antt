-- ===== src/Repository/RefreshTokens.antt =====
-- internal/repository/postgres/refresh_token_repository.go.
use beebase_auth_service.Prelude.{
  ℕ, Bool, ◌||◌, ◌&&◌, not, Option, none, some, ◌∷◌, Text, ◌==◌, text_eq, find, exists,
  update_where, if◌then◌else◌,
}
use beebase_auth_service.Errors.{token_not_found, sentinel, failed, wrap}
use beebase_auth_service.Domain.Token.{RefreshToken, is_revoked}
use beebase_auth_service.Repository.Users.{has_id}
use beebase_auth_service.World.{Result, ok, err, Db, Env, App, query}

abbrev pub has_hash : Text → RefreshToken → Bool
has_hash hash t = text_eq t.token_hash hash

abbrev pub is_live : RefreshToken → Bool
is_live t = not (is_revoked t)

-- `SET revoked_at = now()`.
abbrev pub revoked : ℕ → RefreshToken → RefreshToken
revoked now t = record t { revoked_at = some now }

abbrev pub scan_one : Option RefreshToken → Db → Result RefreshToken × Db
scan_one none d = (err (sentinel token_not_found), d)
scan_one (some t) d = (ok t, d)

abbrev pub conflicts : RefreshToken → RefreshToken → Bool
conflicts t x = x.id == t.id || has_hash t.token_hash x

module _ {S : Type 0} (env : Env) where
  unfoldable pub create : RefreshToken → App S (Unit {0})
  create t = query env "postgres: create refresh token" λ now d.
      if exists (conflicts t) d.refresh_tokens || not (exists (has_id t.user_id) d.users)
      then (err (wrap "postgres: create refresh token" (failed "constraint violation")), d)
      else (ok tt, record d { refresh_tokens = t ∷ d.refresh_tokens })

  unfoldable pub get_by_hash : Text → App S RefreshToken
  get_by_hash hash =
      query env "postgres: get refresh token"
        λ now d. scan_one (find (has_hash hash) d.refresh_tokens) d

  unfoldable pub revoke : ℕ → App S (Unit {0})
  revoke id = query env "postgres: revoke refresh token" λ now d. (
    ok tt,
    record d {
      refresh_tokens = update_where (λ t. t.id == id && is_live t) (revoked now) d.refresh_tokens;
    },
  )

  unfoldable pub revoke_all_for_user : ℕ → App S (Unit {0})
  revoke_all_for_user user_id = query env "postgres: revoke all refresh tokens" λ now d. (
    ok tt,
    record d {
      refresh_tokens =
          update_where (λ t. t.user_id == user_id && is_live t) (revoked now) d.refresh_tokens;
    },
  )
