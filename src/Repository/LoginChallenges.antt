-- ===== src/Repository/LoginChallenges.antt =====
-- internal/repository/postgres/login_challenge_repository.go.
use beebase_auth_service.Prelude.{
  ℕ, Bool, ◌||◌, ◌&&◌, not, Option, none, some, ◌∷◌, Text, ◌==◌, text_eq, find, exists,
  update_where, if◌then◌else◌,
}
use beebase_auth_service.Errors.{challenge_not_found, sentinel, failed, wrap}
use beebase_auth_service.Domain.LoginChallenge.{LoginChallenge, is_consumed}
use beebase_auth_service.Repository.Users.{has_id}
use beebase_auth_service.World.{Result, ok, err, Db, Env, App, query}

abbrev pub has_hash : Text → LoginChallenge → Bool
has_hash hash c = text_eq c.token_hash hash

abbrev pub scan_one : Option LoginChallenge → Db → Result LoginChallenge × Db
scan_one none d = (err (sentinel challenge_not_found), d)
scan_one (some c) d = (ok c, d)

abbrev pub conflicts : LoginChallenge → LoginChallenge → Bool
conflicts c x = x.id == c.id || has_hash c.token_hash x

-- `id = $1 AND consumed_at IS NULL`.
abbrev pub is_open : ℕ → LoginChallenge → Bool
is_open id c = c.id == id && not (is_consumed c)

module _ {S : Type 0} (env : Env) where
  unfoldable pub create : LoginChallenge → App S (Unit {0})
  create c = query env "postgres: create login challenge" λ now d.
      if exists (conflicts c) d.login_challenges || not (exists (has_id c.user_id) d.users)
      then (err (wrap "postgres: create login challenge" (failed "constraint violation")), d)
      else (ok tt, record d { login_challenges = c ∷ d.login_challenges })

  unfoldable pub get_by_hash : Text → App S LoginChallenge
  get_by_hash hash =
      query env "postgres: get login challenge"
        λ now d. scan_one (find (has_hash hash) d.login_challenges) d

  unfoldable pub consume : ℕ → App S (Unit {0})
  consume id = query env "postgres: consume login challenge" λ now d. (
    ok tt,
    record d {
      login_challenges =
          update_where (is_open id) (λ c. record c { consumed_at = some now }) d.login_challenges;
    },
  )
