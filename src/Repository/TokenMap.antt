-- ===== src/Repository/TokenMap.antt =====
-- What internal/repository/postgres/refresh_token_repository.go promises its callers: a map from
-- hashes to tokens. The order of the rows, and rows that no hash leads to, do not show.
pub mod Refinement
use beebase_auth_service.Prelude.{
  ℕ, ◌+◌, Bool, ◌&&◌, Option, none, some, List, [], ◌∷◌, Text, ◌==◌, text_eq, find, if◌then◌else◌,
}
use beebase_auth_service.Errors.{token_not_found}
use beebase_auth_service.World.{Env, App, ◌>>=◌, ◌>>◌, pure, optional}
use beebase_auth_service.Domain.Token.{RefreshToken}
use beebase_auth_service.Repository.RefreshTokens
use beebase_auth_service.Repository.RefreshTokens.{has_hash, is_live, revoked}

pub data Operation : Type 0 where
  store : RefreshToken → Operation
  look_up : Text → Operation
  revoke_one revoke_all : ℕ → Operation

module _ {S : Type 0} (env : Env) where
  -- A lookup answers with what it finds, the other operations with nothing.
  unfoldable pub perform : Operation → App S (Option RefreshToken)
  perform (store t) = do RefreshTokens.create env t; pure none
  perform (look_up hash) = optional token_not_found (RefreshTokens.get_by_hash env hash)
  perform (revoke_one id) = do RefreshTokens.revoke env id; pure none
  perform (revoke_all user_id) = do RefreshTokens.revoke_all_for_user env user_id; pure none

  unfoldable pub perform_each : List Operation → App S (List (Option RefreshToken))
  perform_each [] = pure []
  perform_each (op ∷ ops) = do
    answer ← perform op
    answers ← perform_each ops
    pure (answer ∷ answers)

-- The map, and the operations on it at a time.
abbrev pub TokenMap : Type 0
TokenMap = Text → Option RefreshToken

abbrev pub revoked_where : (RefreshToken → Bool) → ℕ → Option RefreshToken → Option RefreshToken
revoked_where p now none = none
revoked_where p now (some t) = some (if p t then revoked now t else t)

abbrev pub on_map : ℕ → Operation → TokenMap → Option RefreshToken × TokenMap
on_map now (store t) m = (none, λ hash. if has_hash hash t then some t else m hash)
on_map now (look_up hash) m = (m hash, m)
on_map now (revoke_one id) m =
    (none, λ hash. revoked_where (λ t. t.id == id && is_live t) now (m hash))
on_map now (revoke_all user_id) m =
    (none, λ hash. revoked_where (λ t. t.user_id == user_id && is_live t) now (m hash))

-- Each operation is one event of the clock.
abbrev pub on_map_each : Env → ℕ → List Operation → TokenMap → List (Option RefreshToken) × TokenMap
on_map_each env n [] m = ([], m)
on_map_each env n (op ∷ ops) m =
    let (answer, m') = on_map (env.now n) op m in
    let (answers, m'') = on_map_each env (n + 1) ops m' in (answer ∷ answers, m'')

-- What the table stands for.
abbrev pub view : List RefreshToken → TokenMap
view tokens hash = find (has_hash hash) tokens
