-- ===== src/Domain/LoginChallenge.antt =====
-- internal/domain/loginchallenge/login_challenge.go.
use beebase_auth_service.Prelude.{ℕ, ◌+◌, Bool, Option, none, Text, ltb, is_some}

pub record LoginChallenge : Type 0 where
  pub id : ℕ
  pub user_id : ℕ
  pub token_hash : Text
  pub expires_at : ℕ
  pub created_at : ℕ
  pub consumed_at : Option ℕ

unfoldable pub new : ℕ → ℕ → ℕ → Text → ℕ → LoginChallenge
new id now user_id token_hash ttl = record {
  id = id;
  user_id = user_id;
  token_hash = token_hash;
  expires_at = now + ttl;
  created_at = now;
  consumed_at = none;
}

abbrev pub is_expired : ℕ → LoginChallenge → Bool
is_expired now c = ltb c.expires_at now

abbrev pub is_consumed : LoginChallenge → Bool
is_consumed c = is_some c.consumed_at
