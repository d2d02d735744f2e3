-- ===== src/Domain/Token.antt =====
-- internal/domain/token/refresh_token.go.
use beebase_auth_service.Prelude.{ℕ, ◌+◌, Bool, Option, none, Text, ltb, is_some}

pub record RefreshToken : Type 0 where
  pub id : ℕ
  pub user_id : ℕ
  pub token_hash : Text
  pub expires_at : ℕ
  pub created_at : ℕ
  pub revoked_at : Option ℕ

unfoldable pub new : ℕ → ℕ → ℕ → Text → ℕ → RefreshToken
new id now user_id token_hash ttl = record {
  id = id;
  user_id = user_id;
  token_hash = token_hash;
  expires_at = now + ttl;
  created_at = now;
  revoked_at = none;
}

abbrev pub is_expired : ℕ → RefreshToken → Bool
is_expired now t = ltb t.expires_at now

abbrev pub is_revoked : RefreshToken → Bool
is_revoked t = is_some t.revoked_at
