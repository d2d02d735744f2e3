-- ===== src/Domain/PasswordReset.antt =====
-- internal/domain/passwordreset/password_reset_flow.go: one forgot-password attempt.
use beebase_auth_service.Prelude.{
  ℕ, ◌+◌, Bool, false, ◌&&◌, Option, none, some, Text, ltb, leb, is_some,
}

pub record PasswordResetFlow : Type 0 where
  pub id : ℕ
  pub user_id : Option ℕ
  pub flow_token_hash : Text
  pub otp_verified_at : Option ℕ
  pub otp_attempts : ℕ
  pub reset_token_hash : Option Text
  pub reset_token_expires_at : Option ℕ
  pub expires_at : ℕ
  pub consumed_at : Option ℕ
  pub created_at : ℕ

unfoldable pub new : ℕ → ℕ → Option ℕ → Text → ℕ → PasswordResetFlow
new id now user_id flow_token_hash ttl = record {
  id = id;
  user_id = user_id;
  flow_token_hash = flow_token_hash;
  otp_verified_at = none;
  otp_attempts = 0;
  reset_token_hash = none;
  reset_token_expires_at = none;
  expires_at = now + ttl;
  consumed_at = none;
  created_at = now;
}

abbrev pub is_expired : ℕ → PasswordResetFlow → Bool
is_expired now f = ltb f.expires_at now

abbrev pub is_consumed : PasswordResetFlow → Bool
is_consumed f = is_some f.consumed_at

abbrev pub is_otp_verified : PasswordResetFlow → Bool
is_otp_verified f = is_some f.otp_verified_at

abbrev pub is_otp_locked : PasswordResetFlow → ℕ → Bool
is_otp_locked f max_attempts = leb max_attempts f.otp_attempts

-- The flow after the failure, and whether its own cap is reached.
unfoldable pub record_otp_failure : PasswordResetFlow → ℕ → PasswordResetFlow × Bool
record_otp_failure f max_attempts =
    let attempts = f.otp_attempts + 1 in
    (record f { otp_attempts = attempts }, leb max_attempts attempts)

unfoldable pub mark_otp_verified : ℕ → PasswordResetFlow → PasswordResetFlow
mark_otp_verified now f = record f { otp_verified_at = some now }

unfoldable pub issue_reset_token : ℕ → PasswordResetFlow → Text → ℕ → PasswordResetFlow
issue_reset_token now f hash ttl = record f {
  reset_token_hash = some hash;
  reset_token_expires_at = some (now + ttl);
}

abbrev pub is_reset_token_valid : ℕ → PasswordResetFlow → Bool
is_reset_token_valid now f =
    is_some f.reset_token_hash
    && elim f.reset_token_expires_at [ none ↦ false | some t ↦ ltb now t ]

unfoldable pub consume : ℕ → PasswordResetFlow → PasswordResetFlow
consume now f = record f { consumed_at = some now }
