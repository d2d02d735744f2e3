-- ===== src/Domain/Totp.antt =====
-- internal/domain/totp/credential.go: a user's TOTP enrollment, its lockout and its anti-replay
-- counter. A method that reads the clock takes the reading, one for each read.
pub mod Lockout
use beebase_auth_service.Prelude.{
  ℕ, ◌+◌, Bool, true, false, Option, none, some, Text, ltb, leb, is_some, if◌then◌else◌,
}

pub record Credential : Type 0 where
  pub user_id : ℕ
  pub secret_encrypted : Text
  pub enabled_at : Option ℕ
  pub setup_token_hash : Option Text
  pub setup_token_expires_at : Option ℕ
  pub failed_attempts : ℕ
  pub locked_until : Option ℕ
  pub last_used_counter : Option ℕ
  pub created_at : ℕ
  pub updated_at : ℕ

unfoldable pub new : ℕ → ℕ → Text → Text → ℕ → Credential
new now user_id secret_encrypted setup_token_hash setup_ttl = record {
  user_id = user_id;
  secret_encrypted = secret_encrypted;
  enabled_at = none;
  setup_token_hash = some setup_token_hash;
  setup_token_expires_at = some (now + setup_ttl);
  failed_attempts = 0;
  locked_until = none;
  last_used_counter = none;
  created_at = now;
  updated_at = now;
}

unfoldable pub begin_setup : ℕ → Credential → Text → Text → ℕ → Credential
begin_setup now c secret_encrypted setup_token_hash setup_ttl = record c {
  secret_encrypted = secret_encrypted;
  setup_token_hash = some setup_token_hash;
  setup_token_expires_at = some (now + setup_ttl);
  enabled_at = none;
  failed_attempts = 0;
  locked_until = none;
  updated_at = now;
}

unfoldable pub enable : ℕ → Credential → Credential
enable now c = record c {
  enabled_at = some now;
  setup_token_hash = none;
  setup_token_expires_at = none;
  updated_at = now;
}

abbrev pub is_enabled : Credential → Bool
is_enabled c = is_some c.enabled_at

-- A missing expiry counts as expired.
abbrev pub is_setup_token_expired : ℕ → Credential → Bool
is_setup_token_expired now c = elim c.setup_token_expires_at [ none ↦ true | some t ↦ ltb t now ]

abbrev pub is_locked : ℕ → Credential → Bool
is_locked now c = elim c.locked_until [ none ↦ false | some t ↦ ltb now t ]

-- The first reading starts the lockout, the second stamps the update.
unfoldable pub record_failure : ℕ → ℕ → Credential → ℕ → ℕ → Credential
record_failure lock_now update_now c max_attempts lockout_for =
    if leb max_attempts (c.failed_attempts + 1)
    then record c {
      failed_attempts = 0;
      locked_until = some (lock_now + lockout_for);
      updated_at = update_now;
    }
    else record c { failed_attempts = c.failed_attempts + 1; updated_at = update_now }

unfoldable pub mark_code_used : ℕ → Credential → ℕ → Credential
mark_code_used now c counter = record c { last_used_counter = some counter; updated_at = now }

unfoldable pub record_success : ℕ → Credential → ℕ → Credential
unfolding mark_code_used
record_success now c counter =
    mark_code_used now (record c { failed_attempts = 0; locked_until = none }) counter

abbrev pub is_code_consumed : Credential → ℕ → Bool
is_code_consumed c counter = elim c.last_used_counter [
  | none ↦ false
  | some last ↦ leb counter last
]
