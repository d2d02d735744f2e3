-- ===== src/Repository/Untouched.antt =====
-- Statements that leave the users, the refresh tokens and the jobs as they are.
use beebase_auth_service.Prelude.{ℕ, ◌≡◌, refl, List, Text, arith}
use beebase_auth_service.World.{Db, JobRow}
use beebase_auth_service.World.Keeps.{Keeps, Keeps-query, keeps_rules}
use beebase_auth_service.World.{App, Env}
use beebase_auth_service.Domain.User.{User}
use beebase_auth_service.Domain.Token.{RefreshToken}
use beebase_auth_service.Domain.Totp.{Credential}
use beebase_auth_service.Domain.LoginChallenge.{LoginChallenge}
use beebase_auth_service.Domain.PasswordReset.{PasswordResetFlow}
use beebase_auth_service.Repository.Users
use beebase_auth_service.Repository.RefreshTokens
use beebase_auth_service.Repository.Credentials
use beebase_auth_service.Repository.LoginChallenges
use beebase_auth_service.Repository.PasswordResetFlows

abbrev pub HasTables : List User → List RefreshToken → List JobRow → Db → Type 0
HasTables users tokens jobs d = (d.users ≡ users) × (d.refresh_tokens ≡ tokens) × (d.jobs ≡ jobs)

module _ {S : Type 0} (env : Env) (users : List User) (tokens : List RefreshToken)
    (jobs : List JobRow) where
  pub get_by_id-Keeps :
      (id : ℕ) → Keeps {S = S} (HasTables users tokens jobs) (Users.get_by_id env id)
  unfolding Users.get_by_id
  get_by_id-Keeps id = Keeps-query env _ _ λ now d h. ground (arith, h)

  pub get_by_email-Keeps :
      (email : Text) → Keeps {S = S} (HasTables users tokens jobs) (Users.get_by_email env email)
  unfolding Users.get_by_email
  get_by_email-Keeps email = Keeps-query env _ _ λ now d h. ground (arith, h)

  pub get_token-Keeps :
      (hash : Text)
      → Keeps {S = S} (HasTables users tokens jobs) (RefreshTokens.get_by_hash env hash)
  unfolding RefreshTokens.get_by_hash
  get_token-Keeps hash = Keeps-query env _ _ λ now d h. ground (arith, h)

  pub get_credential-Keeps :
      (id : ℕ) → Keeps {S = S} (HasTables users tokens jobs) (Credentials.get_by_user_id env id)
  unfolding Credentials.get_by_user_id
  get_credential-Keeps id = Keeps-query env _ _ λ now d h. ground (arith, h)

  pub get_by_setup_hash-Keeps :
      (hash : Text)
      → Keeps {S = S} (HasTables users tokens jobs) (Credentials.get_by_setup_token_hash env hash)
  unfolding Credentials.get_by_setup_token_hash
  get_by_setup_hash-Keeps hash = Keeps-query env _ _ λ now d h. ground (arith, h)

  pub create_credential-Keeps :
      (c : Credential) → Keeps {S = S} (HasTables users tokens jobs) (Credentials.create env c)
  unfolding Credentials.create
  create_credential-Keeps c = Keeps-query env _ _ λ now d h. ground (arith, h)

  pub update_credential-Keeps :
      (c : Credential) → Keeps {S = S} (HasTables users tokens jobs) (Credentials.update env c)
  unfolding Credentials.update
  update_credential-Keeps c = Keeps-query env _ _ λ now d h. ground (arith, h)

  pub get_challenge-Keeps :
      (hash : Text)
      → Keeps {S = S} (HasTables users tokens jobs) (LoginChallenges.get_by_hash env hash)
  unfolding LoginChallenges.get_by_hash
  get_challenge-Keeps hash = Keeps-query env _ _ λ now d h. ground (arith, h)

  pub create_challenge-Keeps :
      (c : LoginChallenge)
      → Keeps {S = S} (HasTables users tokens jobs) (LoginChallenges.create env c)
  unfolding LoginChallenges.create
  create_challenge-Keeps c = Keeps-query env _ _ λ now d h. ground (arith, h)

  pub consume-Keeps :
      (id : ℕ) → Keeps {S = S} (HasTables users tokens jobs) (LoginChallenges.consume env id)
  unfolding LoginChallenges.consume
  consume-Keeps id = Keeps-query env _ _ λ now d h. ground (arith, h)

  pub get_by_flow_hash-Keeps :
      (hash : Text)
      → Keeps {S = S}
          (HasTables users tokens jobs)
          (PasswordResetFlows.get_by_flow_token_hash env hash)
  unfolding PasswordResetFlows.get_by_flow_token_hash
  get_by_flow_hash-Keeps hash = Keeps-query env _ _ λ now d h. ground (arith, h)

  pub get_by_reset_hash-Keeps :
      (hash : Text)
      → Keeps {S = S}
          (HasTables users tokens jobs)
          (PasswordResetFlows.get_by_reset_token_hash env hash)
  unfolding PasswordResetFlows.get_by_reset_token_hash
  get_by_reset_hash-Keeps hash = Keeps-query env _ _ λ now d h. ground (arith, h)

  pub create_flow-Keeps :
      (f : PasswordResetFlow)
      → Keeps {S = S} (HasTables users tokens jobs) (PasswordResetFlows.create env f)
  unfolding PasswordResetFlows.create
  create_flow-Keeps f = Keeps-query env _ _ λ now d h. ground (arith, h)

  pub update_flow-Keeps :
      (f : PasswordResetFlow)
      → Keeps {S = S} (HasTables users tokens jobs) (PasswordResetFlows.update env f)
  unfolding PasswordResetFlows.update
  update_flow-Keeps f = Keeps-query env _ _ λ now d h. ground (arith, h)

-- What depends on these tables alone is kept.
pub Keeps-tables :
    {S A : Type 0} (R : List User → List RefreshToken → List JobRow → Type 0) (m : App S A)
    → ((users : List User) (tokens : List RefreshToken) (jobs : List JobRow)
        → Keeps (HasTables users tokens jobs) m)
    → Keeps (λ d. R d.users d.refresh_tokens d.jobs) m
Keeps-tables R m k = record {
  at = λ w h.
      let (same_users, same_tokens, same_jobs) =
        (k w.db.users w.db.refresh_tokens w.db.jobs).at w (refl, refl, refl) in
      rw (same_users, same_tokens, same_jobs) h;
}

pub ruleset untouched_rules = (
  keeps_rules, get_by_id-Keeps, get_by_email-Keeps, get_token-Keeps, get_credential-Keeps,
  get_by_setup_hash-Keeps, create_credential-Keeps, update_credential-Keeps, get_challenge-Keeps,
  create_challenge-Keeps, consume-Keeps, get_by_flow_hash-Keeps, get_by_reset_hash-Keeps,
  create_flow-Keeps, update_flow-Keeps,
)
