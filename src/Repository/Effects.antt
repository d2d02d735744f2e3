-- ===== src/Repository/Effects.antt =====
-- What the statements of the repositories have done where they end well.
use beebase_auth_service.Prelude.{
  none, true, ℕ, ◌≡◌, refl, false, ◌&&◌, some, List, [], ◌∷◌, All, Text, ◌==◌, arith, find, exists,
  update_where,
}
use beebase_auth_service.Errors.{Error, is, token_not_found, credential_not_found, user_not_found}
use beebase_auth_service.World.{err, query, Env, World}
use beebase_auth_service.World.Ensures.{Ensures, Ensures-query, with_db}
use beebase_auth_service.Domain.User.{User}
use beebase_auth_service.Domain.Token.{RefreshToken}
use beebase_auth_service.Domain.Totp.{Credential}
use beebase_auth_service.Domain.PasswordReset.{PasswordResetFlow}
use beebase_auth_service.Repository.Users
use beebase_auth_service.Repository.RefreshTokens
use beebase_auth_service.Repository.RefreshTokens.{is_live, revoked}
use beebase_auth_service.Repository.Credentials
use beebase_auth_service.Repository.LoginChallenges
use beebase_auth_service.Repository.LoginChallenges.{is_open}
use beebase_auth_service.Repository.PasswordResetFlows

-- The token is not a live token of the user.
abbrev pub IsDead : ℕ → RefreshToken → Type 0
IsDead user_id t = (t.user_id == user_id && is_live t) ≡ false

abbrev pub revoke_of : ℕ → ℕ → List RefreshToken → List RefreshToken
revoke_of now user_id = update_where (λ t. t.user_id == user_id && is_live t) (revoked now)

pub revoke_of-IsDead :
    (now user_id : ℕ) (ts : List RefreshToken) → All (IsDead user_id) (revoke_of now user_id ts)
unfolding update_where
revoke_of-IsDead now user_id [] = tt
revoke_of-IsDead now user_id (t ∷ ts) = (ground arith, revoke_of-IsDead now user_id ts)

module _ {S : Type 0} (env : Env) (w : World S) where
  pub get_by_id-Ensures :
      (id : ℕ)
      → Ensures
          (Users.get_by_id env id)
          w
          (λ u v. (find (Users.has_id id) w.db.users ≡ some u) × (v ≡ with_db w w.db))
  unfolding Users.get_by_id
  get_by_id-Ensures id = Ensures-query env _ _ λ u e. (ground arith, ground arith)

  pub get_by_email-Ensures :
      (email : Text)
      → Ensures
          (Users.get_by_email env email)
          w
          (λ u v. (find (Users.has_email email) w.db.users ≡ some u) × (v ≡ with_db w w.db))
  unfolding Users.get_by_email
  get_by_email-Ensures email = Ensures-query env _ _ λ u e. (ground arith, ground arith)

  pub update_user-Ensures :
      (u : User)
      → Ensures (Users.update env u) w (λ _ v.
        v
        ≡ with_db w (record w.db {
          users =
              update_where
                (Users.has_id u.id)
                (λ x. record x {
                  first_name = u.first_name;
                  last_name = u.last_name;
                  avatar_media_id = u.avatar_media_id;
                  updated_at = u.updated_at;
                })
                w.db.users;
        }))
  unfolding Users.update
  update_user-Ensures u = Ensures-query env _ _ λ _ e. ground arith

  pub update_password-Ensures :
      (id : ℕ) (hash : Text)
      → Ensures (Users.update_password env id hash) w (λ _ v.
        v
        ≡ with_db w (record w.db {
          users =
              update_where
                (Users.has_id id)
                (λ x. record x { password_hash = hash; updated_at = env.now w.event })
                w.db.users;
        }))
  unfolding Users.update_password
  update_password-Ensures id hash = Ensures-query env _ _ λ u e. ground arith

  pub revoke_all-Ensures :
      (user_id : ℕ)
      → Ensures (RefreshTokens.revoke_all_for_user env user_id) w (λ _ v.
        v
        ≡ with_db w (record w.db {
          refresh_tokens = revoke_of (env.now w.event) user_id w.db.refresh_tokens;
        }))
  unfolding RefreshTokens.revoke_all_for_user
  revoke_all-Ensures user_id = Ensures-query env _ _ λ u e. refl

  pub revoke-Ensures :
      (id : ℕ)
      → Ensures (RefreshTokens.revoke env id) w (λ _ v.
        v
        ≡ with_db w (record w.db {
          refresh_tokens =
              update_where
                (λ t. t.id == id && is_live t)
                (revoked (env.now w.event))
                w.db.refresh_tokens;
        }))
  unfolding RefreshTokens.revoke
  revoke-Ensures id = Ensures-query env _ _ λ u e. refl

  pub create_token-Ensures :
      (t : RefreshToken)
      → Ensures (RefreshTokens.create env t) w (λ _ v.
        (exists (RefreshTokens.conflicts t) w.db.refresh_tokens ≡ false)
        × (v ≡ with_db w (record w.db { refresh_tokens = t ∷ w.db.refresh_tokens })))
  unfolding RefreshTokens.create
  create_token-Ensures t = Ensures-query env _ _ λ u e. (ground arith, ground arith)

  pub get_by_hash-Ensures :
      (hash : Text)
      → Ensures (RefreshTokens.get_by_hash env hash) w (λ t v.
        (find (RefreshTokens.has_hash hash) w.db.refresh_tokens ≡ some t) × (v ≡ with_db w w.db))
  unfolding RefreshTokens.get_by_hash
  get_by_hash-Ensures hash = Ensures-query env _ _ λ t e. (ground arith, ground arith)

  pub get_credential-Ensures :
      (user_id : ℕ)
      → Ensures (Credentials.get_by_user_id env user_id) w (λ c v.
        (find (Credentials.of_user user_id) w.db.credentials ≡ some c) × (v ≡ with_db w w.db))
  unfolding Credentials.get_by_user_id
  get_credential-Ensures user_id = Ensures-query env _ _ λ c e. (ground arith, ground arith)

  pub get_by_setup_hash-Ensures :
      (hash : Text)
      → Ensures (Credentials.get_by_setup_token_hash env hash) w (λ c v.
        (find (Credentials.has_setup_hash hash) w.db.credentials ≡ some c) × (v ≡ with_db w w.db))
  unfolding Credentials.get_by_setup_token_hash
  get_by_setup_hash-Ensures hash = Ensures-query env _ _ λ c e. (ground arith, ground arith)

  pub update_credential-Ensures :
      (c : Credential)
      → Ensures (Credentials.update env c) w (λ _ v.
        v
        ≡ with_db w (record w.db {
          credentials =
              update_where (Credentials.of_user c.user_id) (Credentials.updated c) w.db.credentials;
        }))
  unfolding Credentials.update
  update_credential-Ensures c = Ensures-query env _ _ λ u e. ground arith

  pub get_challenge-Ensures :
      (hash : Text)
      → Ensures (LoginChallenges.get_by_hash env hash) w (λ c v.
        (find (LoginChallenges.has_hash hash) w.db.login_challenges ≡ some c)
        × (v ≡ with_db w w.db))
  unfolding LoginChallenges.get_by_hash
  get_challenge-Ensures hash = Ensures-query env _ _ λ c e. (ground arith, ground arith)

  pub consume-Ensures :
      (id : ℕ)
      → Ensures (LoginChallenges.consume env id) w (λ _ v.
        v
        ≡ with_db w (record w.db {
          login_challenges =
              update_where
                (is_open id)
                (λ c. record c { consumed_at = some (env.now w.event) })
                w.db.login_challenges;
        }))
  unfolding LoginChallenges.consume
  consume-Ensures id = Ensures-query env _ _ λ u e. refl

  pub get_by_reset_hash-Ensures :
      (hash : Text)
      → Ensures (PasswordResetFlows.get_by_reset_token_hash env hash) w (λ f v.
        (find (PasswordResetFlows.has_reset_hash hash) w.db.password_reset_flows ≡ some f)
        × (v ≡ with_db w w.db))
  unfolding PasswordResetFlows.get_by_reset_token_hash
  get_by_reset_hash-Ensures hash = Ensures-query env _ _ λ f e. (ground arith, ground arith)

  pub get_by_flow_hash-Ensures :
      (hash : Text)
      → Ensures (PasswordResetFlows.get_by_flow_token_hash env hash) w (λ f v.
        (find (PasswordResetFlows.has_flow_hash hash) w.db.password_reset_flows ≡ some f)
        × (v ≡ with_db w w.db))
  unfolding PasswordResetFlows.get_by_flow_token_hash
  get_by_flow_hash-Ensures hash = Ensures-query env _ _ λ f e. (ground arith, ground arith)

  pub update_flow-Ensures :
      (f : PasswordResetFlow)
      → Ensures (PasswordResetFlows.update env f) w (λ _ v.
        (exists (PasswordResetFlows.hash_taken f) w.db.password_reset_flows ≡ false)
        × (v
            ≡ with_db w (record w.db {
              password_reset_flows =
                  update_where
                    (PasswordResetFlows.has_flow_id f.id)
                    (PasswordResetFlows.updated f)
                    w.db.password_reset_flows;
            })))
  unfolding PasswordResetFlows.update
  update_flow-Ensures f = Ensures-query env _ _ λ u e. (ground arith, ground arith)

  -- A lookup that fails with the error for a missing row has found none.
  pub get_by_hash-missing :
      (hash : Text) (e : Error)
      → (RefreshTokens.get_by_hash env hash w).0 ≡ err e
      → is e token_not_found ≡ true
      → (find (RefreshTokens.has_hash hash) w.db.refresh_tokens ≡ none)
        × ((RefreshTokens.get_by_hash env hash w).1 ≡ with_db w w.db)
  unfolding RefreshTokens.get_by_hash query
  get_by_hash-missing hash e h k = (ground arith, ground arith)

  pub get_credential-missing :
      (user_id : ℕ) (e : Error)
      → (Credentials.get_by_user_id env user_id w).0 ≡ err e
      → is e credential_not_found ≡ true
      → (find (Credentials.of_user user_id) w.db.credentials ≡ none)
        × ((Credentials.get_by_user_id env user_id w).1 ≡ with_db w w.db)
  unfolding Credentials.get_by_user_id query
  get_credential-missing user_id e h k = (ground arith, ground arith)

  pub get_by_email-missing :
      (email : Text) (e : Error)
      → (Users.get_by_email env email w).0 ≡ err e
      → is e user_not_found ≡ true
      → (find (Users.has_email email) w.db.users ≡ none)
        × ((Users.get_by_email env email w).1 ≡ with_db w w.db)
  unfolding Users.get_by_email query
  get_by_email-missing email e h k = (ground arith, ground arith)
