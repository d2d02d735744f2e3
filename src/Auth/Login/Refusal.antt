-- ===== src/Auth/Login/Refusal.antt =====
-- What Login gives away, and what it leaves alone.
use beebase_auth_service.Prelude.{
  Option-cases, ◌≡◌, refl, Bool, true, false, ◌||◌, not, Option, none, some, find, Bool-cases, inl,
  inr,
}
use beebase_auth_service.Errors.{sentinel, invalid_credentials}
use beebase_auth_service.World.{World, err, next_event, ◌>>=◌}
use beebase_auth_service.Domain.User.{User, is_pending}
use beebase_auth_service.Repository.Users
use beebase_auth_service.Repository.Users.{has_email}
use beebase_auth_service.Auth.Ports.{Service, LoginInput, normalize_email}
use beebase_auth_service.Auth.Login.{check_credentials, login}
use beebase_auth_service.Auth.Untouched.{login-Keeps}

module _ (s : Service) where
  -- What Login refuses: an email that nobody has, a wrong password, or a user who is being deleted.
  abbrev pub is_refused : LoginInput → Option User → Bool
  is_refused input none = true
  is_refused input (some u) =
      not (s.verify_password u.password_hash input.password) || is_pending u.deletion_status

  -- The three reasons for a refusal cannot be told apart: where the database answers, Login ends in
  -- one and the same error and state.
  pub login-no_enumeration :
      (input : LoginInput) (w : World s.Sessions)
      → s.env.fault w.event ≡ false
      → is_refused input (find (has_email (normalize_email s input.email)) w.db.users) ≡ true
      → login s input w ≡ (err (sentinel invalid_credentials), next_event w)
  unfolding login check_credentials Users.get_by_email ◌>>=◌
  login-no_enumeration input w fine refused =
      elim (Option-cases (find (has_email (normalize_email s input.email)) w.db.users)) [
        | inl missing ↦ simp (fine, missing) refl
        | inr (u, found) ↦ elim (Bool-cases (s.verify_password u.password_hash input.password)) [
          | inl right ↦
              let pending : is_pending u.deletion_status ≡ true = rw (found, right) at refused in
              simp (fine, found, right, pending) refl
          | inr wrong ↦ simp (fine, found, wrong) refl
        ]
      ]

  -- Login alone never opens a session: whatever its outcome, no refresh token and no user has
  -- changed.
  pub login-opens_no_session :
      (input : LoginInput) (w : World s.Sessions)
      → ((login s input w).1.db.users ≡ w.db.users)
        × ((login s input w).1.db.refresh_tokens ≡ w.db.refresh_tokens)
  login-opens_no_session input w =
      let (same_users, same_tokens, same_jobs) =
        (login-Keeps s w.db.users w.db.refresh_tokens w.db.jobs input).at w (refl, refl, refl) in
      (same_users, same_tokens)
