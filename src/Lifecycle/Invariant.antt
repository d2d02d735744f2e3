-- ===== src/Lifecycle/Invariant.antt =====
-- What holds in every state that the service can reach.
use beebase_auth_service.Prelude.{find, ℕ, ◌≤◌, ◌≡◌, refl, true, Option, List, [], ◌∷◌, Text, arith}
use beebase_auth_service.World.{World}
use beebase_auth_service.Auth.Ports.{Service}
use beebase_auth_service.DeletionWorker.{Clients}
use beebase_auth_service.Http.Handlers
use beebase_auth_service.Http.Handlers.{
  Parsers, decode_and_validate, with_fields, require_user, refresh_token_from_cookie,
}
use beebase_auth_service.Http.Profile
use beebase_auth_service.Http.Router.{
  Request, dispatch, post_register, post_login, post_refresh, post_logout, post_setup_verify,
  post_login_verify_otp, post_reset_request, post_reset_verify_otp, post_reset_confirm, get_me,
  post_change_password, get_profile, put_profile, delete_profile,
}
use beebase_auth_service.Repository.Untouched.{Keeps-tables}
use beebase_auth_service.Lifecycle.{
  find, Event, http_request, worker_tick, sessions_changed, step, run, live_count, is_settled,
  IsSound, IsSoundIn,
}
use beebase_auth_service.Auth.Untouched.{
  login-Keeps, current_user-Keeps, request_password_reset-Keeps, verify_password_reset_otp-Keeps,
}
use beebase_auth_service.Lifecycle.Sessions.{refresh-Keeps, logout-Keeps}
use beebase_auth_service.Lifecycle.Operations.{
  register-Keeps, setup_verify_otp-Keeps, login_verify_otp-Keeps,
}
use beebase_auth_service.Lifecycle.Accounts.{
  change_password-Keeps, confirm_password_reset-Keeps, update_profile-Keeps, delete_account-Keeps,
}
use beebase_auth_service.Lifecycle.Worker.{run_once-IsSound}
use beebase_auth_service.Lifecycle.Handled.{
  IsSteady, served-IsSteady, decode-IsSteady, require_user-IsSteady, cookie-IsSteady,
  require_auth-IsSteady,
}

empty-IsSound : (id : ℕ) → IsSound id [] [] []
unfolding live_count find
empty-IsSound id = (ground arith, refl)

module _ (s : Service) (parsers : Parsers) (authenticate : World s.Sessions → Text → Option ℕ)
    (k : ℕ) where
  me-IsSteady : (user : Option ℕ) → IsSteady (IsSoundIn k) (Handlers.me s user)
  unfolding Handlers.me
  me-IsSteady user = require_user-IsSteady (IsSoundIn k) user _ λ id.
      served-IsSteady (IsSoundIn k) _ _ _
        (Keeps-tables (IsSound k) _ λ users tokens jobs. current_user-Keeps s users tokens jobs id)

  get-IsSteady : (user : Option ℕ) → IsSteady (IsSoundIn k) (Profile.get s parsers user)
  unfolding Profile.get
  get-IsSteady user = require_user-IsSteady (IsSoundIn k) user _ λ id.
      served-IsSteady (IsSoundIn k) _ _ _
        (Keeps-tables (IsSound k) _ λ users tokens jobs. current_user-Keeps s users tokens jobs id)

  dispatch-IsSound :
      (request : Request) (w : World s.Sessions)
      → IsSoundIn k w.db
      → IsSoundIn k (dispatch s parsers authenticate request w).1.db
  unfolding dispatch Handlers.register Handlers.login Handlers.refresh Handlers.logout
      Handlers.setup_verify_otp Handlers.login_verify_otp Handlers.request_password_reset
      Handlers.verify_password_reset_otp Handlers.confirm_password_reset Handlers.change_password
      Profile.update Profile.delete
  dispatch-IsSound (post_register r) w =
      (decode-IsSteady (IsSoundIn k) _ r _
          λ a. served-IsSteady (IsSoundIn k) _ _ _ (register-Keeps s k _)).at
        w
  dispatch-IsSound (post_login r) w =
      (decode-IsSteady (IsSoundIn k) _ r _ λ a.
          served-IsSteady (IsSoundIn k) _ _ _
            (Keeps-tables (IsSound k) _ λ users tokens jobs. login-Keeps s users tokens jobs _)).at
        w
  dispatch-IsSound (post_refresh cookie) w =
      (cookie-IsSteady (IsSoundIn k) cookie _
          λ t. served-IsSteady (IsSoundIn k) _ _ _ (refresh-Keeps s k t)).at
        w
  dispatch-IsSound (post_logout cookie) w =
      (cookie-IsSteady (IsSoundIn k) cookie _
          λ t. served-IsSteady (IsSoundIn k) _ _ _ (logout-Keeps s k t)).at
        w
  dispatch-IsSound (post_setup_verify r) w =
      (decode-IsSteady (IsSoundIn k) _ r _
          λ a. served-IsSteady (IsSoundIn k) _ _ _ (setup_verify_otp-Keeps s k _ _)).at
        w
  dispatch-IsSound (post_login_verify_otp r) w =
      (decode-IsSteady (IsSoundIn k) _ r _
          λ a. served-IsSteady (IsSoundIn k) _ _ _ (login_verify_otp-Keeps s k _ _)).at
        w
  dispatch-IsSound (post_reset_request r) w =
      (decode-IsSteady (IsSoundIn k) _ r _ λ a. served-IsSteady (IsSoundIn k) _ _ _ (
          Keeps-tables (IsSound k) _
            λ users tokens jobs. request_password_reset-Keeps s users tokens jobs _)).at
        w
  dispatch-IsSound (post_reset_verify_otp r) w =
      (decode-IsSteady (IsSoundIn k) _ r _ λ a. served-IsSteady (IsSoundIn k) _ _ _ (
          Keeps-tables (IsSound k) _
            λ users tokens jobs. verify_password_reset_otp-Keeps s users tokens jobs _ _)).at
        w
  dispatch-IsSound (post_reset_confirm r) w =
      (decode-IsSteady (IsSoundIn k) _ r _
          λ a. served-IsSteady (IsSoundIn k) _ _ _ (confirm_password_reset-Keeps s k _ _)).at
        w
  dispatch-IsSound (get_me header) w =
      (require_auth-IsSteady (IsSoundIn k) (authenticate w header) _ me-IsSteady).at w
  dispatch-IsSound (post_change_password header r) w =
      (require_auth-IsSteady (IsSoundIn k) (authenticate w header) _ λ user.
          require_user-IsSteady (IsSoundIn k) user _ λ id.
            decode-IsSteady (IsSoundIn k) _ r _
              λ a. served-IsSteady (IsSoundIn k) _ _ _ (change_password-Keeps s k id _)).at
        w
  dispatch-IsSound (get_profile header) w =
      (require_auth-IsSteady (IsSoundIn k) (authenticate w header) _ get-IsSteady).at w
  dispatch-IsSound (put_profile header r) w =
      (require_auth-IsSteady (IsSoundIn k) (authenticate w header) _ λ user.
          require_user-IsSteady (IsSoundIn k) user _ λ id.
            decode-IsSteady (IsSoundIn k) _ r _
              λ a. served-IsSteady (IsSoundIn k) _ _ _ (update_profile-Keeps s k id _ _)).at
        w
  dispatch-IsSound (delete_profile header r) w =
      (require_auth-IsSteady (IsSoundIn k) (authenticate w header) _ λ user.
          require_user-IsSteady (IsSoundIn k) user _ λ id.
            decode-IsSteady (IsSoundIn k) _ r _
              λ a. served-IsSteady (IsSoundIn k) _ _ _ (delete_account-Keeps s k id _ _)).at
        w

module _ (s : Service) (parsers : Parsers) (authenticate : World s.Sessions → Text → Option ℕ)
    (clients : Clients) where
  step-IsSound :
      (k : ℕ) (event : Event s.Sessions) (w : World s.Sessions)
      → IsSoundIn k w.db
      → IsSoundIn k (step s parsers authenticate clients event w).db
  unfolding step
  step-IsSound k (http_request request) w h = dispatch-IsSound s parsers authenticate k request w h
  step-IsSound k worker_tick w h = (run_once-IsSound s.env clients k).at w h
  step-IsSound k (sessions_changed sessions) w h = h

  run-kept :
      (k : ℕ) (events : List (Event s.Sessions)) (w : World s.Sessions)
      → IsSoundIn k w.db
      → IsSoundIn k (run s parsers authenticate clients events w).db
  unfolding run
  run-kept k [] w h = h
  run-kept k (event ∷ events) w h =
      run-kept k events (step s parsers authenticate clients event w) (step-IsSound k event w h)

  -- From a database with no users, refresh tokens and jobs, requests and runs of the worker that
  -- follow one another, with changes of the session store in between, lead only to states in which
  -- every user has at most one live refresh token, and, while the account is being deleted, none at
  -- all and a row in the table of deletion jobs, be it open or completed; whatever fails.
  pub run-IsSound :
      (events : List (Event s.Sessions)) (w : World s.Sessions) (id : ℕ)
      → w.db.users ≡ []
      → w.db.refresh_tokens ≡ []
      → w.db.jobs ≡ []
      → let d = (run s parsers authenticate clients events w).db in
        (live_count id d.refresh_tokens ≤ 1)
        × (is_settled id d.users d.refresh_tokens d.jobs ≡ true)
  run-IsSound events w id no_users no_tokens no_jobs =
      run-kept id events w (rw (no_users, no_tokens, no_jobs) (empty-IsSound id))
