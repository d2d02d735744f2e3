-- ===== src/Lifecycle/Doomed/Steps.antt =====
-- No step of the service brings an account back that is being deleted.
use beebase_auth_service.Prelude.{
  ℕ, ◌≡◌, refl, true, false, Option, none, some, List, [], ◌∷◌, Text, arith, ◌==◌, ◌||◌, find,
  exists, Bool-cases, inl, inr,
}
use beebase_auth_service.World.{World, JobRow, Db}
use beebase_auth_service.World.Keeps.{Keeps, Keeps-query, keeps_rules}
use beebase_auth_service.Domain.User.{User}
use beebase_auth_service.Domain.Token.{RefreshToken}
use beebase_auth_service.Repository.Untouched.{Keeps-tables}
use beebase_auth_service.Repository.Users
use beebase_auth_service.Repository.Users.{has_id}
use beebase_auth_service.Auth.Ports.{Service, RegisterInput}
use beebase_auth_service.Auth.Setup
use beebase_auth_service.Auth.Untouched.{
  begin_totp_setup-Keeps, login-Keeps, current_user-Keeps, request_password_reset-Keeps,
  verify_password_reset_otp-Keeps,
}
use beebase_auth_service.DeletionWorker.{Clients}
use beebase_auth_service.Http.Handlers
use beebase_auth_service.Http.Handlers.{Parsers}
use beebase_auth_service.Http.Profile
use beebase_auth_service.Http.Router.{
  Request, dispatch, post_register, post_login, post_refresh, post_logout, post_setup_verify,
  post_login_verify_otp, post_reset_request, post_reset_verify_otp, post_reset_confirm, get_me,
  post_change_password, get_profile, put_profile, delete_profile,
}
use beebase_auth_service.Lifecycle.{
  Event, http_request, worker_tick, sessions_changed, step, pending_row, pending_of,
}
use beebase_auth_service.Lifecycle.Handled.{
  IsSteady, served-IsSteady, decode-IsSteady, require_user-IsSteady, cookie-IsSteady,
  require_auth-IsSteady,
}
use beebase_auth_service.Lifecycle.Doomed.{doomed_row, doomed_of, IsDoomed, IsDoomedIn}
use beebase_auth_service.Lifecycle.Doomed.Operations.{
  refresh-IsDoomed, logout-IsDoomed, setup_verify_otp-IsDoomed, login_verify_otp-IsDoomed,
}
use beebase_auth_service.Lifecycle.Doomed.Accounts.{
  change_password-IsDoomed, confirm_password_reset-IsDoomed, update_profile-IsDoomed,
  delete_account-IsDoomed,
}
use beebase_auth_service.Lifecycle.Doomed.Worker.{run_once-IsDoomed}

abbrev IsLeaving : ℕ → List User → List RefreshToken → List JobRow → Type 0
IsLeaving id users tokens jobs = pending_of id users ≡ true

abbrev IsLeavingIn : ℕ → Db → Type 0
IsLeavingIn id d = pending_of id d.users ≡ true

IsLeaving-doomed : (o : Option User) → pending_row o ≡ true → doomed_row o ≡ true
IsLeaving-doomed none h = refl
IsLeaving-doomed (some u) h = h

fresh-apart :
    (k : ℕ) (u : User) (us : List User)
    → exists (λ x. has_id u.id x || Users.has_email u.email x) us ≡ false
    → pending_of k us ≡ true
    → (u.id == k) ≡ false
unfolding find exists
fresh-apart k u [] fresh h = ground (arith, h)
fresh-apart k u (x ∷ us) fresh h = elim (Bool-cases (x.id == k)) [
  | inl own ↦ let taken : (x.id == u.id) ≡ false = ground (arith, fresh) in ground arith
  | inr other ↦ fresh-apart k u us (ground (arith, fresh)) (rw other at h)
]

inserted-IsLeaving :
    (k : ℕ) (u : User) (us : List User)
    → exists (λ x. has_id u.id x || Users.has_email u.email x) us ≡ false
    → pending_of k us ≡ true
    → pending_of k (Users.inserted u ∷ us) ≡ true
unfolding find
inserted-IsLeaving k u us fresh h = let apart = fresh-apart k u us fresh h in rw apart h

module _ (s : Service) (k : ℕ) where
  -- Only an account with another id can be registered while this one is there.
  create_user-IsLeaving : (u : User) → Keeps {S = s.Sessions} (IsLeavingIn k) (Users.create s.env u)
  unfolding Users.create
  create_user-IsLeaving u = Keeps-query s.env _ _ λ now d h.
      elim (Bool-cases (exists (λ x. has_id u.id x || Users.has_email u.email x) d.users)) [
        | inl bad ↦ rw bad h
        | inr fine ↦ rw fine (inserted-IsLeaving k u d.users fine h)
      ]

  begin_setup-IsLeaving : (u : User) → Keeps (IsLeavingIn k) (Setup.begin_totp_setup s u)
  begin_setup-IsLeaving u =
      Keeps-tables (IsLeaving k) _ λ users tokens jobs. begin_totp_setup-Keeps s users tokens jobs u

  register-IsLeaving : (input : RegisterInput) → Keeps (IsLeavingIn k) (Setup.register s input)
  unfolding Setup.register
  register-IsLeaving input =
      search (keeps_rules, create_user-IsLeaving, begin_setup-IsLeaving) depth 12

module _ (s : Service) (parsers : Parsers) (authenticate : World s.Sessions → Text → Option ℕ)
    (k : ℕ) where
  me-IsDoomed : (user : Option ℕ) → IsSteady (IsDoomedIn k) (Handlers.me s user)
  unfolding Handlers.me
  me-IsDoomed user = require_user-IsSteady (IsDoomedIn k) user _ λ id.
      served-IsSteady (IsDoomedIn k) _ _ _
        (Keeps-tables (IsDoomed k) _ λ users tokens jobs. current_user-Keeps s users tokens jobs id)

  get-IsDoomed : (user : Option ℕ) → IsSteady (IsDoomedIn k) (Profile.get s parsers user)
  unfolding Profile.get
  get-IsDoomed user = require_user-IsSteady (IsDoomedIn k) user _ λ id.
      served-IsSteady (IsDoomedIn k) _ _ _
        (Keeps-tables (IsDoomed k) _ λ users tokens jobs. current_user-Keeps s users tokens jobs id)

  dispatch-IsDoomed :
      (request : Request) (w : World s.Sessions)
      → IsLeavingIn k w.db
      → IsDoomedIn k (dispatch s parsers authenticate request w).1.db
  unfolding dispatch Handlers.register Handlers.login Handlers.refresh Handlers.logout
      Handlers.setup_verify_otp Handlers.login_verify_otp Handlers.request_password_reset
      Handlers.verify_password_reset_otp Handlers.confirm_password_reset Handlers.change_password
      Profile.update Profile.delete
  dispatch-IsDoomed (post_register r) w h = IsLeaving-doomed _ (
      (decode-IsSteady (IsLeavingIn k) _ r _
          λ a. served-IsSteady _ _ _ _ (register-IsLeaving s k _)).at
        w h)
  dispatch-IsDoomed (post_login r) w h =
      (decode-IsSteady (IsDoomedIn k) _ r _ λ a.
          served-IsSteady (IsDoomedIn k) _ _ _
            (Keeps-tables (IsDoomed k) _ λ users tokens jobs. login-Keeps s users tokens jobs _)).at
        w (IsLeaving-doomed _ h)
  dispatch-IsDoomed (post_refresh cookie) w h =
      (cookie-IsSteady (IsDoomedIn k) cookie _
          λ t. served-IsSteady (IsDoomedIn k) _ _ _ (refresh-IsDoomed s k t)).at
        w (IsLeaving-doomed _ h)
  dispatch-IsDoomed (post_logout cookie) w h =
      (cookie-IsSteady (IsDoomedIn k) cookie _
          λ t. served-IsSteady (IsDoomedIn k) _ _ _ (logout-IsDoomed s k t)).at
        w (IsLeaving-doomed _ h)
  dispatch-IsDoomed (post_setup_verify r) w h =
      (decode-IsSteady (IsDoomedIn k) _ r _
          λ a. served-IsSteady (IsDoomedIn k) _ _ _ (setup_verify_otp-IsDoomed s k _ _)).at
        w (IsLeaving-doomed _ h)
  dispatch-IsDoomed (post_login_verify_otp r) w h =
      (decode-IsSteady (IsDoomedIn k) _ r _
          λ a. served-IsSteady (IsDoomedIn k) _ _ _ (login_verify_otp-IsDoomed s k _ _)).at
        w (IsLeaving-doomed _ h)
  dispatch-IsDoomed (post_reset_request r) w h =
      (decode-IsSteady (IsDoomedIn k) _ r _ λ a. served-IsSteady (IsDoomedIn k) _ _ _ (
          Keeps-tables (IsDoomed k) _
            λ users tokens jobs. request_password_reset-Keeps s users tokens jobs _)).at
        w (IsLeaving-doomed _ h)
  dispatch-IsDoomed (post_reset_verify_otp r) w h =
      (decode-IsSteady (IsDoomedIn k) _ r _ λ a. served-IsSteady (IsDoomedIn k) _ _ _ (
          Keeps-tables (IsDoomed k) _
            λ users tokens jobs. verify_password_reset_otp-Keeps s users tokens jobs _ _)).at
        w (IsLeaving-doomed _ h)
  dispatch-IsDoomed (post_reset_confirm r) w h =
      (decode-IsSteady (IsDoomedIn k) _ r _
          λ a. served-IsSteady (IsDoomedIn k) _ _ _ (confirm_password_reset-IsDoomed s k _ _)).at
        w (IsLeaving-doomed _ h)
  dispatch-IsDoomed (get_me header) w h =
      (require_auth-IsSteady (IsDoomedIn k) (authenticate w header) _ me-IsDoomed).at w
        (IsLeaving-doomed _ h)
  dispatch-IsDoomed (post_change_password header r) w h =
      (require_auth-IsSteady (IsDoomedIn k) (authenticate w header) _ λ user.
          require_user-IsSteady (IsDoomedIn k) user _ λ id.
            decode-IsSteady (IsDoomedIn k) _ r _
              λ a. served-IsSteady (IsDoomedIn k) _ _ _ (change_password-IsDoomed s k id _)).at
        w (IsLeaving-doomed _ h)
  dispatch-IsDoomed (get_profile header) w h =
      (require_auth-IsSteady (IsDoomedIn k) (authenticate w header) _ get-IsDoomed).at w
        (IsLeaving-doomed _ h)
  dispatch-IsDoomed (put_profile header r) w h =
      (require_auth-IsSteady (IsDoomedIn k) (authenticate w header) _ λ user.
          require_user-IsSteady (IsDoomedIn k) user _ λ id.
            decode-IsSteady (IsDoomedIn k) _ r _
              λ a. served-IsSteady (IsDoomedIn k) _ _ _ (update_profile-IsDoomed s k id _ _)).at
        w (IsLeaving-doomed _ h)
  dispatch-IsDoomed (delete_profile header r) w h =
      (require_auth-IsSteady (IsDoomedIn k) (authenticate w header) _ λ user.
          require_user-IsSteady (IsDoomedIn k) user _ λ id.
            decode-IsSteady (IsDoomedIn k) _ r _
              λ a. served-IsSteady (IsDoomedIn k) _ _ _ (delete_account-IsDoomed s k id _ _)).at
        w (IsLeaving-doomed _ h)

module _ (s : Service) (parsers : Parsers) (authenticate : World s.Sessions → Text → Option ℕ)
    (clients : Clients) where
  -- While an account is being deleted, no request, no run of the worker and no change of the session
  -- store makes it active again, whatever fails: after the event the account's row still says so, or
  -- there is no row any more.
  pub step-doomed :
      (id : ℕ) (event : Event s.Sessions) (w : World s.Sessions)
      → pending_of id w.db.users ≡ true
      → doomed_of id (step s parsers authenticate clients event w).db.users ≡ true
  unfolding step
  step-doomed id (http_request request) w h =
      dispatch-IsDoomed s parsers authenticate id request w h
  step-doomed id worker_tick w h = (run_once-IsDoomed s.env clients id).at w (IsLeaving-doomed _ h)
  step-doomed id (sessions_changed sessions) w h = IsLeaving-doomed _ h
