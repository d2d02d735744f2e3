-- ===== src/Http/Router/Rejected.antt =====
-- A request that a handler turns away itself has no effect.
use beebase_auth_service.Prelude.{
  ℕ, ◌≡◌, refl, Bool, true, false, Option, none, some, [], ◌∷◌, Text,
}
use beebase_auth_service.Errors.{Error}
use beebase_auth_service.World.{Result, ok, err, World, App}
use beebase_auth_service.Auth.Ports.{
  Service, LoginStatus, LoginResult, otp_required, totp_setup_required,
}
use beebase_auth_service.Http.Requests.{Fields}
use beebase_auth_service.Http.Responses.{Response}
use beebase_auth_service.Http.Replies.{
  Answer, Reply, Serve, json, no_content, failure, invalid_body, invalid_fields,
  missing_authorization, missing_refresh_token, denied, served, refused, answer_with,
}
use beebase_auth_service.Http.Handlers
use beebase_auth_service.Http.Handlers.{
  Parsers, decode_and_validate, with_fields, require_user, refresh_token_from_cookie, login_answer,
}
use beebase_auth_service.Http.Profile
use beebase_auth_service.Http.Router.{
  Request, dispatch, require_auth, post_register, post_login, post_refresh, post_logout,
  post_setup_verify, post_login_verify_otp, post_reset_request, post_reset_verify_otp,
  post_reset_confirm, get_me, post_change_password, get_profile, put_profile, delete_profile,
}

-- The answers to a request that has not come as far as the service.
abbrev pub is_rejection : Answer → Bool
is_rejection (json status body) = false
is_rejection no_content = false
is_rejection (failure response) = false
is_rejection invalid_body = true
is_rejection (invalid_fields fields) = true
is_rejection missing_authorization = true
is_rejection missing_refresh_token = true
is_rejection denied = true

module _ {S : Type 0} where
  -- Where the answer is a rejection, nothing has changed.
  abbrev IsHarmless : Serve S → Type 0
  IsHarmless handle = (w : World S) → is_rejection (handle w).0.answer ≡ true → (handle w).1 ≡ w

  refused-IsHarmless : (answer : Answer) → IsHarmless (refused answer)
  unfolding refused
  refused-IsHarmless answer w h = refl

  answer_with-passes :
      {A : Type 0} (on_error : Error → Response) (respond : A → Reply) (r : Result A) (w : World S)
      → ((a : A) → is_rejection (respond a).answer ≡ false)
      → is_rejection (answer_with on_error respond r w).0.answer ≡ false
  answer_with-passes on_error respond (ok a) w h = h a
  answer_with-passes on_error respond (err e) w h = refl

  served-IsHarmless :
      {A : Type 0} (on_error : Error → Response) (m : App S A) (respond : A → Reply)
      → ((a : A) → is_rejection (respond a).answer ≡ false)
      → IsHarmless (served on_error m respond)
  unfolding served
  served-IsHarmless on_error m respond passes w h =
      absurd (cc (h, answer_with-passes on_error respond (m w).0 (m w).1 passes))

  with_fields-IsHarmless :
      (fields : Fields) (handle : Serve S)
      → IsHarmless handle
      → IsHarmless (with_fields fields handle)
  with_fields-IsHarmless [] handle h = h
  with_fields-IsHarmless (f ∷ fields) handle h = refused-IsHarmless (invalid_fields (f ∷ fields))

  decode-IsHarmless :
      {A : Type 0} (validate : A → Fields) (request : Option A) (handle : A → Serve S)
      → ((a : A) → IsHarmless (handle a))
      → IsHarmless (decode_and_validate validate request handle)
  decode-IsHarmless validate none handle h = refused-IsHarmless invalid_body
  decode-IsHarmless validate (some a) handle h =
      with_fields-IsHarmless (validate a) (handle a) (h a)

  require_user-IsHarmless :
      (user : Option ℕ) (handle : ℕ → Serve S)
      → ((id : ℕ) → IsHarmless (handle id))
      → IsHarmless (require_user user handle)
  require_user-IsHarmless none handle h = refused-IsHarmless missing_authorization
  require_user-IsHarmless (some id) handle h = h id

  cookie-IsHarmless :
      (cookie : Option Text) (handle : Text → Serve S)
      → ((t : Text) → IsHarmless (handle t))
      → IsHarmless (refresh_token_from_cookie cookie handle)
  cookie-IsHarmless none handle h = refused-IsHarmless missing_refresh_token
  cookie-IsHarmless (some []) handle h = refused-IsHarmless missing_refresh_token
  cookie-IsHarmless (some (c ∷ value)) handle h = h (c ∷ value)

  require_auth-IsHarmless :
      (user : Option ℕ) (handle : Option ℕ → Serve S)
      → ((o : Option ℕ) → IsHarmless (handle o))
      → IsHarmless (require_auth user handle)
  require_auth-IsHarmless none handle h = refused-IsHarmless denied
  require_auth-IsHarmless (some id) handle h = h (some id)

login_answer-passes :
    (status : LoginStatus) (result : LoginResult)
    → is_rejection (login_answer status result) ≡ false
login_answer-passes otp_required result = refl
login_answer-passes totp_setup_required result = refl

module _ (s : Service) (parsers : Parsers) (authenticate : World s.Sessions → Text → Option ℕ) where
  login-IsHarmless : (r : Option Handlers.LoginRequest) → IsHarmless (Handlers.login s parsers r)
  unfolding Handlers.login
  login-IsHarmless r =
      decode-IsHarmless _ r _
        λ a. served-IsHarmless _ _ _ λ result. login_answer-passes result.status result

  -- A request that is answered because of what it is, not because of what the service says, changes
  -- nothing: a body that is not JSON, fields that are not valid, a missing cookie, user or access
  -- token. So a code that is not six digits never counts as a failed attempt.
  pub dispatch-rejected :
      (request : Request) (w : World s.Sessions)
      → is_rejection (dispatch s parsers authenticate request w).0.answer ≡ true
      → (dispatch s parsers authenticate request w).1 ≡ w
  unfolding dispatch Handlers.register Handlers.refresh Handlers.logout Handlers.setup_verify_otp
      Handlers.login_verify_otp Handlers.request_password_reset Handlers.verify_password_reset_otp
      Handlers.confirm_password_reset Handlers.me Handlers.change_password Profile.get
      Profile.update Profile.delete
  dispatch-rejected (post_register r) w =
      decode-IsHarmless _ r _ (λ a. served-IsHarmless _ _ _ λ _. refl) w
  dispatch-rejected (post_login r) w = login-IsHarmless r w
  dispatch-rejected (post_refresh cookie) w =
      cookie-IsHarmless cookie _ (λ a. served-IsHarmless _ _ _ λ _. refl) w
  dispatch-rejected (post_logout cookie) w =
      cookie-IsHarmless cookie _ (λ a. served-IsHarmless _ _ _ λ _. refl) w
  dispatch-rejected (post_setup_verify r) w =
      decode-IsHarmless _ r _ (λ a. served-IsHarmless _ _ _ λ _. refl) w
  dispatch-rejected (post_login_verify_otp r) w =
      decode-IsHarmless _ r _ (λ a. served-IsHarmless _ _ _ λ _. refl) w
  dispatch-rejected (post_reset_request r) w =
      decode-IsHarmless _ r _ (λ a. served-IsHarmless _ _ _ λ _. refl) w
  dispatch-rejected (post_reset_verify_otp r) w =
      decode-IsHarmless _ r _ (λ a. served-IsHarmless _ _ _ λ _. refl) w
  dispatch-rejected (post_reset_confirm r) w =
      decode-IsHarmless _ r _ (λ a. served-IsHarmless _ _ _ λ _. refl) w
  dispatch-rejected (get_me header) w =
      require_auth-IsHarmless (authenticate w header) _
        (λ o. require_user-IsHarmless o _ λ id. served-IsHarmless _ _ _ λ _. refl) w
  dispatch-rejected (post_change_password header r) w =
      require_auth-IsHarmless (authenticate w header) _
        (λ o.
          require_user-IsHarmless o _
            λ id. decode-IsHarmless _ r _ λ a. served-IsHarmless _ _ _ λ _. refl)
        w
  dispatch-rejected (get_profile header) w =
      require_auth-IsHarmless (authenticate w header) _
        (λ o. require_user-IsHarmless o _ λ id. served-IsHarmless _ _ _ λ _. refl) w
  dispatch-rejected (put_profile header r) w =
      require_auth-IsHarmless (authenticate w header) _
        (λ o.
          require_user-IsHarmless o _
            λ id. decode-IsHarmless _ r _ λ a. served-IsHarmless _ _ _ λ _. refl)
        w
  dispatch-rejected (delete_profile header r) w =
      require_auth-IsHarmless (authenticate w header) _
        (λ o.
          require_user-IsHarmless o _
            λ id. decode-IsHarmless _ r _ λ a. served-IsHarmless _ _ _ λ _. refl)
        w
