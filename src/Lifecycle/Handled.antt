-- ===== src/Lifecycle/Handled.antt =====
-- How what the database has is kept by a handler that is made of operations that keep it.
use beebase_auth_service.Prelude.{ℕ, ◌≡◌, refl, Option, none, some, [], ◌∷◌, Text}
use beebase_auth_service.Errors.{Error}
use beebase_auth_service.World.{Result, ok, err, World, App}
use beebase_auth_service.World.Keeps.{Keeps}
use beebase_auth_service.Http.Requests.{Fields}
use beebase_auth_service.Http.Responses.{Response}
use beebase_auth_service.Http.Replies.{Answer, Reply, Serve, served, refused, answer_with}
use beebase_auth_service.Http.Handlers.{
  decode_and_validate, with_fields, require_user, refresh_token_from_cookie,
}
use beebase_auth_service.Http.Router.{require_auth}
use beebase_auth_service.World.{Db}

module _ {S : Type 0} (P : Db → Type 0) where
  -- A handler that keeps a property of the database.
  pub record IsSteady (handle : Serve S) : Type 0 where
    pub at : (w : World S) → P w.db → P (handle w).1.db

  refused-IsSteady : (answer : Answer) → IsSteady (refused answer)
  unfolding refused
  refused-IsSteady answer = record { at = λ w h. h }

  answer_with-db :
      {A : Type 0} (on_error : Error → Response) (respond : A → Reply) (r : Result A) (w : World S)
      → (answer_with on_error respond r w).1 ≡ w
  answer_with-db on_error respond (ok a) w = refl
  answer_with-db on_error respond (err e) w = refl

  pub served-IsSteady :
      {A : Type 0} (on_error : Error → Response) (m : App S A) (respond : A → Reply)
      → Keeps (P) m
      → IsSteady (served on_error m respond)
  unfolding served
  served-IsSteady on_error m respond kept = record {
    at = λ w h. rw (answer_with-db on_error respond (m w).0 (m w).1) (kept.at w h);
  }

  pub with_fields-IsSteady :
      (fields : Fields) (handle : Serve S) → IsSteady handle → IsSteady (with_fields fields handle)
  with_fields-IsSteady [] handle h = h
  with_fields-IsSteady (f ∷ fields) handle h = refused-IsSteady _

  pub decode-IsSteady :
      {A : Type 0} (validate : A → Fields) (request : Option A) (handle : A → Serve S)
      → ((a : A) → IsSteady (handle a))
      → IsSteady (decode_and_validate validate request handle)
  decode-IsSteady validate none handle h = refused-IsSteady _
  decode-IsSteady validate (some a) handle h = with_fields-IsSteady (validate a) (handle a) (h a)

  pub require_user-IsSteady :
      (user : Option ℕ) (handle : ℕ → Serve S)
      → ((id : ℕ) → IsSteady (handle id))
      → IsSteady (require_user user handle)
  require_user-IsSteady none handle h = refused-IsSteady _
  require_user-IsSteady (some id) handle h = h id

  pub cookie-IsSteady :
      (cookie : Option Text) (handle : Text → Serve S)
      → ((t : Text) → IsSteady (handle t))
      → IsSteady (refresh_token_from_cookie cookie handle)
  cookie-IsSteady none handle h = refused-IsSteady _
  cookie-IsSteady (some []) handle h = refused-IsSteady _
  cookie-IsSteady (some (c ∷ value)) handle h = h (c ∷ value)

  pub require_auth-IsSteady :
      (user : Option ℕ) (handle : Option ℕ → Serve S)
      → ((o : Option ℕ) → IsSteady (handle o))
      → IsSteady (require_auth user handle)
  require_auth-IsSteady none handle h = refused-IsSteady _
  require_auth-IsSteady (some id) handle h = h (some id)
