-- ===== src/Platform/Clients.antt =====
-- internal/platform/mediaclient, apiaryclient and deletionclient: the calls of other services over
-- HTTP. net/http, the text of a uuid and the decoding of a list of media are parameters.
pub mod Outcomes
use beebase_auth_service.Prelude.{
  ℕ, Bool, not, ◌&&◌, ◌||◌, Option, none, some, List, [], ◌∷◌, ◌++◌, Text, codes, ltb, leb, ◌==◌,
  String, if◌then◌else◌,
}
use beebase_auth_service.Errors.{sentinel, failed, wrap, avatar_not_found}
use beebase_auth_service.World.{Result, ok, err}
use beebase_auth_service.Platform.Totpsecret.{length}

pub data Method : Type 0 where
  get_method delete_method : Method

-- `token` stands after "Bearer " in the header Authorization.
pub record HttpRequest : Type 0 where
  pub method : Method
  pub url : Text
  pub token : Text

pub record HttpResponse : Type 0 where
  pub status : ℕ
  pub body : Text

-- `is_valid` is whether http.NewRequestWithContext accepts the URL; `send` is the Do of the client,
-- `none` where it fails; `count_items` decodes the body and counts its items.
pub record Transport : Type 0 where
  pub is_valid : Text → Bool
  pub send : ℕ → HttpRequest → Option HttpResponse
  pub count_items : Text → Option ℕ
  pub uuid_string : ℕ → Text

-- The request is built and sent; the two errors name the client.
abbrev pub received : String → Option HttpResponse → Result HttpResponse
received call none = err (wrap call (failed "transport"))
received call (some response) = ok response

unfoldable pub round_trip : Transport → String → String → ℕ → HttpRequest → Result HttpResponse
round_trip h build call n request =
    if not (h.is_valid request.url)
    then err (wrap build (failed "invalid url"))
    else received call (h.send n request)

-- `url.Values.Encode` of one key: the text of a uuid has nothing to escape.
abbrev pub ids_query : Transport → List ℕ → Text
ids_query h [] = []
ids_query h (id ∷ []) = codes "ids=" ++ h.uuid_string id
ids_query h (id ∷ next ∷ rest) =
    codes "ids=" ++ h.uuid_string id ++ codes "&" ++ ids_query h (next ∷ rest)

abbrev pub check_items : ℕ → Option ℕ → Result (Unit {0})
check_items wanted none = err (wrap "mediaclient: decode response" (failed "json"))
check_items wanted (some found) =
    if not (found == wanted) then err (sentinel avatar_not_found) else ok tt

abbrev pub check_owned : Transport → List ℕ → Result HttpResponse → Result (Unit {0})
check_owned h ids (err e) = err e
check_owned h ids (ok response) =
    if not (response.status == 200)
    then err (failed "mediaclient: unexpected status")
    else check_items (length ids) (h.count_items response.body)

abbrev pub is_done : ℕ → Bool
is_done status = status == 204 || status == 200

abbrev pub is_success : ℕ → Bool
is_success status = leb 200 status && ltb status 300

abbrev pub check_status : (ℕ → Bool) → String → Result HttpResponse → Result (Unit {0})
check_status good message (err e) = err e
check_status good message (ok response) =
    if good response.status then ok tt else err (failed message)

module _ (h : Transport) (base_url : Text) where
  unfoldable pub verify_ownership : ℕ → Text → List ℕ → Result (Unit {0})
  verify_ownership n token ids = check_owned h ids (
      round_trip h "mediaclient: build request" "mediaclient: call media-service" n (record {
        method = get_method;
        url = base_url ++ codes "/api/v1/media?" ++ ids_query h ids;
        token = token;
      }))

  unfoldable pub delete_by_ids : ℕ → Text → List ℕ → Result (Unit {0})
  delete_by_ids n token [] = ok tt
  delete_by_ids n token (id ∷ rest) = check_status is_done "mediaclient: unexpected status" (
      round_trip h "mediaclient: build request" "mediaclient: call media-service" n (record {
        method = delete_method;
        url = base_url ++ codes "/api/v1/media?" ++ ids_query h (id ∷ rest);
        token = token;
      }))

  unfoldable pub delete_all_by_user : ℕ → Text → Result (Unit {0})
  delete_all_by_user n token = check_status is_done "mediaclient: unexpected status" (
      round_trip h "mediaclient: build request" "mediaclient: call media-service" n (record {
        method = delete_method;
        url = base_url ++ codes "/api/v1/media/mine";
        token = token;
      }))

  unfoldable pub delete_all_mine : ℕ → Text → Result (Unit {0})
  delete_all_mine n token = check_status is_done "apiaryclient: unexpected status" (
      round_trip h "apiaryclient: build request" "apiaryclient: call apiary-service" n (record {
        method = delete_method;
        url = base_url ++ codes "/api/v1/apiaries";
        token = token;
      }))

  -- The errors of the request come back as they are. `base_url` has no slash at its end.
  abbrev pub cleanup : ℕ → Text → Text → String → Result (Unit {0})
  cleanup n token path message =
      let url = base_url ++ path in
      if not (h.is_valid url)
      then err (failed "invalid url")
      else elim (h.send n (record { method = delete_method; url = url; token = token })) [
        | none ↦ err (failed "transport")
        | some response ↦ check_status is_success message (ok response)
      ]

  unfoldable pub delete_user_data : Text → ℕ → ℕ → Result (Unit {0})
  delete_user_data token n user_id =
      cleanup n token (codes "/internal/api/v1/users/" ++ h.uuid_string user_id)
        "cleanup returned status"

  unfoldable pub delete_session_data : Text → ℕ → ℕ → ℕ → Result (Unit {0})
  delete_session_data token n user_id session_id =
      cleanup n token
        (codes "/internal/api/v1/users/"
          ++ h.uuid_string user_id
          ++ codes "/sessions/"
          ++ h.uuid_string session_id)
        "session cleanup returned status"
