-- ===== src/Platform/Clients/Outcomes.antt =====
-- When the clients report success.
use beebase_auth_service.Prelude.{
  codes, ◌++◌, String, ℕ, ◌≡◌, refl, Option, none, some, List, Text, ◌==◌, Bool-cases, inl, inr,
  arith,
}
use beebase_auth_service.World.{Result, ok, err}
use beebase_auth_service.Platform.Totpsecret.{length}
use beebase_auth_service.Platform.Clients.{
  received, HttpRequest, get_method, ids_query, Transport, HttpResponse, check_items, check_owned,
  round_trip, verify_ownership,
}

check_items-length : (wanted : ℕ) (o : Option ℕ) → check_items wanted o ≡ ok tt → o ≡ some wanted
check_items-length wanted none e = absurd (cc e)
check_items-length wanted (some found) e = ground (arith, e)

check_owned-length :
    (h : Transport) (ids : List ℕ) (r : Result HttpResponse)
    → check_owned h ids r ≡ ok tt
    → (response : HttpResponse) × (r ≡ ok response)
      × (response.status ≡ 200)
      × (h.count_items response.body ≡ some (length ids))
check_owned-length h ids (err e) p = absurd (cc p)
check_owned-length h ids (ok response) p = elim (Bool-cases (response.status == 200)) [
  | inl good ↦ (
    response,
    refl,
    ground (arith, good),
    check_items-length (length ids) (h.count_items response.body) (rw good at p),
  )
  | inr bad ↦ absurd (cc (rw bad at p))
]

received-sent :
    (call : String) (o : Option HttpResponse) (response : HttpResponse)
    → received call o ≡ ok response
    → o ≡ some response
received-sent call none response e = absurd (cc e)
received-sent call (some r) response e = cc e

round_trip-sent :
    (h : Transport) (build call : String) (n : ℕ) (request : HttpRequest) (response : HttpResponse)
    → round_trip h build call n request ≡ ok response
    → h.send n request ≡ some response
unfolding round_trip
round_trip-sent h build call n request response e = elim (Bool-cases (h.is_valid request.url)) [
  | inl valid ↦ received-sent call (h.send n request) response (rw valid at e)
  | inr invalid ↦ absurd (cc (rw invalid at e))
]

-- VerifyOwnership ends well only if media-service has answered the one request for the ids with the
-- status 200 and with as many media as were asked for.
pub verify_ownership_sound :
    (h : Transport) (base_url : Text) (n : ℕ) (token : Text) (ids : List ℕ)
    → verify_ownership h base_url n token ids ≡ ok tt
    → (response : HttpResponse) × (h.send n (record {
      method = get_method;
      url = base_url ++ codes "/api/v1/media?" ++ ids_query h ids;
      token = token;
    })
        ≡ some response)
      × (response.status ≡ 200)
      × (h.count_items response.body ≡ some (length ids))
unfolding verify_ownership
verify_ownership_sound h base_url n token ids e =
    let (response, answered, status, items) = check_owned-length h ids _ e in
    (response, round_trip-sent h _ _ n _ response answered, status, items)
