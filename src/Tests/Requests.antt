-- ===== src/Tests/Requests.antt =====
-- Witnesses of the theorems on requests and responses.
use beebase_auth_service.Prelude.{[], ◌∷◌, some, [], ◌≡◌, ◌↔◌, refl, true, none, All, codes}
use beebase_auth_service.Platform.Totpsecret.{length}
use beebase_auth_service.World.{ok}
use beebase_auth_service.Platform.Clients.{Transport, verify_ownership, round_trip}
use beebase_auth_service.Platform.Clients.Outcomes.{verify_ownership_sound}
use beebase_auth_service.Http.Requests.{validate_otp}
use beebase_auth_service.Http.Requests.Accepted.{IsAsciiDigit, validate_otp-IsAsciiDigit}

validate_otp-IsAsciiDigit_example :
    (validate_otp (codes "123456") ≡ none)
    ↔ ((length (codes "123456") ≡ 6) × All IsAsciiDigit (codes "123456"))
validate_otp-IsAsciiDigit_example = validate_otp-IsAsciiDigit (codes "123456")

-- Every request is answered with the status 200 and one medium.
abbrev transport : Transport
transport = record {
  is_valid = λ url. true;
  send = λ n request. some (record { status = 200; body = [] });
  count_items = λ body. some 1;
  uuid_string = λ id. id ∷ [];
}

owned : verify_ownership transport (codes "http://media") 3 (codes "t") (41 ∷ []) ≡ ok tt
unfolding verify_ownership round_trip
owned = refl

verify_ownership_sound_example :
    (verify_ownership_sound transport (codes "http://media") 3 (codes "t") (41 ∷ []) owned).0.status
    ≡ 200
verify_ownership_sound_example =
    (verify_ownership_sound transport (codes "http://media") 3 (codes "t") (41 ∷ []) owned).2
