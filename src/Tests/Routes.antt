-- ===== src/Tests/Routes.antt =====
-- Witnesses of the theorems on handlers and routes.
use beebase_auth_service.Prelude.{
  text_eq, Option, ℕ, ◌≡◌, refl, true, none, some, [], ◌∷◌, Text, codes,
}
use beebase_auth_service.World.{World}
use beebase_auth_service.Http.Requests
use beebase_auth_service.Http.Requests.{is_ascii_digit}
use beebase_auth_service.Http.Profile
use beebase_auth_service.Http.Replies.{refused}
use beebase_auth_service.Http.Handlers
use beebase_auth_service.Http.Handlers.{Parsers}
use beebase_auth_service.Http.Router.{
  post_setup_verify, post_register, Request, dispatch, delete_profile,
}
use beebase_auth_service.Http.Router.Rejected.{is_rejection, dispatch-rejected}
use beebase_auth_service.World.{Db}
use beebase_auth_service.DeletionWorker.{Clients}
use beebase_auth_service.Prelude.{◌+◌, ◌≤◌, List}
use beebase_auth_service.Auth.Account.{delete_account}
use beebase_auth_service.Lifecycle.Doomed.{doomed_of}
use beebase_auth_service.Lifecycle.Doomed.Steps.{step-doomed}
use beebase_auth_service.Lifecycle.{
  pending_of, step, Event, http_request, worker_tick, run, live_count, is_settled,
}
use beebase_auth_service.Lifecycle.Invariant.{run-IsSound}
use beebase_auth_service.Auth.Ports.{Service}
use beebase_auth_service.Platform.Tokenhash.{encode_raw_url}
use beebase_auth_service.Http.Handlers.{RegisterRequest}
use beebase_auth_service.Http.Requests.{validate_register}
use beebase_auth_service.Http.Router.Overlong.{register-overlong}
use beebase_auth_service.Http.Replies.{plain, failure}
use beebase_auth_service.Http.Responses.{internal_error}
use beebase_auth_service.Errors.{failed}
use beebase_auth_service.World.{err, ok, next_event}
use beebase_auth_service.Prelude.{◌<◌, ltb, byte_length, arith, ◌++◌, if◌then◌else◌}
use beebase_auth_service.Tests.{repeat, Store, service, begin, evaluation}

abbrev parsers : Parsers
parsers = record {
  parse_address = λ email. true;
  is_digit = is_ascii_digit;
  parse_uuid = λ id. none;
}

-- The user of every access token is the first one.
abbrev authenticate : World Store → Text → Option ℕ
authenticate w header = some 1

-- A request to delete the account with a code of two characters.
abbrev short_code : Request
short_code = delete_profile (codes "Bearer t") (some (record { otp = codes "12" }))

rejected : is_rejection (dispatch service parsers authenticate short_code begin).0.answer ≡ true
unfolding evaluation dispatch Profile.delete Requests.validate_delete_account Requests.validate_otp
    refused
rejected = refl

dispatch-rejected_example : (dispatch service parsers authenticate short_code begin).1 ≡ begin
dispatch-rejected_example = dispatch-rejected service parsers authenticate short_code begin rejected

abbrev empty_db : Db
empty_db = record {
  users = [];
  refresh_tokens = [];
  credentials = [];
  login_challenges = [];
  password_reset_flows = [];
  jobs = [];
  steps = [];
}

abbrev empty : World Store
empty = record begin { db = empty_db; sessions = λ user. none }

-- The service with codes of six digits: the code at a counter below 10 is the counter.
abbrev six_digits : Service
six_digits = record service {
  hotp = λ code counter secret. some (text_eq code (codes "00000" ++ ((48 + counter) ∷ [])));
}

abbrev registered : World Store → Text → Option ℕ
registered w header = some 102

-- A registration, the setup of the second factor, a request to delete the account and a run of the
-- worker.
abbrev events : List (Event Store)
events =
    http_request
      (post_register (some (record { email = codes "bee@hive.org"; password = codes "pollen1!" })))
    ∷ http_request (
        post_setup_verify
          (some (record { setup_token = encode_raw_url (repeat 32 6); otp = codes "000003" })))
    ∷ http_request (delete_profile (codes "Bearer t") (some (record { otp = codes "000004" })))
    ∷ worker_tick
    ∷ []

abbrev no_clients : Clients
no_clients = λ name. none

run-IsSound_example :
    let d = (run six_digits parsers registered no_clients events empty).db in
    (live_count 102 d.refresh_tokens ≤ 1) × (is_settled 102 d.users d.refresh_tokens d.jobs ≡ true)
run-IsSound_example =
    run-IsSound six_digits parsers registered no_clients events empty 102 refl refl refl

-- The account after its owner has asked for it to be deleted, before the worker runs.
abbrev leaving : World Store
leaving = (delete_account service 1 (codes "t") (3 ∷ []) begin).1

is_leaving : pending_of 1 leaving.db.users ≡ true
unfolding evaluation
is_leaving = refl

step-doomed_example :
    doomed_of 1 (step service parsers authenticate no_clients worker_tick leaving).db.users ≡ true
step-doomed_example =
    step-doomed service parsers authenticate no_clients 1 worker_tick leaving is_leaving

-- The service with a hasher that refuses more than 72 bytes.
abbrev limited : Service
limited = record service {
  hash_password = λ n password.
      if ltb 72 (byte_length password)
      then err (failed "bcrypt: password length exceeds 72 bytes")
      else ok password;
}

refused_over_72 :
    (n : ℕ) (password : Text)
    → 72 < byte_length password
    → limited.hash_password n password ≡ err (failed "bcrypt: password length exceeds 72 bytes")
refused_over_72 n password long = ground arith

abbrev overlong : RegisterRequest
overlong = record { email = codes "bee@hive.org"; password = codes "pollen1!" ++ repeat 70 97 }

overlong_valid :
    validate_register parsers.parse_address parsers.is_digit overlong.email overlong.password ≡ []
unfolding evaluation validate_register Requests.validate_email Requests.validate_password
overlong_valid = refl

longer_than_72 : 72 < byte_length overlong.password
unfolding evaluation
longer_than_72 = ground arith

register-overlong_example :
    Handlers.register limited parsers (some overlong) begin
    ≡ (plain (failure internal_error), next_event begin)
register-overlong_example =
    register-overlong limited parsers overlong begin refused_over_72 overlong_valid longer_than_72
