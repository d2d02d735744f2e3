-- ===== src/Tests.antt =====
-- A small service and its state, on which the theorems are tried.
pub mod Sessions
pub mod Codes
pub mod Accounts
pub mod Jobs
pub mod Requests
pub mod Routes
pub mod Server
use beebase_auth_service.Prelude.{
  ℕ, zero, suc, ◌+◌, ◌*◌, ◌≡◌, ◌≢◌, refl, Bool, true, false, Option, none, some, List, [], ◌∷◌,
  Text, codes, ◌==◌, ==_refl, text_eq_sound, arith, if◌then◌else◌, find, exists, update_where,
  remove_where, text_eq, utf8_len, byte_length, is_space, trim_left, trim_space,
}
use beebase_auth_service.Auth.Account
use beebase_auth_service.Auth.Login
use beebase_auth_service.Auth.Otp
use beebase_auth_service.Auth.Ports
use beebase_auth_service.Auth.Ports.{
  Service, SessionLaws, SecurityConfig, DeletionPort, request_and_cleanup, absent, hash_token,
  Session,
}
use beebase_auth_service.Auth.Reset
use beebase_auth_service.Auth.Session
use beebase_auth_service.Auth.Setup
use beebase_auth_service.Auth.Verify
use beebase_auth_service.DeletionWorker
use beebase_auth_service.Domain.LoginChallenge
use beebase_auth_service.Domain.PasswordReset
use beebase_auth_service.Domain.Token
use beebase_auth_service.Domain.Totp
use beebase_auth_service.Domain.Totp.Lockout.{record_failures}
use beebase_auth_service.Domain.User
use beebase_auth_service.Platform.Tokenhash
use beebase_auth_service.Platform.Totp.{validate_from, validate_at}
use beebase_auth_service.Platform.Totpsecret
use beebase_auth_service.Repository.Credentials
use beebase_auth_service.Repository.Deletion
use beebase_auth_service.Repository.DeletionJobs
use beebase_auth_service.Repository.LoginChallenges
use beebase_auth_service.Repository.PasswordResetFlows
use beebase_auth_service.Repository.RefreshTokens
use beebase_auth_service.Repository.Users
use beebase_auth_service.World.{
  World, Db, Env, Result, ok, err, ◌>>=◌, pure, raise, lift, wrapping, replacing, optional,
  on_any_error, ignoring, ask, request, on_sessions, query, now_utc, new_uuid, start,
}
use beebase_auth_service.Domain.User.{User, active}
use beebase_auth_service.Domain.Token.{RefreshToken}
use beebase_auth_service.Domain.LoginChallenge.{LoginChallenge}
use beebase_auth_service.Domain.Totp.{Credential}
use beebase_auth_service.Domain.PasswordReset.{PasswordResetFlow}
use beebase_auth_service.Platform.Totpsecret.{Aead}

-- Opening this opens the definitions that a run computes with.
unfoldable pub evaluation : Unit {0} → Unit {0}
unfolding find exists update_where remove_where text_eq utf8_len byte_length is_space trim_left
    trim_space Account.check_avatar Account.delete_old_avatar Account.update_profile
    Account.request_account_deletion Account.delete_account_now Account.delete_account
    Login.check_credentials Login.begin_second_factor Login.login Login.current_user Otp.validation
    Otp.validate_otp Otp.reject_otp Otp.accept_otp Otp.verify_otp Ports.normalize_email
    Reset.eligible_if_found Reset.eligible_user Reset.open_flow Reset.request_password_reset
    Reset.use_code Reset.check_against Reset.check_code Reset.fail_flow Reset.pass_flow
    Reset.verify_password_reset_otp Reset.reset_password Reset.reset_for
    Reset.confirm_password_reset Session.start_cleanup Session.start_cleanup_of
    Session.issue_session Session.rotate Session.refresh Session.end_session Session.end_if_found
    Session.logout Setup.write_setup Setup.store_setup Setup.begin_totp_setup
    Setup.issue_login_challenge Setup.register Verify.finish_setup Verify.setup_verify_otp
    Verify.answer_challenge Verify.login_verify_otp Verify.replace_password Verify.change_password
    DeletionWorker.succeeds DeletionWorker.retry DeletionWorker.call_client DeletionWorker.run_step
    DeletionWorker.run_steps DeletionWorker.finish DeletionWorker.run_job DeletionWorker.run_once
    LoginChallenge.new PasswordReset.new PasswordReset.record_otp_failure
    PasswordReset.mark_otp_verified PasswordReset.issue_reset_token PasswordReset.consume Token.new
    Totp.new Totp.begin_setup Totp.enable Totp.record_failure Totp.mark_code_used
    Totp.record_success record_failures User.new User.update_profile Tokenhash.encode_raw_url
    Tokenhash.hex_encode Tokenhash.to_bytes Tokenhash.hash Tokenhash.generate validate_from
    validate_at Totpsecret.decrypt Totpsecret.encrypt Credentials.create Credentials.get_by_user_id
    Credentials.get_by_setup_token_hash Credentials.update Deletion.revoke_tokens
    Deletion.upsert_job Deletion.insert_step Deletion.insert_steps Deletion.existing_request
    Deletion.fresh_request Deletion.request_deletion DeletionJobs.is_ready DeletionJobs.next_ready
    DeletionJobs.steps_of DeletionJobs.claim DeletionJobs.claim_deletion
    DeletionJobs.complete_deletion_step DeletionJobs.retry_deletion_step
    DeletionJobs.complete_deletion_job LoginChallenges.create LoginChallenges.get_by_hash
    LoginChallenges.consume PasswordResetFlows.create PasswordResetFlows.get_by_flow_token_hash
    PasswordResetFlows.get_by_reset_token_hash PasswordResetFlows.update RefreshTokens.create
    RefreshTokens.get_by_hash RefreshTokens.revoke RefreshTokens.revoke_all_for_user
    Users.delete_cascade Users.create Users.get_by_email Users.get_by_id Users.update
    Users.update_password Users.delete Users.mark_pending_rows Users.mark_deletion_pending ◌>>=◌
    pure raise lift wrapping replacing optional on_any_error ignoring ask request on_sessions query
    now_utc new_uuid start
evaluation u = u

-- What a run has returned.
abbrev pub value : {A : Type 0} → A → Result A → A
value other (ok a) = a
value other (err e) = other

abbrev pub second : ℕ
second = 1_000_000_000

abbrev pub repeat : ℕ → ℕ → List ℕ
repeat zero x = []
repeat (suc n) x = x ∷ repeat n x

-- The clock stands in the fourth period of thirty seconds.
abbrev pub env : Env
env = record {
  now = λ n. 90 * second + n;
  uuid = λ n. 100 + n;
  rand_read = λ n k. some (repeat k n);
  fault = λ n. false;
}

abbrev pub security : SecurityConfig
security = record {
  refresh_ttl = 3600 * second;
  setup_token_ttl = 900 * second;
  login_challenge_ttl = 300 * second;
  password_reset_flow_ttl = 600 * second;
  password_reset_token_ttl = 600 * second;
  otp_max_attempts = 3;
  otp_lockout_duration = 60 * second;
  reset_flow_max_otp_attempts = 3;
  totp_issuer = codes "Beebase";
}

-- One session for each user.
abbrev pub Store : Type 0
Store = ℕ → Option ℕ

abbrev pub set : Store → ℕ → Option ℕ → Store
set x user session = λ u. if u == user then session else x u

abbrev pub clear_if : Store → ℕ → ℕ → Option ℕ → Store
clear_if x user session none = x
clear_if x user session (some current) = if current == session then set x user none else x

-- The code at a counter is the counter.
abbrev pub hotp : Text → ℕ → Text → Option Bool
hotp code counter secret = some (text_eq code (counter ∷ []))

abbrev pub aead : Aead
aead = record {
  nonce_size = 2;
  seal = λ nonce plaintext. plaintext;
  open_sealed = λ nonce sealed. some sealed;
}

abbrev pub service : Service
service = record {
  env = env;
  security = security;
  deletion = request_and_cleanup;
  sha256 = λ bytes. bytes;
  to_lower = λ c. c;
  hotp = hotp;
  generate_totp = λ n issuer email. ok (9 ∷ [], email);
  aead = aead;
  hash_password = λ n password. ok password;
  verify_password = λ hash password. text_eq hash password;
  issue = λ n user session. ok (user ∷ session ∷ [], 90 * second + n);
  issue_with_generation = none;
  Sessions = Store;
  activate = λ n x user session ttl. (ok (x user, 1), set x user (some session));
  deactivate = λ n x user. (ok tt, set x user none);
  deactivate_if_current = λ n x user session. (ok true, clear_if x user session (x user));
  deactivate_and_return_previous = λ n x user. (ok (x user), set x user none);
  verify_ownership = λ n token ids. ok tt;
  delete_media_by_ids = λ n token ids. ok tt;
  delete_all_media = λ n token. ok tt;
  delete_all_apiaries = λ n token. ok tt;
}

set-same : (x : Store) (user : ℕ) (session : Option ℕ) → set x user session user ≡ session
set-same x user session = rw (==_refl user) refl

clear_if-cleared :
    (x : Store) (user session : ℕ) (current : Option ℕ)
    → x user ≡ current
    → clear_if x user session current user ≢ some session
clear_if-cleared x user session none e = λ h. cc (e, h)
clear_if-cleared x user session (some current) e =
    λ h. ground (arith, e, h, ==_refl user, ==_refl current)

pub laws : SessionLaws service
laws = record {
  active = λ x user. x user;
  active-activate = λ n x user session ttl r e. set-same x user (some session);
  active-deactivate = λ n x user r e. set-same x user none;
  active-deactivate_if_current =
      λ n x user session r e. clear_if-cleared x user session (x user) refl;
  active-deactivate_and_return_previous = λ n x user r e. set-same x user none;
}

abbrev pub bee : User
bee = record {
  id = 1;
  email = codes "bee@hive.org";
  password_hash = codes "pollen";
  first_name = [];
  last_name = [];
  avatar_media_id = some 40;
  created_at = 0;
  updated_at = 0;
  deletion_status = active;
}

abbrev pub token : RefreshToken
token = record {
  id = 7;
  user_id = 1;
  token_hash = hash_token service (codes "r");
  expires_at = 1000 * second;
  created_at = 0;
  revoked_at = none;
}

abbrev pub challenge : LoginChallenge
challenge = record {
  id = 8;
  user_id = 1;
  token_hash = hash_token service (codes "c");
  expires_at = 1000 * second;
  created_at = 0;
  consumed_at = none;
}

abbrev pub credential : Credential
credential = record {
  user_id = 1;
  secret_encrypted = 0 ∷ 0 ∷ 9 ∷ [];
  enabled_at = some 5;
  setup_token_hash = none;
  setup_token_expires_at = none;
  failed_attempts = 0;
  locked_until = none;
  last_used_counter = some 2;
  created_at = 0;
  updated_at = 0;
}

abbrev pub flow : PasswordResetFlow
flow = record {
  id = 9;
  user_id = some 1;
  flow_token_hash = hash_token service (codes "f");
  otp_verified_at = none;
  otp_attempts = 0;
  reset_token_hash = none;
  reset_token_expires_at = none;
  expires_at = 1000 * second;
  consumed_at = none;
  created_at = 0;
}

abbrev pub verified_flow : PasswordResetFlow
verified_flow = record flow {
  id = 10;
  flow_token_hash = hash_token service (codes "g");
  otp_verified_at = some 5;
  reset_token_hash = some (hash_token service (codes "p"));
  reset_token_expires_at = some (1000 * second);
}

abbrev pub db : Db
db = record {
  users = bee ∷ [];
  refresh_tokens = token ∷ [];
  credentials = credential ∷ [];
  login_challenges = challenge ∷ [];
  password_reset_flows = flow ∷ verified_flow ∷ [];
  jobs = [];
  steps = [];
}

abbrev pub begin : World Store
begin = record {
  db = db;
  sessions = λ user. if user == 1 then some 7 else none;
  event = 0;
  calls = [];
  cleanups = [];
}

abbrev pub empty_session : Session
empty_session = record {
  user_id = 0;
  email = [];
  created_at = 0;
  access_token = [];
  access_token_expires_at = 0;
  refresh_token = [];
  refresh_token_expires_at = 0;
}
