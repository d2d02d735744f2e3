-- ===== src/Tests/Sessions.antt =====
-- Witnesses of the theorems on sessions.
use beebase_auth_service.Domain.Token.{is_revoked, is_expired}
use beebase_auth_service.Prelude.{
  Option, List, [], ◌∷◌, none, ◌≡◌, ◌≢◌, refl, some, Text, codes, find,
}
use beebase_auth_service.Errors.{sentinel, invalid_refresh_token}
use beebase_auth_service.World.{World, ok, err}
use beebase_auth_service.Repository.RefreshTokens.{has_hash, revoked}
use beebase_auth_service.Auth.Ports.{Session, hash_token, ChangePasswordInput}
use beebase_auth_service.Auth.Session.{refresh, issue_session, logout}
use beebase_auth_service.Auth.Session.Issue.{issue_session-single}
use beebase_auth_service.Auth.Session.Rotation.{
  refresh-single_use, refresh_sound, refresh-reuse, logout-ends_session,
}
use beebase_auth_service.Auth.Verify.{login_verify_otp, change_password}
use beebase_auth_service.Auth.Verify.SingleUse.{
  login_verify_otp_sound, login_verify_otp-single_use, change_password_sound,
}
use mathlib.Core.Path.{subst}
use beebase_auth_service.Prelude.{◌+◌, ◌*◌, ◌||◌, ◌==◌, exists, false}
use beebase_auth_service.Platform.Tokenhash.{encode_raw_url}
use beebase_auth_service.Repository.Users.{has_id}
use beebase_auth_service.Auth.Session.Progress.{IsAvailable, IsUnused, refresh_succeeds}
use beebase_auth_service.Tests.{repeat, second}
use beebase_auth_service.Repository.TokenMap.{
  Operation, store, look_up, revoke_all, perform, perform_each, on_map_each, view,
}
use beebase_auth_service.Repository.TokenMap.Refinement.{perform_each-refines}
use beebase_auth_service.Tests.{
  RefreshToken, env, service, laws, begin, Store, bee, token, evaluation, value, empty_session,
}

abbrev raw : Text
raw = codes "r"

abbrev refreshed : World Store
refreshed = (refresh service raw begin).1

abbrev session : Session
session = value empty_session (refresh service raw begin).0

refresh_run : refresh service raw begin ≡ (ok session, refreshed)
unfolding evaluation
refresh_run = refl

refresh-single_use_example : refresh service raw refreshed ≢ (ok session, begin)
refresh-single_use_example =
    refresh-single_use service laws raw begin refreshed refreshed begin session session refresh_run
      refl

found : find (has_hash (hash_token service raw)) begin.db.refresh_tokens ≡ some token
unfolding evaluation
found = refl

refresh-sound_example :
    session.user_id ≡ (refresh_sound service laws raw begin refreshed session refresh_run).1.id
refresh-sound_example = (refresh_sound service laws raw begin refreshed session refresh_run).7

abbrev reused : World Store
reused = record begin { db = record begin.db { refresh_tokens = revoked 3 token ∷ [] } }

found_reused :
    find (has_hash (hash_token service raw)) reused.db.refresh_tokens ≡ some (revoked 3 token)
unfolding evaluation
found_reused = refl

refresh-reuse_example : (refresh service raw reused).0 ≡ err (sentinel invalid_refresh_token)
refresh-reuse_example =
    (refresh-reuse service raw reused (revoked 3 token) found_reused refl refl refl).0

abbrev issued : World Store
issued = (issue_session service bee begin).1

abbrev issued_session : Session
issued_session = value empty_session (issue_session service bee begin).0

issue_run : issue_session service bee begin ≡ (ok issued_session, issued)
unfolding evaluation
issue_run = refl

issue_session-single_example :
    (issue_session-single service laws bee begin issued issued_session issue_run).0.user_id ≡ 1
issue_session-single_example =
    (issue_session-single service laws bee begin issued issued_session issue_run).3

abbrev left : World Store
left = (logout service raw begin).1

logout_run : logout service raw begin ≡ (ok tt, left)
unfolding evaluation
logout_run = refl

logout-ends_session_example : laws.active left.sessions 1 ≢ some 7
logout-ends_session_example =
    (logout-ends_session service laws raw begin left token tt found refl logout_run).3

abbrev logged_in : World Store
logged_in = (login_verify_otp service (codes "c") (3 ∷ []) begin).1

abbrev login_session : Session
login_session = value empty_session (login_verify_otp service (codes "c") (3 ∷ []) begin).0

login_run : login_verify_otp service (codes "c") (3 ∷ []) begin ≡ (ok login_session, logged_in)
unfolding evaluation
login_run = refl

login_verify_otp-sound_example :
    login_session.user_id
    ≡ (login_verify_otp_sound service laws
        (codes "c")
        (3 ∷ [])
        begin
        logged_in
        login_session
        login_run).1.id
login_verify_otp-sound_example =
    (login_verify_otp_sound service laws (codes "c") (3 ∷ []) begin logged_in login_session
      login_run).11

login_verify_otp-single_use_example :
    login_verify_otp service (codes "c") (4 ∷ []) logged_in ≢ (ok login_session, begin)
login_verify_otp-single_use_example =
    login_verify_otp-single_use service laws (codes "c") (3 ∷ []) (4 ∷ []) begin logged_in logged_in
      begin login_session login_session login_run refl

abbrev change : ChangePasswordInput
change = record { current_password = codes "pollen"; new_password = codes "nectar"; otp = 3 ∷ [] }

abbrev changed : World Store
changed = (change_password service 1 change begin).1

change_run : change_password service 1 change begin ≡ (ok tt, changed)
unfolding evaluation
change_run = refl

change_password-sound_example : laws.active changed.sessions 1 ≡ none
change_password-sound_example =
    (change_password_sound service laws 1 change begin changed change_run).15

abbrev next_token : RefreshToken
next_token = record token { id = 11; token_hash = hash_token service (codes "s") }

-- The live token is found, replaced and found to be revoked.
abbrev operations : List Operation
operations =
    look_up token.token_hash
    ∷ revoke_all 1
    ∷ store next_token
    ∷ look_up token.token_hash
    ∷ look_up next_token.token_hash
    ∷ []

abbrev answers : List (Option RefreshToken)
answers = some token ∷ none ∷ none ∷ some (revoked (env.now 1) token) ∷ some next_token ∷ []

performed : perform_each env operations begin ≡ (ok answers, (perform_each env operations begin).1)
unfolding evaluation perform_each perform
performed = refl

perform_each-refines_example :
    (answers ≡ (on_map_each env 0 operations (view begin.db.refresh_tokens)).0)
    × (view (perform_each env operations begin).1.db.refresh_tokens
        ≡ (on_map_each env 0 operations (view begin.db.refresh_tokens)).1)
perform_each-refines_example =
    perform_each-refines env operations begin (perform_each env operations begin).1 answers
      performed

-- The session that the login has opened is refreshed.
always_available : IsAvailable service
always_available = record {
  fine = λ n. refl;
  random = λ n. (repeat 32 n, refl);
  activates = λ n x user session ttl. ((x user, 1), refl);
  mints = λ user session generation n. ((user ∷ session ∷ [], 90 * second + n), refl);
}

abbrev stored_token : RefreshToken
stored_token =
    elim (find (has_hash (hash_token service login_session.refresh_token))
      logged_in.db.refresh_tokens) [ none ↦ token | some t ↦ t ]

token_stored :
    find (has_hash (hash_token service login_session.refresh_token)) logged_in.db.refresh_tokens
    ≡ some stored_token
unfolding evaluation
token_stored = refl

token_live : is_revoked stored_token ≡ false
unfolding evaluation
token_live = refl

token_valid : is_expired (service.env.now (logged_in.event + 1)) stored_token ≡ false
unfolding evaluation
token_valid = refl

user_stored : find (has_id stored_token.user_id) logged_in.db.users ≡ some bee
unfolding evaluation
user_stored = refl

unused_bytes :
    exists
      (λ x.
        x.id == service.env.uuid (logged_in.event + 1 + 1 + 1 + 1 + 1 + 1 + 1)
        || has_hash
            (hash_token service (encode_raw_url (repeat 32 (logged_in.event + 1 + 1 + 1 + 1 + 1))))
            x)
      logged_in.db.refresh_tokens
    ≡ false
unfolding evaluation
unused_bytes = refl

next-IsUnused : IsUnused service (logged_in.event + 1 + 1 + 1 + 1 + 1) logged_in.db.refresh_tokens
next-IsUnused bytes e =
    let same : repeat 32 (logged_in.event + 1 + 1 + 1 + 1 + 1) ≡ bytes = cc e in
    subst
      (λ b.
        exists
          (λ x.
            x.id == service.env.uuid (logged_in.event + 1 + 1 + 1 + 1 + 1 + 1 + 1)
            || has_hash (hash_token service (encode_raw_url b)) x)
          logged_in.db.refresh_tokens
        ≡ false)
      same unused_bytes

refresh_succeeds_example :
    (session : Session) × (w' : World Store) × (refresh service login_session.refresh_token
        logged_in
      ≡ (ok session, w'))
refresh_succeeds_example =
    refresh_succeeds service always_available login_session.refresh_token logged_in stored_token bee
      token_stored token_live token_valid user_stored refl next-IsUnused
