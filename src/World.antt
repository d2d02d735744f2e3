-- ===== src/World.antt =====
-- The state that the service works on, and its actions. An action may fail, and what it wrote
-- before it failed stays written, so the state comes back beside an error too.
--
-- Code outside the program answers at numbered events: the clock, `uuid.New`, the random source
-- and the success of each call to the database are functions of the event's number (`Env`), which
-- no theorem restricts unless it says so.
pub mod Keeps
pub mod Leads
pub mod Ensures
pub mod Attains
use beebase_auth_service.Prelude.{
  ℕ, ◌+◌, Bool, Option, none, some, List, ◌∷◌, Text, String, if◌then◌else◌,
}
use beebase_auth_service.Errors.{Error, Sentinel, failed, wrap, is}
use beebase_auth_service.Domain.User.{User}
use beebase_auth_service.Domain.Token.{RefreshToken}
use beebase_auth_service.Domain.LoginChallenge.{LoginChallenge}
use beebase_auth_service.Domain.Totp.{Credential}
use beebase_auth_service.Domain.PasswordReset.{PasswordResetFlow}

-- The outcome of a Go function that returns a value and an error.
pub data Result (A : Type 0) : Type 0 where
  ok : A → Result A
  err : Error → Result A

-- The columns of account_deletion_jobs and account_deletion_steps.
pub data WorkStatus : Type 0 where
  pending processing completed : WorkStatus

pub record JobRow : Type 0 where
  pub id : ℕ
  pub user_id : ℕ
  pub status : WorkStatus
  pub attempt_count : ℕ
  pub next_attempt_at : ℕ
  pub lease_until : Option ℕ

pub record StepRow : Type 0 where
  pub job_id : ℕ
  pub service : Text
  pub status : WorkStatus
  pub attempt_count : ℕ
  pub next_attempt_at : ℕ

pub record Db : Type 0 where
  pub users : List User
  pub refresh_tokens : List RefreshToken
  pub credentials : List Credential
  pub login_challenges : List LoginChallenge
  pub password_reset_flows : List PasswordResetFlow
  pub jobs : List JobRow
  pub steps : List StepRow

-- A call to another service that changes what that service holds.
pub data Call : Type 0 where
  delete_media : Text → List ℕ → Call
  delete_all_media : Text → Call
  delete_all_apiaries : Text → Call
  delete_user_data : Text → ℕ → Call

-- `sessions` is the state of the shared session store, of a type that the store chooses; `calls`
-- are the calls that went out, the last first; `cleanups` are the sessions whose devices a
-- goroutine was started to clean up.
pub record World (S : Type 0) : Type 0 where
  pub db : Db
  pub sessions : S
  pub event : ℕ
  pub calls : List Call
  pub cleanups : List (ℕ × ℕ)

-- `time.Now().UTC()` and the database's `now()`, `uuid.New()`, `crypto/rand` and whether the call
-- to the database at this event ends in an error of the driver.
pub record Env : Type 0 where
  pub now : ℕ → ℕ
  pub uuid : ℕ → ℕ
  pub rand_read : ℕ → ℕ → Option (List ℕ)
  pub fault : ℕ → Bool

abbrev pub App : Type 0 → Type 0 → Type 0
App S A = World S → Result A × World S

-- `if err != nil { return fmt.Errorf("site: %w", err) }`.
abbrev pub wrap_error : {A : Type 0} → String → Result A → Result A
wrap_error site (ok a) = ok a
wrap_error site (err e) = err (wrap site e)

-- `if errors.Is(err, target) { return instead }; return err`.
abbrev pub replace_error : {A : Type 0} → Sentinel → Error → Result A → Result A
replace_error target instead (ok a) = ok a
replace_error target instead (err e) = err (if is e target then instead else e)

-- `if err != nil && !errors.Is(err, target) { return err }`, where the code goes on with what
-- `err == nil` says.
abbrev pub or_none : {A : Type 0} → Sentinel → Result A → Result (Option A)
or_none target (ok a) = ok (some a)
or_none target (err e) = if is e target then ok none else err e

-- `if err != nil { return e }`.
abbrev pub any_error_to : {A : Type 0} → Error → Result A → Result A
any_error_to instead (ok a) = ok a
any_error_to instead (err e) = err instead

abbrev pub next_event : {S : Type 0} → World S → World S
next_event w = record w { event = w.event + 1 }

module _ {S A : Type 0} where
  unfoldable pub pure : A → App S A
  pure a w = (ok a, w)

  unfoldable pub raise : Error → App S A
  raise e w = (err e, w)

  unfoldable pub lift : Result A → App S A
  lift r w = (r, w)

  unfoldable pub wrapping : String → App S A → App S A
  wrapping site m w = let (r, w') = m w in (wrap_error site r, w')

  unfoldable pub replacing : Sentinel → Error → App S A → App S A
  replacing target instead m w = let (r, w') = m w in (replace_error target instead r, w')

  unfoldable pub optional : Sentinel → App S A → App S (Option A)
  optional target m w = let (r, w') = m w in (or_none target r, w')

  unfoldable pub on_any_error : Error → App S A → App S A
  on_any_error instead m w = let (r, w') = m w in (any_error_to instead r, w')

  -- `_ = call()`.
  unfoldable pub ignoring : App S A → App S (Unit {0})
  ignoring m w = (ok tt, (m w).1)

  -- A function of the event number that changes nothing which the program holds: the clock, a
  -- random source, a port that only answers.
  unfoldable pub ask : (ℕ → Result A) → App S A
  ask f w = (f w.event, next_event w)

  -- A call that changes what another service holds, whether or not it answers well.
  unfoldable pub request : Call → (ℕ → Result A) → App S A
  request c f w = (f w.event, record w { event = w.event + 1; calls = c ∷ w.calls })

  -- A call of the session store.
  unfoldable pub on_sessions : (ℕ → S → Result A × S) → App S A
  on_sessions f w =
      let (r, x) = f w.event w.sessions in (r, record w { event = w.event + 1; sessions = x })

  -- One statement, or one transaction, on the database: at a fault it has had no effect.
  unfoldable pub query : Env → String → (ℕ → Db → Result A × Db) → App S A
  query env site f w =
      if env.fault w.event
      then (err (wrap site (failed "driver error")), next_event w)
      else let (r, d) = f (env.now w.event) w.db in (r, record w { event = w.event + 1; db = d })

module _ {S : Type 0} where
  unfoldable pub now_utc : Env → App S ℕ
  unfolding ask
  now_utc env = ask λ n. ok (env.now n)

  unfoldable pub new_uuid : Env → App S ℕ
  unfolding ask
  new_uuid env = ask λ n. ok (env.uuid n)

  -- A goroutine is started: what it does later has no part in the result.
  unfoldable pub start : ℕ × ℕ → App S (Unit {0})
  start session w = (ok tt, record w { cleanups = session ∷ w.cleanups })

-- How an action goes on from the outcome of the one before.
abbrev pub continue : {S A B : Type 0} → Result A → (A → App S B) → App S B
continue (ok a) f w = f a w
continue (err e) f w = (err e, w)

infixl 5 ◌>>=◌ ◌>>◌
-- Opening this opens the actions above.
unfoldable pub ◌>>=◌ : {S A B : Type 0} → App S A → (A → App S B) → App S B
unfolding pure raise lift wrapping replacing optional on_any_error ignoring ask request on_sessions
    query now_utc new_uuid start
◌>>=◌ m f w = let (r, w') = m w in continue r f w'

abbrev pub ◌>>◌ : {S B : Type 0} → App S (Unit {0}) → App S B → App S B
m >> k = m >>= λ _. k
