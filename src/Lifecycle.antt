-- ===== src/Lifecycle.antt =====
-- The service as a whole: requests to the routes of internal/transport/http/router.go and runs of
-- the worker of internal/application/auth/deletion_worker.go, in any order.
pub mod Counting
pub mod Statements
pub mod Deletion
pub mod Worker
pub mod Sessions
pub mod Operations
pub mod Accounts
pub mod Handled
pub mod Invariant
pub mod Doomed
use beebase_auth_service.Prelude.{
  ℕ, ◌+◌, ◌≤◌, ◌≡◌, Bool, true, false, ◌&&◌, Option, none, some, List, [], ◌∷◌, Text, ◌==◌, find,
  exists, if◌then◌else◌,
}
use beebase_auth_service.World.{World, JobRow, Db}
use beebase_auth_service.Domain.User.{User, is_pending}
use beebase_auth_service.Domain.Token.{RefreshToken}
use beebase_auth_service.Repository.Users.{has_id}
use beebase_auth_service.Repository.RefreshTokens.{is_live}
use beebase_auth_service.Auth.Ports.{Service}
use beebase_auth_service.Http.Handlers.{Parsers}
use beebase_auth_service.Http.Router.{Request, dispatch}
use beebase_auth_service.DeletionWorker.{Clients, run_once}

-- A request, a tick of the worker, or a change of the session store that another service makes.
pub data Event (S : Type 0) : Type 0 where
  http_request : Request → Event S
  worker_tick : Event S
  sessions_changed : S → Event S

module _ (s : Service) (parsers : Parsers) (authenticate : World s.Sessions → Text → Option ℕ)
    (clients : Clients) where
  unfoldable pub step : Event s.Sessions → World s.Sessions → World s.Sessions
  step (http_request request) w = (dispatch s parsers authenticate request w).1
  step worker_tick w = (run_once s.env clients w).1
  step (sessions_changed sessions) w = record w { sessions = sessions }

  unfoldable pub run : List (Event s.Sessions) → World s.Sessions → World s.Sessions
  run [] w = w
  run (event ∷ events) w = run events (step event w)

-- How many refresh tokens of the user are live.
unfoldable pub live_count : ℕ → List RefreshToken → ℕ
live_count id [] = 0
live_count id (t ∷ ts) =
    let rest = live_count id ts in if t.user_id == id && is_live t then 1 + rest else rest

abbrev pub pending_row : Option User → Bool
pending_row none = false
pending_row (some u) = is_pending u.deletion_status

abbrev pub pending_of : ℕ → List User → Bool
pending_of id users = pending_row (find (has_id id) users)

abbrev pub owns_job : ℕ → JobRow → Bool
owns_job id j = j.user_id == id

-- A user who is being deleted has no live refresh token, and a deletion job, open or completed.
abbrev pub is_settled : ℕ → List User → List RefreshToken → List JobRow → Bool
is_settled id users tokens jobs =
    if pending_of id users then live_count id tokens == 0 && exists (owns_job id) jobs else true

abbrev pub IsSound : ℕ → List User → List RefreshToken → List JobRow → Type 0
IsSound id users tokens jobs = (live_count id tokens ≤ 1) × (is_settled id users tokens jobs ≡ true)

abbrev pub IsSoundIn : ℕ → Db → Type 0
IsSoundIn id d = IsSound id d.users d.refresh_tokens d.jobs
