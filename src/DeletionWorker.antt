-- ===== src/DeletionWorker.antt =====
-- internal/application/auth/deletion_worker.go: one run of the worker that carries out the deletion
-- of accounts.
pub mod Safety
pub mod Progress
pub mod Draining
use beebase_auth_service.Prelude.{
  zero, suc, ℕ, ◌+◌, Bool, true, false, Option, none, some, List, [], ◌∷◌, Text, if◌then◌else◌,
}
use beebase_auth_service.Errors.{user_not_found}
use beebase_auth_service.World.{
  ignoring, Result, ok, err, Env, App, ◌>>=◌, ◌>>◌, pure, optional, request, delete_user_data,
}
use beebase_auth_service.Repository.Users
use beebase_auth_service.Repository.DeletionJobs.{
  DeletionJob, DeletionStep, is_completed, claim_deletion, complete_deletion_step,
  retry_deletion_step, complete_deletion_job,
}

-- `DeleteUserData` of the client of a service: the arguments are the event's number and the user.
abbrev pub Client : Type 0
Client = ℕ → ℕ → Result (Unit {0})

-- `clients map[string]AccountCleanupClient`.
abbrev pub Clients : Type 0
Clients = Text → Option Client

abbrev pub is_ok : {A : Type 0} → Result A → Bool
is_ok (ok a) = true
is_ok (err e) = false

-- Whether the call has ended well.
unfoldable pub succeeds : {S A : Type 0} → App S A → App S Bool
succeeds m w = let (r, w') = m w in (ok (is_ok r), w')

module _ {S : Type 0} (env : Env) (clients : Clients) where
  -- The log line is left out.
  unfoldable pub retry : DeletionJob → DeletionStep → App S (Unit {0})
  retry job step = retry_deletion_step env job.id step.service (step.attempt_count + 1)

  -- Whether the loop goes on after this step.
  unfoldable pub call_client : DeletionJob → DeletionStep → Option Client → App S Bool
  call_client job step none = do retry job step; pure false
  call_client job step (some client) = do
    deleted ←
        succeeds (request (delete_user_data step.service job.user_id) λ n. client n job.user_id)
    if deleted
        then (do complete_deletion_step env job.id step.service; pure true)
        else (do retry job step; pure false)

  unfoldable pub run_step : DeletionJob → DeletionStep → App S Bool
  run_step job step =
      if is_completed step.status then pure true else call_client job step (clients step.service)

  -- Whether every step is done.
  unfoldable pub run_steps : DeletionJob → List DeletionStep → App S Bool
  run_steps job [] = pure true
  run_steps job (step ∷ rest) = do
    goes_on ← run_step job step
    if goes_on then run_steps job rest else pure false

  -- A user who is gone already is no error.
  unfoldable pub finish : DeletionJob → Bool → App S (Unit {0})
  finish job false = pure tt
  finish job true = do
    deleted ← optional user_not_found (Users.delete env job.user_id)
    complete_deletion_job env job.id

  unfoldable pub run_job : Option DeletionJob → App S (Unit {0})
  run_job none = pure tt
  run_job (some job) = do done ← run_steps job job.steps; finish job done

  unfoldable pub run_once : App S (Unit {0})
  run_once = do job ← claim_deletion env; run_job job

  -- `Run` until the context is done, after a number of ticks: an error is only logged.
  unfoldable pub run : ℕ → App S (Unit {0})
  run zero = pure tt
  run (suc ticks) = do ignoring run_once; run ticks
