-- ===== src/Lifecycle/Doomed/Worker.antt =====
-- The worker brings no account back that is being deleted.
use beebase_auth_service.Prelude.{ℕ, Bool, true, false, Option, none, some, List, [], ◌∷◌}
use beebase_auth_service.World.{Env, App}
use beebase_auth_service.World.Keeps.{Keeps, keeps_rules}
use beebase_auth_service.Repository.DeletionJobs.{DeletionJob, DeletionStep}
use beebase_auth_service.DeletionWorker
use beebase_auth_service.DeletionWorker.{Client}
use beebase_auth_service.Lifecycle.Doomed.{IsDoomedIn}
use beebase_auth_service.Lifecycle.Doomed.{
  claim-IsDoomed, complete_step-IsDoomed, complete_job-IsDoomed, retry-IsDoomed,
  delete_user-IsDoomed,
}

module _ {S : Type 0} (env : Env) (clients : DeletionWorker.Clients) (k : ℕ) where
  retry_step-IsDoomed :
      (job : DeletionJob) (step : DeletionStep)
      → Keeps {S = S} (IsDoomedIn k) (DeletionWorker.retry env clients job step)
  unfolding DeletionWorker.retry
  retry_step-IsDoomed job step = retry-IsDoomed env k _ _ _

  succeeds-IsDoomed :
      {A : Type 0} (m : App S A)
      → Keeps (IsDoomedIn k) m
      → Keeps (IsDoomedIn k) (DeletionWorker.succeeds m)
  unfolding DeletionWorker.succeeds
  succeeds-IsDoomed m l = record { at = l.at }

  call_client-IsDoomed :
      (job : DeletionJob) (step : DeletionStep) (client : Option Client)
      → Keeps {S = S} (IsDoomedIn k) (DeletionWorker.call_client env clients job step client)
  unfolding DeletionWorker.call_client
  call_client-IsDoomed job step none = search (keeps_rules, retry_step-IsDoomed)
  call_client-IsDoomed job step (some client) =
      search (keeps_rules, retry_step-IsDoomed, succeeds-IsDoomed, complete_step-IsDoomed) depth 9

  run_steps-IsDoomed :
      (job : DeletionJob) (steps : List DeletionStep)
      → Keeps {S = S} (IsDoomedIn k) (DeletionWorker.run_steps env clients job steps)
  unfolding DeletionWorker.run_steps DeletionWorker.run_step
  run_steps-IsDoomed job [] = search keeps_rules
  run_steps-IsDoomed job (step ∷ rest) =
      let others = run_steps-IsDoomed job rest in search (keeps_rules, call_client-IsDoomed) depth 9

  finish-IsDoomed :
      (job : DeletionJob) (done : Bool)
      → Keeps {S = S} (IsDoomedIn k) (DeletionWorker.finish env clients job done)
  unfolding DeletionWorker.finish
  finish-IsDoomed job false = search keeps_rules
  finish-IsDoomed job true = search (keeps_rules, delete_user-IsDoomed, complete_job-IsDoomed)

  run_job-IsDoomed :
      (job : Option DeletionJob)
      → Keeps {S = S} (IsDoomedIn k) (DeletionWorker.run_job env clients job)
  unfolding DeletionWorker.run_job
  run_job-IsDoomed none = search keeps_rules
  run_job-IsDoomed (some job) = search (keeps_rules, run_steps-IsDoomed, finish-IsDoomed)

  pub run_once-IsDoomed : Keeps {S = S} (IsDoomedIn k) (DeletionWorker.run_once env clients)
  unfolding DeletionWorker.run_once
  run_once-IsDoomed = search (keeps_rules, claim-IsDoomed, run_job-IsDoomed)
