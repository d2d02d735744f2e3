-- ===== src/Lifecycle/Worker.antt =====
-- The worker keeps every state sound.
use beebase_auth_service.Prelude.{ℕ, Bool, true, false, Option, none, some, List, [], ◌∷◌}
use beebase_auth_service.World.{Env, App}
use beebase_auth_service.World.Keeps.{Keeps, keeps_rules}
use beebase_auth_service.Repository.DeletionJobs.{DeletionJob, DeletionStep}
use beebase_auth_service.DeletionWorker
use beebase_auth_service.DeletionWorker.{Client}
use beebase_auth_service.Lifecycle.{IsSoundIn}
use beebase_auth_service.Lifecycle.Statements.{
  claim-IsSound, complete_step-IsSound, complete_job-IsSound, retry-IsSound, delete_user-IsSound,
}

module _ {S : Type 0} (env : Env) (clients : DeletionWorker.Clients) (k : ℕ) where
  retry_step-IsSound :
      (job : DeletionJob) (step : DeletionStep)
      → Keeps {S = S} (IsSoundIn k) (DeletionWorker.retry env clients job step)
  unfolding DeletionWorker.retry
  retry_step-IsSound job step = retry-IsSound env k _ _ _

  succeeds-IsSound :
      {A : Type 0} (m : App S A)
      → Keeps (IsSoundIn k) m
      → Keeps (IsSoundIn k) (DeletionWorker.succeeds m)
  unfolding DeletionWorker.succeeds
  succeeds-IsSound m l = record { at = l.at }

  call_client-IsSound :
      (job : DeletionJob) (step : DeletionStep) (client : Option Client)
      → Keeps {S = S} (IsSoundIn k) (DeletionWorker.call_client env clients job step client)
  unfolding DeletionWorker.call_client
  call_client-IsSound job step none = search (keeps_rules, retry_step-IsSound)
  call_client-IsSound job step (some client) =
      search (keeps_rules, retry_step-IsSound, succeeds-IsSound, complete_step-IsSound) depth 9

  run_steps-IsSound :
      (job : DeletionJob) (steps : List DeletionStep)
      → Keeps {S = S} (IsSoundIn k) (DeletionWorker.run_steps env clients job steps)
  unfolding DeletionWorker.run_steps DeletionWorker.run_step
  run_steps-IsSound job [] = search keeps_rules
  run_steps-IsSound job (step ∷ rest) =
      let others = run_steps-IsSound job rest in search (keeps_rules, call_client-IsSound) depth 9

  finish-IsSound :
      (job : DeletionJob) (done : Bool)
      → Keeps {S = S} (IsSoundIn k) (DeletionWorker.finish env clients job done)
  unfolding DeletionWorker.finish
  finish-IsSound job false = search keeps_rules
  finish-IsSound job true = search (keeps_rules, delete_user-IsSound, complete_job-IsSound)

  run_job-IsSound :
      (job : Option DeletionJob)
      → Keeps {S = S} (IsSoundIn k) (DeletionWorker.run_job env clients job)
  unfolding DeletionWorker.run_job
  run_job-IsSound none = search keeps_rules
  run_job-IsSound (some job) = search (keeps_rules, run_steps-IsSound, finish-IsSound)

  pub run_once-IsSound : Keeps {S = S} (IsSoundIn k) (DeletionWorker.run_once env clients)
  unfolding DeletionWorker.run_once
  run_once-IsSound = search (keeps_rules, claim-IsSound, run_job-IsSound)
