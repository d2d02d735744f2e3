-- ===== src/Tests/Jobs.antt =====
-- Witnesses of the theorems on the deletion worker and its jobs.
use beebase_auth_service.Prelude.{
  exists, [], ◌∷◌, ◌*◌, ◌≡◌, ◌⊎◌, refl, true, false, some, none, All, codes, find, remove_where,
  arith,
}
use beebase_auth_service.World.{World, JobRow, StepRow, WorkStatus, ok}
use beebase_auth_service.Repository.Users.{has_id}
use beebase_auth_service.Repository.Deletion.{is_job}
use beebase_auth_service.Repository.DeletionJobs.{
  DeletionJob, DeletionStep, is_completed, is_ready, claim, retry_deletion_step,
}
use beebase_auth_service.Repository.DeletionJobs.Lease.{claim-exclusive, retry_deletion_step-ready}
use beebase_auth_service.DeletionWorker.Progress.{AreServed}
use beebase_auth_service.DeletionWorker.Draining.{open_count, run-drains}
use beebase_auth_service.Prelude.{◌≤◌}
use beebase_auth_service.DeletionWorker.{run, Clients, run_steps, run_job}
use beebase_auth_service.DeletionWorker.Safety.{IsHandled, run_steps_complete, run_job-deletes_only}
use beebase_auth_service.Repository.Users.{is_active_row}
use beebase_auth_service.Repository.Deletion.{request_deletion}
use beebase_auth_service.Repository.Deletion.Planned.{IsSettled, request_deletion-IsSettled}
use beebase_auth_service.Tests.{begin, Store, env, evaluation, second}

abbrev pub row : JobRow
row = record {
  id = 20;
  user_id = 1;
  status = WorkStatus.pending;
  attempt_count = 0;
  next_attempt_at = 5;
  lease_until = none;
}

abbrev media_row : StepRow
media_row = record {
  job_id = 20;
  service = codes "media";
  status = WorkStatus.pending;
  attempt_count = 0;
  next_attempt_at = 5;
}

abbrev pub queued : World Store
queued = record begin { db = record begin.db { jobs = row ∷ []; steps = media_row ∷ [] } }

abbrev media_step : DeletionStep
media_step = record { service = codes "media"; status = WorkStatus.pending; attempt_count = 0 }

abbrev job : DeletionJob
job = record { id = 20; user_id = 1; steps = media_step ∷ [] }

abbrev clients : Clients
clients name = some λ n user. ok tt

abbrev cleaned : World Store
cleaned = (run_steps env clients job job.steps queued).1

steps_run : run_steps env clients job job.steps queued ≡ (ok true, cleaned)
unfolding evaluation
steps_run = refl

run_steps-complete_example :
    All
      (λ step.
        is_completed step.status ≡ false → IsHandled env clients job queued.event cleaned step)
      job.steps
run_steps-complete_example = run_steps_complete env clients job queued cleaned steps_run

run_job-deletes_only_example :
    ((run_job env clients (some job) queued).1.db.users ≡ queued.db.users)
    ⊎ ((v : World Store) × (run_steps env clients job job.steps queued ≡ (ok true, v))
        × ((run_job env clients (some job) queued).1.db.users
            ≡ remove_where (has_id 1) queued.db.users))
run_job-deletes_only_example = run_job-deletes_only env clients job queued

claim_run : (claim (90 * second) queued.db).0 ≡ some job
unfolding evaluation
claim_run = refl

claim-exclusive_example :
    20 ≡ (claim-exclusive (90 * second) (91 * second) queued.db job claim_run (omega arith)).0.id
claim-exclusive_example =
    (claim-exclusive (90 * second) (91 * second) queued.db job claim_run (omega arith)).1

abbrev retried : World Store
retried = (retry_deletion_step env 20 (codes "media") 9 queued).1

retry_run : retry_deletion_step env 20 (codes "media") 9 queued ≡ (ok tt, retried)
unfolding evaluation
retry_run = refl

job_found : find (is_job 20) queued.db.jobs ≡ some row
unfolding evaluation
job_found = refl

retry_deletion_step-ready_example :
    is_ready
      (90 * second)
      (retry_deletion_step-ready env
        (codes "media")
        9
        (90 * second)
        queued
        retried
        row
        retry_run
        job_found
        (omega arith)).0
    ≡ true
retry_deletion_step-ready_example =
    (retry_deletion_step-ready env (codes "media") 9 (90 * second) queued retried row retry_run
      job_found (omega arith)).2

live : exists (is_active_row 1) begin.db.users ≡ true
unfolding evaluation
live = refl

request_deletion-IsSettled_example :
    IsSettled 1 begin.db (request_deletion env 1 begin).1.db (request_deletion env 1 begin).0
request_deletion-IsSettled_example = request_deletion-IsSettled env 1 begin live

answered : AreServed clients queued.db.steps
answered = (λ n user. refl, tt)

-- A job for the last tick to do nothing after.
two_ticks : open_count queued.db.jobs ≤ 2
unfolding open_count
two_ticks = ground arith

run-drains_example :
    ((run env clients 2 queued).0 ≡ ok tt) × (open_count (run env clients 2 queued).1.db.jobs ≡ 0)
run-drains_example =
    run-drains env clients (90 * second) (λ n. refl) (λ n. ground arith) 2 queued (refl, tt)
      answered two_ticks
