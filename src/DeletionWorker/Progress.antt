-- ===== src/DeletionWorker/Progress.antt =====
-- Where every service answers and the database does not fail, one run of the worker carries out a
-- deletion.
use beebase_auth_service.Prelude.{
  All-update_where, ap, ◌∙◌, exists-removed, ℕ, ◌+◌, ◌≡◌, refl, Bool, true, false, Option, none,
  some, List, [], ◌∷◌, All, Text, arith, ◌==◌, exists, update_where, Bool-cases, inl, inr,
  if◌then◌else◌,
}
use beebase_auth_service.Errors.{user_not_found, sentinel}
use beebase_auth_service.World.{
  Result, ok, World, Env, JobRow, StepRow, Call, pure, optional, query, request,
}
use beebase_auth_service.World.Attains.{
  Attains, Attains-pure, Attains-query, Attains-bind, Attains-mono, Attains-optional,
  Attains-missing,
}
use beebase_auth_service.World.Ensures.{with_db}
use beebase_auth_service.Repository.Users
use beebase_auth_service.Repository.Users.{has_id}
use beebase_auth_service.Repository.Deletion.{is_job}
use beebase_auth_service.Repository.DeletionJobs
use beebase_auth_service.Repository.DeletionJobs.{
  DeletionJob, DeletionStep, is_completed, next_ready, claim, steps_of, insert_by_service,
}
use beebase_auth_service.DeletionWorker.{
  Clients, Client, succeeds, call_client, run_step, run_steps, finish, run_job, run_once,
}

-- The worker has a client of the service, and the service always answers well.
abbrev pub IsServed : Option Client → Type 0
IsServed none = ⊥
IsServed (some client) = (n user_id : ℕ) → client n user_id ≡ ok tt

abbrev pub AreServed : Clients → List StepRow → Type 0
AreServed clients = All (λ r. IsServed (clients r.service))

-- Every row of the job is completed.
abbrev pub IsCompleted : ℕ → List JobRow → Type 0
IsCompleted id = All (λ j. is_job id j ≡ true → is_completed j.status ≡ true)

job_completed-IsCompleted :
    (id : ℕ) (js : List JobRow)
    → IsCompleted id (update_where (is_job id) DeletionJobs.job_completed js)
unfolding update_where
job_completed-IsCompleted id [] = tt
job_completed-IsCompleted id (j ∷ js) = (
  elim (Bool-cases (is_job id j)) [
    | inl hit ↦ λ _. rw hit refl
    | inr miss ↦ λ h. absurd (ground (arith, h, miss))
  ],
  job_completed-IsCompleted id js,
)

module _ (P : Text → Type 0) where
  insert-All :
      (x : DeletionStep) (xs : List DeletionStep)
      → P x.service
      → All (λ y. P y.service) xs
      → All (λ y. P y.service) (insert_by_service x xs)
  insert-All x [] h hs = (h, tt)
  insert-All x (y ∷ ys) h (hy, hs) = elim (Bool-cases (DeletionJobs.text_le x.service y.service)) [
    | inl before ↦ rw before (h, (hy, hs))
    | inr after ↦ rw after (hy, insert-All x ys h hs)
  ]

  steps_of-All :
      (id : ℕ) (rows : List StepRow)
      → All (λ r. P r.service) rows
      → All (λ y. P y.service) (steps_of id rows)
  unfolding steps_of
  steps_of-All id [] h = tt
  steps_of-All id (r ∷ rows) (h, hs) = elim (Bool-cases (r.job_id == id)) [
    | inl own ↦ rw own (insert-All _ (steps_of id rows) h (steps_of-All id rows hs))
    | inr other ↦ rw other (steps_of-All id rows hs)
  ]

module _ {S : Type 0} (env : Env) (clients : Clients) (job : DeletionJob)
    (fine : (n : ℕ) → env.fault n ≡ false) where
  -- The users and the jobs are those of `w`, and the steps are still of services that answer.
  abbrev Untouched : World S → World S → Type 0
  Untouched w v =
      (v.db.users ≡ w.db.users)
      × (v.db.jobs ≡ w.db.jobs)
      × (AreServed clients w.db.steps → AreServed clients v.db.steps)

  Untouched-trans : (u v w : World S) → Untouched u v → Untouched v w → Untouched u w
  Untouched-trans u v w (users, jobs, steps) (users', jobs', steps') =
      (users' ∙ users, jobs' ∙ jobs, λ h. steps' (steps h))

  -- The user is gone, the job is completed, and the steps are as before.
  abbrev IsOver : World S → World S → Type 0
  IsOver w v =
      (exists (has_id job.user_id) v.db.users ≡ false)
      × (v.db.jobs ≡ update_where (is_job job.id) DeletionJobs.job_completed w.db.jobs)
      × (AreServed clients w.db.steps → AreServed clients v.db.steps)

  called-Attains :
      (c : Call) (f : ℕ → Result (Unit {0})) (w : World S)
      → f w.event ≡ ok tt
      → Attains (succeeds (request c f)) w (λ deleted v. (deleted ≡ true) × Untouched w v)
  unfolding succeeds request
  called-Attains c f w e = record {
    value = true;
    after = record w { event = w.event + 1; calls = c ∷ w.calls };
    runs = rw e refl;
    holds = (refl, (refl, refl, λ h. h));
  }

  completed-Attains :
      (service : Text) (w : World S)
      → Attains (DeletionJobs.complete_deletion_step env job.id service) w (λ _ v. Untouched w v)
  unfolding DeletionJobs.complete_deletion_step
  completed-Attains service w =
      Attains-query env _ _ tt _ (fine w.event) refl
        (refl, refl, λ h. All-update_where _ _ _ w.db.steps (λ r served. served) h)

  call_client-Attains :
      (step : DeletionStep) (client : Option Client) (w : World S)
      → IsServed client
      → Attains
          (call_client env clients job step client)
          w
          (λ goes_on v. (goes_on ≡ true) × Untouched w v)
  unfolding call_client
  call_client-Attains step none w h = absurd h
  call_client-Attains step (some client) w h =
      Attains-bind _ _ (called-Attains _ _ w (h w.event job.user_id))
        λ deleted v (ended_well, same). rw ended_well (
          Attains-bind _ _ (completed-Attains step.service v)
            λ _ v' same'. Attains-pure true (refl, Untouched-trans w v v' same same'))

  step-Attains :
      (completed : Bool) (step : DeletionStep) (w : World S)
      → IsServed (clients step.service)
      → Attains
          (if completed then pure true else call_client env clients job step (clients step.service))
          w
          (λ goes_on v. (goes_on ≡ true) × Untouched w v)
  step-Attains true step w h = Attains-pure true (refl, (refl, refl, λ h. h))
  step-Attains false step w h = call_client-Attains step _ w h

  run_steps-Attains :
      (steps : List DeletionStep) (w : World S)
      → All (λ step. IsServed (clients step.service)) steps
      → Attains (run_steps env clients job steps) w (λ done v. (done ≡ true) × Untouched w v)
  unfolding run_steps run_step
  run_steps-Attains [] w h = Attains-pure true (refl, (refl, refl, λ h. h))
  run_steps-Attains (step ∷ rest) w (h, hs) =
      Attains-bind _ _ (step-Attains (is_completed step.status) step w h) λ goes_on v (on, same).
        rw on (
          Attains-mono (run_steps-Attains rest v hs)
            λ done v' (ended, same'). (ended, Untouched-trans w v v' same same'))

  deleted-Attains :
      (w : World S)
      → exists (has_id job.user_id) w.db.users ≡ true
      → Attains (Users.delete env job.user_id) w (λ _ v.
        (exists (has_id job.user_id) v.db.users ≡ false)
        × (v.db.jobs ≡ w.db.jobs)
        × (v.db.steps ≡ w.db.steps))
  unfolding Users.delete Users.delete_cascade
  deleted-Attains w there =
      Attains-query env _ _ tt (Users.delete_cascade job.user_id w.db) (fine w.event)
        (rw there refl) (exists-removed (has_id job.user_id) w.db.users, refl, refl)

  -- Whether or not the user is still there, afterwards there is none.
  delete-Attains :
      (w : World S)
      → Attains (optional user_not_found (Users.delete env job.user_id)) w (λ _ v.
        (exists (has_id job.user_id) v.db.users ≡ false)
        × (v.db.jobs ≡ w.db.jobs)
        × (v.db.steps ≡ w.db.steps))
  unfolding Users.delete Users.delete_cascade query
  delete-Attains w = elim (Bool-cases (exists (has_id job.user_id) w.db.users)) [
    | inl there ↦ Attains-optional _ _ (deleted-Attains w there)
    | inr gone ↦
        Attains-missing _ _ (sentinel user_not_found) (with_db w w.db)
          (rw (fine w.event, gone) refl) refl (gone, refl, refl)
  ]

  finish-Attains : (w : World S) → Attains (finish env clients job true) w (λ _ v. IsOver w v)
  unfolding finish DeletionJobs.complete_deletion_job
  finish-Attains w = Attains-bind _ _ (delete-Attains w) λ _ v (gone, jobs, steps).
      Attains-query env _ _ tt _ (fine v.event) refl
        (gone, ap (update_where (is_job job.id) DeletionJobs.job_completed) jobs, λ h. rw steps h)

  run_job-Attains :
      (w : World S)
      → All (λ step. IsServed (clients step.service)) job.steps
      → Attains (run_job env clients (some job)) w (λ _ v. IsOver w v)
  unfolding run_job
  run_job-Attains w h =
      Attains-bind _ _ (run_steps-Attains job.steps w h) λ done v (ended, (users, jobs, steps)).
        rw ended (
          Attains-mono (finish-Attains v) λ _ v' (gone, jobs', steps'). (
            gone,
            jobs' ∙ ap (update_where (is_job job.id) DeletionJobs.job_completed) jobs,
            λ h. steps' (steps h),
          ))

module _ {S : Type 0} (env : Env) (clients : Clients) where
  claim-Attains :
      (w : World S) (j : JobRow)
      → env.fault w.event ≡ false
      → next_ready (env.now w.event) w.db.jobs ≡ some j
      → Attains (DeletionJobs.claim_deletion env) w (λ job v.
        (job ≡ some (record { id = j.id; user_id = j.user_id; steps = steps_of j.id w.db.steps }))
        × (v.db.jobs
            ≡ update_where (is_job j.id) (DeletionJobs.claimed (env.now w.event)) w.db.jobs)
        × (v.db.steps ≡ w.db.steps))
  unfolding DeletionJobs.claim_deletion claim
  claim-Attains w j fine ready =
      Attains-query env _ _
        (some (record { id = j.id; user_id = j.user_id; steps = steps_of j.id w.db.steps }))
        (record w.db {
          jobs = update_where (is_job j.id) (DeletionJobs.claimed (env.now w.event)) w.db.jobs;
        })
        fine (rw (claim, ready) refl) (refl, refl, refl)

  pub run_once-Attains :
      (w : World S) (j : JobRow)
      → ((n : ℕ) → env.fault n ≡ false)
      → next_ready (env.now w.event) w.db.jobs ≡ some j
      → AreServed clients w.db.steps
      → Attains (run_once env clients) w (λ _ v.
        (exists (has_id j.user_id) v.db.users ≡ false)
        × (v.db.jobs
            ≡ update_where
                (is_job j.id)
                DeletionJobs.job_completed
                (update_where (is_job j.id) (DeletionJobs.claimed (env.now w.event)) w.db.jobs))
        × AreServed clients v.db.steps)
  unfolding run_once
  run_once-Attains w j fine ready served =
      Attains-bind _ _ (claim-Attains w j (fine w.event) ready) λ job v (found, jobs, steps).
        rw found (
          Attains-mono
            (run_job-Attains env clients _ fine v
              (steps_of-All (λ name. IsServed (clients name)) j.id w.db.steps served))
            λ _ v' (gone, jobs', steps'). (
              gone,
              jobs' ∙ ap (update_where (is_job j.id) DeletionJobs.job_completed) jobs,
              steps' (rw steps served),
            ))

  -- Where the database does not fail and every service that a step names has a client and answers
  -- well, one run of the worker deletes the user of the job that is due and completes the job.
  pub run_once-finishes :
      (w : World S) (j : JobRow)
      → ((n : ℕ) → env.fault n ≡ false)
      → next_ready (env.now w.event) w.db.jobs ≡ some j
      → All (λ r. IsServed (clients r.service)) w.db.steps
      → ((run_once env clients w).0 ≡ ok tt)
        × (exists (has_id j.user_id) (run_once env clients w).1.db.users ≡ false)
        × IsCompleted j.id (run_once env clients w).1.db.jobs
  run_once-finishes w j fine ready served =
      let a = run_once-Attains w j fine ready served in
      let (gone, jobs, _) = a.holds in
      rw (a.runs) (refl, gone, rw jobs (job_completed-IsCompleted j.id _))
