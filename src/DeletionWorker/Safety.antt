-- ===== src/DeletionWorker/Safety.antt =====
-- The worker deletes a user only after every other service has been called to delete the user's data
-- and has answered well.
use beebase_auth_service.Prelude.{
  sym, ◌<◌, ◌≤◌, ap, ◌∙◌, ℕ, ◌+◌, ◌≡◌, refl, Bool, true, false, Option, none, some, List, [], ◌∷◌,
  All, Text, arith, update_where, remove_where, Bool-cases, inl, inr, ◌⊎◌,
}
use beebase_auth_service.World.{
  pure, or_none, query, request, Result, ok, err, Db, World, Env, App, StepRow, Call,
  delete_user_data, ◌>>=◌, continue,
}
use beebase_auth_service.World.Ensures.{
  Ensures-trivial, Ensures, Ensures-ok, Ensures-bind, Ensures-mono, Ensures-if, Ensures-pure,
  Ensures-query, with_db,
}
use beebase_auth_service.World.Keeps.{
  Keeps-if, Keeps-pure, Keeps-continue, Keeps, Keeps-query, Keeps-bind, keeps_rules,
}
use beebase_auth_service.Domain.User.{User}
use beebase_auth_service.Repository.Users
use beebase_auth_service.Repository.Users.{has_id}
use beebase_auth_service.Repository.Deletion.{is_step}
use beebase_auth_service.Repository.DeletionJobs.{
  claim, DeletionJob, DeletionStep, is_completed, claim_deletion, complete_deletion_step,
  retry_deletion_step, complete_deletion_job, step_completed,
}
use beebase_auth_service.DeletionWorker.{
  user_not_found, request, Clients, Client, succeeds, retry, call_client, run_step, run_steps,
  finish, run_job, is_ok,
}

-- A call that has gone out.
abbrev pub IsCalled : Call → List Call → Type 0
IsCalled c [] = ⊥
IsCalled c (x ∷ xs) = (c ≡ x) ⊎ IsCalled c xs

-- Every row of the step is completed.
abbrev pub IsDone : ℕ → Text → List StepRow → Type 0
IsDone job_id service = All (λ r. is_step job_id service r ≡ true → is_completed r.status ≡ true)

complete-IsDone :
    (job_id : ℕ) (service : Text) (rows : List StepRow)
    → IsDone job_id service (update_where (is_step job_id service) step_completed rows)
unfolding update_where
complete-IsDone job_id service [] = tt
complete-IsDone job_id service (r ∷ rows) = (
  elim (Bool-cases (is_step job_id service r)) [
    | inl hit ↦ λ _. rw hit refl
    | inr miss ↦ λ h. absurd (ground (arith, h, miss))
  ],
  complete-IsDone job_id service rows,
)

-- Completing one step leaves the others that are done so.
IsDone-kept :
    (job_id : ℕ) (service other : Text) (rows : List StepRow)
    → IsDone job_id service rows
    → IsDone job_id service (update_where (is_step job_id other) step_completed rows)
unfolding update_where
IsDone-kept job_id service other [] h = tt
IsDone-kept job_id service other (r ∷ rows) (h, hs) = (
  elim (Bool-cases (is_step job_id other r)) [
    | inl hit ↦ rw hit (λ _. refl)
    | inr miss ↦ rw miss h
  ],
  IsDone-kept job_id service other rows hs,
)

module _ {S : Type 0} where
  called-Ensures :
      (c : Call) (f : ℕ → Result (Unit {0})) (w : World S)
      → Ensures (succeeds (request c f)) w (λ b v.
        (b ≡ is_ok (f w.event)) × (v ≡ record w { event = w.event + 1; calls = c ∷ w.calls }))
  unfolding succeeds request
  called-Ensures c f w = record { good = (refl, refl) }

  completed-Ensures :
      (env : Env) (job_id : ℕ) (service : Text) (w : World S)
      → Ensures (complete_deletion_step env job_id service) w (λ _ v.
        v
        ≡ with_db w (record w.db {
          steps = update_where (is_step job_id service) step_completed w.db.steps;
        }))
  unfolding complete_deletion_step
  completed-Ensures env job_id service w = Ensures-query env _ _ λ u e. refl

is_ok-ok : (r : Result (Unit {0})) → is_ok r ≡ true → r ≡ ok tt
is_ok-ok (ok tt) h = refl
is_ok-ok (err e) h = absurd (ground (arith, h))

-- From `start` on.
module _ {S : Type 0} (env : Env) (clients : Clients) (job : DeletionJob) (start : ℕ) where
  -- Since `start`, the service's client has been called for the user and has answered well, and the
  -- step's rows are completed.
  pub record IsHandled (w : World S) (step : DeletionStep) : Type 0 where
    pub client : Client
    pub known : clients step.service ≡ some client
    pub at : ℕ
    pub since : start ≤ at
    pub passed : at < w.event
    pub answered : client at job.user_id ≡ ok tt
    pub called : IsCalled (delete_user_data step.service job.user_id) w.calls
    pub done : IsDone job.id step.service w.db.steps

  abbrev Handled : World S → DeletionStep → Type 0
  Handled w step = is_completed step.status ≡ false → IsHandled w step

  -- What is handled stays handled.
  abbrev Later : World S → World S → Type 0
  Later w w' = (w.event ≤ w'.event) × ((step : DeletionStep) → IsHandled w step → IsHandled w' step)

  call_client-Ensures :
      (step : DeletionStep) (client : Option Client) (w : World S)
      → clients step.service ≡ client
      → start ≤ w.event
      → Ensures
          (call_client env clients job step client)
          w
          (λ goes_on w'. goes_on ≡ true → IsHandled w' step × Later w w')
  unfolding call_client
  call_client-Ensures step none w known from =
      Ensures-bind _ _ (Ensures-trivial _ w)
        λ _ w1 _. Ensures-pure false λ h. absurd (ground (arith, h))
  call_client-Ensures step (some client) w known from =
      Ensures-bind _ _ (called-Ensures _ _ w) λ deleted w1 e1.
        Ensures-if deleted _ _
          (λ p. Ensures-bind _ _ (completed-Ensures env job.id step.service w1) λ _ w2 e2.
            let answered : client w.event job.user_id ≡ ok tt = is_ok-ok _ (sym e1.0 ∙ p) in
            Ensures-pure true λ _. (
              record {
                client = client;
                known = known;
                at = w.event;
                since = from;
                passed = rw (e2, e1.1) (omega arith);
                answered = answered;
                called = rw (e2, e1.1) (inl refl);
                done = rw (e2, e1.1) (complete-IsDone job.id step.service w.db.steps);
              },
              (
                rw (e2, e1.1) (omega arith),
                λ other h.
                    let before = h.passed in
                    record {
                      client = h.client;
                      known = h.known;
                      at = h.at;
                      since = h.since;
                      passed = rw (e2, e1.1) (omega arith);
                      answered = h.answered;
                      called = rw (e2, e1.1) (inr h.called);
                      done =
                          rw (e2, e1.1)
                            (IsDone-kept job.id other.service step.service w.db.steps h.done);
                    },
              ),
            ))
          λ p.
            Ensures-bind _ _ (Ensures-trivial _ w1)
              λ _ w2 _. Ensures-pure false λ h. absurd (ground (arith, h))

  run_steps-Ensures :
      (steps : List DeletionStep) (w : World S)
      → start ≤ w.event
      → Ensures
          (run_steps env clients job steps)
          w
          (λ done w'. done ≡ true → All (Handled w') steps × Later w w')
  unfolding run_steps run_step
  run_steps-Ensures [] w from = Ensures-pure true λ _. (tt, (ground arith, λ step h. h))
  run_steps-Ensures (step ∷ rest) w from =
      Ensures-bind {R = λ goes_on w1. goes_on ≡ true → Handled w1 step × Later w w1} _ _
        (Ensures-if (is_completed step.status) _ _
          (λ p.
            Ensures-pure true
              λ _. ((λ h. absurd (ground (arith, h, p))), (ground arith, λ other h. h)))
          λ p.
            Ensures-mono (call_client-Ensures step (clients step.service) w refl from)
              λ b w1 h yes. ((λ _. (h yes).0), (h yes).1))
        λ goes_on w1 e1.
          Ensures-if goes_on _ _
            (λ p.
              let (first, (grown, before)) = e1 p in
              let later : start ≤ w1.event = ground (arith, from, grown) in
              Ensures-mono (run_steps-Ensures rest w1 later) λ done w2 e2 yes.
                let (others, (further, after)) = e2 yes in
                (
                  ((λ q. after step (first q)), others),
                  (ground (arith, grown, further), λ other h. after other (before other h)),
                ))
            λ p. Ensures-pure false λ h. absurd (ground (arith, h))

module _ {S : Type 0} (env : Env) (clients : Clients) (job : DeletionJob) where
  -- The loop over the steps of a job runs to its end only if, for each step that was not completed,
  -- the service has a client, which in the course of the loop has been called to delete the user's
  -- data and has answered without an error, and all rows of the step are completed.
  pub run_steps_complete :
      (w w' : World S)
      → run_steps env clients job job.steps w ≡ (ok true, w')
      → All
          (λ step. is_completed step.status ≡ false → IsHandled env clients job w.event w' step)
          job.steps
  run_steps_complete w w' e =
      (Ensures-ok (run_steps-Ensures env clients job w.event job.steps w (ground arith)) true w' e
        refl).0

-- The table of users is this one.
abbrev HasUsers : List User → Db → Type 0
HasUsers users d = d.users ≡ users

module _ {S : Type 0} (env : Env) (clients : Clients) (users : List User) where
  claim-Keeps : Keeps {S = S} (HasUsers users) (claim_deletion env)
  unfolding claim_deletion claim
  claim-Keeps = Keeps-query env _ _ λ now d h. ground (arith, h)

  complete-Keeps :
      (id : ℕ) (service : Text)
      → Keeps {S = S} (HasUsers users) (complete_deletion_step env id service)
  unfolding complete_deletion_step
  complete-Keeps id service = Keeps-query env _ _ λ now d h. h

  retry-Keeps :
      (job : DeletionJob) (step : DeletionStep)
      → Keeps {S = S} (HasUsers users) (retry env clients job step)
  unfolding retry retry_deletion_step
  retry-Keeps job step =
      Keeps-bind _ _ (Keeps-query env _ _ λ now d h. h) λ _. Keeps-query env _ _ λ now d h. h

  complete_job-Keeps : (id : ℕ) → Keeps {S = S} (HasUsers users) (complete_deletion_job env id)
  unfolding complete_deletion_job
  complete_job-Keeps id = Keeps-query env _ _ λ now d h. h

  succeeds-Keeps :
      {A : Type 0} (m : App S A) → Keeps (HasUsers users) m → Keeps (HasUsers users) (succeeds m)
  unfolding succeeds
  succeeds-Keeps m k = record { at = k.at }

  call_client-Keeps :
      (job : DeletionJob) (step : DeletionStep) (client : Option Client)
      → Keeps {S = S} (HasUsers users) (call_client env clients job step client)
  unfolding call_client
  call_client-Keeps job step none = search (keeps_rules, retry-Keeps)
  call_client-Keeps job step (some client) =
      search (keeps_rules, retry-Keeps, complete-Keeps, succeeds-Keeps)

  run_steps-Keeps :
      (job : DeletionJob) (steps : List DeletionStep)
      → Keeps {S = S} (HasUsers users) (run_steps env clients job steps)
  unfolding run_steps run_step
  run_steps-Keeps job [] = search (keeps_rules)
  run_steps-Keeps job (step ∷ rest) =
      Keeps-bind _ _
        (Keeps-if (is_completed step.status) _ _ (Keeps-pure true)
          (call_client-Keeps job step (clients step.service)))
        λ goes_on. Keeps-if goes_on _ _ (run_steps-Keeps job rest) (Keeps-pure false)

-- The user is deleted, or the table stays as it was.
abbrev pub DeletesOnly : List User → ℕ → List User → Type 0
DeletesOnly users id after = (after ≡ users) ⊎ (after ≡ remove_where (has_id id) users)

module _ {S : Type 0} (env : Env) (clients : Clients) where
  delete-only :
      (id : ℕ) (w : World S) → DeletesOnly w.db.users id (Users.delete env id w).1.db.users
  unfolding Users.delete query Users.delete_cascade
  delete-only id w = ground (arith)

  finish-only :
      (job : DeletionJob) (w : World S)
      → DeletesOnly w.db.users job.user_id (finish env clients job true w).1.db.users
  unfolding finish ◌>>=◌
  finish-only job w =
      let (r, v) = Users.delete env job.user_id w in
      let same =
        Keeps-continue (or_none user_not_found r) (λ _. complete_deletion_job env job.id)
          (λ _. complete_job-Keeps env clients v.db.users job.id) v refl in
      rw same (delete-only job.user_id w)

  -- Where the loop over the steps has come out with `r`.
  job-only :
      (job : DeletionJob) (w v : World S) (r : Result Bool)
      → run_steps env clients job job.steps w ≡ (r, v)
      → v.db.users ≡ w.db.users
      → ((continue r (finish env clients job) v).1.db.users ≡ w.db.users)
        ⊎ ((run_steps env clients job job.steps w ≡ (ok true, v))
            × ((continue r (finish env clients job) v).1.db.users
                ≡ remove_where (has_id job.user_id) w.db.users))
  unfolding finish pure
  job-only job w v (err e) h same = inl same
  job-only job w v (ok false) h same = inl same
  job-only job w v (ok true) h same = elim (finish-only job v) [
    | inl kept ↦ inl (kept ∙ same)
    | inr gone ↦ inr (h, gone ∙ ap (remove_where (has_id job.user_id)) same)
  ]

  -- Whatever happens in a run over a job, the table of users stays as it is, unless the loop over
  -- the steps has run to its end: then the job's user is the only one who may be deleted.
  pub run_job-deletes_only :
      (job : DeletionJob) (w : World S)
      → ((run_job env clients (some job) w).1.db.users ≡ w.db.users)
        ⊎ ((v : World S) × (run_steps env clients job job.steps w ≡ (ok true, v))
            × ((run_job env clients (some job) w).1.db.users
                ≡ remove_where (has_id job.user_id) w.db.users))
  unfolding run_job ◌>>=◌
  run_job-deletes_only job w =
      let (r, v) = run_steps env clients job job.steps w in
      elim (job-only job w v r refl
        ((run_steps-Keeps env clients w.db.users job job.steps).at w refl)) [
          | inl same ↦ inl same
          | inr (ran, gone) ↦ inr (v, ran, gone)
        ]
