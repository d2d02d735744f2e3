-- ===== src/Repository/DeletionJobs/Lease.antt =====
-- What claiming and retrying a deletion job do to the time at which it can be claimed again.
use beebase_auth_service.Prelude.{
  sym, ap, Option-cases, ℕ, ◌+◌, ◌*◌, ◌^◌, ltb, ◌≤◌, ◌≡◌, refl, true, false, Option, none, some,
  List, [], ◌∷◌, All, Text, ==_refl, leb, arith, find, update_where, find-update_where, Bool-cases,
  inl, inr,
}
use mathlib.Core.List.{Memᴰ}
use mathlib.Core.Path.{subst}
use beebase_auth_service.World.{ok, Db, JobRow, StepRow, World, Env}
use beebase_auth_service.World.Ensures.{Ensures, Ensures-ok, Ensures-bind, Ensures-query}
use beebase_auth_service.Repository.Deletion.{is_job, is_step}
use beebase_auth_service.Repository.DeletionJobs.{
  DeletionJob, minute, is_ready, next_ready, claim, claimed, job_to_retry, step_to_retry,
  retry_delay, retry_deletion_step, earlier,
}

earlier-ready :
    (now : ℕ) (x : JobRow) (rest : List JobRow) (m : Option JobRow)
    → is_ready now x ≡ true
    → ((k : JobRow) → m ≡ some k → Memᴰ k rest × (is_ready now k ≡ true))
    → Memᴰ (earlier x m) (x ∷ rest) × (is_ready now (earlier x m) ≡ true)
earlier-ready now x rest none h r = (Memᴰ.head refl, h)
earlier-ready now x rest (some k) h r =
    elim (Bool-cases (leb x.next_attempt_at k.next_attempt_at)) [
      | inl le ↦ rw le (Memᴰ.head refl, h)
      | inr gt ↦ let (there, ready) = r k refl in rw gt (Memᴰ.tail there, ready)
    ]

-- A job that is picked is one of the jobs, and is ready.
next_ready-ready :
    (now : ℕ) (jobs : List JobRow) (j : JobRow)
    → next_ready now jobs ≡ some j
    → Memᴰ j jobs × (is_ready now j ≡ true)
unfolding next_ready
next_ready-ready now [] j e = cc
next_ready-ready now (x ∷ rest) j e = elim (Bool-cases (is_ready now x)) [
  | inl fits ↦
      let (h, ready) =
        earlier-ready now x rest (next_ready now rest) fits (λ k. next_ready-ready now rest k) in
      let same : earlier x (next_ready now rest) ≡ j = cc (rw fits at e) in
      (subst (λ k. Memᴰ k (x ∷ rest)) same h, rw (sym same) ready)
  | inr unfit ↦ let (h, ready) = next_ready-ready now rest j (rw unfit at e) in (Memᴰ.tail h, ready)
]

claimed-not_ready :
    (now t id : ℕ) (jobs : List JobRow)
    → t ≤ now + 2 * minute
    → All
        (λ j. is_job id j ≡ true → is_ready t j ≡ false)
        (update_where (is_job id) (claimed now) jobs)
unfolding update_where is_ready
claimed-not_ready now t id [] early = tt
claimed-not_ready now t id (j ∷ jobs) early = (
  elim (Bool-cases (is_job id j)) [
    | inl hit ↦ rw hit λ _. ground arith
    | inr miss ↦ rw miss λ h. absurd (ground (arith, h, miss))
  ],
  claimed-not_ready now t id jobs early,
)

-- A claim takes the id and the user of a job of the table that was ready, and until the lease of two minutes has run out the job is not
-- ready, so that no other claim takes it.
pub claim-exclusive :
    (now t : ℕ) (d : Db) (job : DeletionJob)
    → (claim now d).0 ≡ some job
    → t ≤ now + 2 * minute
    → (j : JobRow) × (job.id ≡ j.id)
      × (job.user_id ≡ j.user_id)
      × Memᴰ j d.jobs
      × (is_ready now j ≡ true)
      × All (λ k. is_job job.id k ≡ true → is_ready t k ≡ false) (claim now d).1.jobs
unfolding claim
claim-exclusive now t d job e early = elim (Option-cases (next_ready now d.jobs)) [
  | inl nothing ↦ absurd (cc (rw (claim, nothing) at e))
  | inr (j, picked) ↦
      let same : job.id ≡ j.id =
        ap (λ o. elim o [ none ↦ 0 | some x ↦ x.id ]) (sym (rw (claim, picked) at e)) in
      let owner : job.user_id ≡ j.user_id =
        ap (λ o. elim o [ none ↦ 0 | some x ↦ x.user_id ]) (sym (rw (claim, picked) at e)) in
      let (there, ready) = next_ready-ready now d.jobs j picked in
      (
        j,
        same,
        owner,
        there,
        ready,
        rw (claim, picked, same) (claimed-not_ready now t j.id d.jobs early),
      )
]

-- Up to the eighth attempt the delay doubles with each, from a minute.
retry_delay-doubles :
    (attempt : ℕ) → attempt ≤ 8 → retry_delay attempt ≡ 2 ^ attempt * 60_000_000_000
retry_delay-doubles attempt below = elim (Bool-cases (ltb attempt 8)) [
  | inl less ↦ rw less refl
  | inr least ↦ let eight : attempt ≡ 8 = ground (arith, below, least) in rw eight refl
]

-- From then on it is 256 minutes.
retry_delay-capped : (attempt : ℕ) → 8 ≤ attempt → retry_delay attempt ≡ 256 * 60_000_000_000
retry_delay-capped attempt above = elim (Bool-cases (ltb attempt 8)) [
  | inl less ↦ absurd (ground (arith, above, less))
  | inr least ↦ rw least refl
]

-- Every row of the step is to be tried again at that time.
abbrev IsDueAt : ℕ → Text → ℕ → List StepRow → Type 0
IsDueAt id service at = All (λ x. is_step id service x ≡ true → x.next_attempt_at ≡ at)

retried-later :
    (now attempt id : ℕ) (service : Text) (steps : List StepRow)
    → IsDueAt id service
        (now + retry_delay attempt)
        (update_where (is_step id service) (step_to_retry now attempt) steps)
unfolding update_where
retried-later now attempt id service [] = tt
retried-later now attempt id service (x ∷ steps) = (
  elim (Bool-cases (is_step id service x)) [
    | inl hit ↦ rw hit λ _. refl
    | inr miss ↦ rw miss λ h. absurd (ground (arith, h, miss))
  ],
  retried-later now attempt id service steps,
)

module _ {S : Type 0} (env : Env) where
  retry-Ensures :
      (id : ℕ) (service : Text) (attempt : ℕ) (w : World S)
      → Ensures (retry_deletion_step env id service attempt) w (λ _ v.
        (v.db.jobs ≡ update_where (is_job id) job_to_retry w.db.jobs)
        × (v.db.steps
            ≡ update_where
                (is_step id service)
                (step_to_retry (env.now w.event) attempt)
                w.db.steps))
  unfolding retry_deletion_step
  retry-Ensures id service attempt w =
      Ensures-bind
        {R = λ _ v.
          (v.db.jobs ≡ w.db.jobs)
          × (v.db.steps
              ≡ update_where (is_step id service) (step_to_retry (env.now w.event) attempt)
                  w.db.steps)}
        _ _ (Ensures-query env _ _ λ _ e. (refl, refl))
        λ _ v e. Ensures-query env _ _ λ _ e'. (ap (update_where (is_job id) job_to_retry) e.0, e.1)

  -- Retrying a step puts the step's next attempt off by two to the power of the attempts, in minutes,
  -- up to the eighth attempt, and by 256 minutes from then on; but it leaves the job's next attempt,
  -- by which jobs are claimed: a stored job that is due by it is ready again at once.
  pub retry_deletion_step-ready :
      (service : Text) (attempt t : ℕ) (w w' : World S) (j : JobRow)
      → retry_deletion_step env j.id service attempt w ≡ (ok tt, w')
      → find (is_job j.id) w.db.jobs ≡ some j
      → j.next_attempt_at ≤ t
      → (k : JobRow) × (find (is_job j.id) w'.db.jobs ≡ some k)
        × (is_ready t k ≡ true)
        × (attempt ≤ 8
            → IsDueAt j.id service (env.now w.event + 2 ^ attempt * 60_000_000_000) w'.db.steps)
        × (8 ≤ attempt → IsDueAt j.id service (env.now w.event + 256 * 60_000_000_000) w'.db.steps)
  unfolding is_ready
  retry_deletion_step-ready service attempt t w w' j e found due =
      let (jobs, steps) = Ensures-ok (retry-Ensures j.id service attempt w) tt w' e in
      let row =
        find-update_where (is_job j.id) (is_job j.id) job_to_retry w.db.jobs {x = j} (λ y. refl)
          found in
      let later = retried-later (env.now w.event) attempt j.id service w.db.steps in
      let put_off : IsDueAt j.id service (env.now w.event + retry_delay attempt) w'.db.steps =
        rw steps later in
      (
        job_to_retry j,
        rw jobs (ground (arith, row, ==_refl j.id)),
        ground (arith, due),
        λ below.
            subst (λ d. IsDueAt j.id service (env.now w.event + d) w'.db.steps)
              (retry_delay-doubles attempt below) put_off,
        λ above.
            subst (λ d. IsDueAt j.id service (env.now w.event + d) w'.db.steps)
              (retry_delay-capped attempt above) put_off,
      )
