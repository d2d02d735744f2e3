-- ===== src/DeletionWorker/Draining.antt =====
-- Enough ticks of the worker complete every job.
use beebase_auth_service.Prelude.{
  ◌-◌, ℕ, zero, suc, ◌+◌, ◌≤◌, ◌<◌, ◌≡◌, refl, ap, ◌∙◌, Bool, true, false, ◌&&◌, none, some, List,
  [], ◌∷◌, All, arith, ◌==◌, ==_refl, leb, update_where, Bool-cases, Option-cases, inl, inr,
  if◌then◌else◌,
}
use beebase_auth_service.World.{World, Env, JobRow, ok}
use beebase_auth_service.Repository.Deletion.{is_job}
use beebase_auth_service.World.Attains.{
  Attains, Attains-pure, Attains-query, Attains-bind, Attains-mono, Attains-ignoring,
}
use beebase_auth_service.DeletionWorker.{Clients, run_once, run_job, run}
use beebase_auth_service.DeletionWorker.Progress.{AreServed, run_once-Attains}
use beebase_auth_service.Repository.DeletionJobs
use beebase_auth_service.Repository.DeletionJobs.{
  is_completed, is_ready, next_ready, earlier, claimed, job_completed,
}

-- How many jobs are not completed.
unfoldable pub open_count : List JobRow → ℕ
open_count [] = 0
open_count (j ∷ js) = let rest = open_count js in if is_completed j.status then rest else 1 + rest

-- The job is completed, or it is ready whenever it is looked at from a time on.
abbrev pub is_due : ℕ → JobRow → Bool
is_due from j =
    if is_completed j.status
    then true
    else leb j.next_attempt_at from && elim j.lease_until [ none ↦ true | some t ↦ false ]

-- A job as a run that carries it out leaves it.
abbrev done_with : ℕ → JobRow → List JobRow → List JobRow
done_with now j js =
    update_where (is_job j.id) job_completed (update_where (is_job j.id) (claimed now) js)

open_count-done :
    (now id : ℕ) (js : List JobRow)
    → open_count
        (update_where (is_job id) job_completed (update_where (is_job id) (claimed now) js))
      ≤ open_count js
unfolding open_count update_where
open_count-done now id [] = ground arith
open_count-done now id (x ∷ js) = ground (arith, open_count-done now id js)

ready-open : (now : ℕ) (j : JobRow) → is_ready now j ≡ true → is_completed j.status ≡ false
unfolding is_ready
ready-open now j h = ground arith

completed-waits : (now : ℕ) (j : JobRow) → is_completed j.status ≡ true → is_ready now j ≡ false
unfolding is_ready
completed-waits now j h = ground arith

due-ready :
    (now from : ℕ) (j : JobRow)
    → from ≤ now
    → is_completed j.status ≡ false
    → is_due from j ≡ true
    → is_ready now j ≡ true
unfolding is_ready
due-ready now from j late still_open due = ground arith

head-done :
    (now : ℕ) (x j : JobRow) (js : List JobRow)
    → x ≡ j
    → is_completed x.status ≡ false
    → open_count (done_with now j (x ∷ js)) < open_count (x ∷ js)
unfolding open_count update_where
head-done now x j js same still_open =
    let hit : (x.id == j.id) ≡ true = rw same (==_refl j.id) in
    let rest = open_count-done now j.id js in ground (arith, rest, hit, still_open)

tail-done :
    (now : ℕ) (x j : JobRow) (js : List JobRow)
    → open_count (done_with now j js) < open_count js
    → open_count (done_with now j (x ∷ js)) < open_count (x ∷ js)
unfolding open_count update_where
tail-done now x j js less = ground (arith, less)

-- The job that is claimed is one less.
open_count-next :
    (now : ℕ) (js : List JobRow) (j : JobRow)
    → next_ready now js ≡ some j
    → open_count (done_with now j js) < open_count js
unfolding next_ready
open_count-next now [] j h = cc
open_count-next now (x ∷ js) j h = elim (Bool-cases (is_ready now x)) [
  | inr waiting ↦ tail-done now x j js (open_count-next now js j (rw waiting at h))
  | inl ready ↦ elim (Option-cases (next_ready now js)) [
    | inl alone ↦
        let same : x ≡ j = let chosen : some x ≡ some j = rw (ready, alone) at h in cc chosen in
        head-done now x j js same (ready-open now x ready)
    | inr (k, found) ↦ elim (Bool-cases (leb x.next_attempt_at k.next_attempt_at)) [
      | inl before ↦
          let same : x ≡ j =
            let chosen : some x ≡ some j = rw (ready, found, before) at h in cc chosen in
          head-done now x j js same (ready-open now x ready)
      | inr after ↦
          let same : k ≡ j =
            let chosen : some k ≡ some j = rw (ready, found, after) at h in cc chosen in
          tail-done now x j js (open_count-next now js j (found ∙ ap some same))
    ]
  ]
]

-- Where a job is open, one is claimed.
open_count-none :
    (now from : ℕ) (js : List JobRow)
    → from ≤ now
    → All (λ j. is_due from j ≡ true) js
    → next_ready now js ≡ none
    → open_count js ≡ 0
unfolding open_count next_ready
open_count-none now from [] late due h = refl
open_count-none now from (x ∷ js) late (d, ds) h = elim (Bool-cases (is_completed x.status)) [
  | inl completed ↦
      rw completed (open_count-none now from js late ds (rw (completed-waits now x completed) at h))
  | inr still_open ↦ absurd (cc (rw (due-ready now from x late still_open d) at h))
]

due-done :
    (now from id : ℕ) (js : List JobRow)
    → All (λ j. is_due from j ≡ true) js
    → All
        (λ j. is_due from j ≡ true)
        (update_where (is_job id) job_completed (update_where (is_job id) (claimed now) js))
unfolding update_where
due-done now from id [] h = tt
due-done now from id (x ∷ js) (d, ds) = (ground arith, due-done now from id js ds)

module _ {S : Type 0} (env : Env) (clients : Clients) (from : ℕ)
    (fine : (n : ℕ) → env.fault n ≡ false) (late : (n : ℕ) → from ≤ env.now n) where
  abbrev IsRunning : World S → Type 0
  IsRunning w = All (λ j. is_due from j ≡ true) w.db.jobs × AreServed clients w.db.steps

  idle-Attains :
      (w : World S)
      → next_ready (env.now w.event) w.db.jobs ≡ none
      → Attains (run_once env clients) w (λ _ v. v.db ≡ w.db)
  unfolding run_once run_job DeletionJobs.claim_deletion DeletionJobs.claim
  idle-Attains w idle =
      Attains-bind {R = λ job v. (job ≡ none) × (v.db ≡ w.db)} _ _
        (Attains-query env _ _ none w.db (fine w.event) (rw (DeletionJobs.claim, idle) refl)
          (refl, refl))
        λ job v (nothing, same). rw nothing (Attains-pure tt same)

  -- One job less is open, if one was.
  tick-Attains :
      (w : World S)
      → IsRunning w
      → Attains
          (run_once env clients)
          w
          (λ _ v. IsRunning v × (open_count v.db.jobs ≤ open_count w.db.jobs - 1))
  tick-Attains w (due, served) = elim (Option-cases (next_ready (env.now w.event) w.db.jobs)) [
    | inl idle ↦ Attains-mono (idle-Attains w idle) λ _ v same.
        let none_open = open_count-none (env.now w.event) from w.db.jobs (late w.event) due idle in
        rw same ((due, served), ground (arith, none_open))
    | inr (j, ready) ↦
        Attains-mono (run_once-Attains env clients w j fine ready served)
          λ _ v (gone, jobs, served').
            let less = open_count-next (env.now w.event) w.db.jobs j ready in
            (
              (rw jobs (due-done (env.now w.event) from j.id w.db.jobs due), served'),
              rw jobs (ground (arith, less)),
            )
  ]

  run-Attains :
      (ticks : ℕ) (w : World S)
      → IsRunning w
      → Attains
          (run env clients ticks)
          w
          (λ _ v. open_count v.db.jobs ≤ open_count w.db.jobs - ticks)
  unfolding run
  run-Attains zero w h = Attains-pure tt (ground arith)
  run-Attains (suc ticks) w h =
      Attains-bind {R = λ _ v. IsRunning v × (open_count v.db.jobs ≤ open_count w.db.jobs - 1)} _ _
        (Attains-ignoring _ (tick-Attains w h))
        λ _ v (running, less).
          Attains-mono (run-Attains ticks v running) λ _ v' less'. ground (arith, less, less')

  -- Where the database does not fail, every service that a step names has a client and answers
  -- well, and every open job is due and not leased: as many ticks as there are open jobs complete
  -- them all.
  pub run-drains :
      (ticks : ℕ) (w : World S)
      → All (λ j. is_due from j ≡ true) w.db.jobs
      → AreServed clients w.db.steps
      → open_count w.db.jobs ≤ ticks
      → ((run env clients ticks w).0 ≡ ok tt) × (open_count (run env clients ticks w).1.db.jobs ≡ 0)
  run-drains ticks w due served enough =
      let a = run-Attains ticks w (due, served) in
      let rest = a.holds in rw (a.runs) (refl, ground (arith, rest, enough))
