-- ===== src/Repository/DeletionJobs.antt =====
-- The methods of deletionJobStore in internal/repository/postgres/deletion_store.go.
pub mod Lease
use beebase_auth_service.Prelude.{
  ℕ, ◌+◌, ◌*◌, ◌^◌, Bool, true, false, ◌||◌, ◌&&◌, not, Option, none, some, List, [], ◌∷◌, Text,
  ◌==◌, ltb, leb, update_where, if◌then◌else◌,
}
use beebase_auth_service.World.{ok, Db, JobRow, StepRow, WorkStatus, Env, App, ◌>>◌, query}
use beebase_auth_service.Repository.Deletion.{is_step, is_job}

-- `DeletionStep` and `DeletionJob` of internal/application/auth/ports.go.
pub record DeletionStep : Type 0 where
  pub service : Text
  pub status : WorkStatus
  pub attempt_count : ℕ

pub record DeletionJob : Type 0 where
  pub id : ℕ
  pub user_id : ℕ
  pub steps : List DeletionStep

abbrev pub is_completed : WorkStatus → Bool
is_completed WorkStatus.pending = false
is_completed WorkStatus.processing = false
is_completed WorkStatus.completed = true

-- A minute, in nanoseconds.
abbrev pub minute : ℕ
minute = 60_000_000_000

abbrev pub min_int : ℕ → ℕ → ℕ
min_int a b = if ltb a b then a else b

-- The WHERE clause of the claim.
unfoldable pub is_ready : ℕ → JobRow → Bool
is_ready now j =
    not (is_completed j.status)
    && leb j.next_attempt_at now
    && elim j.lease_until [ none ↦ true | some t ↦ ltb t now ]

abbrev pub earlier : JobRow → Option JobRow → JobRow
earlier j none = j
earlier j (some k) = if leb j.next_attempt_at k.next_attempt_at then j else k

-- `ORDER BY next_attempt_at … LIMIT 1` over the jobs that are ready.
unfoldable pub next_ready : ℕ → List JobRow → Option JobRow
next_ready now [] = none
next_ready now (j ∷ rest) =
    let best = next_ready now rest in if is_ready now j then some (earlier j best) else best

-- Code points compare like the bytes of UTF-8.
abbrev pub text_le : Text → Text → Bool
text_le [] b = true
text_le (c ∷ a) [] = false
text_le (c ∷ a) (d ∷ b) = ltb c d || (c == d && text_le a b)

abbrev pub insert_by_service : DeletionStep → List DeletionStep → List DeletionStep
insert_by_service x [] = x ∷ []
insert_by_service x (y ∷ ys) =
    if text_le x.service y.service then x ∷ y ∷ ys else y ∷ insert_by_service x ys

-- `SELECT … FROM account_deletion_steps WHERE job_id=$1 ORDER BY service`.
unfoldable pub steps_of : ℕ → List StepRow → List DeletionStep
steps_of job_id [] = []
steps_of job_id (x ∷ xs) =
    let rest = steps_of job_id xs in
    if x.job_id == job_id
    then insert_by_service
        (record { service = x.service; status = x.status; attempt_count = x.attempt_count }) rest
    else rest

abbrev pub claimed : ℕ → JobRow → JobRow
claimed now j = record j {
  status = WorkStatus.processing;
  attempt_count = j.attempt_count + 1;
  lease_until = some (now + 2 * minute);
}

-- The claim's transaction: what it finds, and the tables after it.
unfoldable pub claim : ℕ → Db → Option DeletionJob × Db
unfolding next_ready steps_of is_ready
claim now d = elim (next_ready now d.jobs) [
  | none ↦ (none, d)
  | some j ↦ (
    some (record { id = j.id; user_id = j.user_id; steps = steps_of j.id d.steps }),
    record d { jobs = update_where (is_job j.id) (claimed now) d.jobs },
  )
]

abbrev pub step_completed : StepRow → StepRow
step_completed x = record x { status = WorkStatus.completed }

-- `time.Duration(1<<min(attempt, 8)) * time.Minute`.
abbrev pub retry_delay : ℕ → ℕ
retry_delay attempt = 2 ^ min_int attempt 8 * minute

abbrev pub step_to_retry : ℕ → ℕ → StepRow → StepRow
step_to_retry now attempt x = record x {
  status = WorkStatus.pending;
  attempt_count = attempt;
  next_attempt_at = now + retry_delay attempt;
}

abbrev pub job_to_retry : JobRow → JobRow
job_to_retry j = record j { status = WorkStatus.pending; lease_until = none }

abbrev pub job_completed : JobRow → JobRow
job_completed j = record j { status = WorkStatus.completed; lease_until = none }

module _ {S : Type 0} (env : Env) where
  -- The transaction is one call: it has an effect only if all of it succeeds.
  unfoldable pub claim_deletion : App S (Option DeletionJob)
  unfolding claim
  claim_deletion = query env "claim deletion" λ now d. let (job, d') = claim now d in (ok job, d')

  unfoldable pub complete_deletion_step : ℕ → Text → App S (Unit {0})
  complete_deletion_step job_id service = query env "complete deletion step" λ now d.
      (ok tt, record d { steps = update_where (is_step job_id service) step_completed d.steps })

  -- Two statements, with no transaction round them.
  unfoldable pub retry_deletion_step : ℕ → Text → ℕ → App S (Unit {0})
  retry_deletion_step job_id service attempt = do
    query env "retry deletion step" λ now d. (
      ok tt,
      record d {
        steps = update_where (is_step job_id service) (step_to_retry now attempt) d.steps;
      },
    )
    query env "retry deletion job"
        λ now d. (ok tt, record d { jobs = update_where (is_job job_id) job_to_retry d.jobs })

  unfoldable pub complete_deletion_job : ℕ → App S (Unit {0})
  complete_deletion_job job_id =
      query env "complete deletion job"
        λ now d. (ok tt, record d { jobs = update_where (is_job job_id) job_completed d.jobs })
