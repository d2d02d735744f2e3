-- ===== src/Repository/Deletion.antt =====
-- internal/repository/postgres/deletion_store.go: the request that starts an account's deletion,
-- and the store of the jobs that carry it out.
pub mod Planned
use beebase_auth_service.Prelude.{
  ℕ, Bool, ◌&&◌, none, some, List, [], ◌∷◌, Text, String, codes, ◌==◌, text_eq, find, exists,
  update_where, if◌then◌else◌,
}
use beebase_auth_service.Errors.{failed, wrap}
use beebase_auth_service.Domain.User.{is_pending}
use beebase_auth_service.Repository.Users
use beebase_auth_service.Repository.Users.{has_id}
use beebase_auth_service.Repository.RefreshTokens.{is_live, revoked}
use beebase_auth_service.World.{
  ok, err, JobRow, StepRow, WorkStatus, Env, App, ◌>>=◌, ◌>>◌, pure, raise, new_uuid, query,
}

-- `tx, err := db.Begin(ctx); defer tx.Rollback(ctx)`: unless the block ends well, after its
-- COMMIT, the database is as it was.
abbrev pub in_transaction : {S A : Type 0} → App S A → App S A
in_transaction m w =
    let (r, w') = m w in elim r [ ok a ↦ (ok a, w') | err e ↦ (err e, record w' { db = w.db }) ]

abbrev pub deletion_services : List Text
deletion_services =
    codes "apiary"
    ∷ codes "hive"
    ∷ codes "inspection"
    ∷ codes "harvest"
    ∷ codes "media"
    ∷ codes "notification"
    ∷ codes "subscription"
    ∷ []

abbrev pub is_step : ℕ → Text → StepRow → Bool
is_step job_id service x = x.job_id == job_id && text_eq x.service service

abbrev pub is_job : ℕ → JobRow → Bool
is_job id j = j.id == id

module _ {S : Type 0} (env : Env) where
  -- BEGIN and COMMIT are calls that may fail too.
  abbrev pub bare : String → App S (Unit {0})
  bare site = query env site λ now d. (ok tt, d)

  unfoldable pub revoke_tokens : ℕ → App S (Unit {0})
  revoke_tokens user_id = query env "deletion: revoke tokens" λ now d. (
    ok tt,
    record d {
      refresh_tokens =
          update_where (λ t. t.user_id == user_id && is_live t) (revoked now) d.refresh_tokens;
    },
  )

  -- `INSERT … ON CONFLICT (user_id) DO UPDATE SET updated_at=now() RETURNING id`.
  unfoldable pub upsert_job : ℕ → ℕ → App S ℕ
  upsert_job job_id user_id = query env "deletion: create job" λ now d.
      elim (find (λ j. j.user_id == user_id) d.jobs) [
        | some j ↦ (ok j.id, d)
        | none ↦
            if exists (is_job job_id) d.jobs
            then (err (wrap "deletion: create job" (failed "constraint violation")), d)
            else (
              ok job_id,
              record d {
                jobs =
                    record {
                      id = job_id;
                      user_id = user_id;
                      status = WorkStatus.pending;
                      attempt_count = 0;
                      next_attempt_at = now;
                      lease_until = none;
                    }
                    ∷ d.jobs;
              },
            )
      ]

  -- `INSERT … ON CONFLICT DO NOTHING`.
  unfoldable pub insert_step : ℕ → Text → App S (Unit {0})
  insert_step job_id service = query env "deletion: create step" λ now d.
      if exists (is_step job_id service) d.steps then (ok tt, d) else (
        ok tt,
        record d {
          steps =
              record {
                job_id = job_id;
                service = service;
                status = WorkStatus.pending;
                attempt_count = 0;
                next_attempt_at = now;
              }
              ∷ d.steps;
        },
      )

  unfoldable pub insert_steps : ℕ → List Text → App S (Unit {0})
  insert_steps job_id [] = pure tt
  insert_steps job_id (name ∷ rest) = insert_step job_id name >> insert_steps job_id rest

  -- What the code does where the UPDATE has affected no row.
  unfoldable pub existing_request : ℕ → App S (Unit {0})
  existing_request user_id = do
    status ← query env "deletion: check account status" λ now d.
        elim (find (has_id user_id) d.users) [
          | none ↦ (err (failed "deletion: account is missing"), d)
          | some u ↦ (ok u.deletion_status, d)
        ]
    if is_pending status
        then bare "deletion: commit existing request"
        else raise (failed "deletion: account is not deletable")

  unfoldable pub fresh_request : ℕ → ℕ → App S (Unit {0})
  fresh_request job_id user_id = do
    revoke_tokens user_id
    id ← upsert_job job_id user_id
    insert_steps id deletion_services
    bare "deletion: commit"

  unfoldable pub request_deletion : ℕ → App S (Unit {0})
  request_deletion user_id = in_transaction (do
    bare "deletion: begin"
    job_id ← new_uuid env
    affected ← Users.mark_pending_rows env "deletion: mark pending" user_id
    if affected then fresh_request job_id user_id else existing_request user_id)
