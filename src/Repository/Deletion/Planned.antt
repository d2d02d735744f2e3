-- ===== src/Repository/Deletion/Planned.antt =====
-- What RequestDeletion has written where it ends well, and that it writes nothing where it fails.
use beebase_auth_service.Prelude.{
  ◌∙◌, ℕ, ◌≡◌, refl, Bool, true, false, none, some, List, [], ◌∷◌, All, Text, ◌==◌, ==_refl,
  text_eq_refl, arith, find, exists, update_where, Bool-cases, Option-cases, inl, inr,
}
use beebase_auth_service.Errors.{Error}
use beebase_auth_service.World.{Result, ok, err, Db, World, Env, App, JobRow, StepRow}
use beebase_auth_service.World.Ensures.{
  Good, Ensures, Ensures-ok, Ensures-bind, Ensures-mono, Ensures-if, Ensures-pure, Ensures-query,
  Ensures-new_uuid, with_db,
}
use beebase_auth_service.Domain.User.{User, deletion_pending}
use beebase_auth_service.Repository.Users
use beebase_auth_service.Repository.Users.{is_active_row, has_id}
use beebase_auth_service.Repository.Effects.{IsDead, revoke_of, revoke_of-IsDead}
use beebase_auth_service.Repository.Deletion.{
  WorkStatus, is_job, in_transaction, deletion_services, is_step, revoke_tokens, upsert_job,
  insert_step, insert_steps, fresh_request, request_deletion,
}

abbrev pub of_owner : ℕ → JobRow → Bool
of_owner user_id j = j.user_id == user_id

-- Rows that are there stay there.
abbrev pub Grows : List StepRow → List StepRow → Type 0
Grows before after = (q : StepRow → Bool) → exists q before ≡ true → exists q after ≡ true

marked-inactive :
    (id now : ℕ) (us : List User)
    → exists (is_active_row id) (
        update_where
          (is_active_row id)
          (λ x. record x { deletion_status = deletion_pending; updated_at = now })
          us)
      ≡ false
unfolding exists update_where
marked-inactive id now [] = refl
marked-inactive id now (u ∷ us) = let later = marked-inactive id now us in ground (arith, later)

module _ {S A : Type 0} where
  transaction-failed :
      (r : Result A) (v : World S) (d : Db) (e : Error)
      → (elim r as (λ _. Result A × World S) [
        | ok a ↦ (ok a, v)
        | err x ↦ (err x, record v { db = d })
      ]).0
        ≡ err e
      → (elim r as (λ _. Result A × World S) [
        | ok a ↦ (ok a, v)
        | err x ↦ (err x, record v { db = d })
      ]).1.db
        ≡ d
  transaction-failed (ok a) v d e h = absurd (cc h)
  transaction-failed (err x) v d e h = refl

  transaction-Good :
      (Q : A → World S → Type 0) (r : Result A) (v : World S) (d : Db)
      → Good Q r v
      → Good Q
          (elim r as (λ _. Result A × World S) [
            | ok a ↦ (ok a, v)
            | err x ↦ (err x, record v { db = d })
          ]).0
          (elim r as (λ _. Result A × World S) [
            | ok a ↦ (ok a, v)
            | err x ↦ (err x, record v { db = d })
          ]).1
  transaction-Good Q (ok a) v d h = h
  transaction-Good Q (err x) v d h = tt

  transaction-Ensures :
      (Q : A → World S → Type 0) (m : App S A) (w : World S)
      → Ensures m w Q
      → Ensures (in_transaction m) w Q
  transaction-Ensures Q m w h = record { good = transaction-Good Q (m w).0 (m w).1 w.db h.good }

-- The users and the tokens are the same.
abbrev pub SameAccounts : Db → Db → Type 0
SameAccounts d d' = (d'.users ≡ d.users) × (d'.refresh_tokens ≡ d.refresh_tokens)

-- The user's deletion is planned: a job with a step for every service, no live token, and an
-- account that is not active any more.
pub record IsPlanned (user_id : ℕ) (d : Db) : Type 0 where
  pub job : JobRow
  pub found : find (of_owner user_id) d.jobs ≡ some job
  pub steps : All (λ service. exists (is_step job.id service) d.steps ≡ true) deletion_services
  pub dead : All (IsDead user_id) d.refresh_tokens
  pub inactive : exists (is_active_row user_id) d.users ≡ false

-- After the outcome: the deletion is planned, or the database is the one before.
abbrev pub IsSettled : ℕ → Db → Db → Result (Unit {0}) → Type 0
IsSettled user_id before after (ok u) = IsPlanned user_id after
IsSettled user_id before after (err e) = after ≡ before

module _ {S : Type 0} (env : Env) where
  upsert_job-Ensures :
      (job_id user_id : ℕ) (w : World S)
      → Ensures (upsert_job env job_id user_id) w (λ id v.
        ((j : JobRow) × (find (of_owner user_id) v.db.jobs ≡ some j) × (j.id ≡ id))
        × SameAccounts w.db v.db)
  unfolding upsert_job find
  upsert_job-Ensures job_id user_id w = Ensures-query env _ _ λ id e.
      elim (Option-cases (find (of_owner user_id) w.db.jobs)) [
        | inl missing ↦ elim (Bool-cases (exists (is_job job_id) w.db.jobs)) [
          | inl taken ↦ absurd (cc (rw (missing, taken) at e))
          | inr free ↦
              let same : job_id ≡ id = cc (rw (missing, free) at e) in
              rw (missing, free)
                (
                  (
                    record {
                      id = job_id;
                      user_id = user_id;
                      status = WorkStatus.pending;
                      attempt_count = 0;
                      next_attempt_at = env.now w.event;
                      lease_until = none;
                    },
                    rw (==_refl user_id) refl,
                    same,
                  ),
                  (refl, refl),
                )
        ]
        | inr (j, found) ↦
            let same : j.id ≡ id = cc (rw found at e) in rw found ((j, found, same), (refl, refl))
      ]

  insert_step-Ensures :
      (job_id : ℕ) (service : Text) (w : World S)
      → Ensures (insert_step env job_id service) w (λ _ v.
        (exists (is_step job_id service) v.db.steps ≡ true)
        × Grows w.db.steps v.db.steps
        × (v.db.jobs ≡ w.db.jobs)
        × SameAccounts w.db v.db)
  unfolding insert_step exists
  insert_step-Ensures job_id service w = Ensures-query env _ _ λ id e.
      elim (Bool-cases (exists (is_step job_id service) w.db.steps)) [
        | inl there ↦ rw there (there, (λ q h. h), refl, (refl, refl))
        | inr missing ↦ rw missing (
          rw (==_refl job_id) (rw (text_eq_refl service) refl),
          (λ q h. ground (arith, h)),
          refl,
          (refl, refl),
        )
      ]

  insert_steps-Ensures :
      (job_id : ℕ) (services : List Text) (w : World S)
      → Ensures (insert_steps env job_id services) w (λ _ v.
        All (λ service. exists (is_step job_id service) v.db.steps ≡ true) services
        × Grows w.db.steps v.db.steps
        × (v.db.jobs ≡ w.db.jobs)
        × SameAccounts w.db v.db)
  unfolding insert_steps
  insert_steps-Ensures job_id [] w = Ensures-pure tt (tt, (λ q h. h), refl, (refl, refl))
  insert_steps-Ensures job_id (service ∷ rest) w =
      Ensures-bind _ _ (insert_step-Ensures job_id service w)
        λ _ w1 (first, grows, jobs, (users, tokens)).
          Ensures-mono (insert_steps-Ensures job_id rest w1)
            λ _ w2 (others, grows', jobs', (users', tokens')). (
              (grows' (is_step job_id service) first, others),
              (λ q h. grows' q (grows q h)),
              jobs' ∙ jobs,
              (users' ∙ users, tokens' ∙ tokens),
            )

  fresh-Ensures :
      (job_id user_id : ℕ) (w : World S)
      → exists (is_active_row user_id) w.db.users ≡ false
      → Ensures (fresh_request env job_id user_id) w (λ _ v. IsPlanned user_id v.db)
  unfolding fresh_request revoke_tokens
  fresh-Ensures job_id user_id w marked =
      Ensures-bind
        {R = λ _ v.
          v
          ≡ with_db w (record w.db {
            refresh_tokens = revoke_of (env.now w.event) user_id w.db.refresh_tokens;
          })}
        _ _ (Ensures-query env _ _ λ _ e. refl)
        λ _ w1 e1. Ensures-bind _ _ (upsert_job-Ensures job_id user_id w1) λ id w2 e2.
          Ensures-bind _ _ (insert_steps-Ensures id deletion_services w2) λ _ w3 e3.
            Ensures-query env _ _ λ _ e.
              let (j, found, same) = e2.0 in
              record {
                job = j;
                found = rw e3.2 found;
                steps = rw same e3.0;
                dead =
                    rw (e3.3.1, e2.1.1, e1)
                      (revoke_of-IsDead (env.now w.event) user_id w.db.refresh_tokens);
                inactive = rw (e3.3.0, e2.1.0, e1) marked;
              }

  request-Ensures :
      (user_id : ℕ) (w : World S)
      → exists (is_active_row user_id) w.db.users ≡ true
      → Ensures (request_deletion env user_id) w (λ _ v. IsPlanned user_id v.db)
  unfolding request_deletion Users.mark_pending_rows
  request-Ensures user_id w live =
      transaction-Ensures (λ _ v. IsPlanned user_id v.db) _ w
        (Ensures-bind {R = λ _ v. v.db ≡ w.db} _ _ (Ensures-query env _ _ λ _ e. refl) λ _ w1 e1.
          Ensures-bind _ _ (Ensures-new_uuid env) λ job_id w2 e2.
            Ensures-bind
              {R = λ affected v.
                (affected ≡ true) × (exists (is_active_row user_id) v.db.users ≡ false)}
              _ _
              (Ensures-query env _ _ λ affected e. (
                let same : exists (is_active_row user_id) w2.db.users ≡ affected = cc e in
                    let unchanged : w2.db ≡ w.db = ground arith in cc (same, live, unchanged),
                marked-inactive user_id (env.now w2.event) w2.db.users,
              ))
              λ affected w3 e3.
                Ensures-if affected _ _ (λ p. fresh-Ensures job_id user_id w3 e3.1)
                  λ p. absurd (cc (p, e3.0)))

  request-atomic :
      (user_id : ℕ) (w : World S) (e : Error)
      → (request_deletion env user_id w).0 ≡ err e
      → (request_deletion env user_id w).1.db ≡ w.db
  unfolding request_deletion
  request-atomic user_id w e h = transaction-failed _ _ w.db e h

  request-IsSettled :
      (user_id : ℕ) (w : World S) (r : Result (Unit {0}))
      → exists (is_active_row user_id) w.db.users ≡ true
      → (request_deletion env user_id w).0 ≡ r
      → IsSettled user_id w.db (request_deletion env user_id w).1.db r
  request-IsSettled user_id w (ok u) live h =
      Ensures-ok (request-Ensures user_id w live) u (request_deletion env user_id w).1 (cc h)
  request-IsSettled user_id w (err e) live h = request-atomic user_id w e h

  -- RequestDeletion is all or nothing. Where it ends well for an active account, the account is not
  -- active any more, none of its refresh tokens is live, and there is a job for it with a step for
  -- each of the services. Where it fails, the database is as it was.
  pub request_deletion-IsSettled :
      (user_id : ℕ) (w : World S)
      → exists (is_active_row user_id) w.db.users ≡ true
      → IsSettled user_id w.db
          (request_deletion env user_id w).1.db
          (request_deletion env user_id w).0
  request_deletion-IsSettled user_id w live = request-IsSettled user_id w _ live refl
