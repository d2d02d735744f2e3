-- ===== src/Lifecycle/Doomed/Requested.antt =====
-- RequestDeletion brings no account back that is being deleted.
use beebase_auth_service.Prelude.{
  String, ℕ, Bool, true, false, List, [], ◌∷◌, Text, find, exists, Bool-cases, Option-cases, inl,
  inr, if◌then◌else◌,
}
use beebase_auth_service.World.{Env, World, App, Result, ok, err}
use beebase_auth_service.World.Keeps.{
  Keeps, Keeps-query, Keeps-bind, Keeps-if, Keeps-pure, Keeps-raise, Keeps-new_uuid, keeps_rules,
}
use beebase_auth_service.Repository.Deletion
use beebase_auth_service.Lifecycle.{owns_job}
use beebase_auth_service.Repository.Users.{has_id}
use beebase_auth_service.Lifecycle.Doomed.{IsDoomedIn, mark_pending-IsDoomed}

module _ {S : Type 0} (env : Env) (k : ℕ) where
  upsert-IsDoomed :
      (job_id id : ℕ) → Keeps {S = S} (IsDoomedIn k) (Deletion.upsert_job env job_id id)
  unfolding Deletion.upsert_job
  upsert-IsDoomed job_id id = Keeps-query env _ _ λ now d h.
      elim (Option-cases (find (owns_job id) d.jobs)) [
        | inr (j, found) ↦ rw found h
        | inl missing ↦ elim (Bool-cases (exists (Deletion.is_job job_id) d.jobs)) [
          | inl taken ↦ rw (missing, taken) h
          | inr fresh ↦ rw (missing, fresh) h
        ]
      ]

  revoke_tokens-IsDoomed : (id : ℕ) → Keeps {S = S} (IsDoomedIn k) (Deletion.revoke_tokens env id)
  unfolding Deletion.revoke_tokens
  revoke_tokens-IsDoomed id = Keeps-query env _ _ λ now d h. h

  insert_step-IsDoomed :
      (job_id : ℕ) (service : Text)
      → Keeps {S = S} (IsDoomedIn k) (Deletion.insert_step env job_id service)
  unfolding Deletion.insert_step
  insert_step-IsDoomed job_id service = Keeps-query env _ _ λ now d h.
      elim (Bool-cases (exists (Deletion.is_step job_id service) d.steps)) [
        | inl old ↦ rw old h
        | inr new ↦ rw new h
      ]

  insert_steps-IsDoomed :
      (job_id : ℕ) (services : List Text)
      → Keeps {S = S} (IsDoomedIn k) (Deletion.insert_steps env job_id services)
  unfolding Deletion.insert_steps
  insert_steps-IsDoomed job_id [] = Keeps-pure _
  insert_steps-IsDoomed job_id (service ∷ services) =
      Keeps-bind _ _ (insert_step-IsDoomed job_id service)
        λ _. insert_steps-IsDoomed job_id services

  bare-IsDoomed : (site : String) → Keeps {S = S} (IsDoomedIn k) (Deletion.bare env site)
  bare-IsDoomed site = Keeps-query env _ _ λ now d h. h

  existing-IsDoomed : (id : ℕ) → Keeps {S = S} (IsDoomedIn k) (Deletion.existing_request env id)
  unfolding Deletion.existing_request
  existing-IsDoomed id =
      Keeps-bind _ _
        (Keeps-query env _ _ λ now d h. elim (Option-cases (find (has_id id) d.users)) [
          | inl missing ↦ rw missing h
          | inr (u, found) ↦ rw found h
        ])
        λ status. Keeps-if _ _ _ (bare-IsDoomed _) (Keeps-raise _)

  fresh-IsDoomed :
      (job_id id : ℕ) → Keeps {S = S} (IsDoomedIn k) (Deletion.fresh_request env job_id id)
  unfolding Deletion.fresh_request
  fresh-IsDoomed job_id id =
      search
        (keeps_rules, revoke_tokens-IsDoomed, upsert-IsDoomed, insert_steps-IsDoomed, bare-IsDoomed)
        depth 12

  follow_up-IsDoomed :
      (affected : Bool) (job_id id : ℕ)
      → Keeps {S = S} (IsDoomedIn k) (
          if affected
          then Deletion.fresh_request env job_id id
          else Deletion.existing_request env id)
  follow_up-IsDoomed true job_id id = fresh-IsDoomed job_id id
  follow_up-IsDoomed false job_id id = existing-IsDoomed id

  rolled_back-IsDoomed :
      {A : Type 0} (r : Result A) (w w' : World S)
      → IsDoomedIn k w.db
      → IsDoomedIn k w'.db
      → IsDoomedIn k (Deletion.in_transaction {A = A} (λ _. (r, w')) w).1.db
  rolled_back-IsDoomed (ok a) w w' h q = q
  rolled_back-IsDoomed (err e) w w' h q = h

  in_transaction-IsDoomed :
      {A : Type 0} (m : App S A)
      → Keeps (IsDoomedIn k) m
      → Keeps (IsDoomedIn k) (Deletion.in_transaction m)
  in_transaction-IsDoomed m kept = record {
    at = λ w h. rolled_back-IsDoomed (m w).0 w (m w).1 h (kept.at w h);
  }

  pub request_deletion-IsDoomed :
      (id : ℕ) → Keeps {S = S} (IsDoomedIn k) (Deletion.request_deletion env id)
  unfolding Deletion.request_deletion
  request_deletion-IsDoomed id = in_transaction-IsDoomed _ (
      Keeps-bind _ _ (bare-IsDoomed _) λ _. Keeps-bind _ _ (Keeps-new_uuid env) λ job_id.
        Keeps-bind _ _ (mark_pending-IsDoomed env k _ id)
          λ affected. follow_up-IsDoomed affected job_id id)
