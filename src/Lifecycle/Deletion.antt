-- ===== src/Lifecycle/Deletion.antt =====
-- RequestDeletion keeps every state sound.
use beebase_auth_service.Prelude.{
  exists-head, ◌&&◌, ap, exists-tail, update_where-none, ◌≤◌, ◌==◌, ==_refl, if◌then◌else◌,
  find-exists, sym, String, ℕ, ◌≡◌, refl, ◌∙◌, Bool, true, false, List, [], ◌∷◌, Text, arith, find,
  exists, update_where, Bool-cases, Option-cases, inl, inr,
}
use beebase_auth_service.World.{World, Db, Env, App, Result, ok, err}
use beebase_auth_service.World.Keeps.{
  Keeps-raise, Keeps-if, Keeps-pure, Keeps-new_uuid, Keeps, Keeps-query, Keeps-bind,
}
use beebase_auth_service.World.Leads.{Leads, Leads-query, Leads-bind, Leads-kept, After}
use beebase_auth_service.Domain.User.{User}
use beebase_auth_service.Repository.Users
use beebase_auth_service.Repository.Deletion
use beebase_auth_service.Repository.Deletion.{
  in_transaction, request_deletion, fresh_request, existing_request,
}
use beebase_auth_service.Repository.Effects.{revoke_of}
use beebase_auth_service.Lifecycle.{
  has_id, is_live, JobRow, live_count, owns_job, IsSound, IsSoundIn,
}
use beebase_auth_service.Lifecycle.Counting.{
  live_count-revoked, live_count-revoke_of, pending_of-other, IsSound-mono,
}
use beebase_auth_service.Repository.Users.{is_active_row}

module _ {S A : Type 0} (k : ℕ) where
  rolled_back :
      (r : Result A) (w w' : World S)
      → IsSoundIn k w.db
      → After (λ _. IsSoundIn k) (λ _. Unit {0}) r w'.db
      → IsSoundIn k (in_transaction {A = A} (λ _. (r, w')) w).1.db
  rolled_back (ok a) w w' h q = q
  rolled_back (err e) w w' h q = h

  -- It is enough that the block leads to a sound state where it ends well.
  in_transaction-IsSound :
      (m : App S A)
      → Leads (IsSoundIn k) (λ _. IsSoundIn k) (λ _. Unit {0}) m
      → Keeps (IsSoundIn k) (in_transaction m)
  in_transaction-IsSound m l = record { at = λ w h. rolled_back (m w).0 w (m w).1 h (l.at w h) }

-- The user is marked; nor has a live token.
abbrev IsMarked : ℕ → ℕ → Db → Type 0
IsMarked k id d = (live_count k d.refresh_tokens ≤ 1) × ((id == k) ≡ false → IsSoundIn k d)

abbrev IsRevoked : ℕ → ℕ → Db → Type 0
IsRevoked k id d = IsMarked k id d × ((id == k) ≡ true → live_count k d.refresh_tokens ≡ 0)

update_where-IsMarked :
    (k id : ℕ) (d : Db) (f : User → User)
    → ((u : User) → (f u).id ≡ u.id)
    → IsSoundIn k d
    → IsMarked k id (record d { users = update_where (is_active_row id) f d.users })
update_where-IsMarked k id d f same h = (
  h.0,
  λ apart.
      IsSound-mono k _ _ _ _ _ _ (ground arith)
        (λ p. sym (pending_of-other k id f d.users same apart) ∙ p) (λ owned. owned) h,
)

with_job :
    (k id : ℕ) (d : Db) (jobs : List JobRow)
    → (exists (owns_job k) d.jobs ≡ true → exists (owns_job k) jobs ≡ true)
    → exists (owns_job id) jobs ≡ true
    → IsRevoked k id d
    → IsSound k d.users d.refresh_tokens jobs
with_job k id d jobs more owned ((single, other), revoked) = elim (Bool-cases (id == k)) [
  | inl own ↦
      let same : id ≡ k = ground arith in
      let has_job : exists (owns_job k) jobs ≡ true =
        ap (λ i. exists (owns_job i) jobs) (sym same) ∙ owned in
      (single, rw (revoked own, has_job) (ground arith))
  | inr apart ↦ IsSound-mono k _ _ _ _ _ _ (ground arith) (λ p. p) more (other apart)
]

module _ {S : Type 0} (env : Env) (k : ℕ) where
  mark-Leads :
      (site : String) (id : ℕ)
      → Leads {S = S}
          (IsSoundIn k)
          (λ b d. if b then IsMarked k id d else IsSoundIn k d)
          (λ _. Unit {0})
          (Users.mark_pending_rows env site id)
  unfolding Users.mark_pending_rows
  mark-Leads site id =
      Leads-query env _ _ (λ d h. tt)
        λ now d h. elim (Bool-cases (exists (is_active_row id) d.users)) [
          | inl found ↦ rw found (update_where-IsMarked k id d _ (λ _. refl) h)
          | inr none_found ↦
              rw (none_found, update_where-none (is_active_row id) _ d.users none_found) h
        ]

  revoke-Leads :
      (id : ℕ)
      → Leads {S = S}
          (IsMarked k id)
          (λ _. IsRevoked k id)
          (λ _. Unit {0})
          (Deletion.revoke_tokens env id)
  unfolding Deletion.revoke_tokens
  revoke-Leads id =
      Leads-query env _ _ (λ d h. tt)
        λ now d (single, other).
          let fewer =
            live_count-revoked k now (λ t. t.user_id == id && is_live t) d.refresh_tokens in
          (
            (
              ground (arith, fewer),
              λ apart. IsSound-mono k _ _ _ _ _ _ fewer (λ p. p) (λ owned. owned) (other apart),
            ),
            λ own.
                let same : id ≡ k = ground arith in
                ap (λ i. live_count k (revoke_of now i d.refresh_tokens)) same
                ∙ live_count-revoke_of k now d.refresh_tokens,
          )

  upsert-Leads :
      (job_id id : ℕ)
      → Leads {S = S}
          (IsRevoked k id)
          (λ _. IsSoundIn k)
          (λ _. Unit {0})
          (Deletion.upsert_job env job_id id)
  unfolding Deletion.upsert_job
  upsert-Leads job_id id =
      Leads-query env _ _ (λ d h. tt)
        λ now d h. elim (Option-cases (find (owns_job id) d.jobs)) [
          | inr (j, found) ↦ rw found (
              with_job k id d d.jobs (λ owned. owned)
                (find-exists (owns_job id) d.jobs {x = j} found) h)
          | inl missing ↦ elim (Bool-cases (exists (Deletion.is_job job_id) d.jobs)) [
            | inl taken ↦ rw (missing, taken) tt
            | inr fresh ↦
                rw (missing, fresh)
                  (with_job k id d _ (exists-tail (owns_job k) _ d.jobs)
                    (exists-head (owns_job id) _ d.jobs (==_refl id)) h)
          ]
        ]

  insert_step-IsSound :
      (job_id : ℕ) (service : Text)
      → Keeps {S = S} (IsSoundIn k) (Deletion.insert_step env job_id service)
  unfolding Deletion.insert_step
  insert_step-IsSound job_id service = Keeps-query env _ _ λ now d h.
      elim (Bool-cases (exists (Deletion.is_step job_id service) d.steps)) [
        | inl old ↦ rw old h
        | inr new ↦ rw new h
      ]

  insert_steps-IsSound :
      (job_id : ℕ) (services : List Text)
      → Keeps {S = S} (IsSoundIn k) (Deletion.insert_steps env job_id services)
  unfolding Deletion.insert_steps
  insert_steps-IsSound job_id [] = Keeps-pure _
  insert_steps-IsSound job_id (service ∷ services) =
      Keeps-bind _ _ (insert_step-IsSound job_id service) λ _. insert_steps-IsSound job_id services

  bare-IsSound : (site : String) → Keeps {S = S} (IsSoundIn k) (Deletion.bare env site)
  bare-IsSound site = Keeps-query env _ _ λ now d h. h

  existing-IsSound : (id : ℕ) → Keeps {S = S} (IsSoundIn k) (existing_request env id)
  unfolding existing_request
  existing-IsSound id =
      Keeps-bind _ _
        (Keeps-query env _ _ λ now d h. elim (Option-cases (find (has_id id) d.users)) [
          | inl missing ↦ rw missing h
          | inr (u, found) ↦ rw found h
        ])
        λ status. Keeps-if _ _ _ (bare-IsSound _) (Keeps-raise _)

  fresh-Leads :
      (job_id id : ℕ)
      → Leads {S = S}
          (IsMarked k id)
          (λ _. IsSoundIn k)
          (λ _. Unit {0})
          (fresh_request env job_id id)
  unfolding fresh_request
  fresh-Leads job_id id = Leads-bind _ _ (revoke-Leads id) λ _.
      Leads-bind _ _ (upsert-Leads job_id id) λ job.
        Leads-kept _ (λ d h. tt)
          (Keeps-bind _ _ (insert_steps-IsSound job Deletion.deletion_services) λ _. bare-IsSound _)

  follow_up-Leads :
      (affected : Bool) (job_id id : ℕ)
      → Leads {S = S}
          (λ d. if affected then IsMarked k id d else IsSoundIn k d)
          (λ _. IsSoundIn k)
          (λ _. Unit {0})
          (if affected then fresh_request env job_id id else existing_request env id)
  follow_up-Leads true job_id id = fresh-Leads job_id id
  follow_up-Leads false job_id id = Leads-kept _ (λ d h. tt) (existing-IsSound id)

  pub request_deletion-IsSound : (id : ℕ) → Keeps {S = S} (IsSoundIn k) (request_deletion env id)
  unfolding request_deletion
  request_deletion-IsSound id = in_transaction-IsSound k _ (
      Leads-bind _ _ (Leads-kept _ (λ d h. tt) (bare-IsSound _)) λ _.
        Leads-bind _ _ (Leads-kept _ (λ d h. tt) (Keeps-new_uuid env))
          λ job_id. Leads-bind _ _ (mark-Leads _ id) λ affected. follow_up-Leads affected job_id id)
