-- ===== src/Lifecycle/Doomed.antt =====
-- The statements that bring no account back that is being deleted.
pub mod Requested
pub mod Operations
pub mod Accounts
pub mod Worker
pub mod Steps
use beebase_auth_service.Prelude.{
  String, ap, ℕ, ◌≡◌, refl, sym, ◌∙◌, Bool, true, false, Option, none, some, List, [], ◌∷◌, Text,
  arith, ◌==◌, find, exists, update_where, remove_where, Bool-cases, Option-cases, inl, inr,
  if◌then◌else◌,
}
use beebase_auth_service.World.{Db, Env, JobRow, World, App, Result, ok, err}
use beebase_auth_service.World.Keeps.{
  Keeps, Keeps-query, Keeps-bind, Keeps-if, Keeps-pure, Keeps-raise, Keeps-new_uuid, keeps_rules,
}
use beebase_auth_service.Domain.User.{User, is_pending}
use beebase_auth_service.Domain.Token.{RefreshToken}
use beebase_auth_service.Repository.Users
use beebase_auth_service.Repository.RefreshTokens
use beebase_auth_service.Repository.DeletionJobs
use beebase_auth_service.Lifecycle.{owns_job}
use beebase_auth_service.Repository.Users.{has_id, is_active_row}

-- The user is being deleted, or gone.
abbrev pub doomed_row : Option User → Bool
doomed_row none = true
doomed_row (some u) = is_pending u.deletion_status

abbrev pub doomed_of : ℕ → List User → Bool
doomed_of id users = doomed_row (find (has_id id) users)

abbrev pub IsDoomed : ℕ → List User → List RefreshToken → List JobRow → Type 0
IsDoomed id users tokens jobs = doomed_of id users ≡ true

abbrev pub IsDoomedIn : ℕ → Db → Type 0
IsDoomedIn id d = doomed_of id d.users ≡ true

doomed_of-update :
    (id : ℕ) (q : User → Bool) (f : User → User) (us : List User)
    → ((u : User) → (f u).id ≡ u.id)
    → ((u : User) → is_pending u.deletion_status ≡ true → is_pending (f u).deletion_status ≡ true)
    → doomed_of id us ≡ true
    → doomed_of id (update_where q f us) ≡ true
unfolding find update_where
doomed_of-update id q f [] same stays h = refl
doomed_of-update id q f (u ∷ us) same stays h = elim (Bool-cases (u.id == id)) [
  | inl own ↦
      let mine : is_pending u.deletion_status ≡ true = rw own at h in
      ground (arith, same u, own, mine, stays u mine)
  | inr other ↦
      let rest = doomed_of-update id q f us same stays (rw other at h) in
      ground (arith, same u, other, rest)
]

doomed_of-gone : (id : ℕ) (us : List User) → doomed_of id (remove_where (has_id id) us) ≡ true
unfolding find remove_where
doomed_of-gone id [] = refl
doomed_of-gone id (u ∷ us) = ground (arith, doomed_of-gone id us)

doomed_of-stays :
    (id other : ℕ) (us : List User)
    → (other == id) ≡ false
    → doomed_of id (remove_where (has_id other) us) ≡ doomed_of id us
unfolding find remove_where
doomed_of-stays id other [] apart = refl
doomed_of-stays id other (u ∷ us) apart = ground (arith, doomed_of-stays id other us apart)

doomed_of-remove :
    (id other : ℕ) (us : List User)
    → doomed_of id us ≡ true
    → doomed_of id (remove_where (has_id other) us) ≡ true
doomed_of-remove id other us h = elim (Bool-cases (other == id)) [
  | inl same ↦
      let at_id : other ≡ id = ground arith in
      ap (λ i. doomed_of id (remove_where (has_id i) us)) at_id ∙ doomed_of-gone id us
  | inr apart ↦ doomed_of-stays id other us apart ∙ h
]

module _ {S : Type 0} (env : Env) (k : ℕ) where
  pub update_user-IsDoomed : (u : User) → Keeps {S = S} (IsDoomedIn k) (Users.update env u)
  unfolding Users.update
  update_user-IsDoomed u = Keeps-query env _ _ λ now d h.
      elim (Bool-cases (exists (has_id u.id) d.users)) [
        | inl there ↦ rw there (doomed_of-update k _ _ d.users (λ _. refl) (λ _ p. p) h)
        | inr gone ↦ rw gone h
      ]

  pub update_password-IsDoomed :
      (id : ℕ) (hash : Text) → Keeps {S = S} (IsDoomedIn k) (Users.update_password env id hash)
  unfolding Users.update_password
  update_password-IsDoomed id hash = Keeps-query env _ _ λ now d h.
      elim (Bool-cases (exists (has_id id) d.users)) [
        | inl there ↦ rw there (doomed_of-update k _ _ d.users (λ _. refl) (λ _ p. p) h)
        | inr gone ↦ rw gone h
      ]

  pub delete_user-IsDoomed : (id : ℕ) → Keeps {S = S} (IsDoomedIn k) (Users.delete env id)
  unfolding Users.delete Users.delete_cascade
  delete_user-IsDoomed id = Keeps-query env _ _ λ now d h.
      elim (Bool-cases (exists (has_id id) d.users)) [
        | inl there ↦ rw there (doomed_of-remove k id d.users h)
        | inr gone ↦ rw gone h
      ]

  pub mark_pending-IsDoomed :
      (site : String) (id : ℕ) → Keeps {S = S} (IsDoomedIn k) (Users.mark_pending_rows env site id)
  unfolding Users.mark_pending_rows
  mark_pending-IsDoomed site id =
      Keeps-query env _ _ λ now d h. doomed_of-update k _ _ d.users (λ _. refl) (λ _ p. refl) h

  pub revoke_all-IsDoomed :
      (id : ℕ) → Keeps {S = S} (IsDoomedIn k) (RefreshTokens.revoke_all_for_user env id)
  unfolding RefreshTokens.revoke_all_for_user
  revoke_all-IsDoomed id = Keeps-query env _ _ λ now d h. h

  pub revoke-IsDoomed : (id : ℕ) → Keeps {S = S} (IsDoomedIn k) (RefreshTokens.revoke env id)
  unfolding RefreshTokens.revoke
  revoke-IsDoomed id = Keeps-query env _ _ λ now d h. h

  pub create_token-IsDoomed :
      (t : RefreshToken) → Keeps {S = S} (IsDoomedIn k) (RefreshTokens.create env t)
  unfolding RefreshTokens.create
  create_token-IsDoomed t = Keeps-query env _ _ λ now d h. ground (arith, h)

  pub claim-IsDoomed : Keeps {S = S} (IsDoomedIn k) (DeletionJobs.claim_deletion env)
  unfolding DeletionJobs.claim_deletion DeletionJobs.claim
  claim-IsDoomed = Keeps-query env _ _ λ now d h.
      elim (Option-cases (DeletionJobs.next_ready now d.jobs)) [
        | inl idle ↦ rw (DeletionJobs.claim, idle) h
        | inr (j, found) ↦ rw (DeletionJobs.claim, found) h
      ]

  pub complete_step-IsDoomed :
      (id : ℕ) (service : Text)
      → Keeps {S = S} (IsDoomedIn k) (DeletionJobs.complete_deletion_step env id service)
  unfolding DeletionJobs.complete_deletion_step
  complete_step-IsDoomed id service = Keeps-query env _ _ λ now d h. h

  pub complete_job-IsDoomed :
      (id : ℕ) → Keeps {S = S} (IsDoomedIn k) (DeletionJobs.complete_deletion_job env id)
  unfolding DeletionJobs.complete_deletion_job
  complete_job-IsDoomed id = Keeps-query env _ _ λ now d h. h

  pub retry-IsDoomed :
      (id : ℕ) (service : Text) (attempt : ℕ)
      → Keeps {S = S} (IsDoomedIn k) (DeletionJobs.retry_deletion_step env id service attempt)
  unfolding DeletionJobs.retry_deletion_step
  retry-IsDoomed id service attempt =
      Keeps-bind _ _ (Keeps-query env _ _ λ now d h. h) λ _. Keeps-query env _ _ λ now d h. h
