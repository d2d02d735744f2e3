-- ===== src/Lifecycle/Statements.antt =====
-- What the statements on users, refresh tokens and jobs make of the sound states.
use beebase_auth_service.Prelude.{
  sym, not, ◌||◌, ◌∙◌, ap, ℕ, ◌+◌, ◌≤◌, ◌≡◌, refl, false, some, List, ◌∷◌, Text, ◌==◌, arith, find,
  find-selected, exists, Bool-cases, Option-cases, inl, inr,
}
use beebase_auth_service.World.{JobRow, Db, Env}
use beebase_auth_service.World.Keeps.{Keeps-bind, Keeps, Keeps-query}
use beebase_auth_service.World.Leads.{Leads, Leads-query}
use beebase_auth_service.Domain.User.{User, is_pending}
use beebase_auth_service.Domain.Token.{RefreshToken}
use beebase_auth_service.Repository.Users
use beebase_auth_service.Repository.Users.{has_id, inserted}
use beebase_auth_service.Repository.RefreshTokens
use beebase_auth_service.Repository.RefreshTokens.{is_live}
use beebase_auth_service.Repository.DeletionJobs
use beebase_auth_service.Lifecycle.{live_count, pending_of, IsSound, IsSoundIn}
use beebase_auth_service.Lifecycle.Counting.{
  live_count-revoked, live_count-revoke_of, live_count-remove, pending_of-update, pending_of-remove,
  pending_of-inserted, exists-owns_job, IsSound-mono,
}

-- The user is not being deleted; nor has the user a live token; the row is the user's.
abbrev pub IsReady : ℕ → ℕ → List User → List RefreshToken → List JobRow → Type 0
IsReady k id users tokens jobs = IsSound k users tokens jobs × (pending_of id users ≡ false)

abbrev pub IsCleared : ℕ → ℕ → List User → List RefreshToken → List JobRow → Type 0
IsCleared k id users tokens jobs = IsReady k id users tokens jobs × (live_count id tokens ≡ 0)

abbrev pub IsFetched : ℕ → User → List User → List RefreshToken → List JobRow → Type 0
IsFetched k u users tokens jobs = IsSound k users tokens jobs × (find (has_id u.id) users ≡ some u)

abbrev pub IsReadyIn : ℕ → ℕ → Db → Type 0
IsReadyIn k id d = IsReady k id d.users d.refresh_tokens d.jobs

abbrev pub IsClearedIn : ℕ → ℕ → Db → Type 0
IsClearedIn k id d = IsCleared k id d.users d.refresh_tokens d.jobs

abbrev pub IsFetchedIn : ℕ → User → Db → Type 0
IsFetchedIn k u d = IsFetched k u d.users d.refresh_tokens d.jobs

pub IsFetched-IsReady :
    (k : ℕ) (u : User) (d : Db)
    → is_pending u.deletion_status ≡ false
    → IsFetchedIn k u d
    → IsReadyIn k u.id d
IsFetched-IsReady k u d active (sound, found) = (sound, rw found active)

has_id-found : (id : ℕ) (us : List User) {u : User} → find (has_id id) us ≡ some u → u.id ≡ id
has_id-found id us {u} e = ground (arith, find-selected (has_id id) us {x = u} e)

live_count-cons :
    (id : ℕ) (t : RefreshToken) (ts : List RefreshToken)
    → (live_count id (t ∷ ts) ≤ 1 + live_count id ts)
      × ((t.user_id == id) ≡ false → live_count id (t ∷ ts) ≡ live_count id ts)
unfolding live_count
live_count-cons id t ts = (ground arith, λ h. ground arith)

stored-IsSound :
    (k : ℕ) (t : RefreshToken) (d : Db)
    → IsClearedIn k t.user_id d
    → IsSound k d.users (t ∷ d.refresh_tokens) d.jobs
stored-IsSound k t d ((sound, active), cleared) =
    let (at_most, other) = live_count-cons k t d.refresh_tokens in
    elim (Bool-cases (t.user_id == k)) [
      | inl own ↦
          let same : t.user_id ≡ k = ground arith in
          let none_live : live_count k d.refresh_tokens ≡ 0 = rw same at cleared in
          let inactive : pending_of k d.users ≡ false = rw same at active in
          (ground arith, rw inactive refl)
      | inr apart ↦ let same = other apart in (ground (arith, sound.0), rw same sound.1)
    ]

module _ {S : Type 0} (env : Env) (k : ℕ) where
  pub revoke_all-IsCleared :
      (id : ℕ)
      → Leads {S = S}
          (IsReadyIn k id)
          (λ _. IsClearedIn k id)
          (IsSoundIn k)
          (RefreshTokens.revoke_all_for_user env id)
  unfolding RefreshTokens.revoke_all_for_user
  revoke_all-IsCleared id =
      Leads-query env _ _ (λ d h. h.0)
        λ now d (sound, active). (
          (
            IsSound-mono k _ _ _ _ _ _ (live_count-revoked k now _ d.refresh_tokens) (λ h. h)
                (λ h. h) sound,
            active,
          ),
          live_count-revoke_of id now d.refresh_tokens,
        )

  pub revoke_all-IsSound :
      (id : ℕ) → Keeps {S = S} (IsSoundIn k) (RefreshTokens.revoke_all_for_user env id)
  unfolding RefreshTokens.revoke_all_for_user
  revoke_all-IsSound id = Keeps-query env _ _ λ now d sound.
      IsSound-mono k _ _ _ _ _ _ (live_count-revoked k now _ d.refresh_tokens) (λ h. h) (λ h. h)
        sound

  pub revoke-IsReady :
      (id user_id : ℕ) → Keeps {S = S} (IsReadyIn k user_id) (RefreshTokens.revoke env id)
  unfolding RefreshTokens.revoke
  revoke-IsReady id user_id = Keeps-query env _ _ λ now d (sound, active). (
    IsSound-mono k _ _ _ _ _ _ (live_count-revoked k now _ d.refresh_tokens) (λ h. h) (λ h. h)
        sound,
    active,
  )

  pub revoke-IsSound : (id : ℕ) → Keeps {S = S} (IsSoundIn k) (RefreshTokens.revoke env id)
  unfolding RefreshTokens.revoke
  revoke-IsSound id = Keeps-query env _ _ λ now d sound.
      IsSound-mono k _ _ _ _ _ _ (live_count-revoked k now _ d.refresh_tokens) (λ h. h) (λ h. h)
        sound

  pub create_token-IsSound :
      (t : RefreshToken)
      → Leads {S = S}
          (IsClearedIn k t.user_id)
          (λ _. IsSoundIn k)
          (IsSoundIn k)
          (RefreshTokens.create env t)
  unfolding RefreshTokens.create
  create_token-IsSound t =
      Leads-query env _ _ (λ d h. h.0.0)
        λ now d h.
          elim (Bool-cases (
            exists (RefreshTokens.conflicts t) d.refresh_tokens
            || not (exists (has_id t.user_id) d.users))) [
              | inl bad ↦ rw bad h.0.0
              | inr fine ↦ rw fine (stored-IsSound k t d h)
            ]

  pub get_by_id-IsFetched :
      (id : ℕ)
      → Leads {S = S} (IsSoundIn k) (λ u. IsFetchedIn k u) (IsSoundIn k) (Users.get_by_id env id)
  unfolding Users.get_by_id
  get_by_id-IsFetched id =
      Leads-query env _ _ (λ d h. h)
        λ now d h. elim (Option-cases (find (has_id id) d.users)) [
          | inl missing ↦ rw missing h
          | inr (u, found) ↦
              let same : u.id ≡ id = has_id-found id d.users found in
              let again : find (has_id u.id) d.users ≡ some u =
                ap (λ i. find (has_id i) d.users) same ∙ found in
              rw found (h, again)
        ]

  pub create_user-IsSound : (u : User) → Keeps {S = S} (IsSoundIn k) (Users.create env u)
  unfolding Users.create
  create_user-IsSound u = Keeps-query env _ _ λ now d h.
      elim (Bool-cases (exists (λ x. has_id u.id x || Users.has_email u.email x) d.users)) [
        | inl bad ↦ rw bad h
        | inr fine ↦ rw fine (
            IsSound-mono k _ _ _ _ _ _ (ground arith) (pending_of-inserted k u d.users)
              (λ owned. owned) h)
      ]

  pub update_user-IsSound : (u : User) → Keeps {S = S} (IsSoundIn k) (Users.update env u)
  unfolding Users.update
  update_user-IsSound u = Keeps-query env _ _ λ now d h.
      elim (Bool-cases (exists (has_id u.id) d.users)) [
        | inl bad ↦ rw bad (
            IsSound-mono k _ _ _ _ _ _ (ground arith)
              (λ p. sym (pending_of-update k _ _ d.users (λ _. refl) (λ _. refl)) ∙ p)
              (λ owned. owned) h)
        | inr fine ↦ rw fine h
      ]

  pub update_password-IsSound :
      (id : ℕ) (hash : Text) → Keeps {S = S} (IsSoundIn k) (Users.update_password env id hash)
  unfolding Users.update_password
  update_password-IsSound id hash = Keeps-query env _ _ λ now d h.
      elim (Bool-cases (exists (has_id id) d.users)) [
        | inl bad ↦ rw bad (
            IsSound-mono k _ _ _ _ _ _ (ground arith)
              (λ p. sym (pending_of-update k _ _ d.users (λ _. refl) (λ _. refl)) ∙ p)
              (λ owned. owned) h)
        | inr fine ↦ rw fine h
      ]

  pub delete_user-IsSound : (id : ℕ) → Keeps {S = S} (IsSoundIn k) (Users.delete env id)
  unfolding Users.delete Users.delete_cascade
  delete_user-IsSound id = Keeps-query env _ _ λ now d h.
      elim (Bool-cases (exists (has_id id) d.users)) [
        | inl bad ↦ rw bad (
            IsSound-mono k _ _ _ _ _ _ (live_count-remove k _ d.refresh_tokens)
              (pending_of-remove k id d.users) (λ owned. owned) h)
        | inr fine ↦ rw fine h
      ]

  pub claim-IsSound : Keeps {S = S} (IsSoundIn k) (DeletionJobs.claim_deletion env)
  unfolding DeletionJobs.claim_deletion DeletionJobs.claim
  claim-IsSound = Keeps-query env _ _ λ now d h.
      elim (Option-cases (DeletionJobs.next_ready now d.jobs)) [
        | inl idle ↦ rw (DeletionJobs.claim, idle) h
        | inr (j, found) ↦
            rw (DeletionJobs.claim, found)
              (IsSound-mono k _ _ _ _ _ _ (ground arith) (λ p. p)
                (λ owned. exists-owns_job k _ _ d.jobs (λ _. refl) ∙ owned) h)
      ]

  pub complete_step-IsSound :
      (id : ℕ) (service : Text)
      → Keeps {S = S} (IsSoundIn k) (DeletionJobs.complete_deletion_step env id service)
  unfolding DeletionJobs.complete_deletion_step
  complete_step-IsSound id service = Keeps-query env _ _ λ now d h. h

  pub complete_job-IsSound :
      (id : ℕ) → Keeps {S = S} (IsSoundIn k) (DeletionJobs.complete_deletion_job env id)
  unfolding DeletionJobs.complete_deletion_job
  complete_job-IsSound id = Keeps-query env _ _ λ now d h.
      IsSound-mono k _ _ _ _ _ _ (ground arith) (λ p. p)
        (λ owned. exists-owns_job k _ _ d.jobs (λ _. refl) ∙ owned) h

  pub retry-IsSound :
      (id : ℕ) (service : Text) (attempt : ℕ)
      → Keeps {S = S} (IsSoundIn k) (DeletionJobs.retry_deletion_step env id service attempt)
  unfolding DeletionJobs.retry_deletion_step
  retry-IsSound id service attempt = Keeps-bind _ _ (Keeps-query env _ _ λ now d h. h) λ _.
      Keeps-query env _ _ λ now d h.
        IsSound-mono k _ _ _ _ _ _ (ground arith) (λ p. p)
          (λ owned. exists-owns_job k _ _ d.jobs (λ _. refl) ∙ owned) h
