-- ===== src/Lifecycle/Counting.antt =====
-- How the statements of the repositories change the number of live tokens, the state of an account
-- and the jobs.
use beebase_auth_service.Prelude.{
  ℕ, ◌≤◌, ◌≡◌, refl, Bool, true, false, ◌&&◌, List, [], ◌∷◌, ◌==◌, arith, find, exists,
  update_where, remove_where, Bool-cases, inl, inr,
}
use beebase_auth_service.World.{JobRow}
use beebase_auth_service.Domain.User.{User}
use beebase_auth_service.Domain.Token.{RefreshToken}
use beebase_auth_service.Repository.Users.{has_id, is_active_row, inserted}
use beebase_auth_service.Repository.RefreshTokens.{revoked}
use beebase_auth_service.Repository.Effects.{revoke_of}
use beebase_auth_service.Lifecycle.{live_count, pending_of, owns_job, IsSound}

pub live_count-revoked :
    (id now : ℕ) (p : RefreshToken → Bool) (ts : List RefreshToken)
    → live_count id (update_where p (revoked now) ts) ≤ live_count id ts
unfolding live_count update_where
live_count-revoked id now p [] = ground arith
live_count-revoked id now p (t ∷ ts) = ground (arith, live_count-revoked id now p ts)

pub live_count-revoke_of :
    (id now : ℕ) (ts : List RefreshToken) → live_count id (revoke_of now id ts) ≡ 0
unfolding live_count update_where
live_count-revoke_of id now [] = refl
live_count-revoke_of id now (t ∷ ts) = ground (arith, live_count-revoke_of id now ts)

pub live_count-remove :
    (id : ℕ) (p : RefreshToken → Bool) (ts : List RefreshToken)
    → live_count id (remove_where p ts) ≤ live_count id ts
unfolding live_count remove_where
live_count-remove id p [] = ground arith
live_count-remove id p (t ∷ ts) = ground (arith, live_count-remove id p ts)

pub pending_of-update :
    (id : ℕ) (q : User → Bool) (f : User → User) (us : List User)
    → ((u : User) → (f u).id ≡ u.id)
    → ((u : User) → (f u).deletion_status ≡ u.deletion_status)
    → pending_of id (update_where q f us) ≡ pending_of id us
unfolding find update_where
pending_of-update id q f [] same_id same_status = refl
pending_of-update id q f (u ∷ us) same_id same_status =
    ground (arith, same_id u, same_status u, pending_of-update id q f us same_id same_status)

pending_of-gone : (id : ℕ) (us : List User) → pending_of id (remove_where (has_id id) us) ≡ false
unfolding find remove_where
pending_of-gone id [] = refl
pending_of-gone id (u ∷ us) = ground (arith, pending_of-gone id us)

pending_of-stays :
    (id other : ℕ) (us : List User)
    → (other == id) ≡ false
    → pending_of id (remove_where (has_id other) us) ≡ pending_of id us
unfolding find remove_where
pending_of-stays id other [] apart = refl
pending_of-stays id other (u ∷ us) apart = ground (arith, pending_of-stays id other us apart)

pub pending_of-remove :
    (id other : ℕ) (us : List User)
    → pending_of id (remove_where (has_id other) us) ≡ true
    → pending_of id us ≡ true
pending_of-remove id other us h = elim (Bool-cases (other == id)) [
  | inl same ↦
      let at_id : other ≡ id = ground arith in absurd (cc (at_id, h, pending_of-gone id us))
  | inr apart ↦ cc (h, pending_of-stays id other us apart)
]

pub pending_of-inserted :
    (id : ℕ) (u : User) (us : List User)
    → pending_of id (inserted u ∷ us) ≡ true
    → pending_of id us ≡ true
unfolding find
pending_of-inserted id u us h = ground arith

pub pending_of-other :
    (id other : ℕ) (f : User → User) (us : List User)
    → ((u : User) → (f u).id ≡ u.id)
    → (other == id) ≡ false
    → pending_of id (update_where (is_active_row other) f us) ≡ pending_of id us
unfolding find update_where
pending_of-other id other f [] same_id apart = refl
pending_of-other id other f (u ∷ us) same_id apart =
    ground (arith, same_id u, pending_of-other id other f us same_id apart)

pub exists-owns_job :
    (id : ℕ) (q : JobRow → Bool) (f : JobRow → JobRow) (js : List JobRow)
    → ((j : JobRow) → (f j).user_id ≡ j.user_id)
    → exists (owns_job id) (update_where q f js) ≡ exists (owns_job id) js
unfolding exists update_where
exists-owns_job id q f [] same = refl
exists-owns_job id q f (j ∷ js) same = ground (arith, same j, exists-owns_job id q f js same)

both : (a b : Bool) → (a && b) ≡ true → (a ≡ true) × (b ≡ true)
both a b h = (ground arith, ground arith)

-- Fewer live tokens, fewer accounts that are being deleted and more jobs are sound too.
pub IsSound-mono :
    (id : ℕ) (us us' : List User) (ts ts' : List RefreshToken) (js js' : List JobRow)
    → (live_count id ts' ≤ live_count id ts)
    → (pending_of id us' ≡ true → pending_of id us ≡ true)
    → (exists (owns_job id) js ≡ true → exists (owns_job id) js' ≡ true)
    → IsSound id us ts js
    → IsSound id us' ts' js'
IsSound-mono id us us' ts ts' js js' fewer pending jobs (single, settled) =
    elim (Bool-cases (pending_of id us')) [
      | inl p ↦
          let had : (live_count id ts == 0 && exists (owns_job id) js) ≡ true =
            rw (pending p) at settled in
          let (none_live, owned) = both (live_count id ts == 0) (exists (owns_job id) js) had in
          let has_job = jobs owned in
          (ground arith, rw (p, has_job) (ground (arith, fewer, none_live)))
      | inr n ↦ (ground arith, rw n refl)
    ]
