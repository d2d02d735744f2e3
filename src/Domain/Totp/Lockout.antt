-- ===== src/Domain/Totp/Lockout.antt =====
-- The lockout that RecordFailure starts.
use beebase_auth_service.Prelude.{ℕ, suc, ◌+◌, ◌<◌, ◌≡◌, refl, some, List, [], ◌∷◌, ltb, arith}
use beebase_auth_service.Domain.Totp.{Credential, is_locked, record_failure}

-- The two readings of the clock of each failure, the latest failure first: of the lockout and of the
-- row.
abbrev pub Readings : Type 0
Readings = List (ℕ × ℕ)

abbrev pub number : Readings → ℕ
number [] = 0
number (_ ∷ rest) = 1 + number rest

-- Failures in a row, at these readings.
unfoldable pub record_failures : Readings → ℕ → ℕ → Credential → Credential
unfolding record_failure
record_failures [] max_attempts lockout_for c = c
record_failures ((lock_now, update_now) ∷ rest) max_attempts lockout_for c =
    record_failure lock_now update_now (record_failures rest max_attempts lockout_for c)
      max_attempts lockout_for

module _ (max_attempts lockout_for : ℕ) (c : Credential) where
  -- Below the limit a failure is counted and the lockout is left as it was.
  record_failures-counted :
      (readings : Readings)
      → c.failed_attempts ≡ 0
      → number readings < max_attempts
      → ((record_failures readings max_attempts lockout_for c).failed_attempts ≡ number readings)
        × ((record_failures readings max_attempts lockout_for c).locked_until ≡ c.locked_until)
  unfolding record_failures record_failure
  record_failures-counted [] fresh below = (fresh, refl)
  record_failures-counted ((lock_now, update_now) ∷ rest) fresh below =
      let (count, same) = record_failures-counted rest fresh (omega arith) in ground arith

  -- For a credential with no failures counted, and whatever the times of the failures: any number of
  -- failures in a row below the limit is counted and leaves the lockout as it was, and the failure
  -- that reaches the limit starts a lockout of the configured length from its own reading of the
  -- clock and sets the count back.
  pub record_failures-lockout :
      (lock_now update_now : ℕ) (rest : Readings)
      → c.failed_attempts ≡ 0
      → max_attempts ≡ suc (number rest)
      → let last = record_failures ((lock_now, update_now) ∷ rest) max_attempts lockout_for c in
        ((fewer : Readings)
          → number fewer < max_attempts
          → ((record_failures fewer max_attempts lockout_for c).failed_attempts ≡ number fewer)
            × ((record_failures fewer max_attempts lockout_for c).locked_until ≡ c.locked_until))
        × (last.locked_until ≡ some (lock_now + lockout_for))
        × (last.failed_attempts ≡ 0)
        × ((t : ℕ) → is_locked t last ≡ ltb t (lock_now + lockout_for))
  unfolding record_failures record_failure
  record_failures-lockout lock_now update_now rest fresh limit =
      let (count, same) = record_failures-counted rest fresh (omega arith) in
      (
        λ fewer below. record_failures-counted fewer fresh below,
        ground arith,
        ground arith,
        λ t. ground arith,
      )
