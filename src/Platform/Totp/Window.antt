-- ===== src/Platform/Totp/Window.antt =====
-- The counters that ValidateAt accepts a code for.
use beebase_auth_service.Prelude.{
  ℕ, ◌+◌, ◌/◌, ◌≡◌, ◌⊎◌, Bool, true, false, Option, none, some, Text, arith,
}
use beebase_auth_service.Platform.Totp.{
  HotpValidate, matches, validate_from, validate_at, unix, period,
}

-- What a search from `current` tells: no match, or the first of the two counters that match.
abbrev pub IsFirstMatch : (ℕ → Bool) → ℕ → Option ℕ → Type 0
IsFirstMatch match current none = (match current ≡ false) × (match (current + 1) ≡ false)
IsFirstMatch match current (some c) =
    ((c ≡ current) × (match current ≡ true))
    ⊎ ((c ≡ current + 1) × (match current ≡ false) × (match (current + 1) ≡ true))

module _ (hotp : HotpValidate) (code secret : Text) where
  -- ValidateAt returns the counter of the running period of thirty seconds where the code matches
  -- it, else the next period's where the code matches that, and no other: a code of a period that
  -- has ended is never accepted.
  pub validate_at-IsFirstMatch :
      (t : ℕ)
      → IsFirstMatch
          (λ c. matches (hotp code c secret))
          (unix t / period)
          (validate_at hotp code secret t)
  unfolding validate_at validate_from
  validate_at-IsFirstMatch t = ground arith

  pub IsFirstMatch-matches :
      (t c : ℕ) → validate_at hotp code secret t ≡ some c → matches (hotp code c secret) ≡ true
  unfolding validate_at validate_from
  IsFirstMatch-matches t c e = ground arith
