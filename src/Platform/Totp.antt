-- ===== src/Platform/Totp.antt =====
-- internal/platform/totp/totp.go, over a parameter for `hotp.ValidateCustom` of pquerna/otp with
-- six digits and SHA-1: `none` is an error.
pub mod Window
use beebase_auth_service.Prelude.{
  is_some, ℕ, zero, suc, ◌+◌, ◌/◌, Bool, false, Option, none, some, Text, if◌then◌else◌,
}
use beebase_auth_service.World.{Result, wrap_error}

-- The arguments are the code, the counter and the secret.
abbrev pub HotpValidate : Type 0
HotpValidate = Text → ℕ → Text → Option Bool

abbrev pub period : ℕ
period = 30

abbrev pub forward_skew : ℕ
forward_skew = 1

-- `t.Unix()`: times are in nanoseconds.
abbrev pub unix : ℕ → ℕ
unix t = t / 1_000_000_000

-- An error is passed over like a code that does not match.
abbrev pub matches : Option Bool → Bool
matches none = false
matches (some match) = match

-- The loop over the counters from `counter`, `rounds` of them.
unfoldable pub validate_from : HotpValidate → Text → Text → ℕ → ℕ → Option ℕ
validate_from hotp code secret counter zero = none
validate_from hotp code secret counter (suc rounds) =
    let rest = validate_from hotp code secret (counter + 1) rounds in
    if matches (hotp code counter secret) then some counter else rest

-- `some counter` where the source returns true and the counter.
unfoldable pub validate_at : HotpValidate → Text → Text → ℕ → Option ℕ
unfolding validate_from
validate_at hotp code secret t = validate_from hotp code secret (unix t / period) (forward_skew + 1)

-- `GenerateSecret`, over the `Generate` of pquerna/otp.
abbrev pub generate_secret :
    (Text → Text → Result (Text × Text)) → Text → Text → Result (Text × Text)
generate_secret generate issuer account_name =
    wrap_error "totp: generate secret" (generate issuer account_name)

-- `Validate` at the reading of the clock.
abbrev pub validate : HotpValidate → Text → Text → ℕ → Bool
validate hotp code secret now = is_some (validate_at hotp code secret now)
