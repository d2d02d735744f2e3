-- ===== src/Http/Requests/Accepted.antt =====
-- The one-time codes that pass validation.
use beebase_auth_service.Prelude.{
  ℕ, ◌≤◌, ◌≡◌, ◌↔◌, refl, true, none, [], ◌∷◌, Text, byte_length, utf8_len, arith, All,
}
use beebase_auth_service.Platform.Totpsecret.{length}
use beebase_auth_service.Http.Requests.{all_digits, validate_otp}

abbrev pub IsAsciiDigit : ℕ → Type 0
IsAsciiDigit c = (48 ≤ c) × (c ≤ 57)

all_digits-IsAsciiDigit : (code : Text) → all_digits code ≡ true → All IsAsciiDigit code
unfolding all_digits
all_digits-IsAsciiDigit [] h = tt
all_digits-IsAsciiDigit (c ∷ rest) h =
    (ground arith, all_digits-IsAsciiDigit rest (ground (arith, h)))

IsAsciiDigit-all_digits : (code : Text) → All IsAsciiDigit code → all_digits code ≡ true
unfolding all_digits
IsAsciiDigit-all_digits [] h = refl
IsAsciiDigit-all_digits (c ∷ rest) (d, h) =
    let later = IsAsciiDigit-all_digits rest h in ground (arith, d.0, d.1, later)

-- A digit is one byte of UTF-8.
byte_length-length : (code : Text) → All IsAsciiDigit code → byte_length code ≡ length code
unfolding byte_length utf8_len
byte_length-length [] h = refl
byte_length-length (c ∷ rest) (d, h) =
    let later = byte_length-length rest h in ground (arith, d.1, later)

-- A code passes validateOTP just where it is six ASCII digits.
pub validate_otp-IsAsciiDigit :
    (code : Text) → (validate_otp code ≡ none) ↔ ((length code ≡ 6) × All IsAsciiDigit code)
unfolding validate_otp
validate_otp-IsAsciiDigit [] = (λ h. absurd (cc h), λ h. absurd (ground (arith, h.0)))
validate_otp-IsAsciiDigit (c ∷ rest) = (
  λ h.
      let digits = all_digits-IsAsciiDigit (c ∷ rest) (ground (arith, h)) in
      let bytes = byte_length-length (c ∷ rest) digits in
      let six : byte_length (c ∷ rest) ≡ 6 = ground (arith, h) in
      (ground (arith, bytes, six), digits),
  λ h.
      let bytes = byte_length-length (c ∷ rest) h.1 in
      let digits = IsAsciiDigit-all_digits (c ∷ rest) h.1 in
      let six : byte_length (c ∷ rest) ≡ 6 = ground (arith, bytes, h.0) in simp (six, digits) refl,
)
