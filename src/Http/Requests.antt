-- ===== src/Http/Requests.antt =====
-- internal/transport/http/auth/requests.go and internal/transport/http/profile/requests.go: the
-- validation of request bodies. net/mail's ParseAddress, unicode.IsDigit and uuid.Parse are
-- parameters.
pub mod Accepted
use beebase_auth_service.Prelude.{
  ℕ, Bool, true, false, ◌&&◌, not, Option, none, some, List, [], ◌∷◌, Text, codes, ltb, leb, ◌==◌,
  text_eq, is_empty, byte_length, trim_space, exists, if◌then◌else◌,
}

-- The fields of the requests, and the codes of their errors.
pub data Field : Type 0 where
  email_field password_field setup_token_field challenge_token_field otp_field : Field
  current_password_field new_password_field confirm_password_field flow_token_field
        reset_token_field :
      Field
  first_name_field last_name_field avatar_field : Field

pub data FieldCode : Type 0 where
  email_required email_invalid : FieldCode
  password_required password_too_short password_missing_digit : FieldCode
  password_missing_special_char otp_required otp_invalid_format : FieldCode
  setup_token_required challenge_token_required current_password_required : FieldCode
  confirm_password_mismatch flow_token_required reset_token_required : FieldCode
  first_name_required first_name_too_long last_name_required last_name_too_long : FieldCode
  avatar_invalid : FieldCode

-- `map[string]string`: no request writes a field twice.
abbrev pub Fields : Type 0
Fields = List (Field × FieldCode)

-- `if code != "" { fields[name] = code }`.
abbrev pub put : Field → Option FieldCode → Fields → Fields
put name none fields = fields
put name (some code) fields = (name, code) ∷ fields

abbrev pub min_password_length : ℕ
min_password_length = 8

abbrev pub password_special_chars : Text
password_special_chars = codes "!@#$%^&*()_+-=[]{}|;:,.<>?"

abbrev pub otp_length : ℕ
otp_length = 6

abbrev pub max_first_name_length : ℕ
max_first_name_length = 100

abbrev pub max_last_name_length : ℕ
max_last_name_length = 100

-- `if r.X == "" { … }`, and the same after strings.TrimSpace.
abbrev pub required : FieldCode → Text → Option FieldCode
required code value = if is_empty value then some code else none

abbrev pub required_trimmed : FieldCode → Text → Option FieldCode
required_trimmed code value = required code (trim_space value)

abbrev pub is_ascii_digit : ℕ → Bool
is_ascii_digit c = leb 48 c && leb c 57

unfoldable pub all_digits : Text → Bool
all_digits [] = true
all_digits (c ∷ rest) = is_ascii_digit c && all_digits rest

unfoldable pub validate_otp : Text → Option FieldCode
validate_otp code =
    if is_empty code
    then some otp_required
    else if not (byte_length code == otp_length)
    then some otp_invalid_format
    else if all_digits code
    then none
    else some otp_invalid_format

-- `strings.ContainsAny(s, chars)`.
abbrev pub contains_any : Text → Text → Bool
contains_any s chars = exists (λ c. exists (λ d. d == c) chars) s

abbrev pub name_code : FieldCode → FieldCode → ℕ → Text → Option FieldCode
name_code missing too_long limit name =
    if is_empty name
    then some missing
    else if ltb limit (byte_length name)
    then some too_long
    else none

module _ (is_digit : ℕ → Bool) where
  -- `containsDigit` is `exists is_digit`.
  unfoldable pub validate_password : Text → Option FieldCode
  validate_password password =
      if ltb (byte_length password) min_password_length
      then some password_too_short
      else if not (exists is_digit password)
      then some password_missing_digit
      else if not (contains_any password password_special_chars)
      then some password_missing_special_char
      else none

  unfoldable pub validate_change_password : Text → Text → Text → Fields
  validate_change_password current_password new_password otp =
      put current_password_field (required current_password_required current_password) (
        put new_password_field (validate_password new_password)
          (put otp_field (validate_otp otp) []))

  unfoldable pub validate_reset_confirm : Text → Text → Text → Fields
  validate_reset_confirm reset_token new_password confirm_password =
      put reset_token_field (required_trimmed reset_token_required reset_token) (
        put new_password_field (validate_password new_password) (
          put confirm_password_field
            (if not (text_eq new_password confirm_password)
              then some confirm_password_mismatch
              else none)
            []))

module _ (parse_address : Text → Bool) where
  unfoldable pub validate_email : Text → Option FieldCode
  validate_email email =
      if is_empty (trim_space email)
      then some email_required
      else if not (parse_address email)
      then some email_invalid
      else none

  unfoldable pub validate_register : (ℕ → Bool) → Text → Text → Fields
  validate_register is_digit email password =
      put email_field (validate_email email)
        (put password_field (validate_password is_digit password) [])

  unfoldable pub validate_login : Text → Text → Fields
  validate_login email password =
      put email_field (validate_email email)
        (put password_field (required password_required password) [])

  unfoldable pub validate_reset_request : Text → Fields
  validate_reset_request email = put email_field (validate_email email) []

unfoldable pub validate_setup_verify : Text → Text → Fields
validate_setup_verify setup_token otp =
    put setup_token_field (required_trimmed setup_token_required setup_token)
      (put otp_field (validate_otp otp) [])

unfoldable pub validate_login_verify_otp : Text → Text → Fields
validate_login_verify_otp challenge_token otp =
    put challenge_token_field (required_trimmed challenge_token_required challenge_token)
      (put otp_field (validate_otp otp) [])

unfoldable pub validate_reset_verify_otp : Text → Text → Fields
validate_reset_verify_otp flow_token otp =
    put flow_token_field (required_trimmed flow_token_required flow_token)
      (put otp_field (validate_otp otp) [])

-- An avatar that is absent, or empty, is not parsed.
abbrev pub avatar_code : (Text → Bool) → Option Text → Option FieldCode
avatar_code parse_uuid none = none
avatar_code parse_uuid (some id) =
    if not (is_empty id) && not (parse_uuid id) then some avatar_invalid else none

unfoldable pub validate_update_profile : (Text → Bool) → Text → Text → Option Text → Fields
validate_update_profile parse_uuid first_name last_name avatar =
    put first_name_field
      (name_code first_name_required first_name_too_long max_first_name_length
        (trim_space first_name))
      (put last_name_field
        (name_code last_name_required last_name_too_long max_last_name_length
          (trim_space last_name))
        (put avatar_field (avatar_code parse_uuid avatar) []))

unfoldable pub validate_delete_account : Text → Fields
validate_delete_account otp = put otp_field (validate_otp otp) []
