-- ===== src/Platform/Jwtauth.antt =====
-- internal/platform/jwtauth/jwt.go. The signature, SHA-256 and base64 are parameters.
use beebase_auth_service.Prelude.{ℕ, ◌+◌, not, List, Text, ◌==◌, if◌then◌else◌}
use beebase_auth_service.Errors.{failed, wrap}
use beebase_auth_service.World.{Result, ok, err}
use beebase_auth_service.Platform.Tokenhash.{hex_encode}
use beebase_auth_service.Platform.Totpsecret.{length, take}
use beebase_auth_service.Platform.Totp.{unix}

-- What a token says. `jwt.NewNumericDate` keeps whole seconds.
pub record AccessClaims : Type 0 where
  pub subject : ℕ
  pub issued_at : ℕ
  pub expires_at : ℕ
  pub session_id : ℕ
  pub session_generation : ℕ

-- `sign` is SignedString under the private key, of the claims and the kid in the header.
pub record Issuer : Type 0 where
  pub sign : Text → AccessClaims → Result Text
  pub kid : Text
  pub ttl : ℕ

abbrev pub signed : ℕ → Result Text → Result (Text × ℕ)
signed expires_at (err e) = err (wrap "jwtauth: sign" e)
signed expires_at (ok token) = ok (token, expires_at)

abbrev pub issue_with_generation : Issuer → ℕ → ℕ → ℕ → ℕ → Result (Text × ℕ)
issue_with_generation i now user_id session_id generation =
    let expires_at = now + i.ttl in
    signed expires_at (
      i.sign i.kid (record {
        subject = user_id;
        issued_at = unix now;
        expires_at = unix expires_at;
        session_id = session_id;
        session_generation = generation;
      }))

abbrev pub issue : Issuer → ℕ → ℕ → ℕ → Result (Text × ℕ)
issue i now user_id session_id = issue_with_generation i now user_id session_id 0

-- The first eight bytes of the digest, in hexadecimal.
abbrev pub key_id : (List ℕ → List ℕ) → List ℕ → Text
key_id sha256 key = hex_encode (take 8 (sha256 key))

-- `ed25519.PrivateKeySize`.
abbrev pub private_key_size : ℕ
private_key_size = 64

abbrev pub checked_key : Result (List ℕ) → Result (List ℕ)
checked_key (err e) = err (wrap "jwtauth: decode private key" e)
checked_key (ok raw) =
    if not (length raw == private_key_size)
    then err (failed "jwtauth: private key size")
    else ok raw

unfoldable pub parse_private_key : (Text → Result (List ℕ)) → Text → Result (List ℕ)
parse_private_key decode encoded = checked_key (decode encoded)
