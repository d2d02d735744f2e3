-- ===== src/Auth/Setup.antt =====
-- beginTOTPSetup, issueLoginChallenge and Register of internal/application/auth/service.go.
pub mod Registration
use beebase_auth_service.Prelude.{ℕ, Option, none, some, [], Text}
use beebase_auth_service.Errors.{credential_not_found}
use beebase_auth_service.World.{App, ◌>>=◌, ◌>>◌, pure, wrapping, optional, ask, now_utc, new_uuid}
use beebase_auth_service.Domain.User
use beebase_auth_service.Domain.User.{User}
use beebase_auth_service.Domain.Totp
use beebase_auth_service.Domain.Totp.{Credential, begin_setup}
use beebase_auth_service.Domain.LoginChallenge
use beebase_auth_service.Repository.Users
use beebase_auth_service.Repository.Credentials
use beebase_auth_service.Repository.LoginChallenges
use beebase_auth_service.Platform.Tokenhash
use beebase_auth_service.Platform.Totpsecret
use beebase_auth_service.Auth.Ports.{
  Service, RegisterInput, RegisterResult, LoginResult, otp_required, hash_token, normalize_email,
}

-- `*cred.SetupTokenExpiresAt`: the pointer is set wherever it is read.
abbrev pub deref : Option ℕ → ℕ
deref none = 0
deref (some t) = t

module _ (s : Service) where
  -- The row is created on the first attempt, and replaced otherwise.
  unfoldable pub write_setup : ℕ → ℕ → Text → Text → Option Credential → App s.Sessions Credential
  write_setup now user_id encrypted_secret setup_token_hash none = do
    let cred = Totp.new now user_id encrypted_secret setup_token_hash s.security.setup_token_ttl
    wrapping "auth: create totp credential" (Credentials.create s.env cred)
    pure cred
  write_setup now user_id encrypted_secret setup_token_hash (some old) = do
    let cred = begin_setup now old encrypted_secret setup_token_hash s.security.setup_token_ttl
    wrapping "auth: update totp credential" (Credentials.update s.env cred)
    pure cred

  unfoldable pub store_setup : User → Text → Text → App s.Sessions Credential
  store_setup u encrypted_secret setup_token_hash = do
    found ← optional credential_not_found (Credentials.get_by_user_id s.env u.id)
    now ← now_utc s.env
    write_setup now u.id encrypted_secret setup_token_hash found

  unfoldable pub begin_totp_setup : User → App s.Sessions RegisterResult
  begin_totp_setup u = do
    secret ←
        wrapping "auth: generate totp secret"
          (ask λ n. s.generate_totp n s.security.totp_issuer u.email)
    encrypted_secret ←
        wrapping "auth: encrypt totp secret" (Totpsecret.encrypt s.env s.aead secret.0)
    raw_setup_token ← wrapping "auth: generate setup token" (Tokenhash.generate s.env)
    cred ← store_setup u encrypted_secret (hash_token s raw_setup_token)
    pure (record {
      user_id = u.id;
      setup_token = raw_setup_token;
      otpauth_uri = secret.1;
      secret = secret.0;
      expires_at = deref cred.setup_token_expires_at;
    })

  unfoldable pub issue_login_challenge : User → App s.Sessions LoginResult
  issue_login_challenge u = do
    raw_token ← wrapping "auth: generate login challenge token" (Tokenhash.generate s.env)
    now ← now_utc s.env
    id ← new_uuid s.env
    let c = LoginChallenge.new id now u.id (hash_token s raw_token) s.security.login_challenge_ttl
    wrapping "auth: store login challenge" (LoginChallenges.create s.env c)
    pure (record {
      status = otp_required;
      challenge_token = raw_token;
      setup_token = [];
      otpauth_uri = [];
      secret = [];
      expires_at = c.expires_at;
    })

  unfoldable pub register : RegisterInput → App s.Sessions RegisterResult
  register input = do
    hash ← wrapping "auth: hash password" (ask λ n. s.hash_password n input.password)
    now ← now_utc s.env
    id ← new_uuid s.env
    let u = User.new id now (normalize_email s input.email) hash
    Users.create s.env u
    begin_totp_setup u
