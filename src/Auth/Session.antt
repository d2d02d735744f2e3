-- ===== src/Auth/Session.antt =====
-- issueSession, cleanupSessionDevices, Refresh and Logout of
-- internal/application/auth/service.go.
pub mod Issue
pub mod Rotation
pub mod SignedOut
pub mod Progress
use beebase_auth_service.Prelude.{ℕ, Option, none, some, Text, if◌then◌else◌}
use beebase_auth_service.Errors.{token_not_found, invalid_refresh_token, sentinel}
use beebase_auth_service.World.{
  Result, App, ◌>>=◌, ◌>>◌, pure, raise, wrapping, replacing, optional, on_any_error, ignoring, ask,
  on_sessions, now_utc, new_uuid, start,
}
use beebase_auth_service.Domain.User.{User, is_pending}
use beebase_auth_service.Domain.Token
use beebase_auth_service.Domain.Token.{RefreshToken, is_revoked, is_expired}
use beebase_auth_service.Repository.Users
use beebase_auth_service.Repository.RefreshTokens
use beebase_auth_service.Platform.Tokenhash
use beebase_auth_service.Auth.Ports.{
  Service, Session, DeletionPort, absent, request_only, request_and_cleanup, hash_token,
}

-- The goroutine is recorded; what it does later has no part in the result.
unfoldable pub start_cleanup : {S : Type 0} → DeletionPort → ℕ → ℕ → App S (Unit {0})
start_cleanup absent user_id session_id = pure tt
start_cleanup request_only user_id session_id = pure tt
start_cleanup request_and_cleanup user_id session_id = start (user_id, session_id)

unfoldable pub start_cleanup_of : {S : Type 0} → DeletionPort → ℕ → Option ℕ → App S (Unit {0})
start_cleanup_of port user_id none = pure tt
start_cleanup_of port user_id (some session_id) = start_cleanup port user_id session_id

module _ (s : Service) where
  -- The type assertion on the issuer decides which method mints the token.
  abbrev pub mint : ℕ → ℕ → ℕ → ℕ → Result (Text × ℕ)
  mint user_id session_id generation n = elim s.issue_with_generation [
    | none ↦ s.issue n user_id session_id
    | some with_generation ↦ with_generation n user_id session_id generation
  ]

  unfoldable pub issue_session : User → App s.Sessions Session
  issue_session u = do
    wrapping "auth: revoke prior sessions" (RefreshTokens.revoke_all_for_user s.env u.id)
    raw_refresh ← wrapping "auth: generate refresh token" (Tokenhash.generate s.env)
    now ← now_utc s.env
    id ← new_uuid s.env
    let rt = Token.new id now u.id (hash_token s raw_refresh) s.security.refresh_ttl
    previous ←
        wrapping "auth: activate session"
          (on_sessions λ n x. s.activate n x u.id rt.id s.security.refresh_ttl)
    wrapping "auth: store refresh token" (RefreshTokens.create s.env rt)
    start_cleanup_of s.deletion u.id previous.0
    access ← wrapping "auth: issue access token" (ask (mint u.id rt.id previous.1))
    pure (record {
      user_id = u.id;
      email = u.email;
      created_at = u.created_at;
      access_token = access.0;
      access_token_expires_at = access.1;
      refresh_token = raw_refresh;
      refresh_token_expires_at = rt.expires_at;
    })

  -- The last part of Refresh, once the token is neither revoked nor expired.
  unfoldable pub rotate : RefreshToken → App s.Sessions Session
  rotate rt = do
    u ← on_any_error (sentinel invalid_refresh_token) (Users.get_by_id s.env rt.user_id)
    if is_pending u.deletion_status
        then (do
          ignoring (RefreshTokens.revoke_all_for_user s.env rt.user_id)
          raise (sentinel invalid_refresh_token))
        else (do
          wrapping "auth: revoke rotated token" (RefreshTokens.revoke s.env rt.id)
          issue_session u)

  unfoldable pub refresh : Text → App s.Sessions Session
  refresh raw_token = do
    rt ←
        replacing token_not_found (sentinel invalid_refresh_token)
          (RefreshTokens.get_by_hash s.env (hash_token s raw_token))
    if is_revoked rt
        then (do
          wrapping "auth: revoke all after reuse"
              (RefreshTokens.revoke_all_for_user s.env rt.user_id)
          raise (sentinel invalid_refresh_token))
        else (do
          now ← now_utc s.env
          if is_expired now rt then raise (sentinel invalid_refresh_token) else rotate rt)

  unfoldable pub end_session : RefreshToken → App s.Sessions (Unit {0})
  end_session rt = do
    RefreshTokens.revoke s.env rt.id
    cleared ←
        wrapping "auth: deactivate session on logout"
          (on_sessions λ n x. s.deactivate_if_current n x rt.user_id rt.id)
    start_cleanup s.deletion rt.user_id rt.id

  unfoldable pub end_if_found : Option RefreshToken → App s.Sessions (Unit {0})
  end_if_found none = pure tt
  end_if_found (some rt) = if is_revoked rt then pure tt else end_session rt

  -- An unknown or revoked token is no error.
  unfoldable pub logout : Text → App s.Sessions (Unit {0})
  logout raw_token = do
    found ← optional token_not_found (RefreshTokens.get_by_hash s.env (hash_token s raw_token))
    end_if_found found
