-- ===== src/Lifecycle/Sessions.antt =====
-- The operations of Service that open and end sessions keep every state sound.
use beebase_auth_service.Prelude.{ℕ, Option, none, some, Text}
use beebase_auth_service.World.{Db}
use beebase_auth_service.World.Keeps.{
  Keeps-raise, Keeps-ignoring, Keeps-on_sessions, Keeps-new_uuid, Keeps-now_utc, Keeps-wrapping,
  Keeps, Keeps-bind, keeps_rules,
}
use beebase_auth_service.World.Leads.{
  Leads, Leads-bind, Leads-kept, Leads-if, Leads-Keeps, Leads-wrapping, Leads-on_any_error,
  Leads-from,
}
use beebase_auth_service.Domain.User.{User, is_pending}
use beebase_auth_service.Domain.Token
use beebase_auth_service.Domain.Token.{RefreshToken}
use beebase_auth_service.Repository.Untouched.{get_token-Keeps, Keeps-tables}
use beebase_auth_service.Repository.RefreshTokens
use beebase_auth_service.Platform.Tokenhash
use beebase_auth_service.Auth.Ports.{
  hash_token, Service, DeletionPort, absent, request_only, request_and_cleanup,
}
use beebase_auth_service.Auth.Session.{
  start_cleanup, start_cleanup_of, issue_session, rotate, refresh, end_session, end_if_found,
  logout,
}
use beebase_auth_service.Lifecycle.{IsSound, IsSoundIn}
use beebase_auth_service.Lifecycle.Statements.{
  IsCleared, IsReadyIn, IsClearedIn, IsFetched-IsReady, revoke_all-IsCleared, revoke_all-IsSound,
  revoke-IsReady, revoke-IsSound, create_token-IsSound, get_by_id-IsFetched,
}
use beebase_auth_service.Auth.Untouched.{generate-Keeps}

pub cleanup-Keeps :
    {S : Type 0} {P : Db → Type 0} (port : DeletionPort) (user_id session_id : ℕ)
    → Keeps {S = S} P (start_cleanup port user_id session_id)
unfolding start_cleanup
cleanup-Keeps absent user_id session_id = search keeps_rules
cleanup-Keeps request_only user_id session_id = search keeps_rules
cleanup-Keeps request_and_cleanup user_id session_id = search keeps_rules

pub cleanup_of-Keeps :
    {S : Type 0} {P : Db → Type 0} (port : DeletionPort) (user_id : ℕ) (session : Option ℕ)
    → Keeps {S = S} P (start_cleanup_of port user_id session)
unfolding start_cleanup_of
cleanup_of-Keeps port user_id none = search keeps_rules
cleanup_of-Keeps port user_id (some session_id) = cleanup-Keeps port user_id session_id

module _ (s : Service) (k : ℕ) where
  cleared-Keeps : (id : ℕ) → Keeps {S = s.Sessions} (IsClearedIn k id) (Tokenhash.generate s.env)
  cleared-Keeps id =
      Keeps-tables (IsCleared k id) _ λ users tokens jobs. generate-Keeps s users tokens jobs

  pub issue_session-Leads :
      (u : User) → Leads (IsReadyIn k u.id) (λ _. IsSoundIn k) (IsSoundIn k) (issue_session s u)
  unfolding issue_session Token.new
  issue_session-Leads u =
      Leads-bind _ _ (Leads-wrapping _ _ (revoke_all-IsCleared s.env k u.id)) λ _.
        Leads-bind _ _ (Leads-kept _ (λ d h. h.0.0) (Keeps-wrapping _ _ (cleared-Keeps u.id)))
          λ raw. Leads-bind _ _ (Leads-kept _ (λ d h. h.0.0) (Keeps-now_utc s.env)) λ now.
            Leads-bind _ _ (Leads-kept _ (λ d h. h.0.0) (Keeps-new_uuid s.env)) λ id.
              Leads-bind _ _
                (Leads-kept _ (λ d h. h.0.0) (Keeps-wrapping _ _ (Keeps-on_sessions _)))
                λ previous.
                  Leads-bind _ _
                    (Leads-wrapping _ _ (
                      create_token-IsSound s.env k
                        (Token.new id now u.id (hash_token s raw) s.security.refresh_ttl)))
                    λ _. Leads-kept _ (λ d h. h) (search (keeps_rules, cleanup_of-Keeps))

  rotate-Keeps : (rt : RefreshToken) → Keeps (IsSoundIn k) (rotate s rt)
  unfolding rotate
  rotate-Keeps rt = Leads-Keeps _ (
      Leads-bind _ _ (Leads-on_any_error _ _ (get_by_id-IsFetched s.env k rt.user_id)) λ u.
        Leads-if (is_pending u.deletion_status) _ _
          (λ pending.
            Leads-from _ (λ d h. h.0)
              (Leads-kept _ (λ d h. h)
                (Keeps-bind _ _ (Keeps-ignoring _ (revoke_all-IsSound s.env k _))
                  λ _. Keeps-raise _)))
          λ active.
            Leads-from _ (λ d h. IsFetched-IsReady k u d active h)
              (Leads-bind _ _
                (Leads-kept _ (λ d h. h.0) (Keeps-wrapping _ _ (revoke-IsReady s.env k rt.id u.id)))
                λ _. issue_session-Leads u))

  get_token-IsSound :
      (hash : Text) → Keeps {S = s.Sessions} (IsSoundIn k) (RefreshTokens.get_by_hash s.env hash)
  get_token-IsSound hash =
      Keeps-tables (IsSound k) _ λ users tokens jobs. get_token-Keeps s.env users tokens jobs hash

  pub refresh-Keeps : (raw_token : Text) → Keeps (IsSoundIn k) (refresh s raw_token)
  unfolding refresh
  refresh-Keeps raw_token =
      search (keeps_rules, get_token-IsSound, revoke_all-IsSound, rotate-Keeps) depth 12

  end_session-Keeps : (rt : RefreshToken) → Keeps (IsSoundIn k) (end_session s rt)
  unfolding end_session
  end_session-Keeps rt = search (keeps_rules, revoke-IsSound, cleanup-Keeps) depth 12

  end_if_found-Keeps : (found : Option RefreshToken) → Keeps (IsSoundIn k) (end_if_found s found)
  unfolding end_if_found
  end_if_found-Keeps none = search keeps_rules
  end_if_found-Keeps (some rt) = search (keeps_rules, end_session-Keeps)

  pub logout-Keeps : (raw_token : Text) → Keeps (IsSoundIn k) (logout s raw_token)
  unfolding logout
  logout-Keeps raw_token = search (keeps_rules, get_token-IsSound, end_if_found-Keeps)
