-- ===== src/Auth/Session/Issue.antt =====
-- What issueSession guarantees: a user has one session.
use beebase_auth_service.Prelude.{
  All, true, List, ℕ, ◌≡◌, refl, false, Option, none, some, ◌∷◌, arith, exists,
}
use beebase_auth_service.World.{World, Db, ok, pure, start}
use beebase_auth_service.World.Ensures.{
  Ensures, Ensures-ok, Ensures-bind, Ensures-wrapping, Ensures-answer, Ensures-session_answer,
  Ensures-now_utc, Ensures-new_uuid, Ensures-pure,
}
use beebase_auth_service.Domain.User.{User}
use beebase_auth_service.Domain.Token
use beebase_auth_service.Domain.Token.{RefreshToken}
use beebase_auth_service.Repository.RefreshTokens.{conflicts, is_live}
use beebase_auth_service.Repository.Effects.{
  IsDead, revoke_of, revoke_of-IsDead, revoke_all-Ensures, create_token-Ensures,
}
use beebase_auth_service.Platform.Tokenhash
use beebase_auth_service.Auth.Ports.{
  DeletionPort, absent, request_only, request_and_cleanup, Service, SessionLaws, Session,
  hash_token,
}
use beebase_auth_service.Auth.Session.{issue_session, start_cleanup, start_cleanup_of}

module _ {S : Type 0} {w : World S} where
  pub start_cleanup-Ensures :
      (port : DeletionPort) (user_id session_id : ℕ)
      → Ensures
          (start_cleanup port user_id session_id)
          w
          (λ _ v. (v.db ≡ w.db) × (v.sessions ≡ w.sessions))
  unfolding start_cleanup pure start
  start_cleanup-Ensures absent user_id id = record { good = (refl, refl) }
  start_cleanup-Ensures request_only user_id id = record { good = (refl, refl) }
  start_cleanup-Ensures request_and_cleanup user_id id = record { good = (refl, refl) }

  pub cleanup-Ensures :
      (port : DeletionPort) (user_id : ℕ) (session_id : Option ℕ)
      → Ensures
          (start_cleanup_of port user_id session_id)
          w
          (λ _ v. (v.db ≡ w.db) × (v.sessions ≡ w.sessions))
  unfolding start_cleanup_of pure
  cleanup-Ensures port user_id none = record { good = (refl, refl) }
  cleanup-Ensures port user_id (some id) = start_cleanup-Ensures port user_id id

module _ (s : Service) where
  -- The one live session that the user has afterwards.
  pub record IsIssued (laws : SessionLaws s) (u : User) (d : Db) (session : Session)
      (w' : World s.Sessions) : Type 0 where
    pub rt : RefreshToken
    pub now : ℕ
    pub tokens : w'.db.refresh_tokens ≡ rt ∷ revoke_of now u.id d.refresh_tokens
    pub fresh : exists (conflicts rt) (revoke_of now u.id d.refresh_tokens) ≡ false
    pub owner : rt.user_id ≡ u.id
    pub hash : rt.token_hash ≡ hash_token s session.refresh_token
    pub user : session.user_id ≡ u.id
    pub live : rt.revoked_at ≡ none
    pub active : laws.active w'.sessions u.id ≡ some rt.id
    pub others : w'.db ≡ record d { refresh_tokens = w'.db.refresh_tokens }

  pub issue_session-Ensures :
      (laws : SessionLaws s) (u : User) (w : World s.Sessions)
      → Ensures (issue_session s u) w (IsIssued laws u w.db)
  unfolding issue_session Tokenhash.generate Token.new
  issue_session-Ensures laws u w =
      Ensures-bind _ _ (Ensures-wrapping _ _ (revoke_all-Ensures s.env w u.id)) λ _ w1 e1.
        Ensures-bind _ _ (Ensures-wrapping _ _ (Ensures-answer _)) λ raw w2 e2.
          Ensures-bind _ _ (Ensures-now_utc s.env) λ now w3 e3.
            Ensures-bind _ _ (Ensures-new_uuid s.env) λ id w4 e4.
              Ensures-bind _ _ (Ensures-wrapping _ _ (Ensures-session_answer _)) λ previous w5 e5.
                let rt = Token.new id now u.id (hash_token s raw) s.security.refresh_ttl in
                Ensures-bind _ _ (Ensures-wrapping _ _ (create_token-Ensures s.env w5 rt))
                  λ _ w6 e6. Ensures-bind _ _ (cleanup-Ensures _ _ _) λ _ w7 e7.
                    Ensures-bind _ _ (Ensures-wrapping _ _ (Ensures-answer _)) λ access w8 e8.
                      Ensures-pure _ (record {
                        rt = rt;
                        now = s.env.now w.event;
                        tokens = ground arith;
                        fresh = ground arith;
                        owner = refl;
                        hash = refl;
                        user = refl;
                        live = refl;
                        active = ground (
                          arith,
                          laws.active-activate w4.event w4.sessions u.id rt.id
                              s.security.refresh_ttl previous e5.0,
                        );
                        others = ground arith;
                      })

  -- Where issueSession ends well, the newest refresh token is the user's, is live, is stored by the
  -- hash of the token that the caller is given, and is the session that the store has for the user;
  -- no other token of the user is live.
  pub issue_session-single :
      (laws : SessionLaws s) (u : User) (w w' : World s.Sessions) (session : Session)
      → issue_session s u w ≡ (ok session, w')
      → (rt : RefreshToken) × (old : List RefreshToken) × (w'.db.refresh_tokens ≡ rt ∷ old)
        × (rt.user_id ≡ u.id)
        × (rt.token_hash ≡ hash_token s session.refresh_token)
        × (is_live rt ≡ true)
        × All (IsDead u.id) old
        × (laws.active w'.sessions u.id ≡ some rt.id)
  issue_session-single laws u w w' session e =
      let h = Ensures-ok (issue_session-Ensures laws u w) session w' e in
      (
        h.rt,
        revoke_of h.now u.id w.db.refresh_tokens,
        h.tokens,
        h.owner,
        h.hash,
        rw h.live,
        revoke_of-IsDead h.now u.id w.db.refresh_tokens,
        h.active,
      )
