-- ===== src/Auth/Session/Rotation.antt =====
-- What Refresh and Logout guarantee.
use beebase_auth_service.Prelude.{
  ℕ, ◌+◌, ◌≡◌, ◌≢◌, refl, true, false, ◌&&◌, some, List, ◌∷◌, All, Text, ◌==◌, text_eq_iff, arith,
  find, exists, update_where, find-update_where, find-selected, exists-found,
}
use mathlib.Core.Path.{subst}
use beebase_auth_service.Errors.{sentinel, invalid_refresh_token}
use beebase_auth_service.World.{World, Db, ignoring, ok, err, ◌>>=◌}
use beebase_auth_service.World.Ensures.{
  Ensures-optional, Ensures, Ensures-ok, Ensures-bind, Ensures-mono, Ensures-wrapping,
  Ensures-replacing, Ensures-on_any_error, Ensures-if, Ensures-raise, Ensures-session_answer,
  Ensures-now_utc,
}
use beebase_auth_service.Domain.User.{User, is_pending}
use beebase_auth_service.Domain.Token.{RefreshToken, is_revoked, is_expired}
use beebase_auth_service.Repository.Users.{has_id}
use beebase_auth_service.Repository.RefreshTokens
use beebase_auth_service.Repository.RefreshTokens.{conflicts, has_hash, is_live, revoked}
use beebase_auth_service.Repository.Effects.{
  get_by_hash-missing, IsDead, revoke_of, revoke_of-IsDead, revoke_all-Ensures, revoke-Ensures,
  get_by_id-Ensures, get_by_hash-Ensures,
}
use beebase_auth_service.Auth.Ports.{Service, SessionLaws, Session, hash_token}
use beebase_auth_service.Auth.Session.{end_if_found, end_session, rotate, refresh, logout}
use beebase_auth_service.Auth.Session.Issue.{start_cleanup-Ensures, IsIssued, issue_session-Ensures}

abbrev pub revoke_one : ℕ → ℕ → List RefreshToken → List RefreshToken
revoke_one now id = update_where (λ t. t.id == id && is_live t) (revoked now)

-- A presented token that was live, once it and its owner's others are revoked, and a new token that
-- is in conflict with none has joined the table.
module _ (h : Text) (rt new : RefreshToken) (now later user_id : ℕ) (ts : List RefreshToken) where
  abbrev rest : List RefreshToken
  rest = revoke_of later user_id (revoke_one now rt.id ts)

  revoked_in_rest :
      find (has_hash h) ts ≡ some rt
      → is_revoked rt ≡ false
      → find (has_hash h) rest ≡ some (revoked now rt)
  revoked_in_rest found live =
      let first =
        find-update_where (has_hash h) (λ t. t.id == rt.id && is_live t) (revoked now) ts {x = rt}
          (λ y. refl) found in
      let second =
        find-update_where (has_hash h) (λ t. t.user_id == user_id && is_live t) (revoked later)
          (revoke_one now rt.id ts) {x = revoked now rt} (λ y. refl) in
      ground (arith, first, second)

  hash_differs :
      find (has_hash h) rest ≡ some (revoked now rt)
      → exists (conflicts new) rest ≡ false
      → has_hash h new ≡ false
  hash_differs found fresh = ground (
    arith,
    text_eq_iff new.token_hash h,
    text_eq_iff rt.token_hash h,
    text_eq_iff rt.token_hash new.token_hash,
    find-selected (has_hash h) rest {x = revoked now rt} found,
    exists-found (has_hash h) (conflicts new) rest {x = revoked now rt} found,
  )

  spent_in :
      find (has_hash h) ts ≡ some rt
      → is_revoked rt ≡ false
      → exists (conflicts new) rest ≡ false
      → find (has_hash h) (new ∷ rest) ≡ some (revoked now rt)
  unfolding find
  spent_in found live fresh =
      let in_rest = revoked_in_rest found live in rw (hash_differs in_rest fresh) in_rest

module _ (s : Service) (laws : SessionLaws s) where
  -- From the token that was presented to the session that replaces it.
  pub record IsRotated (rt : RefreshToken) (d : Db) (session : Session) (w' : World s.Sessions)
      : Type 0 where
    pub u : User
    pub found : find (has_id rt.user_id) d.users ≡ some u
    pub is_active : is_pending u.deletion_status ≡ false
    pub now : ℕ
    pub issued :
        IsIssued s laws u
          (record d { refresh_tokens = revoke_one now rt.id d.refresh_tokens })
          session
          w'

  rotate-Ensures :
      (rt : RefreshToken) (w : World s.Sessions) → Ensures (rotate s rt) w (IsRotated rt w.db)
  unfolding rotate ignoring
  rotate-Ensures rt w =
      Ensures-bind _ _ (Ensures-on_any_error _ _ (get_by_id-Ensures s.env w rt.user_id)) λ u w1 e1.
        Ensures-if (is_pending u.deletion_status) _ _
          (λ p. Ensures-bind _ _ (record { good = tt }) λ _ w2 (e2 : Unit {0}). Ensures-raise _)
          (λ p. Ensures-bind _ _ (Ensures-wrapping _ _ (revoke-Ensures s.env w1 rt.id)) λ _ w2 e2.
            let same : w2.db ≡ record w.db {
              refresh_tokens = revoke_one (s.env.now w1.event) rt.id w.db.refresh_tokens;
            } =
              ground arith in
            Ensures-mono (issue_session-Ensures s laws u w2) λ session w' issued. record {
              u = u;
              found = e1.0;
              is_active = p;
              now = s.env.now w1.event;
              issued = subst (λ d. IsIssued s laws u d session w') same issued;
            })

  pub record IsRefreshed (raw : Text) (w : World s.Sessions) (session : Session)
      (w' : World s.Sessions) : Type 0 where
    pub rt : RefreshToken
    pub found : find (has_hash (hash_token s raw)) w.db.refresh_tokens ≡ some rt
    pub unrevoked : is_revoked rt ≡ false
    pub unexpired : is_expired (s.env.now (w.event + 1)) rt ≡ false
    pub rotated : IsRotated rt w.db session w'

  refresh-Ensures :
      (raw : Text) (w : World s.Sessions) → Ensures (refresh s raw) w (IsRefreshed raw w)
  unfolding refresh
  refresh-Ensures raw w =
      Ensures-bind _ _ (Ensures-replacing _ _ _ (get_by_hash-Ensures s.env w (hash_token s raw)))
        λ rt w1 e1.
          Ensures-if (is_revoked rt) _ _
            (λ p.
              Ensures-bind _ _ (Ensures-wrapping _ _ (revoke_all-Ensures s.env w1 rt.user_id))
                λ _ w2 e2. Ensures-raise _)
            (λ p. Ensures-bind _ _ (Ensures-now_utc s.env) λ now w2 e2.
              Ensures-if (is_expired now rt) _ _ (λ q. Ensures-raise _)
                λ q.
                  let same : w2.db ≡ w.db = ground arith in
                  let time : s.env.now (w.event + 1) ≡ now = ground arith in
                  Ensures-mono (rotate-Ensures rt w2) λ session w' r. record {
                    rt = rt;
                    found = e1.0;
                    unrevoked = p;
                    unexpired = rw time q;
                    rotated = subst (λ d. IsRotated rt d session w') same r;
                  })

  -- A refresh token that has been exchanged is found revoked.
  spent :
      (raw : Text) (w : World s.Sessions) (session : Session) (w' : World s.Sessions)
      → IsRefreshed raw w session w'
      → (t : RefreshToken) × (find (has_hash (hash_token s raw)) w'.db.refresh_tokens ≡ some t)
        × (is_revoked t ≡ true)
  spent raw w session w' h =
      let issued = h.rotated.issued in
      (
        revoked h.rotated.now h.rt,
        rw issued.tokens (
            spent_in (hash_token s raw) h.rt issued.rt h.rotated.now issued.now h.rotated.u.id
              w.db.refresh_tokens h.found h.unrevoked issued.fresh),
        refl,
      )

  -- A refresh token is good for one exchange: after a Refresh that ended well, the same token never
  -- yields a session again while the table of tokens stays as that Refresh left it.
  pub refresh-single_use :
      (raw : Text) (w w' v v' : World s.Sessions) (session again : Session)
      → refresh s raw w ≡ (ok session, w')
      → v.db.refresh_tokens ≡ w'.db.refresh_tokens
      → refresh s raw v ≢ (ok again, v')
  refresh-single_use raw w w' v v' session again e same e' =
      let (t, found, dead) =
        spent raw w session w' (Ensures-ok (refresh-Ensures raw w) session w' e) in
      let h = Ensures-ok (refresh-Ensures raw v) again v' e' in
      cc (found, dead, h.found, h.unrevoked, same)

  -- Refresh ends well only for a stored token that is neither revoked nor expired, of a user who
  -- exists and is not being deleted; the new session is that user's.
  pub refresh_sound :
      (raw : Text) (w w' : World s.Sessions) (session : Session)
      → refresh s raw w ≡ (ok session, w')
      → (rt : RefreshToken) × (u : User) × (find (has_hash (hash_token s raw)) w.db.refresh_tokens
          ≡ some rt)
        × (is_revoked rt ≡ false)
        × (is_expired (s.env.now (w.event + 1)) rt ≡ false)
        × (find (has_id rt.user_id) w.db.users ≡ some u)
        × (is_pending u.deletion_status ≡ false)
        × (session.user_id ≡ u.id)
  refresh_sound raw w w' session e =
      let h = Ensures-ok (refresh-Ensures raw w) session w' e in
      (
        h.rt, h.rotated.u, h.found, h.unrevoked, h.unexpired, h.rotated.found, h.rotated.is_active,
        h.rotated.issued.user,
      )

module _ (s : Service) where
  -- A revoked token that is presented again is taken for stolen: where the database answers,
  -- Refresh fails with the one error for bad tokens, and no token of its owner stays live.
  pub refresh-reuse :
      (raw : Text) (w : World s.Sessions) (rt : RefreshToken)
      → find (has_hash (hash_token s raw)) w.db.refresh_tokens ≡ some rt
      → is_revoked rt ≡ true
      → s.env.fault w.event ≡ false
      → s.env.fault (w.event + 1) ≡ false
      → ((refresh s raw w).0 ≡ err (sentinel invalid_refresh_token))
        × All (IsDead rt.user_id) (refresh s raw w).1.db.refresh_tokens
        × ((refresh s raw w).1.db.users ≡ w.db.users)
        × ((refresh s raw w).1.sessions ≡ w.sessions)
  unfolding refresh ◌>>=◌ RefreshTokens.get_by_hash RefreshTokens.revoke_all_for_user
  refresh-reuse raw w rt found dead f0 f1 =
      let list = revoke_of-IsDead (s.env.now (w.event + 1)) rt.user_id w.db.refresh_tokens in
      simp (f0, found, dead, f1) (refl, list, refl, refl)

module _ (s : Service) (laws : SessionLaws s) where
  -- What a successful Logout has done to the session of the token that was presented.
  pub record IsLoggedOut (rt : RefreshToken) (d : Db) (w' : World s.Sessions) : Type 0 where
    pub now : ℕ
    pub tokens : w'.db ≡ record d { refresh_tokens = revoke_one now rt.id d.refresh_tokens }
    pub inactive : laws.active w'.sessions rt.user_id ≢ some rt.id

  end_session-Ensures :
      (rt : RefreshToken) (w : World s.Sessions)
      → Ensures (end_session s rt) w (λ _ w'. IsLoggedOut rt w.db w')
  unfolding end_session
  end_session-Ensures rt w = Ensures-bind _ _ (revoke-Ensures s.env w rt.id) λ _ w1 e1.
      Ensures-bind _ _ (Ensures-wrapping _ _ (Ensures-session_answer _)) λ cleared w2 e2.
        Ensures-mono (start_cleanup-Ensures s.deletion rt.user_id rt.id) λ _ w3 e3. record {
          now = s.env.now w.event;
          tokens = ground arith;
          inactive = λ claim.
              laws.active-deactivate_if_current w1.event w1.sessions rt.user_id rt.id cleared e2.0
                (ground arith);
        }

  logout-Ensures :
      (raw : Text) (w : World s.Sessions) (rt : RefreshToken)
      → find (has_hash (hash_token s raw)) w.db.refresh_tokens ≡ some rt
      → is_revoked rt ≡ false
      → Ensures (logout s raw) w (λ _ w'. IsLoggedOut rt w.db w')
  unfolding logout end_if_found
  logout-Ensures raw w rt found live =
      Ensures-bind _ _
        (Ensures-optional {Q = λ o v. (o ≡ some rt) × (v.db ≡ w.db)} _ _
          (Ensures-mono (get_by_hash-Ensures s.env w (hash_token s raw))
            λ t v e. (cc (e.0, found), ground arith))
          λ e failed missing.
            cc (found, (get_by_hash-missing s.env w (hash_token s raw) e failed missing).0))
        λ o v e. rw e.0 (
          Ensures-if (is_revoked rt) _ _ (λ p. absurd (ground arith))
            λ p.
              Ensures-mono (end_session-Ensures rt v)
                λ _ w' h. subst (λ d. IsLoggedOut rt d w') e.1 h)

  -- A Logout that ends well with a live token leaves that token revoked, its session not the one
  -- that the store has for the user, and no other row of the database changed.
  pub logout-ends_session :
      (raw : Text) (w w' : World s.Sessions) (rt : RefreshToken) (u : Unit {0})
      → find (has_hash (hash_token s raw)) w.db.refresh_tokens ≡ some rt
      → is_revoked rt ≡ false
      → logout s raw w ≡ (ok u, w')
      → (now : ℕ) × (find (has_hash (hash_token s raw)) w'.db.refresh_tokens
          ≡ some (revoked now rt))
        × (w'.db ≡ record w.db { refresh_tokens = revoke_one now rt.id w.db.refresh_tokens })
        × (laws.active w'.sessions rt.user_id ≢ some rt.id)
  logout-ends_session raw w w' rt u found live e =
      let h = Ensures-ok (logout-Ensures raw w rt found live) u w' e in
      let first =
        find-update_where (has_hash (hash_token s raw)) (λ t. t.id == rt.id && is_live t)
          (revoked h.now) w.db.refresh_tokens {x = rt} (λ y. refl) found in
      (h.now, rw h.tokens (ground (arith, first)), h.tokens, h.inactive)
