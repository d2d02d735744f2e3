-- ===== src/Auth/Session/Progress.antt =====
-- Where the ports answer, Refresh gives a client with a live token a new session.
use beebase_auth_service.Prelude.{
  sym, arith, exists-found, ==_refl, ◌∷◌, ℕ, ◌+◌, ◌≡◌, refl, ap, ◌∙◌, Bool, true, false, ◌||◌,
  Option, none, some, List, Text, ◌==◌, find, exists, exists-update_where, update_where,
}
use mathlib.Core.Path.{subst}
use beebase_auth_service.World.{World, ok, ask, on_sessions, next_event}
use beebase_auth_service.World.Attains.{
  Attains-start, Attains, Attains-pure, Attains-query, Attains-bind, Attains-ask,
  Attains-on_sessions, Attains-wrapping, Attains-replacing, Attains-on_any_error, Attains-now_utc,
  Attains-new_uuid,
}
use beebase_auth_service.World.Ensures.{with_db}
use beebase_auth_service.Domain.User.{User, is_pending}
use beebase_auth_service.Domain.Token
use beebase_auth_service.Domain.Token.{RefreshToken, is_revoked, is_expired}
use beebase_auth_service.Repository.Users
use beebase_auth_service.Repository.Users.{has_id}
use beebase_auth_service.Repository.RefreshTokens
use beebase_auth_service.Repository.RefreshTokens.{has_hash, is_live, revoked}
use beebase_auth_service.Platform.Tokenhash
use beebase_auth_service.Platform.Tokenhash.{raw_token_bytes, encode_raw_url}
use beebase_auth_service.Auth.Ports.{
  Service, Session, DeletionPort, absent, request_only, request_and_cleanup, hash_token,
}
use beebase_auth_service.Auth.Session.{
  start_cleanup, start_cleanup_of, mint, issue_session, rotate, refresh,
}

-- The database, the random source, the session store and the issuer of access tokens answer well.
pub record IsAvailable (s : Service) : Type 0 where
  pub fine : (n : ℕ) → s.env.fault n ≡ false
  pub random : (n : ℕ) → (bytes : List ℕ) × (s.env.rand_read n raw_token_bytes ≡ some bytes)
  pub activates :
      (n : ℕ) (x : s.Sessions) (user session ttl : ℕ)
      → (r : Option ℕ × ℕ) × ((s.activate n x user session ttl).0 ≡ ok r)
  pub mints :
      (user session generation n : ℕ) → (r : Text × ℕ) × (mint s user session generation n ≡ ok r)

-- What the random source gives at event `n`, and uuid.New at the second event after that, is in no
-- row.
abbrev pub IsUnused : Service → ℕ → List RefreshToken → Type 0
IsUnused s n tokens =
    (bytes : List ℕ)
    → s.env.rand_read n raw_token_bytes ≡ some bytes
    → exists
        (λ x. x.id == s.env.uuid (n + 1 + 1) || has_hash (hash_token s (encode_raw_url bytes)) x)
        tokens
      ≡ false

cleanup-Attains :
    {S : Type 0} {Q : Unit {0} → World S → Type 0} (port : DeletionPort) (user_id session_id : ℕ)
    (w : World S)
    → ((v : World S) → Q tt v)
    → Attains (start_cleanup port user_id session_id) w Q
unfolding start_cleanup
cleanup-Attains absent user_id session_id w q = Attains-pure tt (q w)
cleanup-Attains request_only user_id session_id w q = Attains-pure tt (q w)
cleanup-Attains request_and_cleanup user_id session_id w q = Attains-start _ (q _)

cleanup_of-Attains :
    {S : Type 0} {Q : Unit {0} → World S → Type 0} (port : DeletionPort) (user_id : ℕ)
    (session : Option ℕ) (w : World S)
    → ((v : World S) → Q tt v)
    → Attains (start_cleanup_of port user_id session) w Q
unfolding start_cleanup_of
cleanup_of-Attains port user_id none w q = Attains-pure tt (q w)
cleanup_of-Attains port user_id (some session_id) w q = cleanup-Attains port user_id session_id w q

module _ (s : Service) (available : IsAvailable s) where
  -- The user is there, and the token that is made at the event is unused.
  abbrev Ready : ℕ → ℕ → World s.Sessions → Type 0
  Ready id n v = (exists (has_id id) v.db.users ≡ true) × IsUnused s n v.db.refresh_tokens

  revoked-IsUnused :
      (p : RefreshToken → Bool) (now n : ℕ) (tokens : List RefreshToken)
      → IsUnused s n tokens
      → IsUnused s n (update_where p (revoked now) tokens)
  revoked-IsUnused p now n tokens unused bytes e =
      exists-update_where _ p (revoked now) tokens (λ _. refl) ∙ unused bytes e

  revoke_all-Attains :
      (id n user_id : ℕ) (w : World s.Sessions)
      → Ready id n w
      → Attains
          (RefreshTokens.revoke_all_for_user s.env user_id)
          w
          (λ _ v. Ready id n v × (v.event ≡ w.event + 1))
  unfolding RefreshTokens.revoke_all_for_user
  revoke_all-Attains id n user_id w (there, unused) =
      Attains-query s.env _ _ tt _ (available.fine w.event) refl
        ((there, revoked-IsUnused _ _ n w.db.refresh_tokens unused), refl)

  revoke-Attains :
      (id n token_id : ℕ) (w : World s.Sessions)
      → Ready id n w
      → Attains
          (RefreshTokens.revoke s.env token_id)
          w
          (λ _ v. Ready id n v × (v.event ≡ w.event + 1))
  unfolding RefreshTokens.revoke
  revoke-Attains id n token_id w (there, unused) =
      Attains-query s.env _ _ tt _ (available.fine w.event) refl
        ((there, revoked-IsUnused _ _ n w.db.refresh_tokens unused), refl)

  -- The token is the encoding of bytes that the random source has given.
  generate-Attains :
      (w : World s.Sessions)
      → Attains (Tokenhash.generate s.env) w (λ raw v.
        ((bytes : List ℕ) × (s.env.rand_read w.event raw_token_bytes ≡ some bytes)
          × (raw ≡ encode_raw_url bytes))
        × (v ≡ next_event w))
  unfolding Tokenhash.generate
  generate-Attains w =
      let (bytes, given) = available.random w.event in
      Attains-ask _ (encode_raw_url bytes) (rw given refl) ((bytes, given, refl), refl)

  create-Attains :
      (t : RefreshToken) (w : World s.Sessions)
      → exists (has_id t.user_id) w.db.users ≡ true
      → exists (RefreshTokens.conflicts t) w.db.refresh_tokens ≡ false
      → Attains (RefreshTokens.create s.env t) w (λ _ v. Unit {0})
  unfolding RefreshTokens.create
  create-Attains t w there fresh =
      Attains-query s.env _ _ tt (record w.db { refresh_tokens = t ∷ w.db.refresh_tokens })
        (available.fine w.event) (rw (fresh, there) refl) tt

  activate-Attains :
      (user session : ℕ) (w : World s.Sessions)
      → Attains
          (on_sessions λ n x. s.activate n x user session s.security.refresh_ttl)
          w
          (λ _ v. v.db ≡ w.db)
  activate-Attains user session w =
      let (r, e) = available.activates w.event w.sessions user session s.security.refresh_ttl in
      Attains-on_sessions _ r e refl

  mint-Attains :
      (user session generation : ℕ) (w : World s.Sessions)
      → Attains (ask (mint s user session generation)) w (λ _ _. Unit {0})
  mint-Attains user session generation w =
      let (r, e) = available.mints user session generation w.event in Attains-ask _ r e tt

  issue_session-Attains :
      (u : User) (w : World s.Sessions)
      → Ready u.id (w.event + 1) w
      → Attains (issue_session s u) w (λ _ v. Unit {0})
  unfolding issue_session Token.new
  issue_session-Attains u w ready =
      Attains-bind _ _ (Attains-wrapping _ _ (revoke_all-Attains u.id (w.event + 1) u.id w ready))
        λ _ w1 ((there, unused), at).
          Attains-bind _ _ (Attains-wrapping _ _ (generate-Attains w1))
            λ raw w2 ((bytes, given, same), e2).
              Attains-bind _ _ (Attains-now_utc s.env) λ now w3 (_, e3).
                Attains-bind _ _ (Attains-new_uuid s.env) λ id w4 (made, e4).
                  Attains-bind _ _ (Attains-wrapping _ _ (activate-Attains u.id id w4))
                    λ previous w5 e5.
                      let e : w5.db ≡ w1.db =
                        e5
                        ∙ ap (λ (x : World s.Sessions). x.db) e4
                        ∙ ap (λ (x : World s.Sessions). x.db) e3
                        ∙ ap (λ (x : World s.Sessions). x.db) e2 in
                      let drawn : s.env.rand_read (w.event + 1) raw_token_bytes ≡ some bytes =
                        rw (sym at) given in
                      let numbered : w3.event ≡ w.event + 1 + 1 + 1 = ground (arith, e3, e2, at) in
                      let fresh_id : id ≡ s.env.uuid (w.event + 1 + 1 + 1) =
                        made ∙ ap s.env.uuid numbered in
                      let t = Token.new id now u.id (hash_token s raw) s.security.refresh_ttl in
                      let fresh : exists (RefreshTokens.conflicts t) w5.db.refresh_tokens ≡ false =
                        rw (e, same, fresh_id) (unused bytes drawn) in
                      Attains-bind _ _
                        (Attains-wrapping _ _ (create-Attains t w5 (rw e there) fresh))
                        λ _ w6 _.
                          Attains-bind _ _
                            (cleanup_of-Attains {Q = λ _ _. Unit {0}} s.deletion u.id previous.0 w6
                              λ v. tt)
                            λ _ w7 _.
                              Attains-bind _ _
                                (Attains-wrapping _ _ (mint-Attains u.id id previous.1 w7))
                                λ access w8 _. Attains-pure _ tt

  get_by_id-Attains :
      (id : ℕ) (u : User) (w : World s.Sessions)
      → find (has_id id) w.db.users ≡ some u
      → Attains (Users.get_by_id s.env id) w (λ u' v. (u' ≡ u) × (v ≡ with_db w w.db))
  unfolding Users.get_by_id
  get_by_id-Attains id u w found =
      Attains-query s.env _ _ u w.db (available.fine w.event) (rw found refl) (refl, refl)

  get_by_hash-Attains :
      (hash : Text) (rt : RefreshToken) (w : World s.Sessions)
      → find (has_hash hash) w.db.refresh_tokens ≡ some rt
      → Attains
          (RefreshTokens.get_by_hash s.env hash)
          w
          (λ rt' v. (rt' ≡ rt) × (v ≡ with_db w w.db))
  unfolding RefreshTokens.get_by_hash
  get_by_hash-Attains hash rt w found =
      Attains-query s.env _ _ rt w.db (available.fine w.event) (rw found refl) (refl, refl)

  rotate-Attains :
      (rt : RefreshToken) (u : User) (w : World s.Sessions)
      → find (has_id rt.user_id) w.db.users ≡ some u
      → is_pending u.deletion_status ≡ false
      → IsUnused s (w.event + 1 + 1 + 1) w.db.refresh_tokens
      → Attains (rotate s rt) w (λ _ _. Unit {0})
  unfolding rotate
  rotate-Attains rt u w found active unused =
      Attains-bind _ _ (Attains-on_any_error _ _ (get_by_id-Attains rt.user_id u w found))
        λ u' w1 (same, e1).
          let there : exists (has_id u.id) w.db.users ≡ true =
            exists-found (has_id rt.user_id) (has_id u.id) w.db.users {x = u} found
              (==_refl u.id) in
          rw (same, active)
            (Attains-bind _ _
              (Attains-wrapping _ _
                (revoke-Attains u.id (w.event + 1 + 1 + 1) rt.id w1 (rw e1 there, rw e1 unused)))
              λ _ w2 (ready, at).
                let n : w.event + 1 + 1 + 1 ≡ w2.event + 1 = ground (arith, at, e1) in
                issue_session-Attains u w2 (subst (λ k. Ready u.id k w2) n ready))

  -- Where the ports answer, Refresh exchanges a stored token that is neither revoked nor expired, of a
  -- user who is there and is not being deleted, for a session, unless a stored token has the id or
  -- the hash of the one that this call makes.
  pub refresh_succeeds :
      (raw : Text) (w : World s.Sessions) (rt : RefreshToken) (u : User)
      → find (has_hash (hash_token s raw)) w.db.refresh_tokens ≡ some rt
      → is_revoked rt ≡ false
      → is_expired (s.env.now (w.event + 1)) rt ≡ false
      → find (has_id rt.user_id) w.db.users ≡ some u
      → is_pending u.deletion_status ≡ false
      → IsUnused s (w.event + 1 + 1 + 1 + 1 + 1) w.db.refresh_tokens
      → (session : Session) × (w' : World s.Sessions) × (refresh s raw w ≡ (ok session, w'))
  unfolding refresh
  refresh_succeeds raw w rt u stored live valid found active unused =
      let a : Attains (refresh s raw) w (λ _ _. Unit {0}) =
        Attains-bind _ _ (Attains-replacing _ _ _ (get_by_hash-Attains _ rt w stored))
          λ rt' w1 (same, e1).
            rw (same, live)
              (Attains-bind _ _ (Attains-now_utc s.env) λ now w2 (at, e2).
                let in_time : is_expired now rt ≡ false = rw (at, e1) valid in
                rw in_time
                  (rotate-Attains rt u w2 (rw (e2, e1) found) active (rw (e2, e1) unused))) in
      (a.value, a.after, a.runs)
