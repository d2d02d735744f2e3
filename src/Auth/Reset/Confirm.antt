-- ===== src/Auth/Reset/Confirm.antt =====
-- What ConfirmPasswordReset guarantees.
use beebase_auth_service.Prelude.{
  sym, ℕ, ◌+◌, ◌≡◌, ◌≢◌, refl, Bool, true, false, ◌&&◌, not, Option, none, some, Text, All, List,
  arith, find, update_where, find-updated, find-selected, ==_refl,
}
use mathlib.Core.Path.{subst}
use beebase_auth_service.World.{World, Db, ok}
use beebase_auth_service.World.Ensures.{
  Ensures, Ensures-ok, Ensures-bind, Ensures-mono, Ensures-wrapping, Ensures-replacing, Ensures-if,
  Ensures-raise, Ensures-answer, Ensures-now_utc,
}
use beebase_auth_service.Domain.PasswordReset.{
  PasswordResetFlow, is_expired, is_consumed, is_otp_verified, is_reset_token_valid, consume,
}
use beebase_auth_service.Repository.Users.{has_id}
use beebase_auth_service.Repository.PasswordResetFlows.{has_flow_id, has_reset_hash, updated}
use beebase_auth_service.Repository.Effects.{
  get_by_reset_hash-Ensures, update_flow-Ensures, update_password-Ensures, IsDead, revoke_of-IsDead,
}
use beebase_auth_service.Auth.Ports.{Service, SessionLaws, hash_token}
use beebase_auth_service.Auth.Session.SignedOut.{IsSignedOut, sign_out-Ensures}
use beebase_auth_service.Auth.Reset.{is_ready, reset_for, reset_password, confirm_password_reset}

-- The flow's row, once the flow has been consumed, is still found by the reset token, and is consumed.
spent_flow :
    (hash : Text) (f : PasswordResetFlow) (now : ℕ) (fs : List PasswordResetFlow)
    → find (has_reset_hash hash) fs ≡ some f
    → (x : PasswordResetFlow) × (find
          (has_reset_hash hash)
          (update_where (has_flow_id f.id) (updated (consume now f)) fs)
        ≡ some x)
      × (is_consumed x ≡ true)
unfolding consume
spent_flow hash f now fs found =
    find-updated (has_reset_hash hash) (has_flow_id f.id) (updated (consume now f))
      (λ x. is_consumed x ≡ true) fs {x = f}
      (λ y hit. (find-selected (has_reset_hash hash) fs {x = f} found, refl)) found (==_refl f.id)

ready-parts :
    (a b c d : Bool)
    → (not a && not b && c && d) ≡ true
    → (a ≡ false) × (b ≡ false) × (c ≡ true) × (d ≡ true)
ready-parts a b c d e = ground (arith, e)

module _ (s : Service) (laws : SessionLaws s) where
  pub record IsReset (f : PasswordResetFlow) (new_password : Text) (d : Db) (w' : World s.Sessions)
      : Type 0 where
    pub user_id : ℕ
    pub owner : f.user_id ≡ some user_id
    pub new_hash : Text
    pub n : ℕ
    pub hashed : s.hash_password n new_password ≡ ok new_hash
    pub at : ℕ
    pub users :
        w'.db.users
        ≡ update_where
            (has_id user_id)
            (λ x. record x { password_hash = new_hash; updated_at = at })
            d.users
    pub consumed : ℕ
    pub flows :
        w'.db.password_reset_flows
        ≡ update_where (has_flow_id f.id) (updated (consume consumed f)) d.password_reset_flows
    pub d' : Db
    pub signed_out : IsSignedOut s laws user_id d' w'

  reset_for-Ensures :
      (f : PasswordResetFlow) (new_password : Text) (user_id : Option ℕ) (w : World s.Sessions)
      → f.user_id ≡ user_id
      → Ensures (reset_for s f new_password user_id) w (λ _ w'. IsReset f new_password w.db w')
  unfolding reset_for reset_password consume
  reset_for-Ensures f new_password none w owner = Ensures-raise _
  reset_for-Ensures f new_password (some user_id) w owner =
      Ensures-bind _ _ (Ensures-wrapping _ _ (Ensures-answer _)) λ hash w1 e1.
        Ensures-bind _ _ (update_password-Ensures s.env w1 user_id hash) λ _ w2 e2.
          Ensures-bind _ _ (Ensures-now_utc s.env) λ now w3 e3.
            Ensures-bind _ _ (Ensures-wrapping _ _ (update_flow-Ensures s.env w3 (consume now f)))
              λ _ w4 e4. Ensures-mono (sign_out-Ensures s laws _ _ user_id w4) λ _ w5 h.
                let signed = h.db in
                record {
                  user_id = user_id;
                  owner = owner;
                  new_hash = hash;
                  n = w.event;
                  hashed = e1.0;
                  at = s.env.now w1.event;
                  users = ground arith;
                  consumed = now;
                  flows = ground arith;
                  d' = w4.db;
                  signed_out = h;
                }

  pub record IsConfirmed (raw new_password : Text) (w w' : World s.Sessions) : Type 0 where
    pub f : PasswordResetFlow
    pub found : find (has_reset_hash (hash_token s raw)) w.db.password_reset_flows ≡ some f
    pub ready : is_ready s (s.env.now (w.event + 1)) (s.env.now (w.event + 1 + 1)) f ≡ true
    pub reset : IsReset f new_password w.db w'

  pub confirm_password_reset-Ensures :
      (raw new_password : Text) (w : World s.Sessions)
      → Ensures
          (confirm_password_reset s raw new_password)
          w
          (λ _ w'. IsConfirmed raw new_password w w')
  unfolding confirm_password_reset
  confirm_password_reset-Ensures raw new_password w =
      Ensures-bind _ _
        (Ensures-replacing _ _ _ (get_by_reset_hash-Ensures s.env w (hash_token s raw)))
        λ f w1 e1. Ensures-bind _ _ (Ensures-now_utc s.env) λ now w2 e2.
          Ensures-bind _ _ (Ensures-now_utc s.env) λ token_now w3 e3.
            Ensures-if (is_ready s now token_now f) _ _
              (λ p.
                let same : w3.db ≡ w.db = ground arith in
                let time : s.env.now (w.event + 1) ≡ now = ground arith in
                let later : s.env.now (w.event + 1 + 1) ≡ token_now = ground arith in
                Ensures-mono (reset_for-Ensures f new_password f.user_id w3 refl) λ _ w' h. record {
                  f = f;
                  found = e1.0;
                  ready = rw time (subst (λ x. is_ready s now x f ≡ true) (sym later) p);
                  reset = subst (λ d. IsReset f new_password d w') same h;
                })
              λ p. Ensures-raise _

  -- ConfirmPasswordReset ends well only for the reset token of a stored flow that is verified,
  -- neither expired nor consumed, whose reset token is still valid, and that has a user. Then the
  -- hash of the new password is stored for that user and for nobody else, no refresh token of the
  -- user is live, and the store has no session for the user.
  pub confirm_password_reset_sound :
      (raw new_password : Text) (w w' : World s.Sessions)
      → confirm_password_reset s raw new_password w ≡ (ok tt, w')
      → (f : PasswordResetFlow) × (user_id n at : ℕ) × (hash : Text) × (find
            (has_reset_hash (hash_token s raw))
            w.db.password_reset_flows
          ≡ some f)
        × (is_expired (s.env.now (w.event + 1)) f ≡ false)
        × (is_consumed f ≡ false)
        × (is_otp_verified f ≡ true)
        × (is_reset_token_valid (s.env.now (w.event + 1 + 1)) f ≡ true)
        × (f.user_id ≡ some user_id)
        × (s.hash_password n new_password ≡ ok hash)
        × (w'.db.users
            ≡ update_where
                (has_id user_id)
                (λ x. record x { password_hash = hash; updated_at = at })
                w.db.users)
        × All (IsDead user_id) w'.db.refresh_tokens
        × (laws.active w'.sessions user_id ≡ none)
  confirm_password_reset_sound raw new_password w w' e =
      let h = Ensures-ok (confirm_password_reset-Ensures raw new_password w) tt w' e in
      let open_then =
        ready-parts (is_expired _ h.f) (is_consumed h.f) (is_otp_verified h.f)
          (is_reset_token_valid _ h.f) h.ready in
      let r = h.reset in
      let dead = revoke_of-IsDead r.signed_out.now r.user_id r.d'.refresh_tokens in
      (
        h.f,
        r.user_id,
        r.n,
        r.at,
        r.new_hash,
        h.found,
        open_then.0,
        open_then.1,
        open_then.2,
        open_then.3,
        r.owner,
        r.hashed,
        r.users,
        rw r.signed_out.db dead,
        r.signed_out.inactive,
      )

  -- A reset token is good for one password: after a ConfirmPasswordReset that ended well, the same
  -- token never sets a password again while the table of flows stays as that reset left it.
  pub confirm_password_reset-single_use :
      (raw first second : Text) (w w' v v' : World s.Sessions)
      → confirm_password_reset s raw first w ≡ (ok tt, w')
      → v.db.password_reset_flows ≡ w'.db.password_reset_flows
      → confirm_password_reset s raw second v ≢ (ok tt, v')
  confirm_password_reset-single_use raw first second w w' v v' e same e' =
      let h = Ensures-ok (confirm_password_reset-Ensures raw first w) tt w' e in
      let h' = Ensures-ok (confirm_password_reset-Ensures raw second v) tt v' e' in
      let (x, found, dead) =
        spent_flow (hash_token s raw) h.f h.reset.consumed w.db.password_reset_flows h.found in
      let open_then =
        ready-parts (is_expired _ h'.f) (is_consumed h'.f) (is_otp_verified h'.f)
          (is_reset_token_valid _ h'.f) h'.ready in
      let unused = open_then.1 in cc (found, dead, unused, h'.found, same, h.reset.flows)
