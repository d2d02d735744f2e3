-- ===== src/Auth/Session/SignedOut.antt =====
-- The steps with which ChangePassword and ConfirmPasswordReset end every session of a user.
use beebase_auth_service.Prelude.{ℕ, ◌≡◌, none, String, arith}
use beebase_auth_service.World.{World, Db, ◌>>=◌, ◌>>◌, wrapping, on_sessions}
use beebase_auth_service.World.Ensures.{
  Ensures, Ensures-bind, Ensures-mono, Ensures-wrapping, Ensures-session_answer,
}
use beebase_auth_service.Repository.RefreshTokens
use beebase_auth_service.Repository.Effects.{revoke_of, revoke_all-Ensures}
use beebase_auth_service.Auth.Ports.{Service, SessionLaws}
use beebase_auth_service.Auth.Session.{start_cleanup_of}
use beebase_auth_service.Auth.Session.Issue.{cleanup-Ensures}

module _ (s : Service) (laws : SessionLaws s) where
  -- No live token of the user, and no active session; the rest of the database is `d`.
  pub record IsSignedOut (user_id : ℕ) (d : Db) (w' : World s.Sessions) : Type 0 where
    pub now : ℕ
    pub db : w'.db ≡ record d { refresh_tokens = revoke_of now user_id d.refresh_tokens }
    pub inactive : laws.active w'.sessions user_id ≡ none

  -- The steps, with the places that their errors name.
  pub sign_out-Ensures :
      (revoke_site deactivate_site : String) (user_id : ℕ) (w : World s.Sessions)
      → Ensures
          (wrapping revoke_site (RefreshTokens.revoke_all_for_user s.env user_id)
            >> (wrapping deactivate_site
                  (on_sessions λ n x. s.deactivate_and_return_previous n x user_id)
                >>= λ previous. start_cleanup_of s.deletion user_id previous))
          w
          (λ _ w'. IsSignedOut user_id w.db w')
  sign_out-Ensures revoke_site deactivate_site user_id w =
      Ensures-bind _ _ (Ensures-wrapping _ _ (revoke_all-Ensures s.env w user_id)) λ _ w1 e1.
        Ensures-bind _ _ (Ensures-wrapping _ _ (Ensures-session_answer _)) λ previous w2 e2.
          Ensures-mono (cleanup-Ensures s.deletion user_id previous) λ _ w3 e3.
            let gone =
              laws.active-deactivate_and_return_previous w1.event w1.sessions user_id previous
                e2.0 in
            record { now = s.env.now w.event; db = ground arith; inactive = ground (arith, gone) }
