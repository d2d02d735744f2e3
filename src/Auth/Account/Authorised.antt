-- ===== src/Auth/Account/Authorised.antt =====
-- What UpdateProfile and DeleteAccount do only where they may.
use beebase_auth_service.Prelude.{
  ◌≢◌, ◌==◌, Bool-cases, inl, inr, ap, ◌∙◌, [], ◌∷◌, none, List, update_where, refl, ℕ, ◌+◌, ◌≡◌,
  refl, some, [], ◌∷◌, Text, arith, find,
}
use beebase_auth_service.World.{Call, delete_media, World, next_event, ok}
use beebase_auth_service.World.Ensures.{
  Ensures, Ensures-requested, Ensures-pure, Ensures-answer, Ensures-now_utc, Ensures-ok,
  Ensures-bind, Ensures-mono, Ensures-replacing, Ensures-run, with_db,
}
use mathlib.Core.Path.{subst}
use beebase_auth_service.Domain.User.{update_profile as with_profile, User}
use beebase_auth_service.Domain.Totp.{Credential}
use beebase_auth_service.Repository.Users.{has_id}
use beebase_auth_service.Repository.Credentials.{of_user}
use beebase_auth_service.Repository.Effects.{
  update_user-Ensures, get_by_id-Ensures, get_credential-Ensures,
}
use beebase_auth_service.Auth.Ports.{Service, UpdateProfileInput, AvatarChange}
use beebase_auth_service.Auth.Otp.Verified.{IsVerified, verify_otp-Ensures}
use beebase_auth_service.Auth.Account.{
  Option, delete_old_avatar, old_avatar, new_avatar, check_avatar, wanted_avatar, update_profile,
  delete_account, carry_out_deletion, replaced,
}

-- The avatar of the request, or the current one where the request leaves it alone.
abbrev pub IsStored : Option ℕ → Option AvatarChange → Option ℕ → Type 0
IsStored current none stored = stored ≡ current
IsStored current (some change) stored = stored ≡ change.media_id

new_avatar-IsStored :
    (current : Option ℕ) (avatar : Option AvatarChange)
    → IsStored current avatar (new_avatar current avatar)
new_avatar-IsStored current none = refl
new_avatar-IsStored current (some change) = refl

replaced-only :
    (current wanted : Option ℕ) (m : ℕ)
    → replaced current wanted ≡ some m
    → (current ≡ some m) × (wanted ≢ some m)
replaced-only none wanted m e = absurd (ground (arith, e))
replaced-only (some old) none m e = (e, λ h. ground (arith, h))
replaced-only (some old) (some id) m e = elim (Bool-cases (old == id)) [
  | inl same ↦ absurd (ground (arith, same, e))
  | inr apart ↦ (ground (arith, apart, e), λ h. ground (arith, apart, e, h))
]

replaced-all :
    (current wanted : Option ℕ) (m : ℕ)
    → current ≡ some m
    → wanted ≢ some m
    → replaced current wanted ≡ some m
replaced-all none wanted m e other = absurd (ground (arith, e))
replaced-all (some old) none m e other = e
replaced-all (some old) (some id) m e other = elim (Bool-cases (old == id)) [
  | inl same ↦ absurd (other (ground (arith, same, e)))
  | inr apart ↦ ground (arith, apart, e)
]

old_avatar-only :
    (current : Option ℕ) (avatar : Option AvatarChange) (m : ℕ)
    → old_avatar current avatar ≡ some m
    → (current ≡ some m) × (new_avatar current avatar ≢ some m)
old_avatar-only current none m e = absurd (ground (arith, e))
old_avatar-only current (some change) m e = replaced-only current change.media_id m e

old_avatar-all :
    (current : Option ℕ) (avatar : Option AvatarChange) (m : ℕ)
    → current ≡ some m
    → new_avatar current avatar ≢ some m
    → old_avatar current avatar ≡ some m
old_avatar-all current none m e other = absurd (other e)
old_avatar-all current (some change) m e other = replaced-all current change.media_id m e other

module _ (s : Service) where
  -- The stored user's code has been accepted for the stored credential, and the deletion is what
  -- follows that.
  pub record IsAuthorised (user_id : ℕ) (token code : Text) (w w' : World s.Sessions) : Type 0 where
    pub u : User
    pub found : find (has_id user_id) w.db.users ≡ some u
    pub cred : Credential
    pub enrolled : find (of_user user_id) w.db.credentials ≡ some cred
    pub verified : Credential
    pub after : World s.Sessions
    pub checked : IsVerified s u.email cred code (next_event (next_event w)) verified after
    pub deletion : carry_out_deletion s s.deletion user_id token after ≡ (ok tt, w')

  -- DeleteAccount ends well only for a stored user with a stored credential for which verifyOTP, run
  -- on what the two reads before it have left, has accepted the code; and only where carrying out the
  -- deletion from the state that verifyOTP left, with the code used up in it, ends well.
  pub delete_account-IsAuthorised :
      (user_id : ℕ) (token code : Text) (w w' : World s.Sessions)
      → delete_account s user_id token code w ≡ (ok tt, w')
      → IsAuthorised user_id token code w w'
  unfolding delete_account
  delete_account-IsAuthorised user_id token code w w' e =
      Ensures-ok {Q = λ _ v. IsAuthorised user_id token code w v}
        (Ensures-bind _ _ (get_by_id-Ensures s.env w user_id) λ u w1 e1.
          Ensures-bind _ _ (Ensures-replacing _ _ _ (get_credential-Ensures s.env w1 user_id))
            λ cred w2 e2.
              Ensures-bind _ _ (verify_otp-Ensures s u.email cred code w2) λ verified w3 e3.
                Ensures-mono (Ensures-run (carry_out_deletion s s.deletion user_id token) w3)
                  λ _ v ran. record {
                    u = u;
                    found = e1.0;
                    cred = cred;
                    enrolled = ground arith;
                    verified = verified;
                    after = w3;
                    checked =
                        subst (λ x. IsVerified s u.email cred code x verified w3)
                          (e2.1 ∙ ap (λ (x : World s.Sessions). with_db x x.db) e1.1) e3;
                    deletion = ran;
                  })
        tt w' e

  -- media-service has vouched for the avatar, if one is set.
  abbrev pub IsVouched : ℕ → Text → Option ℕ → Type 0
  IsVouched n token none = Unit
  IsVouched n token (some id) = s.verify_ownership n token (id ∷ []) ≡ ok tt

  -- The number of the event after that.
  abbrev pub after_check : ℕ → Option ℕ → ℕ
  after_check n none = n
  after_check n (some id) = n + 1

  -- media-service has deleted the medium, if there is one to delete.
  abbrev pub IsRemoved : ℕ → Text → Option ℕ → Type 0
  IsRemoved n token none = Unit
  IsRemoved n token (some id) = s.delete_media_by_ids n token (id ∷ []) ≡ ok tt

  -- The calls after the medium has been deleted, if one is.
  abbrev pub deletions : Text → Option ℕ → List Call → List Call
  deletions token none calls = calls
  deletions token (some id) calls = delete_media token (id ∷ []) ∷ calls

  check_avatar-Ensures :
      (token : Text) (media : Option ℕ) (w : World s.Sessions)
      → Ensures (check_avatar s token media) w (λ _ v.
        IsVouched w.event token media
        × (v.event ≡ after_check w.event media)
        × (v.db ≡ w.db)
        × (v.calls ≡ w.calls))
  unfolding check_avatar
  check_avatar-Ensures token none w = Ensures-pure tt (tt, refl, refl, refl)
  check_avatar-Ensures token (some id) w =
      Ensures-mono (Ensures-answer _)
        λ _ v e. (e.0, ground (arith, e.1), ground (arith, e.1), ground (arith, e.1))

  delete_old_avatar-Ensures :
      (token : Text) (media : Option ℕ) (w : World s.Sessions)
      → Ensures (delete_old_avatar s token media) w (λ _ v.
        IsRemoved w.event token media × (v.db ≡ w.db) × (v.calls ≡ deletions token media w.calls))
  unfolding delete_old_avatar
  delete_old_avatar-Ensures token none w = Ensures-pure tt (tt, refl, refl)
  delete_old_avatar-Ensures token (some id) w = Ensures-requested _ _ λ _ e. (e, refl, refl)

  -- UpdateProfile ends well only for a stored user, and for a new avatar that media-service has
  -- vouched for. Then the names are stored for that user and for nobody else, with the avatar of the
  -- request, or the user's own where the request leaves it alone. A medium has been deleted, and
  -- media-service has answered that call well, exactly if it was the user's avatar and is not the one
  -- that is stored; no other call has gone out.
  pub update_profile_sound :
      (user_id : ℕ) (token : Text) (input : UpdateProfileInput) (w w' : World s.Sessions)
      (u' : User)
      → update_profile s user_id token input w ≡ (ok u', w')
      → (u : User) × (now : ℕ) × (stored removed : Option ℕ) × (find (has_id user_id) w.db.users
          ≡ some u)
        × IsVouched (w.event + 1) token (wanted_avatar input.avatar)
        × (w'.db.users
            ≡ update_where
                (has_id u.id)
                (λ x. record x {
                  first_name = input.first_name;
                  last_name = input.last_name;
                  avatar_media_id = stored;
                  updated_at = now;
                })
                w.db.users)
        × IsStored u.avatar_media_id input.avatar stored
        × ((m : ℕ) → removed ≡ some m → (u.avatar_media_id ≡ some m) × (stored ≢ some m))
        × ((m : ℕ) → u.avatar_media_id ≡ some m → stored ≢ some m → removed ≡ some m)
        × (w'.calls ≡ deletions token removed w.calls)
        × IsRemoved (after_check (w.event + 1) (wanted_avatar input.avatar)) token removed
  unfolding update_profile with_profile
  update_profile_sound user_id token input w w' u' e =
      let h =
        Ensures-ok
          {Q = λ _ v.
            (u : User) × (now : ℕ) × (find (has_id user_id) w.db.users ≡ some u)
            × IsVouched (w.event + 1) token (wanted_avatar input.avatar)
            × (v.db.users
                ≡ update_where (has_id u.id)
                    (λ x. record x {
                      first_name = input.first_name;
                      last_name = input.last_name;
                      avatar_media_id = new_avatar u.avatar_media_id input.avatar;
                      updated_at = now;
                    })
                    w.db.users)
            × (v.calls ≡ deletions token (old_avatar u.avatar_media_id input.avatar) w.calls)
            × IsRemoved (after_check (w.event + 1) (wanted_avatar input.avatar)) token
                (old_avatar u.avatar_media_id input.avatar)}
          (Ensures-bind _ _ (get_by_id-Ensures s.env w user_id) λ u w1 e1.
            Ensures-bind _ _ (check_avatar-Ensures token _ w1) λ _ w2 e2.
              Ensures-bind _ _ (delete_old_avatar-Ensures token _ w2) λ _ w3 e3.
                Ensures-bind _ _ (Ensures-now_utc s.env) λ now w4 e4.
                  Ensures-bind _ _ (update_user-Ensures s.env w4 _) λ _ w5 e5.
                    let event : w1.event ≡ w.event + 1 = ground arith in
                    let next : w2.event ≡ after_check (w.event + 1) (wanted_avatar input.avatar) =
                      e2.1 ∙ ap (λ n. after_check n (wanted_avatar input.avatar)) event in
                    Ensures-pure _ (
                      u,
                      now,
                      e1.0,
                      subst (λ n. IsVouched n token (wanted_avatar input.avatar)) event e2.0,
                      ground arith,
                      ground arith,
                      subst (λ n. IsRemoved n token (old_avatar u.avatar_media_id input.avatar))
                          next e3.0,
                    ))
          u' w' e in
      let current = h.0.avatar_media_id in
      (
        h.0,
        h.1,
        new_avatar current input.avatar,
        old_avatar current input.avatar,
        h.2,
        h.3,
        h.4,
        new_avatar-IsStored current input.avatar,
        λ m. old_avatar-only current input.avatar m,
        λ m. old_avatar-all current input.avatar m,
        h.5,
        h.6,
      )
