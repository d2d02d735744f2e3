-- ===== src/Auth/Account.antt =====
-- UpdateProfile and DeleteAccount of internal/application/auth/service.go.
pub mod Authorised
use beebase_auth_service.Prelude.{ℕ, Option, none, some, [], ◌∷◌, Text, ◌==◌, if◌then◌else◌}
use beebase_auth_service.Errors.{credential_not_found, otp_invalid, sentinel}
use beebase_auth_service.World.{
  App, ◌>>=◌, ◌>>◌, pure, wrapping, replacing, ask, request, on_sessions, now_utc, delete_media,
  delete_all_media, delete_all_apiaries,
}
use beebase_auth_service.Domain.User.{User, update_profile as with_profile}
use beebase_auth_service.Repository.Users
use beebase_auth_service.Repository.RefreshTokens
use beebase_auth_service.Repository.Credentials
use beebase_auth_service.Repository.Deletion.{request_deletion}
use beebase_auth_service.Auth.Ports.{
  Service, DeletionPort, absent, request_only, request_and_cleanup, AvatarChange,
  UpdateProfileInput,
}
use beebase_auth_service.Auth.Otp.{verify_otp}

-- `avatarMediaID` and `oldAvatarToDelete`.
abbrev pub new_avatar : Option ℕ → Option AvatarChange → Option ℕ
new_avatar current none = current
new_avatar current (some change) = change.media_id

abbrev pub replaced : Option ℕ → Option ℕ → Option ℕ
replaced none wanted = none
replaced (some old) none = some old
replaced (some old) (some id) = if old == id then none else some old

abbrev pub old_avatar : Option ℕ → Option AvatarChange → Option ℕ
old_avatar current none = none
old_avatar current (some change) = replaced current change.media_id

abbrev pub wanted_avatar : Option AvatarChange → Option ℕ
wanted_avatar none = none
wanted_avatar (some change) = change.media_id

module _ (s : Service) where
  unfoldable pub check_avatar : Text → Option ℕ → App s.Sessions (Unit {0})
  check_avatar access_token none = pure tt
  check_avatar access_token (some id) = ask λ n. s.verify_ownership n access_token (id ∷ [])

  unfoldable pub delete_old_avatar : Text → Option ℕ → App s.Sessions (Unit {0})
  delete_old_avatar access_token none = pure tt
  delete_old_avatar access_token (some id) =
      request (delete_media access_token (id ∷ []))
        λ n. s.delete_media_by_ids n access_token (id ∷ [])

  unfoldable pub update_profile : ℕ → Text → UpdateProfileInput → App s.Sessions User
  update_profile user_id access_token input = do
    u ← Users.get_by_id s.env user_id
    check_avatar access_token (wanted_avatar input.avatar)
    delete_old_avatar access_token (old_avatar u.avatar_media_id input.avatar)
    now ← now_utc s.env
    let u' =
        with_profile now u input.first_name input.last_name
          (new_avatar u.avatar_media_id input.avatar)
    Users.update s.env u'
    pure u'

  -- DeleteAccount with a deletion requester, after the OTP.
  unfoldable pub request_account_deletion : ℕ → App s.Sessions (Unit {0})
  request_account_deletion user_id = do
    request_deletion s.env user_id
    wrapping "auth: revoke sessions for deletion" (RefreshTokens.revoke_all_for_user s.env user_id)
    wrapping "auth: deactivate session for deletion" (on_sessions λ n x. s.deactivate n x user_id)

  -- The same without one.
  unfoldable pub delete_account_now : ℕ → Text → App s.Sessions (Unit {0})
  delete_account_now user_id access_token = do
    request (delete_all_apiaries access_token) λ n. s.delete_all_apiaries n access_token
    request (delete_all_media access_token) λ n. s.delete_all_media n access_token
    Users.delete s.env user_id
    wrapping "auth: deactivate session after account deletion"
        (on_sessions λ n x. s.deactivate n x user_id)

  abbrev pub carry_out_deletion : DeletionPort → ℕ → Text → App s.Sessions (Unit {0})
  carry_out_deletion absent user_id access_token = delete_account_now user_id access_token
  carry_out_deletion request_only user_id access_token = request_account_deletion user_id
  carry_out_deletion request_and_cleanup user_id access_token = request_account_deletion user_id

  unfoldable pub delete_account : ℕ → Text → Text → App s.Sessions (Unit {0})
  delete_account user_id access_token otp = do
    u ← Users.get_by_id s.env user_id
    cred ←
        replacing credential_not_found (sentinel otp_invalid)
          (Credentials.get_by_user_id s.env user_id)
    verified ← verify_otp s u.email cred otp
    carry_out_deletion s.deletion user_id access_token
