-- ===== src/Lifecycle/Accounts.antt =====
-- The operations of Service on passwords, profiles and accounts keep every state sound.
use beebase_auth_service.Prelude.{ℕ, Option, none, some, Text}
use beebase_auth_service.World.Keeps.{Keeps, keeps_rules}
use beebase_auth_service.Domain.Totp.{Credential}
use beebase_auth_service.Domain.PasswordReset.{PasswordResetFlow}
use beebase_auth_service.Repository.Untouched.{
  get_by_reset_hash-Keeps, update_flow-Keeps, get_by_id-Keeps, Keeps-tables,
}
use beebase_auth_service.Repository.Users
use beebase_auth_service.Repository.PasswordResetFlows
use beebase_auth_service.Auth.Ports.{
  Service, ChangePasswordInput, UpdateProfileInput, DeletionPort, absent, request_only,
  request_and_cleanup,
}
use beebase_auth_service.Auth.Otp.{verify_otp}
use beebase_auth_service.Auth.Verify
use beebase_auth_service.Auth.Reset
use beebase_auth_service.Auth.Account
use beebase_auth_service.Lifecycle.{IsSound, IsSoundIn}
use beebase_auth_service.Lifecycle.Statements.{
  revoke_all-IsSound, update_user-IsSound, update_password-IsSound, delete_user-IsSound,
}
use beebase_auth_service.Auth.Untouched.{verify_otp-Keeps}
use beebase_auth_service.Lifecycle.Operations.{get_credential-IsSound}
use beebase_auth_service.Lifecycle.Sessions.{cleanup_of-Keeps}
use beebase_auth_service.Lifecycle.Deletion.{request_deletion-IsSound}

module _ (s : Service) (k : ℕ) where
  verify_otp-IsSound :
      (email : Text) (cred : Credential) (code : Text)
      → Keeps (IsSoundIn k) (verify_otp s email cred code)
  verify_otp-IsSound email cred code =
      Keeps-tables (IsSound k) _
        λ users tokens jobs. verify_otp-Keeps s users tokens jobs email cred code

  get_by_id-IsSound : (id : ℕ) → Keeps {S = s.Sessions} (IsSoundIn k) (Users.get_by_id s.env id)
  get_by_id-IsSound id =
      Keeps-tables (IsSound k) _ λ users tokens jobs. get_by_id-Keeps s.env users tokens jobs id

  get_flow-IsSound :
      (hash : Text)
      → Keeps {S = s.Sessions} (IsSoundIn k) (PasswordResetFlows.get_by_reset_token_hash s.env hash)
  get_flow-IsSound hash =
      Keeps-tables (IsSound k) _
        λ users tokens jobs. get_by_reset_hash-Keeps s.env users tokens jobs hash

  update_flow-IsSound :
      (f : PasswordResetFlow)
      → Keeps {S = s.Sessions} (IsSoundIn k) (PasswordResetFlows.update s.env f)
  update_flow-IsSound f =
      Keeps-tables (IsSound k) _ λ users tokens jobs. update_flow-Keeps s.env users tokens jobs f

  replace_password-Keeps :
      (id : ℕ) (new_password : Text)
      → Keeps (IsSoundIn k) (Verify.replace_password s id new_password)
  unfolding Verify.replace_password
  replace_password-Keeps id new_password =
      search (keeps_rules, update_password-IsSound, revoke_all-IsSound, cleanup_of-Keeps) depth 15

  pub change_password-Keeps :
      (id : ℕ) (input : ChangePasswordInput)
      → Keeps (IsSoundIn k) (Verify.change_password s id input)
  unfolding Verify.change_password
  change_password-Keeps id input =
      search
        (
          keeps_rules, get_by_id-IsSound, get_credential-IsSound, verify_otp-IsSound,
          replace_password-Keeps,
        )
        depth 15

  reset_password-Keeps :
      (flow : PasswordResetFlow) (id : ℕ) (new_password : Text)
      → Keeps (IsSoundIn k) (Reset.reset_password s flow id new_password)
  unfolding Reset.reset_password
  reset_password-Keeps flow id new_password =
      search
        (
          keeps_rules, update_password-IsSound, update_flow-IsSound, revoke_all-IsSound,
          cleanup_of-Keeps,
        )
        depth 20

  reset_for-Keeps :
      (flow : PasswordResetFlow) (new_password : Text) (id : Option ℕ)
      → Keeps (IsSoundIn k) (Reset.reset_for s flow new_password id)
  unfolding Reset.reset_for
  reset_for-Keeps flow new_password none = search keeps_rules
  reset_for-Keeps flow new_password (some id) = reset_password-Keeps flow id new_password

  pub confirm_password_reset-Keeps :
      (reset_token new_password : Text)
      → Keeps (IsSoundIn k) (Reset.confirm_password_reset s reset_token new_password)
  unfolding Reset.confirm_password_reset
  confirm_password_reset-Keeps reset_token new_password =
      search (keeps_rules, get_flow-IsSound, reset_for-Keeps) depth 12

  check_avatar-Keeps :
      (access_token : Text) (id : Option ℕ)
      → Keeps (IsSoundIn k) (Account.check_avatar s access_token id)
  unfolding Account.check_avatar
  check_avatar-Keeps access_token none = search keeps_rules
  check_avatar-Keeps access_token (some id) = search keeps_rules

  delete_old_avatar-Keeps :
      (access_token : Text) (id : Option ℕ)
      → Keeps (IsSoundIn k) (Account.delete_old_avatar s access_token id)
  unfolding Account.delete_old_avatar
  delete_old_avatar-Keeps access_token none = search keeps_rules
  delete_old_avatar-Keeps access_token (some id) = search keeps_rules

  pub update_profile-Keeps :
      (id : ℕ) (access_token : Text) (input : UpdateProfileInput)
      → Keeps (IsSoundIn k) (Account.update_profile s id access_token input)
  unfolding Account.update_profile
  update_profile-Keeps id access_token input =
      search
        (
          keeps_rules, get_by_id-IsSound, check_avatar-Keeps, delete_old_avatar-Keeps,
          update_user-IsSound,
        )
        depth 15

  carry_out-Keeps :
      (port : DeletionPort) (id : ℕ) (access_token : Text)
      → Keeps (IsSoundIn k) (Account.carry_out_deletion s port id access_token)
  unfolding Account.request_account_deletion Account.delete_account_now
  carry_out-Keeps absent id access_token = search (keeps_rules, delete_user-IsSound) depth 12
  carry_out-Keeps request_only id access_token =
      search (keeps_rules, request_deletion-IsSound, revoke_all-IsSound) depth 9
  carry_out-Keeps request_and_cleanup id access_token =
      search (keeps_rules, request_deletion-IsSound, revoke_all-IsSound) depth 9

  pub delete_account-Keeps :
      (id : ℕ) (access_token otp : Text)
      → Keeps (IsSoundIn k) (Account.delete_account s id access_token otp)
  unfolding Account.delete_account
  delete_account-Keeps id access_token otp =
      search
        (
          keeps_rules, get_by_id-IsSound, get_credential-IsSound, verify_otp-IsSound,
          carry_out-Keeps,
        )
        depth 15
