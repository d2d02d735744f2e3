-- ===== src/Lifecycle/Doomed/Accounts.antt =====
-- The operations of Service on passwords, profiles and accounts bring no account back that is being
-- deleted.
use beebase_auth_service.Prelude.{ℕ, Option, none, some, Text}
use beebase_auth_service.World.Keeps.{Keeps, keeps_rules}
use beebase_auth_service.Domain.PasswordReset.{PasswordResetFlow}
use beebase_auth_service.Auth.Ports.{
  Service, ChangePasswordInput, UpdateProfileInput, DeletionPort, absent, request_only,
  request_and_cleanup,
}
use beebase_auth_service.Auth.Verify
use beebase_auth_service.Auth.Reset
use beebase_auth_service.Auth.Account
use beebase_auth_service.Lifecycle.Sessions.{cleanup_of-Keeps}
use beebase_auth_service.Lifecycle.Doomed.{
  IsDoomedIn, revoke_all-IsDoomed, update_user-IsDoomed, update_password-IsDoomed,
  delete_user-IsDoomed,
}
use beebase_auth_service.Lifecycle.Doomed.Requested.{request_deletion-IsDoomed}
use beebase_auth_service.Lifecycle.Doomed.Operations.{
  get_by_id-IsDoomed, get_credential-IsDoomed, verify_otp-IsDoomed, get_flow-IsDoomed,
  update_flow-IsDoomed,
}

module _ (s : Service) (k : ℕ) where
  replace_password-IsDoomed :
      (id : ℕ) (new_password : Text)
      → Keeps (IsDoomedIn k) (Verify.replace_password s id new_password)
  unfolding Verify.replace_password
  replace_password-IsDoomed id new_password =
      search (keeps_rules, update_password-IsDoomed, revoke_all-IsDoomed, cleanup_of-Keeps) depth 15

  pub change_password-IsDoomed :
      (id : ℕ) (input : ChangePasswordInput)
      → Keeps (IsDoomedIn k) (Verify.change_password s id input)
  unfolding Verify.change_password
  change_password-IsDoomed id input =
      search
        (
          keeps_rules, get_by_id-IsDoomed, get_credential-IsDoomed, verify_otp-IsDoomed,
          replace_password-IsDoomed,
        )
        depth 15

  reset_password-IsDoomed :
      (flow : PasswordResetFlow) (id : ℕ) (new_password : Text)
      → Keeps (IsDoomedIn k) (Reset.reset_password s flow id new_password)
  unfolding Reset.reset_password
  reset_password-IsDoomed flow id new_password =
      search
        (
          keeps_rules, update_password-IsDoomed, update_flow-IsDoomed, revoke_all-IsDoomed,
          cleanup_of-Keeps,
        )
        depth 20

  reset_for-IsDoomed :
      (flow : PasswordResetFlow) (new_password : Text) (id : Option ℕ)
      → Keeps (IsDoomedIn k) (Reset.reset_for s flow new_password id)
  unfolding Reset.reset_for
  reset_for-IsDoomed flow new_password none = search keeps_rules
  reset_for-IsDoomed flow new_password (some id) = reset_password-IsDoomed flow id new_password

  pub confirm_password_reset-IsDoomed :
      (reset_token new_password : Text)
      → Keeps (IsDoomedIn k) (Reset.confirm_password_reset s reset_token new_password)
  unfolding Reset.confirm_password_reset
  confirm_password_reset-IsDoomed reset_token new_password =
      search (keeps_rules, get_flow-IsDoomed, reset_for-IsDoomed) depth 12

  check_avatar-IsDoomed :
      (access_token : Text) (id : Option ℕ)
      → Keeps (IsDoomedIn k) (Account.check_avatar s access_token id)
  unfolding Account.check_avatar
  check_avatar-IsDoomed access_token none = search keeps_rules
  check_avatar-IsDoomed access_token (some id) = search keeps_rules

  delete_old_avatar-IsDoomed :
      (access_token : Text) (id : Option ℕ)
      → Keeps (IsDoomedIn k) (Account.delete_old_avatar s access_token id)
  unfolding Account.delete_old_avatar
  delete_old_avatar-IsDoomed access_token none = search keeps_rules
  delete_old_avatar-IsDoomed access_token (some id) = search keeps_rules

  pub update_profile-IsDoomed :
      (id : ℕ) (access_token : Text) (input : UpdateProfileInput)
      → Keeps (IsDoomedIn k) (Account.update_profile s id access_token input)
  unfolding Account.update_profile
  update_profile-IsDoomed id access_token input =
      search
        (
          keeps_rules, get_by_id-IsDoomed, check_avatar-IsDoomed, delete_old_avatar-IsDoomed,
          update_user-IsDoomed,
        )
        depth 15

  carry_out-IsDoomed :
      (port : DeletionPort) (id : ℕ) (access_token : Text)
      → Keeps (IsDoomedIn k) (Account.carry_out_deletion s port id access_token)
  unfolding Account.request_account_deletion Account.delete_account_now
  carry_out-IsDoomed absent id access_token = search (keeps_rules, delete_user-IsDoomed) depth 12
  carry_out-IsDoomed request_only id access_token =
      search (keeps_rules, request_deletion-IsDoomed, revoke_all-IsDoomed) depth 9
  carry_out-IsDoomed request_and_cleanup id access_token =
      search (keeps_rules, request_deletion-IsDoomed, revoke_all-IsDoomed) depth 9

  pub delete_account-IsDoomed :
      (id : ℕ) (access_token otp : Text)
      → Keeps (IsDoomedIn k) (Account.delete_account s id access_token otp)
  unfolding Account.delete_account
  delete_account-IsDoomed id access_token otp =
      search
        (
          keeps_rules, get_by_id-IsDoomed, get_credential-IsDoomed, verify_otp-IsDoomed,
          carry_out-IsDoomed,
        )
        depth 15
