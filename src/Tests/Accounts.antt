-- ===== src/Tests/Accounts.antt =====
-- Witnesses of the theorems on logins and accounts.
use beebase_auth_service.Prelude.{exists, [], ◌∷◌, [], ◌≡◌, refl, true, some, codes, find}
use beebase_auth_service.Errors.{email_taken, sentinel, invalid_credentials}
use beebase_auth_service.World.{World, ok, err, next_event}
use beebase_auth_service.Domain.User.{User}
use beebase_auth_service.Repository.Users.{has_email}
use beebase_auth_service.Auth.Ports.{RegisterInput, LoginInput, UpdateProfileInput, normalize_email}
use beebase_auth_service.Auth.Setup.{register}
use beebase_auth_service.Auth.Setup.Registration.{register-email_taken}
use beebase_auth_service.Auth.Login.{login}
use beebase_auth_service.Auth.Login.Refusal.{
  is_refused, login-no_enumeration, login-opens_no_session,
}
use beebase_auth_service.Auth.Account.{delete_account, update_profile}
use beebase_auth_service.Auth.Account.Authorised.{
  IsAuthorised, delete_account-IsAuthorised, IsStored, update_profile_sound,
}
use beebase_auth_service.Tests.{value, service, begin, Store, bee, evaluation}

abbrev right : LoginInput
right = record { email = bee.email; password = codes "pollen" }

abbrev stranger : LoginInput
stranger = record { email = codes "wasp"; password = codes "pollen" }

unknown :
    is_refused service stranger
      (find (has_email (normalize_email service stranger.email)) begin.db.users)
    ≡ true
unfolding evaluation
unknown = refl

login-no_enumeration_example :
    login service stranger begin ≡ (err (sentinel invalid_credentials), next_event begin)
login-no_enumeration_example = login-no_enumeration service stranger begin refl unknown

login-opens_no_session_example :
    ((login service right begin).1.db.users ≡ begin.db.users)
    × ((login service right begin).1.db.refresh_tokens ≡ begin.db.refresh_tokens)
login-opens_no_session_example = login-opens_no_session service right begin

abbrev deleted : World Store
deleted = (delete_account service 1 (codes "t") (3 ∷ []) begin).1

delete_run : delete_account service 1 (codes "t") (3 ∷ []) begin ≡ (ok tt, deleted)
unfolding evaluation
delete_run = refl

delete_account-IsAuthorised_example : IsAuthorised service 1 (codes "t") (3 ∷ []) begin deleted
delete_account-IsAuthorised_example =
    delete_account-IsAuthorised service 1 (codes "t") (3 ∷ []) begin deleted delete_run

abbrev profile : UpdateProfileInput
profile = record {
  first_name = codes "Bea";
  last_name = [];
  avatar = some (record { media_id = some 41 });
}

abbrev renamed : World Store
renamed = (update_profile service 1 (codes "t") profile begin).1

abbrev renamed_user : User
renamed_user = value bee (update_profile service 1 (codes "t") profile begin).0

rename_run : update_profile service 1 (codes "t") profile begin ≡ (ok renamed_user, renamed)
unfolding evaluation
rename_run = refl

update_profile_sound_example :
    IsStored
      (update_profile_sound service 1
        (codes "t")
        profile
        begin
        renamed
        renamed_user
        rename_run).0.avatar_media_id
      profile.avatar
      (update_profile_sound service 1 (codes "t") profile begin renamed renamed_user rename_run).2
update_profile_sound_example =
    (update_profile_sound service 1 (codes "t") profile begin renamed renamed_user rename_run).7

abbrev again : RegisterInput
again = record { email = codes " bee@hive.org"; password = codes "nectar" }

taken : exists (has_email (normalize_email service again.email)) begin.db.users ≡ true
unfolding evaluation
taken = refl

register-email_taken_example :
    ((register service again begin).0 ≡ err (sentinel email_taken))
    × ((register service again begin).1.db ≡ begin.db)
register-email_taken_example =
    register-email_taken service again begin (codes "nectar") refl refl taken
