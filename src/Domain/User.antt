-- ===== src/Domain/User.antt =====
-- internal/domain/user/user.go. A `uuid.UUID` is a number, a `time.Time` the nanoseconds since the
-- epoch, and a method that reads the clock takes the reading.
use beebase_auth_service.Prelude.{ℕ, Bool, true, false, Option, none, Text, []}

-- The CHECK of migration 000008 admits these two values of the column alone.
pub data DeletionStatus : Type 0 where
  active deletion_pending : DeletionStatus

abbrev pub is_pending : DeletionStatus → Bool
is_pending active = false
is_pending deletion_pending = true

pub record User : Type 0 where
  pub id : ℕ
  pub email : Text
  pub password_hash : Text
  pub first_name : Text
  pub last_name : Text
  pub avatar_media_id : Option ℕ
  pub created_at : ℕ
  pub updated_at : ℕ
  pub deletion_status : DeletionStatus

unfoldable pub new : ℕ → ℕ → Text → Text → User
new id now email password_hash = record {
  id = id;
  email = email;
  password_hash = password_hash;
  first_name = [];
  last_name = [];
  avatar_media_id = none;
  created_at = now;
  updated_at = now;
  deletion_status = active;
}

unfoldable pub update_profile : ℕ → User → Text → Text → Option ℕ → User
update_profile now u first_name last_name avatar_media_id = record u {
  first_name = first_name;
  last_name = last_name;
  avatar_media_id = avatar_media_id;
  updated_at = now;
}
