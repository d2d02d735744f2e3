-- ===== src/Repository/Users.antt =====
-- internal/repository/postgres/user_repository.go.
use beebase_auth_service.Prelude.{
  ℕ, Bool, false, ◌||◌, ◌&&◌, not, Option, none, some, [], ◌∷◌, Text, String, ◌==◌, text_eq, find,
  exists, update_where, remove_where, if◌then◌else◌,
}
use beebase_auth_service.Errors.{user_not_found, email_taken, sentinel}
use beebase_auth_service.Domain.User.{User, active, deletion_pending, is_pending}
use beebase_auth_service.World.{Result, ok, err, Db, Env, App, ◌>>=◌, pure, query}

abbrev pub has_id : ℕ → User → Bool
has_id id u = u.id == id

abbrev pub has_email : Text → User → Bool
has_email email u = text_eq u.email email

-- A row that the INSERT writes: the columns that it does not name take their defaults.
abbrev pub inserted : User → User
inserted u = record u {
  first_name = [];
  last_name = [];
  avatar_media_id = none;
  deletion_status = active;
}

abbrev pub scan_one : Option User → Db → Result User × Db
scan_one none d = (err (sentinel user_not_found), d)
scan_one (some u) d = (ok u, d)

-- `DELETE FROM users WHERE id = $1`, with the cascades of the four tables that refer to users.
unfoldable pub delete_cascade : ℕ → Db → Db
delete_cascade id d = record d {
  users = remove_where (has_id id) d.users;
  refresh_tokens = remove_where (λ t. t.user_id == id) d.refresh_tokens;
  credentials = remove_where (λ c. c.user_id == id) d.credentials;
  login_challenges = remove_where (λ c. c.user_id == id) d.login_challenges;
  password_reset_flows =
      remove_where (λ f. elim f.user_id [ none ↦ false | some owner ↦ owner == id ])
        d.password_reset_flows;
}

abbrev pub is_active_row : ℕ → User → Bool
is_active_row id u = has_id id u && not (is_pending u.deletion_status)

module _ {S : Type 0} (env : Env) where
  -- A unique violation, of the id or of the email, is `ErrEmailTaken`.
  unfoldable pub create : User → App S (Unit {0})
  create u = query env "postgres: create user" λ now d.
      if exists (λ x. has_id u.id x || has_email u.email x) d.users
      then (err (sentinel email_taken), d)
      else (ok tt, record d { users = inserted u ∷ d.users })

  unfoldable pub get_by_email : Text → App S User
  get_by_email email =
      query env "postgres: get user" λ now d. scan_one (find (has_email email) d.users) d

  unfoldable pub get_by_id : ℕ → App S User
  get_by_id id = query env "postgres: get user" λ now d. scan_one (find (has_id id) d.users) d

  unfoldable pub update : User → App S (Unit {0})
  update u = query env "postgres: update user" λ now d.
      if exists (has_id u.id) d.users
      then (
        ok tt,
        record d {
          users =
              update_where (has_id u.id)
                (λ x. record x {
                  first_name = u.first_name;
                  last_name = u.last_name;
                  avatar_media_id = u.avatar_media_id;
                  updated_at = u.updated_at;
                })
                d.users;
        },
      )
      else (err (sentinel user_not_found), d)

  unfoldable pub update_password : ℕ → Text → App S (Unit {0})
  update_password id password_hash = query env "postgres: update user password" λ now d.
      if exists (has_id id) d.users
      then (
        ok tt,
        record d {
          users =
              update_where (has_id id)
                (λ x. record x { password_hash = password_hash; updated_at = now }) d.users;
        },
      )
      else (err (sentinel user_not_found), d)

  unfoldable pub delete : ℕ → App S (Unit {0})
  delete id = query env "postgres: delete user" λ now d.
      if exists (has_id id) d.users
      then (ok tt, delete_cascade id d)
      else (err (sentinel user_not_found), d)

  -- The number of rows affected is only compared with zero.
  unfoldable pub mark_pending_rows : String → ℕ → App S Bool
  mark_pending_rows site id = query env site λ now d. (
    ok (exists (is_active_row id) d.users),
    record d {
      users =
          update_where (is_active_row id)
            (λ x. record x { deletion_status = deletion_pending; updated_at = now }) d.users;
    },
  )

  unfoldable pub mark_deletion_pending : ℕ → App S (Unit {0})
  mark_deletion_pending id = do
    affected ← mark_pending_rows "postgres: mark deletion pending" id
    if affected then pure tt else (get_by_id id >>= λ u. pure tt)
