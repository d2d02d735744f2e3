-- ===== src/Auth/Setup/Registration.antt =====
-- Register with an email that is taken.
use beebase_auth_service.Prelude.{
  ◌+◌, ◌≡◌, refl, Bool, true, false, ◌||◌, List, [], ◌∷◌, Text, arith, exists,
}
use beebase_auth_service.Errors.{sentinel, email_taken}
use beebase_auth_service.World.{World, ok, err, ◌>>=◌}
use beebase_auth_service.Domain.User
use beebase_auth_service.Domain.User.{User}
use beebase_auth_service.Repository.Users
use beebase_auth_service.Repository.Users.{has_id, has_email}
use beebase_auth_service.Auth.Ports.{Service, RegisterInput, normalize_email}
use beebase_auth_service.Auth.Setup.{register}

exists-either :
    {A : Type 0} (p q : A → Bool) (xs : List A)
    → exists q xs ≡ true
    → exists (λ x. p x || q x) xs ≡ true
unfolding exists
exists-either p q [] h = cc
exists-either p q (x ∷ xs) h = ground (arith, exists-either p q xs)

module _ (s : Service) where
  -- Where the hash is computed and the database answers, Register with an email that a user already
  -- has, up to case and surrounding space, ends in the error for that and leaves the database as it
  -- was.
  pub register-email_taken :
      (input : RegisterInput) (w : World s.Sessions) (hash : Text)
      → s.hash_password w.event input.password ≡ ok hash
      → s.env.fault (w.event + 1 + 1 + 1) ≡ false
      → exists (has_email (normalize_email s input.email)) w.db.users ≡ true
      → ((register s input w).0 ≡ err (sentinel email_taken)) × ((register s input w).1.db ≡ w.db)
  unfolding register Users.create User.new ◌>>=◌
  register-email_taken input w hash hashed fine taken =
      let clash =
        exists-either (has_id (s.env.uuid (w.event + 1 + 1)))
          (has_email (normalize_email s input.email)) w.db.users taken in
      simp (hashed, fine, clash) (refl, refl)
