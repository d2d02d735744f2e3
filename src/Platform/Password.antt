-- ===== src/Platform/Password.antt =====
-- internal/platform/password/bcrypt.go, over golang.org/x/crypto/bcrypt.
use beebase_auth_service.Prelude.{ℕ, Bool, ◌||◌, Text, ltb, if◌then◌else◌}
use beebase_auth_service.World.{Result}

-- `generate` takes the event's number, the password and the cost; `compare` the hash and the
-- password.
pub record Bcrypt : Type 0 where
  pub min_cost : ℕ
  pub max_cost : ℕ
  pub default_cost : ℕ
  pub generate : ℕ → Text → ℕ → Result Text
  pub compare : Text → Text → Bool

-- The cost of `NewBcryptHasher`: a negative one is as out of range as zero.
abbrev pub hasher_cost : Bcrypt → ℕ → ℕ
hasher_cost b cost = if ltb cost b.min_cost || ltb b.max_cost cost then b.default_cost else cost

abbrev pub hash : Bcrypt → ℕ → ℕ → Text → Result Text
hash b cost n plain_password = b.generate n plain_password cost

abbrev pub verify : Bcrypt → Text → Text → Bool
verify b hashed plain_password = b.compare hashed plain_password
