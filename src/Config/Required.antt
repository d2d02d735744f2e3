-- ===== src/Config/Required.antt =====
-- What Load requires of the environment.
use mathlib.Core.List.{Permᴰ}
use mathlib.Core.Path.{subst}
use mathlib.Core.List.Permᴰ
use beebase_auth_service.Prelude.{
  ◌≡◌, refl, Bool, true, false, not, Option, none, some, List, [], ◌∷◌, All, Text, codes, text_eq,
  is_empty, is_some, exists, Bool-cases, inl, inr,
}
use beebase_auth_service.Config.{
  Platform, Loaded, missing, loaded, non_empty, or_else, require, require_all, read, loop_entries,
  check, load,
}

abbrev pub required_names : List Text
required_names =
    codes "DATABASE_URL"
    ∷ codes "REDIS_ADDR"
    ∷ codes "JWT_PRIVATE_KEY"
    ∷ codes "MEDIA_SERVICE_URL"
    ∷ codes "APIARY_SERVICE_URL"
    ∷ codes "HIVE_SERVICE_URL"
    ∷ codes "INSPECTION_SERVICE_URL"
    ∷ codes "HARVEST_SERVICE_URL"
    ∷ codes "NOTIFICATION_SERVICE_URL"
    ∷ codes "SUBSCRIPTION_SERVICE_URL"
    ∷ codes "INTERNAL_SERVICE_TOKEN"
    ∷ codes "TOTP_ENCRYPTION_KEY"
    ∷ []

abbrev pub is_set : Platform → Text → Bool
is_set p name = is_some (non_empty (p.lookup_env name))

-- A configuration stands for a complete environment; an error names a variable that is wanted.
abbrev pub IsReport : Platform → Loaded → Type 0
IsReport p (loaded cfg) = (cfg ≡ read p tt) × All (λ name. is_set p name ≡ true) required_names
IsReport p (missing name) = (is_set p name ≡ false) × (exists (text_eq name) required_names ≡ true)

All-Permᴰ : {A : Type 0} (P : A → Type 0) {xs ys : List A} → Permᴰ xs ys → All P xs → All P ys
All-Permᴰ P Permᴰ.nil h = tt
All-Permᴰ P (Permᴰ.cons e d) (h, hs) = (subst P e h, All-Permᴰ P d hs)
All-Permᴰ P (Permᴰ.swap e f) (h, (k, hs)) = (subst P f k, (subst P e h, hs))
All-Permᴰ P (Permᴰ.trans c d) hs = All-Permᴰ P d (All-Permᴰ P c hs)

empty_unset : (o : Option Text) → is_empty (or_else (non_empty o) []) ≡ not (is_some (non_empty o))
empty_unset none = refl
empty_unset (some []) = refl
empty_unset (some (c ∷ v)) = refl

module _ (p : Platform) where
  -- An entry of a variable that is wanted, with its value.
  abbrev IsEntry : Text × Text → Type 0
  IsEntry (name, value) =
      (is_empty value ≡ not (is_set p name)) × (exists (text_eq name) required_names ≡ true)

  require-IsReport :
      (name value : Text) (rest : Loaded)
      → IsEntry (name, value)
      → (is_set p name ≡ true → IsReport p rest)
      → IsReport p (require name value rest)
  require-IsReport name value rest (same, wanted) h = elim (Bool-cases (is_set p name)) [
    | inl set ↦ rw (same, set) (h set)
    | inr unset ↦ rw (same, unset) (unset, wanted)
  ]

  require_all-IsReport :
      (entries : List (Text × Text)) (rest : Loaded)
      → All IsEntry entries
      → (All (λ e. is_set p e.0 ≡ true) entries → IsReport p rest)
      → IsReport p (require_all entries rest)
  require_all-IsReport [] rest h k = k tt
  require_all-IsReport ((name, value) ∷ entries) rest (h, hs) k =
      require-IsReport name value (require_all entries rest) h
        λ set. require_all-IsReport entries rest hs λ others. k (set, others)

  entry :
      (name : Text)
      → exists (text_eq name) required_names ≡ true
      → IsEntry (name, or_else (non_empty (p.lookup_env name)) [])
  entry name wanted = (empty_unset (p.lookup_env name), wanted)

  loop-IsEntry : All IsEntry (loop_entries (read p tt))
  unfolding read exists text_eq
  loop-IsEntry = (
    entry (codes "HIVE_SERVICE_URL") refl,
    (
      entry (codes "INSPECTION_SERVICE_URL") refl,
      (
        entry (codes "HARVEST_SERVICE_URL") refl,
        (
          entry (codes "NOTIFICATION_SERVICE_URL") refl,
          (
            entry (codes "SUBSCRIPTION_SERVICE_URL") refl,
            (entry (codes "INTERNAL_SERVICE_TOKEN") refl, tt),
          ),
        ),
      ),
    ),
  )

  -- Whatever the order in which the loop visits its map, Load ends well only where all of the twelve
  -- required variables are set, and fails only with the name of one that is not.
  pub load-IsReport :
      ((entries : List (Text × Text)) → Permᴰ (p.visit entries) entries) → IsReport p (load p tt)
  unfolding load check read exists text_eq
  load-IsReport order = require-IsReport _ _ _ (entry (codes "DATABASE_URL") refl) λ database.
      require-IsReport _ _ _ (entry (codes "REDIS_ADDR") refl) λ redis.
        require-IsReport _ _ _ (entry (codes "JWT_PRIVATE_KEY") refl) λ key.
          require-IsReport _ _ _ (entry (codes "MEDIA_SERVICE_URL") refl) λ media.
            require-IsReport _ _ _ (entry (codes "APIARY_SERVICE_URL") refl) λ apiary.
              require_all-IsReport (p.visit (loop_entries (read p tt))) _
                (All-Permᴰ IsEntry (Permᴰ.symm (order _)) loop-IsEntry)
                λ others.
                  let (hive, (inspection, (harvest, (notification, (subscription, (token, _)))))) =
                    All-Permᴰ (λ (e : Text × Text). is_set p e.0 ≡ true) (order _) others in
                  require-IsReport _ _ _ (entry (codes "TOTP_ENCRYPTION_KEY") refl) λ totp. (
                    refl,
                    (
                      database,
                      (
                        redis,
                        (
                          key,
                          (
                            media,
                            (
                              apiary,
                              (
                                hive,
                                (
                                  inspection,
                                  (harvest, (notification, (subscription, (token, (totp, tt))))),
                                ),
                              ),
                            ),
                          ),
                        ),
                      ),
                    ),
                  )
