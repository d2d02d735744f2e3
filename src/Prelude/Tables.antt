-- ===== src/Prelude/Tables.antt =====
-- A table of the database as a list of rows, with the statements that the program runs on one:
-- a lookup, an update and a delete of the rows that a condition selects.
use mathlib.Core.Path.{◌≡◌, refl, subst}
use mathlib.Core.Logic.{inl, inr}
use mathlib.Core.Bool.{Bool, true, false, ◌||◌}
use mathlib.Core.Option.{Option, none, some}
use mathlib.Core.List.{List, [], ◌∷◌}
use native.Mathlib.Omega.{arith}
use beebase_auth_service.Prelude.Tests.{Bool-cases, if◌then◌else◌}

module _ {ℓ} {A : Type ℓ} where
  -- The first row that is selected.
  unfoldable pub find : (A → Bool) → List A → Option A
  find p [] = none
  find p (x ∷ xs) = if p x then some x else find p xs

  -- Some row is selected.
  unfoldable pub exists : (A → Bool) → List A → Bool
  exists p [] = false
  exists p (x ∷ xs) = p x || exists p xs

  -- Every row that is selected is rewritten.
  unfoldable pub update_where : (A → Bool) → (A → A) → List A → List A
  update_where p f [] = []
  update_where p f (x ∷ xs) = (if p x then f x else x) ∷ update_where p f xs

  unfoldable pub remove_where : (A → Bool) → List A → List A
  remove_where p [] = []
  remove_where p (x ∷ xs) = let rest = remove_where p xs in if p x then rest else x ∷ rest

  -- A statement about every row.
  abbrev pub All {κ} : (A → Type κ) → List A → Type κ
  All P [] = Unit
  All P (x ∷ xs) = P x × All P xs

  pub All-mono {κ} :
      (P Q : A → Type κ) → ((x : A) → P x → Q x) → (xs : List A) → All P xs → All Q xs
  All-mono P Q f [] h = tt
  All-mono P Q f (x ∷ xs) (p, h) = (f x p, All-mono P Q f xs h)

  -- What is found is selected, and what holds of every row holds of it.
  pub find-selected : (p : A → Bool) (xs : List A) {x : A} → find p xs ≡ some x → p x ≡ true
  unfolding find
  find-selected p [] h = cc
  find-selected p (y ∷ xs) {x} h = ground (arith, find-selected p xs {x = x})

  pub All-find {κ} :
      (P : A → Type κ) (p : A → Bool) (xs : List A) {x : A} → All P xs → find p xs ≡ some x → P x
  unfolding find
  All-find P p [] h e = cc
  All-find P p (y ∷ xs) {x} (hy, h) e = elim (Bool-cases (p y)) [
    | inl sel ↦ let same : y ≡ x = ground arith in subst P same hy
    | inr unsel ↦ All-find P p xs {x = x} h (rw unsel at e)
  ]

  pub exists-find : (p : A → Bool) (xs : List A) → find p xs ≡ none → exists p xs ≡ false
  unfolding find exists
  exists-find p [] h = refl
  exists-find p (x ∷ xs) h = ground (arith, exists-find p xs)

  pub find-exists : (p : A → Bool) (xs : List A) {x : A} → find p xs ≡ some x → exists p xs ≡ true
  unfolding find exists
  find-exists p [] h = cc
  find-exists p (y ∷ xs) {x} h = ground (arith, find-exists p xs {x = x})

  pub find-update_where :
      (p q : A → Bool) (f : A → A) (xs : List A) {x : A}
      → ((y : A) → p (f y) ≡ p y)
      → find p xs ≡ some x
      → find p (update_where q f xs) ≡ some (if q x then f x else x)
  unfolding find update_where
  find-update_where p q f [] k h = cc
  find-update_where p q f (y ∷ xs) {x} k h =
      ground (arith, k y, find-update_where p q f xs {x = x} k)

  pub exists-found :
      (p q : A → Bool) (xs : List A) {x : A} → find p xs ≡ some x → q x ≡ true → exists q xs ≡ true
  unfolding find exists
  exists-found p q [] h e = cc
  exists-found p q (y ∷ xs) {x} h e = ground (arith, exists-found p q xs {x = x})

  -- Where every updated row is selected and satisfies `D`, so does the row that is then found.
  pub find-updated :
      (p q : A → Bool) (f : A → A) (D : A → Type 0) (xs : List A) {x : A}
      → ((y : A) → q y ≡ true → (p (f y) ≡ true) × D (f y))
      → find p xs ≡ some x
      → q x ≡ true
      → (z : A) × (find p (update_where q f xs) ≡ some z) × D z
  unfolding find update_where
  find-updated p q f D [] k h e = cc
  find-updated p q f D (y ∷ xs) {x} k h e = elim (Bool-cases (q y)) [
    | inl hit ↦ let (sel, good) = k y hit in (f y, rw hit (rw sel refl), good)
    | inr miss ↦ elim (Bool-cases (p y)) [
      | inl sel ↦ absurd (ground (arith, e, miss, sel, h))
      | inr unsel ↦
          let (z, found, good) = find-updated p q f D xs {x = x} k (rw unsel at h) e in
          (z, rw miss (rw unsel found), good)
    ]
  ]

  pub update_where-none :
      (p : A → Bool) (f : A → A) (xs : List A) → exists p xs ≡ false → update_where p f xs ≡ xs
  unfolding exists update_where
  update_where-none p f [] h = refl
  update_where-none p f (x ∷ xs) h = ground (arith, update_where-none p f xs)

  pub exists-tail :
      (p : A → Bool) (x : A) (xs : List A) → exists p xs ≡ true → exists p (x ∷ xs) ≡ true
  unfolding exists
  exists-tail p x xs h = ground arith

  pub exists-head : (p : A → Bool) (x : A) (xs : List A) → p x ≡ true → exists p (x ∷ xs) ≡ true
  unfolding exists
  exists-head p x xs h = ground arith

  pub exists-removed : (p : A → Bool) (xs : List A) → exists p (remove_where p xs) ≡ false
  unfolding exists remove_where
  exists-removed p [] = refl
  exists-removed p (x ∷ xs) = ground (arith, exists-removed p xs)

  pub exists-update_where :
      (p q : A → Bool) (f : A → A) (xs : List A)
      → ((x : A) → p (f x) ≡ p x)
      → exists p (update_where q f xs) ≡ exists p xs
  unfolding exists update_where
  exists-update_where p q f [] same = refl
  exists-update_where p q f (x ∷ xs) same =
      ground (arith, same x, exists-update_where p q f xs same)

  pub All-update_where {κ} :
      (P : A → Type κ) (q : A → Bool) (f : A → A) (xs : List A)
      → ((x : A) → P x → P (f x))
      → All P xs
      → All P (update_where q f xs)
  unfolding update_where
  All-update_where P q f [] k h = tt
  All-update_where P q f (x ∷ xs) k (h, hs) = elim (Bool-cases (q x)) [
    | inl hit ↦ rw hit (k x h, All-update_where P q f xs k hs)
    | inr miss ↦ rw miss (h, All-update_where P q f xs k hs)
  ]
