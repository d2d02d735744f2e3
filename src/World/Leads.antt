-- ===== src/World/Leads.antt =====
-- What an action makes of a property of the database: one property where it ends well, and another
-- where it fails.
use beebase_auth_service.Prelude.{
  ℕ, ◌≡◌, refl, Bool, true, false, String, inl, inr, Bool-cases, if◌then◌else◌,
}
use beebase_auth_service.Errors.{Error, Sentinel}
use beebase_auth_service.World.{
  Result, ok, err, Db, World, Env, App, pure, raise, wrapping, replacing, on_any_error, query,
  continue, wrap_error, replace_error, any_error_to, ◌>>=◌,
}
use beebase_auth_service.World.Keeps.{Keeps}

abbrev pub After : {A : Type 0} → (A → Db → Type 0) → (Db → Type 0) → Result A → Db → Type 0
After Q R (ok a) d = Q a d
After Q R (err e) d = R d

pub record Leads {S A : Type 0} (P : Db → Type 0) (Q : A → Db → Type 0) (R : Db → Type 0)
    (m : App S A) : Type 0 where
  pub at : (w : World S) → P w.db → After Q R (m w).0 (m w).1.db

module _ {A : Type 0} (Q : A → Db → Type 0) (R : Db → Type 0) where
  After-wrap :
      (site : String) (r : Result A) (d : Db) → After Q R r d → After Q R (wrap_error site r) d
  After-wrap site (ok a) d h = h
  After-wrap site (err e) d h = h

  After-replace :
      (target : Sentinel) (e : Error) (r : Result A) (d : Db)
      → After Q R r d
      → After Q R (replace_error target e r) d
  After-replace target e (ok a) d h = h
  After-replace target e (err x) d h = h

  After-any : (e : Error) (r : Result A) (d : Db) → After Q R r d → After Q R (any_error_to e r) d
  After-any e (ok a) d h = h
  After-any e (err x) d h = h

After-kept :
    {A : Type 0} (P R : Db → Type 0)
    → ((d : Db) → P d → R d)
    → (r : Result A) (d : Db) → P d
    → After (λ _. P) R r d
After-kept P R f (ok a) d h = h
After-kept P R f (err e) d h = f d h

After-both : {A : Type 0} (P : Db → Type 0) (r : Result A) (d : Db) → After (λ _. P) P r d → P d
After-both P (ok a) d h = h
After-both P (err e) d h = h

pub Leads-kept :
    {S A : Type 0} {P R : Db → Type 0} (m : App S A)
    → ((d : Db) → P d → R d)
    → Keeps P m
    → Leads P (λ _. P) R m
Leads-kept {P = P} {R = R} m f k = record {
  at = λ w h. After-kept P R f (m w).0 (m w).1.db (k.at w h);
}

pub Leads-Keeps : {S A : Type 0} {P : Db → Type 0} (m : App S A) → Leads P (λ _. P) P m → Keeps P m
Leads-Keeps {P = P} m l = record { at = λ w h. After-both P (m w).0 (m w).1.db (l.at w h) }

module _ {S A : Type 0} {P : Db → Type 0} {Q : A → Db → Type 0} {R : Db → Type 0} where
  pub Leads-pure : (a : A) → ((d : Db) → P d → Q a d) → Leads {S = S} P Q R (pure a)
  unfolding pure
  Leads-pure a f = record { at = λ w h. f w.db h }

  pub Leads-raise : (e : Error) → ((d : Db) → P d → R d) → Leads {S = S} P Q R (raise e)
  unfolding raise
  Leads-raise e f = record { at = λ w h. f w.db h }

  pub Leads-wrapping : (site : String) (m : App S A) → Leads P Q R m → Leads P Q R (wrapping site m)
  unfolding wrapping
  Leads-wrapping site m l = record { at = λ w h. After-wrap Q R site (m w).0 (m w).1.db (l.at w h) }

  pub Leads-replacing :
      (target : Sentinel) (e : Error) (m : App S A)
      → Leads P Q R m
      → Leads P Q R (replacing target e m)
  unfolding replacing
  Leads-replacing target e m l = record {
    at = λ w h. After-replace Q R target e (m w).0 (m w).1.db (l.at w h);
  }

  pub Leads-on_any_error :
      (e : Error) (m : App S A) → Leads P Q R m → Leads P Q R (on_any_error e m)
  unfolding on_any_error
  Leads-on_any_error e m l = record { at = λ w h. After-any Q R e (m w).0 (m w).1.db (l.at w h) }

  pub Leads-query :
      (env : Env) (site : String) (f : ℕ → Db → Result A × Db)
      → ((d : Db) → P d → R d)
      → ((now : ℕ) (d : Db) → P d → After Q R (f now d).0 (f now d).1)
      → Leads {S = S} P Q R (query env site f)
  unfolding query
  Leads-query env site f g k = record {
    at = λ w h. elim (Bool-cases (env.fault w.event)) [
      | inl bad ↦ rw bad (g w.db h)
      | inr fine ↦ rw fine (k (env.now w.event) w.db h)
    ];
  }

  pub Leads-if :
      (b : Bool) (m n : App S A)
      → (b ≡ true → Leads P Q R m)
      → (b ≡ false → Leads P Q R n)
      → Leads P Q R (if b then m else n)
  Leads-if true m n lm ln = lm refl
  Leads-if false m n lm ln = ln refl

  pub Leads-from :
      {P' : Db → Type 0} (m : App S A) → ((d : Db) → P' d → P d) → Leads P Q R m → Leads P' Q R m
  Leads-from m f l = record { at = λ w h. l.at w (f w.db h) }

module _ {S A B : Type 0} (Q : A → Db → Type 0) (R : Db → Type 0) (T : B → Db → Type 0) where
  Leads-continue :
      (r : Result A) (f : A → App S B) (w : World S)
      → ((a : A) → Leads (Q a) T R (f a))
      → After Q R r w.db
      → After T R (continue r f w).0 (continue r f w).1.db
  Leads-continue (ok a) f w lf h = (lf a).at w h
  Leads-continue (err e) f w lf h = h

module _ {S A B : Type 0} {P : Db → Type 0} {Q : A → Db → Type 0} {R : Db → Type 0}
    {T : B → Db → Type 0} where
  pub Leads-bind :
      (m : App S A) (f : A → App S B)
      → Leads P Q R m
      → ((a : A) → Leads (Q a) T R (f a))
      → Leads P T R (m >>= f)
  unfolding ◌>>=◌
  Leads-bind m f lm lf = record {
    at = λ w h. Leads-continue Q R T (m w).0 f (m w).1 lf (lm.at w h);
  }
