-- ===== src/World/Keeps.antt =====
-- Actions that keep a property of the database, whatever their outcome: a rule for each way to
-- build an action.
use beebase_auth_service.Prelude.{ℕ, Bool, true, false, String, inl, inr, Bool-cases, if◌then◌else◌}
use beebase_auth_service.Errors.{Error, Sentinel}
use beebase_auth_service.World.{
  Result, ok, err, Db, World, Call, Env, App, pure, raise, lift, wrapping, replacing, optional,
  on_any_error, ignoring, ask, request, on_sessions, query, now_utc, new_uuid, start, continue,
  ◌>>=◌,
}

pub record Keeps {S A : Type 0} (P : Db → Type 0) (m : App S A) : Type 0 where
  pub at : (w : World S) → P w.db → P (m w).1.db

module _ {S A : Type 0} {P : Db → Type 0} where
  pub Keeps-pure : (a : A) → Keeps {S = S} P (pure a)
  unfolding pure
  Keeps-pure a = record { at = λ w h. h }

  pub Keeps-raise : (e : Error) → Keeps {S = S} P (raise {A = A} e)
  unfolding raise
  Keeps-raise e = record { at = λ w h. h }

  pub Keeps-lift : (r : Result A) → Keeps {S = S} P (lift r)
  unfolding lift
  Keeps-lift r = record { at = λ w h. h }

  pub Keeps-wrapping : (site : String) (m : App S A) → Keeps P m → Keeps P (wrapping site m)
  unfolding wrapping
  Keeps-wrapping site m k = record { at = k.at }

  pub Keeps-replacing :
      (target : Sentinel) (e : Error) (m : App S A) → Keeps P m → Keeps P (replacing target e m)
  unfolding replacing
  Keeps-replacing target e m k = record { at = k.at }

  pub Keeps-optional : (target : Sentinel) (m : App S A) → Keeps P m → Keeps P (optional target m)
  unfolding optional
  Keeps-optional target m k = record { at = k.at }

  pub Keeps-on_any_error : (e : Error) (m : App S A) → Keeps P m → Keeps P (on_any_error e m)
  unfolding on_any_error
  Keeps-on_any_error e m k = record { at = k.at }

  pub Keeps-ignoring : (m : App S A) → Keeps P m → Keeps P (ignoring m)
  unfolding ignoring
  Keeps-ignoring m k = record { at = k.at }

  pub Keeps-ask : (f : ℕ → Result A) → Keeps {S = S} P (ask f)
  unfolding ask
  Keeps-ask f = record { at = λ w h. h }

  pub Keeps-request : (c : Call) (f : ℕ → Result A) → Keeps {S = S} P (request c f)
  unfolding request
  Keeps-request c f = record { at = λ w h. h }

  pub Keeps-on_sessions : (f : ℕ → S → Result A × S) → Keeps P (on_sessions f)
  unfolding on_sessions
  Keeps-on_sessions f = record { at = λ w h. h }

  pub Keeps-query :
      (env : Env) (site : String) (f : ℕ → Db → Result A × Db)
      → ((now : ℕ) (d : Db) → P d → P (f now d).1)
      → Keeps {S = S} P (query env site f)
  unfolding query
  Keeps-query env site f k = record {
    at = λ w h. elim (Bool-cases (env.fault w.event)) [
      | inl bad ↦ rw bad h
      | inr fine ↦ rw fine (k (env.now w.event) w.db h)
    ];
  }

  pub Keeps-if : (b : Bool) (m n : App S A) → Keeps P m → Keeps P n → Keeps P (if b then m else n)
  Keeps-if true m n km kn = km
  Keeps-if false m n km kn = kn

module _ {S : Type 0} {P : Db → Type 0} where
  pub Keeps-now_utc : (env : Env) → Keeps {S = S} P (now_utc env)
  unfolding now_utc
  Keeps-now_utc env = record { at = λ w h. h }

  pub Keeps-new_uuid : (env : Env) → Keeps {S = S} P (new_uuid env)
  unfolding new_uuid
  Keeps-new_uuid env = record { at = λ w h. h }

  pub Keeps-start : (session : ℕ × ℕ) → Keeps {S = S} P (start session)
  unfolding start
  Keeps-start session = record { at = λ w h. h }

module _ {S A B : Type 0} {P : Db → Type 0} where
  pub Keeps-continue :
      (r : Result A) (f : A → App S B)
      → ((a : A) → Keeps P (f a))
      → (w : World S) → P w.db
      → P (continue r f w).1.db
  Keeps-continue (ok a) f kf w h = (kf a).at w h
  Keeps-continue (err e) f kf w h = h

  pub Keeps-bind :
      (m : App S A) (f : A → App S B) → Keeps P m → ((a : A) → Keeps P (f a)) → Keeps P (m >>= f)
  unfolding ◌>>=◌
  Keeps-bind m f km kf = record {
    at = λ w h. let (r, w') = m w in Keeps-continue r f kf w' (km.at w h);
  }

pub ruleset keeps_rules = (
  Keeps-pure, Keeps-raise, Keeps-lift, Keeps-wrapping, Keeps-replacing, Keeps-optional,
  Keeps-on_any_error, Keeps-ignoring, Keeps-ask, Keeps-request, Keeps-on_sessions, Keeps-if,
  Keeps-now_utc, Keeps-new_uuid, Keeps-start, Keeps-bind,
)
