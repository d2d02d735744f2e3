-- ===== src/World/Attains.antt =====
-- Actions that are known to end well: a rule for each way to build one.
use beebase_auth_service.Prelude.{◌+◌, ◌∷◌, String, ℕ, ◌≡◌, refl, true, false, Option, some, none}
use beebase_auth_service.Errors.{Error, Sentinel, is}
use beebase_auth_service.World.{
  ignoring, start, next_event, ask, wrapping, on_sessions, now_utc, on_any_error, replacing,
  new_uuid, Result, ok, err, Db, World, Env, App, pure, optional, query, ◌>>=◌,
}
use beebase_auth_service.World.Ensures.{with_db}

-- The action ends well, and `Q` holds of its result and of the state it leaves.
pub record Attains {S A : Type 0} (m : App S A) (w : World S) (Q : A → World S → Type 0)
    : Type 0 where
  pub value : A
  pub after : World S
  pub runs : m w ≡ (ok value, after)
  pub holds : Q value after

module _ {S A : Type 0} {w : World S} {Q : A → World S → Type 0} where
  pub Attains-pure : (a : A) → Q a w → Attains (pure a) w Q
  unfolding pure
  Attains-pure a q = record { value = a; after = w; runs = refl; holds = q }

  pub Attains-query :
      (env : Env) (site : String) (f : ℕ → Db → Result A × Db) (a : A) (d : Db)
      → env.fault w.event ≡ false
      → f (env.now w.event) w.db ≡ (ok a, d)
      → Q a (with_db w d)
      → Attains (query env site f) w Q
  unfolding query
  Attains-query env site f a d fine e q = record {
    value = a;
    after = with_db w d;
    runs = rw (fine, e) refl;
    holds = q;
  }

  pub Attains-ask :
      (f : ℕ → Result A) (a : A) → f w.event ≡ ok a → Q a (next_event w) → Attains (ask f) w Q
  unfolding ask
  Attains-ask f a e q = record { value = a; after = next_event w; runs = rw e refl; holds = q }

  pub Attains-on_sessions :
      (f : ℕ → S → Result A × S) (a : A)
      → (f w.event w.sessions).0 ≡ ok a
      → Q a (record w { event = w.event + 1; sessions = (f w.event w.sessions).1 })
      → Attains (on_sessions f) w Q
  unfolding on_sessions
  Attains-on_sessions f a e q = record {
    value = a;
    after = record w { event = w.event + 1; sessions = (f w.event w.sessions).1 };
    runs = rw e refl;
    holds = q;
  }

  pub Attains-wrapping :
      (site : String) (m : App S A) → Attains m w Q → Attains (wrapping site m) w Q
  unfolding wrapping
  Attains-wrapping site m h = record {
    value = h.value;
    after = h.after;
    runs = rw (h.runs) refl;
    holds = h.holds;
  }

  pub Attains-replacing :
      (target : Sentinel) (e : Error) (m : App S A)
      → Attains m w Q
      → Attains (replacing target e m) w Q
  unfolding replacing
  Attains-replacing target e m h = record {
    value = h.value;
    after = h.after;
    runs = rw (h.runs) refl;
    holds = h.holds;
  }

  pub Attains-on_any_error :
      (e : Error) (m : App S A) → Attains m w Q → Attains (on_any_error e m) w Q
  unfolding on_any_error
  Attains-on_any_error e m h = record {
    value = h.value;
    after = h.after;
    runs = rw (h.runs) refl;
    holds = h.holds;
  }

  pub Attains-mono :
      {R : A → World S → Type 0} {m : App S A}
      → Attains m w R
      → ((a : A) (v : World S) → R a v → Q a v)
      → Attains m w Q
  Attains-mono h f = record {
    value = h.value;
    after = h.after;
    runs = h.runs;
    holds = f h.value h.after h.holds;
  }

module _ {S A : Type 0} {w : World S} {Q : Unit {0} → World S → Type 0} where
  pub Attains-ignoring : (m : App S A) → Attains m w (λ _ v. Q tt v) → Attains (ignoring m) w Q
  unfolding ignoring
  Attains-ignoring m h = record {
    value = tt;
    after = h.after;
    runs = rw (h.runs) refl;
    holds = h.holds;
  }

module _ {S A : Type 0} {w : World S} {Q : Option A → World S → Type 0} where
  -- A lookup whose one known error is no error.
  pub Attains-missing :
      (target : Sentinel) (m : App S A) (e : Error) (w' : World S)
      → m w ≡ (err e, w')
      → is e target ≡ true
      → Q none w'
      → Attains (optional target m) w Q
  unfolding optional
  Attains-missing target m e w' runs same q = record {
    value = none;
    after = w';
    runs = rw (runs, same) refl;
    holds = q;
  }

  pub Attains-optional :
      (target : Sentinel) (m : App S A)
      → Attains m w (λ a v. Q (some a) v)
      → Attains (optional target m) w Q
  unfolding optional
  Attains-optional target m h = record {
    value = some h.value;
    after = h.after;
    runs = rw (h.runs) refl;
    holds = h.holds;
  }

module _ {S : Type 0} {w : World S} where
  pub Attains-start :
      {Q : Unit {0} → World S → Type 0} (session : ℕ × ℕ)
      → Q tt (record w { cleanups = session ∷ w.cleanups })
      → Attains (start session) w Q
  unfolding start
  Attains-start session q = record {
    value = tt;
    after = record w { cleanups = session ∷ w.cleanups };
    runs = refl;
    holds = q;
  }

  pub Attains-now_utc :
      (env : Env) → Attains (now_utc env) w (λ t v. (t ≡ env.now w.event) × (v ≡ next_event w))
  unfolding now_utc
  Attains-now_utc env = Attains-ask _ _ refl (refl, refl)

  pub Attains-new_uuid :
      (env : Env) → Attains (new_uuid env) w (λ t v. (t ≡ env.uuid w.event) × (v ≡ next_event w))
  unfolding new_uuid
  Attains-new_uuid env = Attains-ask _ _ refl (refl, refl)

module _ {S A B : Type 0} {w : World S} {R : A → World S → Type 0} {Q : B → World S → Type 0} where
  pub Attains-bind :
      (m : App S A) (f : A → App S B)
      → Attains m w R
      → ((a : A) (v : World S) → R a v → Attains (f a) v Q)
      → Attains (m >>= f) w Q
  unfolding ◌>>=◌
  Attains-bind m f h k =
      let next = k h.value h.after h.holds in
      record {
        value = next.value;
        after = next.after;
        runs = rw (h.runs) (next.runs);
        holds = next.holds;
      }
