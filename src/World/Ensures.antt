-- ===== src/World/Ensures.antt =====
-- What holds where an action ends well: a rule for each way to build an action.
use beebase_auth_service.Prelude.{
  ◌∷◌, ℕ, ◌+◌, ◌≡◌, refl, Bool, true, false, Option, none, some, String, inl, inr, Bool-cases,
  if◌then◌else◌,
}
use mathlib.Core.Path.{subst}
use beebase_auth_service.Errors.{Error, Sentinel, is}
use beebase_auth_service.World.{
  Call, request, Result, ok, err, Db, World, Env, App, pure, raise, lift, wrapping, replacing,
  optional, on_any_error, ask, on_sessions, query, now_utc, new_uuid, continue, wrap_error,
  replace_error, or_none, any_error_to, next_event, ◌>>=◌,
}

-- The outcome is an error, or satisfies `Q`.
abbrev pub Good : {S A : Type 0} → (A → World S → Type 0) → Result A → World S → Type 0
Good Q (ok a) w = Q a w
Good Q (err e) w = Unit

pub record Ensures {S A : Type 0} (m : App S A) (w : World S) (Q : A → World S → Type 0)
    : Type 0 where
  pub good : Good Q (m w).0 (m w).1

-- The world after a statement that left this database.
abbrev pub with_db : {S : Type 0} → World S → Db → World S
with_db w d = record w { event = w.event + 1; db = d }

-- Where the action is known to end well.
pub Ensures-ok :
    {S A : Type 0} {m : App S A} {w : World S} {Q : A → World S → Type 0}
    → Ensures m w Q
    → (a : A) (w' : World S) → m w ≡ (ok a, w')
    → Q a w'
Ensures-ok {S} {A} {m} {w} {Q} h a w' e =
    subst (λ (p : Result A × World S). Good Q p.0 p.1) e h.good

module _ {S A : Type 0} (Q : A → World S → Type 0) where
  Good-wrap :
      (site : String) (r : Result A) (w' : World S) → Good Q r w' → Good Q (wrap_error site r) w'
  Good-wrap site (ok a) w' h = h
  Good-wrap site (err e) w' h = h

  Good-replace :
      (target : Sentinel) (e : Error) (r : Result A) (w' : World S)
      → Good Q r w'
      → Good Q (replace_error target e r) w'
  Good-replace target e (ok a) w' h = h
  Good-replace target e (err x) w' h = tt

  Good-any : (e : Error) (r : Result A) (w' : World S) → Good Q r w' → Good Q (any_error_to e r) w'
  Good-any e (ok a) w' h = h
  Good-any e (err x) w' h = tt

  Good-result : (r : Result A) (w' : World S) → ((a : A) → r ≡ ok a → Q a w') → Good Q r w'
  Good-result (ok a) w' h = h a refl
  Good-result (err e) w' h = tt

  Good-mono :
      (R : A → World S → Type 0) (r : Result A) (w' : World S)
      → ((a : A) (v : World S) → R a v → Q a v)
      → Good R r w'
      → Good Q r w'
  Good-mono R (ok a) w' f h = f a w' h
  Good-mono R (err e) w' f h = tt

module _ {S A : Type 0} (Q : Option A → World S → Type 0) where
  Good-optional :
      (target : Sentinel) (r : Result A) (w' : World S)
      → Good (λ a v. Q (some a) v) r w'
      → ((e : Error) → r ≡ err e → is e target ≡ true → Q none w')
      → Good Q (or_none target r) w'
  Good-optional target (ok a) w' h n = h
  Good-optional target (err e) w' h n = elim (Bool-cases (is e target)) [
    | inl same ↦ rw same (n e refl same)
    | inr other ↦ rw other tt
  ]

module _ {S A B : Type 0} (R : A → World S → Type 0) (Q : B → World S → Type 0) where
  Good-continue :
      (r : Result A) (f : A → App S B) (v : World S)
      → Good R r v
      → ((a : A) (u : World S) → R a u → Ensures (f a) u Q)
      → Good Q (continue r f v).0 (continue r f v).1
  Good-continue (ok a) f v h k = (k a v h).good
  Good-continue (err e) f v h k = tt

module _ {S A : Type 0} {w : World S} {Q : A → World S → Type 0} where
  pub Ensures-pure : (a : A) → Q a w → Ensures (pure a) w Q
  unfolding pure
  Ensures-pure a q = record { good = q }

  pub Ensures-raise : (e : Error) → Ensures (raise e) w Q
  unfolding raise
  Ensures-raise e = record { good = tt }

  pub Ensures-wrapping :
      (site : String) (m : App S A) → Ensures m w Q → Ensures (wrapping site m) w Q
  unfolding wrapping
  Ensures-wrapping site m h = record { good = Good-wrap Q site (m w).0 (m w).1 h.good }

  pub Ensures-replacing :
      (target : Sentinel) (e : Error) (m : App S A)
      → Ensures m w Q
      → Ensures (replacing target e m) w Q
  unfolding replacing
  Ensures-replacing target e m h = record { good = Good-replace Q target e (m w).0 (m w).1 h.good }

  pub Ensures-on_any_error :
      (e : Error) (m : App S A) → Ensures m w Q → Ensures (on_any_error e m) w Q
  unfolding on_any_error
  Ensures-on_any_error e m h = record { good = Good-any Q e (m w).0 (m w).1 h.good }

  pub Ensures-ask :
      (f : ℕ → Result A) → ((a : A) → f w.event ≡ ok a → Q a (next_event w)) → Ensures (ask f) w Q
  unfolding ask
  Ensures-ask f h = record { good = Good-result Q (f w.event) (next_event w) h }

  pub Ensures-request :
      (c : Call) (f : ℕ → Result A)
      → ((a : A) → Q a (record w { event = w.event + 1; calls = c ∷ w.calls }))
      → Ensures (request c f) w Q
  unfolding request
  Ensures-request c f h = record { good = Good-result Q (f w.event) _ λ a e. h a }

  -- The call has gone out, and has been answered.
  pub Ensures-requested :
      (c : Call) (f : ℕ → Result A)
      → ((a : A) → f w.event ≡ ok a → Q a (record w { event = w.event + 1; calls = c ∷ w.calls }))
      → Ensures (request c f) w Q
  unfolding request
  Ensures-requested c f h = record { good = Good-result Q (f w.event) _ h }

  pub Ensures-lift : (r : Result A) → ((a : A) → r ≡ ok a → Q a w) → Ensures (lift r) w Q
  unfolding lift
  Ensures-lift r h = record { good = Good-result Q r w h }

  pub Ensures-on_sessions :
      (f : ℕ → S → Result A × S)
      → ((a : A)
          → (f w.event w.sessions).0 ≡ ok a
          → Q a (record w { event = w.event + 1; sessions = (f w.event w.sessions).1 }))
      → Ensures (on_sessions f) w Q
  unfolding on_sessions
  Ensures-on_sessions f h = record { good = Good-result Q (f w.event w.sessions).0 _ h }

  pub Ensures-query :
      (env : Env) (site : String) (f : ℕ → Db → Result A × Db)
      → ((a : A)
          → (f (env.now w.event) w.db).0 ≡ ok a
          → Q a (with_db w (f (env.now w.event) w.db).1))
      → Ensures (query env site f) w Q
  unfolding query
  Ensures-query env site f h = record {
    good = elim (Bool-cases (env.fault w.event)) [
      | inl bad ↦ rw bad tt
      | inr fine ↦ rw fine (Good-result Q (f (env.now w.event) w.db).0 _ h)
    ];
  }

  pub Ensures-if :
      (b : Bool) (m n : App S A)
      → (b ≡ true → Ensures m w Q)
      → (b ≡ false → Ensures n w Q)
      → Ensures (if b then m else n) w Q
  Ensures-if true m n hm hn = hm refl
  Ensures-if false m n hm hn = hn refl

  pub Ensures-mono :
      {R : A → World S → Type 0} {m : App S A}
      → Ensures m w R
      → ((a : A) (v : World S) → R a v → Q a v)
      → Ensures m w Q
  Ensures-mono {R} {m} h f = record { good = Good-mono Q R (m w).0 (m w).1 f h.good }

module _ {S A : Type 0} where
  Good-trivial : (r : Result A) (w : World S) → Good (λ _ _. Unit {0}) r w
  Good-trivial (ok a) w = tt
  Good-trivial (err e) w = tt

  Good-run :
      (r : Result A) (w : World S) → Good (λ a v. ◌≡◌ {A = Result A × World S} (r, w) (ok a, v)) r w
  Good-run (ok a) w = refl
  Good-run (err e) w = tt

  -- What has run.
  pub Ensures-run : (m : App S A) (w : World S) → Ensures m w (λ a v. m w ≡ (ok a, v))
  Ensures-run m w = record { good = Good-run (m w).0 (m w).1 }

  pub Ensures-trivial : (m : App S A) (w : World S) → Ensures m w (λ _ _. Unit {0})
  Ensures-trivial m w = record { good = Good-trivial (m w).0 (m w).1 }

module _ {S A : Type 0} {w : World S} {Q : Option A → World S → Type 0} where
  pub Ensures-optional :
      (target : Sentinel) (m : App S A)
      → Ensures m w (λ a v. Q (some a) v)
      → ((e : Error) → (m w).0 ≡ err e → is e target ≡ true → Q none (m w).1)
      → Ensures (optional target m) w Q
  unfolding optional
  Ensures-optional target m h n = record { good = Good-optional Q target (m w).0 (m w).1 h.good n }

module _ {S : Type 0} {w : World S} where
  pub Ensures-now_utc :
      (env : Env) → Ensures (now_utc env) w (λ t v. (t ≡ env.now w.event) × (v ≡ next_event w))
  unfolding now_utc
  Ensures-now_utc env = record { good = (refl, refl) }

  pub Ensures-new_uuid :
      (env : Env) → Ensures (new_uuid env) w (λ t v. (t ≡ env.uuid w.event) × (v ≡ next_event w))
  unfolding new_uuid
  Ensures-new_uuid env = record { good = (refl, refl) }

module _ {S A B : Type 0} {w : World S} {R : A → World S → Type 0} {Q : B → World S → Type 0} where
  pub Ensures-bind :
      (m : App S A) (f : A → App S B)
      → Ensures m w R
      → ((a : A) (v : World S) → R a v → Ensures (f a) v Q)
      → Ensures (m >>= f) w Q
  unfolding ◌>>=◌
  Ensures-bind m f h k = record { good = Good-continue R Q (m w).0 f (m w).1 h.good k }

module _ {S A : Type 0} {w : World S} where
  -- What a port has answered.
  pub Ensures-answer :
      (f : ℕ → Result A) → Ensures (ask f) w (λ a v. (f w.event ≡ ok a) × (v ≡ next_event w))
  Ensures-answer f = Ensures-ask f λ a e. (e, refl)

  pub Ensures-session_answer :
      (f : ℕ → S → Result A × S)
      → Ensures (on_sessions f) w (λ a v.
        ((f w.event w.sessions).0 ≡ ok a)
        × (v ≡ record w { event = w.event + 1; sessions = (f w.event w.sessions).1 }))
  Ensures-session_answer f = Ensures-on_sessions f λ a e. (e, refl)
