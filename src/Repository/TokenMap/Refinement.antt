-- ===== src/Repository/TokenMap/Refinement.antt =====
-- The table of refresh tokens implements the map.
use mathlib.Core.Path.{fun_ext, ap₂}
use beebase_auth_service.Prelude.{
  ℕ, ◌+◌, ◌≡◌, refl, sym, ap, ◌∙◌, Bool, Option, none, some, List, [], ◌∷◌, Text, arith, find,
  update_where, if◌then◌else◌,
}
use beebase_auth_service.World.{Env, World, ok}
use beebase_auth_service.World.Ensures.{
  Ensures, Ensures-bind, Ensures-mono, Ensures-pure, Ensures-ok, Ensures-optional,
}
use beebase_auth_service.Domain.Token.{RefreshToken}
use beebase_auth_service.Repository.RefreshTokens.{has_hash, revoked}
use beebase_auth_service.Repository.Effects.{
  revoke_all-Ensures, revoke-Ensures, create_token-Ensures, get_by_hash-Ensures,
  get_by_hash-missing,
}
use beebase_auth_service.Repository.TokenMap.{
  Operation, store, look_up, revoke_one, revoke_all, perform, perform_each, TokenMap, revoked_where,
  on_map, on_map_each, view,
}

-- A revocation seen through the map.
view-revoked :
    (p : RefreshToken → Bool) (now : ℕ) (ts : List RefreshToken) (hash : Text)
    → view (update_where p (revoked now) ts) hash ≡ revoked_where p now (view ts hash)
unfolding find update_where
view-revoked p now [] hash = refl
view-revoked p now (t ∷ ts) hash = ground (arith, view-revoked p now ts hash)

view-stored :
    (t : RefreshToken) (ts : List RefreshToken)
    → view (t ∷ ts) ≡ λ hash. if has_hash hash t then some t else view ts hash
unfolding find
view-stored t ts = refl

after_step :
    (env : Env) (n n' : ℕ) (ops : List Operation) (m m' : TokenMap)
    → n ≡ n'
    → m ≡ m'
    → ((on_map_each env n ops m).0 ≡ (on_map_each env n' ops m').0)
      × ((on_map_each env n ops m).1 ≡ (on_map_each env n' ops m').1)
after_step env n n' ops m m' same seen =
    (λ i. (on_map_each env (same i) ops (seen i)).0, λ i. (on_map_each env (same i) ops (seen i)).1)

module _ {S : Type 0} (env : Env) where
  -- The answer, the map and the clock after an operation.
  abbrev IsStep : Operation → World S → Option RefreshToken → World S → Type 0
  IsStep op w answer v =
      let (answer', m') = on_map (env.now w.event) op (view w.db.refresh_tokens) in
      (answer ≡ answer') × (view v.db.refresh_tokens ≡ m') × (v.event ≡ w.event + 1)

  perform-Ensures : (op : Operation) (w : World S) → Ensures (perform env op) w (IsStep op w)
  unfolding perform
  perform-Ensures (store t) w = Ensures-bind _ _ (create_token-Ensures env w t) λ _ v (fresh, e).
      Ensures-pure none (
        refl,
        ap (λ (x : World S). view x.db.refresh_tokens) e ∙ view-stored t w.db.refresh_tokens,
        ap (λ (x : World S). x.event) e,
      )
  perform-Ensures (look_up hash) w =
      Ensures-optional _ _
        (Ensures-mono (get_by_hash-Ensures env w hash) λ t v (found, e). (
          sym found,
          ap (λ (x : World S). view x.db.refresh_tokens) e,
          ap (λ (x : World S). x.event) e,
        ))
        λ x failed missing.
          let (none_found, e) = get_by_hash-missing env w hash x failed missing in
          (
            sym none_found,
            ap (λ (x : World S). view x.db.refresh_tokens) e,
            ap (λ (x : World S). x.event) e,
          )
  perform-Ensures (revoke_one id) w = Ensures-bind _ _ (revoke-Ensures env w id) λ _ v e.
      Ensures-pure none (
        refl,
        ap (λ (x : World S). view x.db.refresh_tokens) e
            ∙ fun_ext (view-revoked _ _ w.db.refresh_tokens),
        ap (λ (x : World S). x.event) e,
      )
  perform-Ensures (revoke_all id) w = Ensures-bind _ _ (revoke_all-Ensures env w id) λ _ v e.
      Ensures-pure none (
        refl,
        ap (λ (x : World S). view x.db.refresh_tokens) e
            ∙ fun_ext (view-revoked _ _ w.db.refresh_tokens),
        ap (λ (x : World S). x.event) e,
      )

  perform_each-Ensures :
      (ops : List Operation) (w : World S)
      → Ensures (perform_each env ops) w (λ answers v.
        let (answers', m') = on_map_each env w.event ops (view w.db.refresh_tokens) in
        (answers ≡ answers') × (view v.db.refresh_tokens ≡ m'))
  unfolding perform_each
  perform_each-Ensures [] w = Ensures-pure [] (refl, refl)
  perform_each-Ensures (op ∷ ops) w =
      Ensures-bind _ _ (perform-Ensures op w) λ answer v (same, seen, tick).
        Ensures-bind _ _ (perform_each-Ensures ops v) λ answers v' (same', seen').
          let (answers_as, map_as) =
            after_step env v.event (w.event + 1) ops (view v.db.refresh_tokens) _ tick seen in
          Ensures-pure _ (ap₂ (◌∷◌) same (same' ∙ answers_as), seen' ∙ map_as)

  -- Operations on the table of refresh tokens that end well, in any order and number, answer as the
  -- map from hashes to tokens does that the table stands for, and leave a table that stands for the
  -- map that they lead to: of the rows, their order and their ids nothing else shows.
  pub perform_each-refines :
      (ops : List Operation) (w w' : World S) (answers : List (Option RefreshToken))
      → perform_each env ops w ≡ (ok answers, w')
      → (answers ≡ (on_map_each env w.event ops (view w.db.refresh_tokens)).0)
        × (view w'.db.refresh_tokens ≡ (on_map_each env w.event ops (view w.db.refresh_tokens)).1)
  perform_each-refines ops w w' answers e = Ensures-ok (perform_each-Ensures ops w) answers w' e
