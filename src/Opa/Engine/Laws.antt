-- ===== src/Opa/Engine/Laws.antt =====
-- What a compilation leaves in the engine.
use policy_manager.Base.{
  ◌≡◌, refl, false, true, Option-cases, ◌⊎◌, inl, inr, ◌||◌, String, List, [], ◌∷◌, arith, ok, err,
  map_err, >>=-eq-ok, Result-cases, contains, map, is_some,
}
use policy_manager.Base.Dict.{Dict, lookup, insert, lookup-insert}
use policy_manager.Opa.Engine.{
  Rego, PolicyModule, EngineError, invalid_rego, EmbeddedEngine, sources_of, query_of, prepare_all,
  compiled_queries, swap, compile, evaluate_query, evaluate_policy, undefined,
}
use policy_manager.Json.{Object, empty}

module _ {F K Q : Type 0} (rego : Rego F K Q) where
  is_some-prepare_all :
      (k : K) (ps : List PolicyModule) (d d' : Dict Q) (id : String)
      → prepare_all rego k ps d ≡ ok d'
      → is_some (lookup id d') ≡ (contains (map (λ p. p.id) ps) id || is_some (lookup id d))
  unfolding prepare_all
  is_some-prepare_all k [] d d' id h = ground arith
  is_some-prepare_all k (p ∷ ps) d d' id h =
      let (pq, e, later) = >>=-eq-ok (map_err _ (rego.prepare (query_of rego k p.id) k)) _ h in
      ground
        (arith, is_some-prepare_all k ps (insert p.id pq d) d' id later, lookup-insert id p.id pq d)

  is_some-compiled_queries :
      (ps : List PolicyModule) (d : Dict Q) (id : String)
      → compiled_queries rego ps ≡ ok d
      → is_some (lookup id d) ≡ contains (map (λ p. p.id) ps) id
  unfolding compiled_queries lookup
  is_some-compiled_queries [] d id h = ground arith
  is_some-compiled_queries (p ∷ ps) d id h =
      let (k, e, later) =
        >>=-eq-ok (map_err invalid_rego (rego.compile_modules (sources_of (p ∷ ps) []))) _ h in
      ground (arith, is_some-prepare_all k (p ∷ ps) [] d id later)

  -- A compilation that succeeds leaves a query for exactly the policies that it was given, and one that
  -- fails leaves the engine as it was.
  pub compile-atomic :
      (ps : List PolicyModule) (e : EmbeddedEngine Q)
      → (((compile rego ps e).0 ≡ ok tt)
          × ((id : String)
              → is_some (lookup id (compile rego ps e).1.queries)
                ≡ contains (map (λ p. p.id) ps) id))
        ⊎ ((x : EngineError) × ((compile rego ps e).0 ≡ err x) × ((compile rego ps e).1 ≡ e))
  unfolding compile swap
  compile-atomic ps e = elim (Result-cases (compiled_queries rego ps)) [
    | inl (d, h) ↦ rw h (inl (refl, λ id. is_some-compiled_queries ps d id h))
    | inr (x, h) ↦ rw h (inr (x, refl, refl))
  ]

  -- What a compilation that succeeds leaves does not depend on what the engine held.
  pub compile-cases :
      (ps : List PolicyModule) (e : EmbeddedEngine Q)
      → ((new : EmbeddedEngine Q) × ((e' : EmbeddedEngine Q) → compile rego ps e' ≡ (ok tt, new)))
        ⊎ ((x : EngineError) × (compile rego ps e ≡ (err x, e)))
  unfolding compile swap
  compile-cases ps e = elim (Result-cases (compiled_queries rego ps)) [
    | inl (d, h) ↦ inl (record { queries = d }, λ e'. rw h refl)
    | inr (x, h) ↦ inr (x, rw h refl)
  ]

  -- A policy without a query has no decision.
  pub evaluate_policy-absent :
      (e : EmbeddedEngine Q) (id : String) (input : Object F)
      → is_some (lookup id e.queries) ≡ false
      → evaluate_policy rego e id input ≡ ok (record { result = empty; defined = false })
  unfolding evaluate_policy evaluate_query undefined
  evaluate_policy-absent e id input h = elim (Option-cases (lookup id e.queries)) [
    | inl k ↦ rw k refl
    | inr (q, k) ↦ absurd (let l : is_some (lookup id e.queries) ≡ true = rw k refl in cc)
  ]

  -- Where OPA compiles each set of modules and prepares each query, a compilation succeeds.
  module _ (compiles : (sources : Dict String) → (k : K) × (rego.compile_modules sources ≡ ok k))
      (prepares : (query : String) (k : K) → (q : Q) × (rego.prepare query k ≡ ok q)) where
    prepare_all-ok :
        (k : K) (ps : List PolicyModule) (d : Dict Q)
        → (d' : Dict Q) × (prepare_all rego k ps d ≡ ok d')
    unfolding prepare_all
    prepare_all-ok k [] d = (d, refl)
    prepare_all-ok k (p ∷ ps) d =
        let (q, e) = prepares (query_of rego k p.id) k in
        rw e (prepare_all-ok k ps (insert p.id q d))

    compiled_queries-ok :
        (ps : List PolicyModule) → (d : Dict Q) × (compiled_queries rego ps ≡ ok d)
    unfolding compiled_queries
    compiled_queries-ok [] = ([], refl)
    compiled_queries-ok (p ∷ ps) =
        let (k, e) = compiles (sources_of (p ∷ ps) []) in rw e (prepare_all-ok k (p ∷ ps) [])

    pub compile-ok : (ps : List PolicyModule) (e : EmbeddedEngine Q) → (compile rego ps e).0 ≡ ok tt
    unfolding compile swap
    compile-ok ps e = let (d, h) = compiled_queries-ok ps in rw h refl
