-- ===== src/Agent/Mapping/Compiled.antt =====
-- Which rules `New` compiles, and what the mapper then holds.
use cyberstalk_me.Base.{
  ℕ, ◌+◌, ◌≡◌, refl, inl, inr, ◌⊎◌, Bool, true, false, not, ◌&&◌, ◌||◌, none, some, Option-cases,
  List, [], ◌∷◌, ◌++◌, Text, text_eq, is_empty, any, any-append, all, map, arith,
}
use cyberstalk_me.Api.{TitlePattern, Rule}
use cyberstalk_me.Rules.{patterns_of}
use cyberstalk_me.Agent.Texts.{normalize}
use cyberstalk_me.Agent.Mapping.{
  Go, Options, CompiledPattern, CompiledRule, Try, fails, gives, claimed, compile_patterns,
  add_rules, add_exposed,
}

abbrev pub succeeds : {A : Type 0} → Try A → Bool
succeeds (fails e) = false
succeeds (gives a) = true

pub Try-cases : {A : Type 0} (t : Try A) → (succeeds t ≡ false) ⊎ ((a : A) × (t ≡ gives a))
Try-cases (fails e) = inl refl
Try-cases (gives a) = inr (a, refl)

-- The keys of rules.
abbrev pub keys_of_rules : List Rule → List Text
keys_of_rules rules = map (λ r. normalize r.process) rules

-- Each key stands once.
abbrev pub are_distinct : List Text → Bool
are_distinct [] = true
are_distinct (k ∷ ks) = not (any (λ q. text_eq k q) ks) && are_distinct ks

module _ (go : Go) where
  abbrev pub compiles : TitlePattern → Bool
  compiles p = elim (go.compile p.match) [ none ↦ false | some _ ↦ true ]

  -- What a configuration must be to be compiled: rules with names, no two with one name, all
  -- patterns valid, and every exposed process with a name and a rule.
  abbrev pub are_rules : List Rule → Bool
  are_rules rules =
      all (λ r. not (is_empty (normalize r.process)) && all compiles (patterns_of r)) rules
      && are_distinct (keys_of_rules rules)

  abbrev pub is_usable : Options → Bool
  is_usable o =
      are_rules o.rules
      && all
          (λ p.
            not (is_empty (normalize p))
            && any (λ k. text_eq k (normalize p)) (keys_of_rules o.rules))
          o.expose_title

  compile_patterns-succeeds :
      (i : ℕ) (process : Text) (j : ℕ) (ps : List TitlePattern)
      → succeeds (compile_patterns go i process j ps) ≡ all compiles ps
  unfolding compile_patterns
  compile_patterns-succeeds i process j [] = refl
  compile_patterns-succeeds i process j (p ∷ ps) =
      let ih = compile_patterns-succeeds i process (j + 1) ps in
      elim (Option-cases (go.compile p.match)) [
        | inl e ↦ ground (arith, e)
        | inr (f, e) ↦ elim (Try-cases (compile_patterns go i process (j + 1) ps)) [
          | inl q ↦ ground (arith, e, q, ih)
          | inr (rest, q) ↦ ground (arith, e, q, ih)
        ]
      ]

  -- The keys that are not taken yet, before and after one more entry.
  abbrev pub all_free : List (Text × CompiledRule) → List Text → Bool
  all_free rules ks = all (λ k. not (claimed k rules)) ks

  all_free-append :
      (rules : List (Text × CompiledRule)) (key : Text) (c : CompiledRule) (ks : List Text)
      → all_free (rules ++ (key, c) ∷ []) ks
        ≡ all_free rules ks && not (any (λ q. text_eq key q) ks)
  all_free-append rules key c [] = refl
  all_free-append rules key c (k ∷ ks) = ground (
    arith,
    all_free-append rules key c ks,
    any-append (λ (e : Text × CompiledRule). text_eq e.0 k) rules ((key, c) ∷ []),
  )

  abbrev pub is_fine : Rule → Bool
  is_fine r = not (is_empty (normalize r.process)) && all compiles (patterns_of r)

  pub add_rules-succeeds :
      (i : ℕ) (rs : List Rule) (rules : List (Text × CompiledRule))
      → succeeds (add_rules go i rs rules)
        ≡ all is_fine rs && (all_free rules (keys_of_rules rs) && are_distinct (keys_of_rules rs))
  unfolding add_rules
  add_rules-succeeds i [] rules = refl
  add_rules-succeeds i (r ∷ rs) rules =
      let patterns = compile_patterns-succeeds i r.process 0 (patterns_of r) in
      elim (Try-cases (compile_patterns go i r.process 0 (patterns_of r))) [
        | inl q ↦ ground (arith, q, patterns)
        | inr (ps, q) ↦
            let c : CompiledRule = record {
              app = r.app;
              description = r.description;
              patterns = ps;
            } in
            let ih = add_rules-succeeds (i + 1) rs (rules ++ (normalize r.process, c) ∷ []) in
            ground (
              arith,
              q,
              patterns,
              ih,
              all_free-append rules (normalize r.process) c (keys_of_rules rs),
            )
      ]

  -- What a rule adds.
  abbrev pub entry : Rule → List CompiledPattern → Text × CompiledRule
  entry r ps =
      (normalize r.process, record { app = r.app; description = r.description; patterns = ps })

  -- A run of the loop that gives rules compiled the first one and went on.
  pub add_rules-step :
      (i : ℕ) (r : Rule) (rs : List Rule) (rules out : List (Text × CompiledRule))
      → add_rules go i (r ∷ rs) rules ≡ gives out
      → (ps : List CompiledPattern) × (compile_patterns go i r.process 0 (patterns_of r) ≡ gives ps)
        × (add_rules go (i + 1) rs (rules ++ entry r ps ∷ []) ≡ gives out)
  unfolding add_rules
  add_rules-step i r rs rules out h =
      elim (Try-cases (compile_patterns go i r.process 0 (patterns_of r))) [
        | inl q ↦ absurd (ground (arith, h, q))
        | inr (ps, q) ↦ (ps, q, ground (arith, h, q))
      ]

  pub add_rules-claimed :
      (i : ℕ) (rs : List Rule) (rules out : List (Text × CompiledRule)) (k : Text)
      → add_rules go i rs rules ≡ gives out
      → claimed k out ≡ claimed k rules || any (λ q. text_eq q k) (keys_of_rules rs)
  unfolding add_rules
  add_rules-claimed i [] rules out k h = ground (arith, h)
  add_rules-claimed i (r ∷ rs) rules out k h =
      let (ps, compiled, rest) = add_rules-step i r rs rules out h in
      let ih = add_rules-claimed (i + 1) rs (rules ++ entry r ps ∷ []) out k rest in
      ground
        (arith, ih, any-append (λ (e : Text × CompiledRule). text_eq e.0 k) rules (entry r ps ∷ []))

  pub add_exposed-succeeds :
      (i : ℕ) (ps : List Text) (rules : List (Text × CompiledRule))
      → succeeds (add_exposed go i ps rules)
        ≡ all (λ p. not (is_empty (normalize p)) && claimed (normalize p) rules) ps
  unfolding add_exposed
  add_exposed-succeeds i [] rules = refl
  add_exposed-succeeds i (p ∷ ps) rules =
      let ih = add_exposed-succeeds (i + 1) ps rules in
      elim (Try-cases (add_exposed go (i + 1) ps rules)) [
        | inl q ↦ ground (arith, q, ih)
        | inr (keys, q) ↦ ground (arith, q, ih)
      ]

  pub add_exposed-keys :
      (i : ℕ) (ps : List Text) (rules : List (Text × CompiledRule)) (keys : List Text)
      → add_exposed go i ps rules ≡ gives keys
      → keys ≡ map normalize ps
  unfolding add_exposed
  add_exposed-keys i [] rules keys h = ground (arith, h)
  add_exposed-keys i (p ∷ ps) rules keys h = elim (Try-cases (add_exposed go (i + 1) ps rules)) [
    | inl q ↦ absurd (ground (arith, h, q))
    | inr (rest, q) ↦ let ih = add_exposed-keys (i + 1) ps rules rest q in ground (arith, h, q, ih)
  ]
