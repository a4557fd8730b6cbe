-- ===== src/Agent/Mapping/Usable.antt =====
-- `New` as a whole: the configurations that it accepts, and the parts of the mapper.
use cyberstalk_me.Base.{
  ◌≡◌, refl, ap, ap₂, ◌∙◌, inl, inr, Bool, true, not, ◌&&◌, List, [], ◌∷◌, Text, text_eq, is_empty,
  any, all, map, arith,
}
use cyberstalk_me.Agent.Texts.{normalize}
use cyberstalk_me.Agent.Mapping.{
  Go, Options, CompiledRule, Mapper, gives, claimed, add_rules, add_exposed, new_mapper,
}
use cyberstalk_me.Agent.Mapping.Compiled.{
  succeeds, Try-cases, keys_of_rules, is_usable, add_rules-succeeds, add_rules-claimed,
  add_exposed-succeeds, add_exposed-keys,
}

all-cong : {A : Type 0} (p q : A → Bool) (xs : List A) → ((x : A) → p x ≡ q x) → all p xs ≡ all q xs
all-cong p q [] e = refl
all-cong p q (x ∷ xs) e = ap₂ (◌&&◌) (e x) (all-cong p q xs e)

module _ (go : Go) where
  exposed_rules :
      (o : Options) (rules : List (Text × CompiledRule))
      → add_rules go 0 o.rules [] ≡ gives rules
      → succeeds (add_exposed go 0 o.expose_title rules)
        ≡ all
            (λ p.
              not (is_empty (normalize p))
              && any (λ k. text_eq k (normalize p)) (keys_of_rules o.rules))
            o.expose_title
  exposed_rules o rules h =
      add_exposed-succeeds go 0 o.expose_title rules
      ∙ all-cong (λ p. not (is_empty (normalize p)) && claimed (normalize p) rules)
          (λ p.
            not (is_empty (normalize p))
            && any (λ k. text_eq k (normalize p)) (keys_of_rules o.rules))
          o.expose_title
          (λ p.
            ap (not (is_empty (normalize p)) &&◌)
              (add_rules-claimed go 0 o.rules [] rules (normalize p) h))

  all_free_at_first : (ks : List Text) → all (λ k. not (claimed k [])) ks ≡ true
  all_free_at_first [] = refl
  all_free_at_first (k ∷ ks) = all_free_at_first ks

  -- `New` succeeds exactly for the rules with names, no two with one name up to case and outer
  -- spaces, and valid patterns, together with exposed processes that each have a rule.
  pub new_mapper-usable : (o : Options) → succeeds (new_mapper go o) ≡ is_usable go o
  unfolding new_mapper
  new_mapper-usable o =
      let made = add_rules-succeeds go 0 o.rules [] in
      let free = all_free_at_first (keys_of_rules o.rules) in
      elim (Try-cases (add_rules go 0 o.rules [])) [
        | inl q ↦ ground (arith, q, made, free)
        | inr (rules, q) ↦
            let shown = exposed_rules o rules q in
            elim (Try-cases (add_exposed go 0 o.expose_title rules)) [
              | inl e ↦ ground (arith, q, e, made, free, shown)
              | inr (keys, e) ↦ ground (arith, q, e, made, free, shown)
            ]
      ]

  -- The mapper that `New` gives.
  pub record IsMapper (o : Options) (m : Mapper) : Type 0 where
    pub rules : add_rules go 0 o.rules [] ≡ gives m.rules
    pub expose : m.expose ≡ map normalize o.expose_title
    pub default_app : m.default_app ≡ o.default_app
    pub default_description : m.default_description ≡ o.default_description
    pub locked_app : m.locked_app ≡ o.locked_app
    pub locked_description : m.locked_description ≡ o.locked_description
    pub idle_threshold : m.idle_threshold ≡ o.idle_threshold

  pub new_mapper-IsMapper : (o : Options) (m : Mapper) → new_mapper go o ≡ gives m → IsMapper o m
  unfolding new_mapper
  new_mapper-IsMapper o m h = elim (Try-cases (add_rules go 0 o.rules [])) [
    | inl q ↦ absurd (ground (arith, h, q))
    | inr (rules, q) ↦ elim (Try-cases (add_exposed go 0 o.expose_title rules)) [
      | inl e ↦ absurd (ground (arith, h, q, e))
      | inr (keys, e) ↦
          let ks = add_exposed-keys go 0 o.expose_title rules keys e in
          record {
            rules = ground (arith, h, q, e);
            expose = ground (arith, h, q, e, ks);
            default_app = ground (arith, h, q, e);
            default_description = ground (arith, h, q, e);
            locked_app = ground (arith, h, q, e);
            locked_description = ground (arith, h, q, e);
            idle_threshold = ground (arith, h, q, e);
          }
    ]
  ]
