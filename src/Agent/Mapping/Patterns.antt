-- ===== src/Agent/Mapping/Patterns.antt =====
-- What compiled patterns can say: the descriptions of the patterns that they come from.
use cyberstalk_me.Base.{
  ℕ, ◌+◌, ◌≡◌, refl, sym, subst, inl, inr, Bool, true, false, ◌||◌, Bool-cases, some, Option-cases,
  List, [], ◌∷◌, Text, text_eq, text_eq_refl, any, arith,
}
use cyberstalk_me.Api.{TitlePattern}
use cyberstalk_me.Agent.Mapping.{Go, CompiledPattern, gives, compile_patterns, first_match}
use cyberstalk_me.Agent.Mapping.Compiled.{Try-cases}

-- A pattern's own description.
abbrev pub pattern_says : Text → TitlePattern → Bool
pattern_says d p = text_eq d p.description

abbrev pub has_patterns : List TitlePattern → Bool
has_patterns [] = false
has_patterns (p ∷ ps) = true

-- A text is the one that stands in without a match, or that of a pattern.
abbrev pub is_said : Text → List TitlePattern → Text → Bool
is_said otherwise ps d = text_eq d otherwise || any (pattern_says d) ps

module _ (go : Go) where
  pub compile_patterns-step :
      (i : ℕ) (process : Text) (j : ℕ) (p : TitlePattern) (ps : List TitlePattern)
      (cs : List CompiledPattern)
      → compile_patterns go i process j (p ∷ ps) ≡ gives cs
      → (f : Text → Bool) × (rest : List CompiledPattern) × (go.compile p.match ≡ some f)
        × (compile_patterns go i process (j + 1) ps ≡ gives rest)
        × (cs ≡ record { matches = f; description = p.description } ∷ rest)
  unfolding compile_patterns
  compile_patterns-step i process j p ps cs h = elim (Option-cases (go.compile p.match)) [
    | inl e ↦ absurd (ground (arith, h, e))
    | inr (f, e) ↦ elim (Try-cases (compile_patterns go i process (j + 1) ps)) [
      | inl q ↦ absurd (ground (arith, h, e, q))
      | inr (rest, q) ↦ (f, rest, e, q, ground (arith, h, e, q))
    ]
  ]

  first_match-cons :
      (f : Text → Bool) (p : TitlePattern) (ps : List TitlePattern) (rest : List CompiledPattern)
      (raw otherwise : Text)
      → is_said otherwise ps (first_match rest raw otherwise) ≡ true
      → is_said otherwise
          (p ∷ ps)
          (first_match (record { matches = f; description = p.description } ∷ rest) raw otherwise)
        ≡ true
  unfolding first_match
  first_match-cons f p ps rest raw otherwise ih = elim (Bool-cases (f raw)) [
    | inl t ↦
        let e : first_match (record { matches = f; description = p.description } ∷ rest) raw
              otherwise
            ≡ p.description =
          ground (arith, t) in
        subst (λ d. is_said otherwise (p ∷ ps) d ≡ true) (sym e)
          (ground (arith, text_eq_refl p.description))
    | inr t ↦
        let e : first_match (record { matches = f; description = p.description } ∷ rest) raw
              otherwise
            ≡ first_match rest raw otherwise =
          ground (arith, t) in
        subst (λ d. is_said otherwise (p ∷ ps) d ≡ true) (sym e) (ground (arith, ih))
  ]

  -- Compiled patterns say what the patterns say.
  pub first_match-says :
      (i : ℕ) (process : Text) (j : ℕ) (ps : List TitlePattern) (cs : List CompiledPattern)
      (raw otherwise : Text)
      → compile_patterns go i process j ps ≡ gives cs
      → is_said otherwise ps (first_match cs raw otherwise) ≡ true
  unfolding compile_patterns first_match
  first_match-says i process j [] cs raw otherwise h =
      let none_left : cs ≡ [] = ground (arith, h) in
      rw none_left (ground (arith, text_eq_refl otherwise))
  first_match-says i process j (p ∷ ps) cs raw otherwise h =
      let (f, rest, found, more, e) = compile_patterns-step i process j p ps cs h in
      let ih = first_match-says i process (j + 1) ps rest raw otherwise more in
      subst (λ ds. is_said otherwise (p ∷ ps) (first_match ds raw otherwise) ≡ true) (sym e)
        (first_match-cons f p ps rest raw otherwise ih)

  pub patterns_asked :
      (i : ℕ) (process : Text) (ps : List TitlePattern) (c : CompiledPattern)
      (cs : List CompiledPattern)
      → compile_patterns go i process 0 ps ≡ gives (c ∷ cs)
      → has_patterns ps ≡ true
  unfolding compile_patterns
  patterns_asked i process [] c cs h = absurd (ground (arith, h))
  patterns_asked i process (p ∷ ps) c cs h = refl
