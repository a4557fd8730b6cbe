-- ===== src/Agent/Mapping/Private.antt =====
-- The privacy boundary: what a resolved activity can say of a window title.
use cyberstalk_me.Base.{
  ℕ, ◌+◌, ◌≡◌, refl, ap, sym, ◌∙◌, inl, inr, ◌⊎◌, Bool, true, false, not, ◌&&◌, ◌||◌, Bool-cases,
  Option, some, Option-cases, List, [], ◌∷◌, ◌++◌, Text, text_eq, text_eq_refl, is_empty, any, map,
  arith,
}
use cyberstalk_me.Numbers.{ℤ, ltb_ℤ}
use cyberstalk_me.Api.{Rule, Activity}
use cyberstalk_me.Rules.{patterns_of}
use cyberstalk_me.Agent.Texts.{normalize}
use cyberstalk_me.Agent.Mapping.{
  Go, Options, CompiledPattern, CompiledRule, Mapper, gives, rule_for, compile_patterns, add_rules,
  new_mapper, read_title, is_called, first_match, activity, resolve, at_least_zero,
  seconds_duration,
}
use cyberstalk_me.Agent.Mapping.Compiled.{entry, add_rules-step}
use cyberstalk_me.Agent.Mapping.Patterns.{
  pattern_says, has_patterns, is_said, first_match-says, patterns_asked,
}
use cyberstalk_me.Agent.Mapping.Usable.{new_mapper-IsMapper}

-- A rule's own descriptions.
abbrev pub rule_says : Text → Rule → Bool
rule_says d r = text_eq d r.description || any (pattern_says d) (patterns_of r)

abbrev pub is_for : Text → Rule → Bool
is_for process r = text_eq (normalize r.process) (normalize process)

-- The descriptions that a configuration holds for a process.
unfoldable pub says : Options → Text → Text → Bool
says o process d =
    text_eq d o.locked_description
    || text_eq d o.default_description
    || any (λ r. is_for process r && rule_says d r) o.rules

-- Whether some rule of the process has patterns.
unfoldable pub asks_title : Options → Text → Bool
asks_title o process = any (λ r. is_for process r && has_patterns (patterns_of r)) o.rules

-- A compiled rule among those of a list, with the rule that it comes from.
abbrev IsAmong : Rule → List Rule → Type 0
IsAmong r rs = (f : Rule → Bool) → f r ≡ true → any f rs ≡ true

pub any-map :
    {A B : Type 0} (f : A → B) (p : B → Bool) (xs : List A)
    → any p (map f xs) ≡ any (λ x. p (f x)) xs
any-map f p [] = refl
any-map f p (x ∷ xs) = ap (p (f x) ||◌) (any-map f p xs)

module _ (go : Go) where
  record Origin (rs : List Rule) (key : Text) (c : CompiledRule) : Type 0 where
    rule : Rule
    index : ℕ
    among : IsAmong rule rs
    key_is : text_eq (normalize rule.process) key ≡ true
    description : c.description ≡ rule.description
    patterns : compile_patterns go index rule.process 0 (patterns_of rule) ≡ gives c.patterns

  rule_for-append :
      (key : Text) (rules : List (Text × CompiledRule)) (r : Rule) (ps : List CompiledPattern)
      (c : CompiledRule)
      → rule_for key (rules ++ entry go r ps ∷ []) ≡ some c
      → (rule_for key rules ≡ some c)
        ⊎ ((text_eq (normalize r.process) key ≡ true) × ((entry go r ps).1 ≡ c))
  rule_for-append key [] r ps c h = elim (Bool-cases (text_eq (normalize r.process) key)) [
    | inl e ↦ inr (e, ground (arith, h, e))
    | inr e ↦ absurd (ground (arith, h, e))
  ]
  rule_for-append key ((k, d) ∷ rules) r ps c h = elim (Bool-cases (text_eq k key)) [
    | inl e ↦ inl (ground (arith, h, e))
    | inr e ↦ elim (rule_for-append key rules r ps c (ground (arith, h, e))) [
      | inl q ↦ inl (ground (arith, e, q))
      | inr q ↦ inr q
    ]
  ]

  rule_for-Origin :
      (i : ℕ) (rs : List Rule) (rules out : List (Text × CompiledRule)) (key : Text)
      (c : CompiledRule)
      → add_rules go i rs rules ≡ gives out
      → rule_for key out ≡ some c
      → (rule_for key rules ≡ some c) ⊎ Origin rs key c
  unfolding add_rules
  rule_for-Origin i [] rules out key c h e = inl (ground (arith, h, e))
  rule_for-Origin i (r ∷ rs) rules out key c h e =
      let (ps, compiled, rest) = add_rules-step go i r rs rules out h in
      elim (rule_for-Origin (i + 1) rs (rules ++ entry go r ps ∷ []) out key c rest e) [
        | inl q ↦ elim (rule_for-append key rules r ps c q) [
          | inl old ↦ inl old
          | inr (k, new) ↦ inr (record {
            rule = r;
            index = i;
            among = λ f fr. ground (arith, fr);
            key_is = k;
            description = ap CompiledRule.description (sym new);
            patterns = compiled ∙ ap (λ d. gives d.patterns) new;
          })
        ]
        | inr o ↦ inr (record {
          rule = o.rule;
          index = o.index;
          among = λ f fr. ground (arith, o.among f fr);
          key_is = o.key_is;
          description = o.description;
          patterns = o.patterns;
        })
      ]

  -- What the rule of a compiled one says is in the configuration.
  Origin-says :
      (o : Options) (process d : Text) (c : CompiledRule)
      → (r : Origin o.rules (normalize process) c)
      → is_said c.description (patterns_of r.rule) d ≡ true
      → says o process d ≡ true
  unfolding says
  Origin-says o process d c r h =
      let from_rule : rule_says d r.rule ≡ true = ground (arith, h, r.description) in
      let among =
        r.among (λ q. is_for process q && rule_says d q) (ground (arith, r.key_is, from_rule)) in
      ground (arith, among)

  -- What is said of an activity, and of whether the title was read.
  abbrev IsPrivate : Options → Text → Activity × Bool → Type 0
  IsPrivate o process a =
      (says o process a.0.description ≡ true) × ((not a.1 || asks_title o process) ≡ true)

  -- An activity that the rule of a process gives, its title unread or read for patterns.
  plain-IsPrivate :
      (o : Options) (process : Text) (c : CompiledRule) (is_idle : Bool) (seconds : ℕ)
      → Origin o.rules (normalize process) c
      → IsPrivate o process (activity is_idle seconds c.app c.description false, false)
  plain-IsPrivate o process c is_idle seconds r =
      (Origin-says o process c.description c r (ground (arith, text_eq_refl c.description)), refl)

  title_asked :
      (o : Options) (process : Text) (read : Bool) (c : CompiledRule)
      → (r : Origin o.rules (normalize process) c) → has_patterns (patterns_of r.rule) ≡ true
      → (not read || asks_title o process) ≡ true
  unfolding asks_title
  title_asked o process read c r h =
      let among =
        r.among (λ q. is_for process q && has_patterns (patterns_of q))
          (ground (arith, r.key_is, h)) in
      elim read as (λ k. (not k || asks_title o process) ≡ true) [ true ↦ among | false ↦ refl ]

  matched-IsPrivate :
      (o : Options) (process : Text) (title : Option Text) (c : CompiledRule) (p : CompiledPattern)
      (ps : List CompiledPattern) (is_idle : Bool) (seconds : ℕ)
      → Origin o.rules (normalize process) c
      → c.patterns ≡ p ∷ ps
      → IsPrivate o process (
        activity is_idle seconds c.app
            (first_match (p ∷ ps) (read_title title) c.description)
            false,
        is_called title,
      )
  matched-IsPrivate o process title c p ps is_idle seconds r e =
      let compiled = r.patterns ∙ ap gives e in
      let asked = patterns_asked go r.index r.rule.process (patterns_of r.rule) p ps compiled in
      (
        Origin-says o process (first_match (p ∷ ps) (read_title title) c.description) c r (
            first_match-says go r.index r.rule.process 0 (patterns_of r.rule) (p ∷ ps)
              (read_title title) c.description compiled),
        title_asked o process (is_called title) c r asked,
      )

  rule-IsPrivate :
      (o : Options) (m : Mapper) (process : Text) (title : Option Text) (idle_seconds : ℤ)
      (c : CompiledRule)
      → is_empty (normalize process) ≡ false
      → rule_for (normalize process) m.rules ≡ some c
      → any (λ k. text_eq k (normalize process)) m.expose ≡ false
      → Origin o.rules (normalize process) c
      → IsPrivate o process (resolve m process title idle_seconds)
  unfolding resolve
  rule-IsPrivate o m process title idle_seconds c named q hidden r = by_patterns c.patterns refl
    where
      seconds : ℕ
      seconds = at_least_zero idle_seconds

      is_idle : Bool
      is_idle = not (ltb_ℤ (seconds_duration seconds) m.idle_threshold)

      by_patterns :
          (ps : List CompiledPattern)
          → c.patterns ≡ ps
          → IsPrivate o process (resolve m process title idle_seconds)
      by_patterns [] e = rw (named, q, hidden, e) (plain-IsPrivate o process c is_idle seconds r)
      by_patterns (p ∷ ps) e =
          rw (named, q, hidden, e) (matched-IsPrivate o process title c p ps is_idle seconds r e)

  -- Whatever the window's title is, an activity of a process that is not exposed carries a
  -- description of the configuration: that of the lock screen, the default one, or one of the
  -- process's own rule. The title is read only when a rule of the process has patterns.
  pub resolve-private :
      (o : Options) (m : Mapper) (process : Text) (title : Option Text) (idle_seconds : ℤ)
      → new_mapper go o ≡ gives m
      → any (λ p. text_eq (normalize p) (normalize process)) o.expose_title ≡ false
      → (says o process (resolve m process title idle_seconds).0.description ≡ true)
        × ((not (resolve m process title idle_seconds).1 || asks_title o process) ≡ true)
  unfolding resolve says
  resolve-private o m process title idle_seconds made hidden =
      let mapper = new_mapper-IsMapper go o m made in
      elim (Bool-cases (is_empty (normalize process))) [
        | inl e ↦
            rw (e, mapper.locked_description)
              (ground (arith, text_eq_refl o.locked_description), refl)
        | inr e ↦ elim (Option-cases (rule_for (normalize process) m.rules)) [
          | inl q ↦
              rw (e, q, mapper.default_description)
                (ground (arith, text_eq_refl o.default_description), refl)
          | inr (c, q) ↦
              elim (rule_for-Origin 0 o.rules [] m.rules (normalize process) c mapper.rules q) [
                | inl old ↦ absurd (ground (arith, old))
                | inr r ↦
                    rule-IsPrivate o m process title idle_seconds c e q
                      (ap (any (λ k. text_eq k (normalize process))) mapper.expose
                        ∙ any-map normalize (λ k. text_eq k (normalize process)) o.expose_title
                        ∙ hidden)
                      r
              ]
        ]
      ]
