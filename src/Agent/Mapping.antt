-- ===== src/Agent/Mapping.antt =====
-- client-windows/internal/mapping/mapping.go, with the errors of errors.go: the rules compiled, and
-- a foreground process resolved to the activity that is reported. `Go` is what the agent takes from
-- Go's libraries.
pub mod Compiled
pub mod Usable
pub mod Patterns
pub mod Private
use cyberstalk_me.Base.{
  ℕ, ◌+◌, ◌*◌, ◌%◌, ◌-◌, Bool, true, false, not, Option, none, some, List, [], ◌∷◌, ◌++◌, Text,
  codes, text_eq, is_empty, any, map, show, ltb, leb, if◌then◌else◌,
}
use Prim.Native.Nat.{◌^◌}
use cyberstalk_me.Numbers.{ℤ, pos, negsuc, ltb_ℤ}
use cyberstalk_me.Api.{TitlePattern, Rule, Activity}
use cyberstalk_me.Rules.{patterns_of}
use cyberstalk_me.Agent.Texts.{normalize, trim_space}

-- `regexp.Compile`, with `MatchString` of what it gives and the message of its error; `%q` of a
-- text.
pub record Go : Type 0 where
  pub compile : Text → Option (Text → Bool)
  pub compile_error : Text → Text
  pub quote : Text → Text

pub record Options : Type 0 where
  pub rules : List Rule
  pub expose_title : List Text
  pub default_app : Text
  pub default_description : Text
  pub locked_app : Text
  pub locked_description : Text
  pub idle_threshold : ℤ

pub record CompiledPattern : Type 0 where
  pub matches : Text → Bool
  pub description : Text

pub record CompiledRule : Type 0 where
  pub app : Text
  pub description : Text
  pub patterns : List CompiledPattern

-- The two maps as lists of their entries and keys. Durations are counted in nanoseconds.
pub record Mapper : Type 0 where
  pub rules : List (Text × CompiledRule)
  pub expose : List Text
  pub default_app : Text
  pub default_description : Text
  pub locked_app : Text
  pub locked_description : Text
  pub idle_threshold : ℤ

-- `pattern` is `none` where the code has -1.
pub record RuleError : Type 0 where
  pub index : ℕ
  pub pattern : Option ℕ
  pub expose_title : Bool
  pub process : Text
  pub field : Text
  pub message : Text

-- `FieldPath`.
unfoldable pub field_path : RuleError → Text
field_path e =
    if e.expose_title
    then codes "expose_title[" ++ (show e.index ++ codes "]")
    else elim e.pattern [
      | some j ↦
          codes "rules["
          ++ (show e.index ++ (codes "].title_patterns[" ++ (show j ++ (codes "]." ++ e.field))))
      | none ↦
          if is_empty e.field
          then codes "rules[" ++ (show e.index ++ codes "]")
          else codes "rules[" ++ (show e.index ++ (codes "]." ++ e.field))
    ]

-- An error, or a value.
pub data Try (A : Type 0) : Type 0 where
  fails : RuleError → Try A
  gives : A → Try A

-- The errors of `New`.
abbrev pub rule_error : ℕ → Text → Text → RuleError
rule_error i process message = record {
  index = i;
  pattern = none;
  expose_title = false;
  process = process;
  field = codes "process";
  message = message;
}

abbrev pub pattern_error : ℕ → ℕ → Text → Text → RuleError
pattern_error i j process message = record {
  index = i;
  pattern = some j;
  expose_title = false;
  process = process;
  field = codes "match";
  message = message;
}

abbrev pub expose_error : ℕ → Text → Text → RuleError
expose_error i process message = record {
  index = i;
  pattern = none;
  expose_title = true;
  process = process;
  field = [];
  message = message;
}

abbrev pub rule_for : Text → List (Text × CompiledRule) → Option CompiledRule
rule_for key [] = none
rule_for key ((k, rule) ∷ rules) = if text_eq k key then some rule else rule_for key rules

abbrev pub claimed : Text → List (Text × CompiledRule) → Bool
claimed key rules = any (λ e. text_eq e.0 key) rules

module _ (go : Go) where
  unfoldable pub compile_patterns : ℕ → Text → ℕ → List TitlePattern → Try (List CompiledPattern)
  compile_patterns i process j [] = gives []
  compile_patterns i process j (p ∷ ps) = elim (go.compile p.match) [
    | none ↦ fails (
        pattern_error i j process
          (codes "compile " ++ (go.quote p.match ++ (codes ": " ++ go.compile_error p.match))))
    | some matches ↦ elim (compile_patterns i process (j + 1) ps) [
      | fails e ↦ fails e
      | gives rest ↦ gives (record { matches = matches; description = p.description } ∷ rest)
    ]
  ]

  -- The first loop of `New`, from one rule on.
  unfoldable pub add_rules :
      ℕ → List Rule → List (Text × CompiledRule) → Try (List (Text × CompiledRule))
  unfolding compile_patterns patterns_of normalize
  add_rules i [] rules = gives rules
  add_rules i (r ∷ rs) rules =
      if is_empty (normalize r.process)
      then fails (rule_error i [] (codes "process must not be empty"))
      else if claimed (normalize r.process) rules
      then fails (rule_error i r.process (codes "duplicate process " ++ go.quote r.process))
      else elim (compile_patterns i r.process 0 (patterns_of r)) [
        | fails e ↦ fails e
        | gives ps ↦ add_rules (i + 1) rs (
            rules
            ++ (
              normalize r.process,
              record { app = r.app; description = r.description; patterns = ps },
            )
              ∷ [])
      ]

  -- The second loop: the keys of `m.expose`.
  unfoldable pub add_exposed : ℕ → List Text → List (Text × CompiledRule) → Try (List Text)
  unfolding normalize
  add_exposed i [] rules = gives []
  add_exposed i (p ∷ ps) rules =
      if is_empty (normalize p)
      then fails (expose_error i [] (codes "process must not be empty"))
      else if not (claimed (normalize p) rules)
      then fails (
          expose_error i p
            (codes "process " ++ (go.quote p ++ codes " has no rule; add a rule for it first")))
      else elim (add_exposed (i + 1) ps rules) [
        | fails e ↦ fails e
        | gives keys ↦ gives (normalize p ∷ keys)
      ]

  -- `New`.
  unfoldable pub new_mapper : Options → Try Mapper
  unfolding add_rules add_exposed
  new_mapper o = elim (add_rules 0 o.rules []) [
    | fails e ↦ fails e
    | gives rules ↦ elim (add_exposed 0 o.expose_title rules) [
      | fails e ↦ fails e
      | gives expose ↦ gives (record {
        rules = rules;
        expose = expose;
        default_app = o.default_app;
        default_description = o.default_description;
        locked_app = o.locked_app;
        locked_description = o.locked_description;
        idle_threshold = o.idle_threshold;
      })
    ]
  ]

-- `time.Duration(seconds) * time.Second`, an `int64` of nanoseconds.
unfoldable pub seconds_duration : ℕ → ℤ
seconds_duration seconds =
    let w = (seconds * 1000000000) % 2 ^ 64 in
    if ltb w (2 ^ 63) then pos w else negsuc (2 ^ 64 - w - 1)

-- `readTitle`, and whether it calls the getter; `none` is a nil getter.
abbrev pub read_title : Option Text → Text
read_title none = []
read_title (some raw) = raw

abbrev pub is_called : Option Text → Bool
is_called none = false
is_called (some raw) = true

-- The description of the first pattern that matches.
unfoldable pub first_match : List CompiledPattern → Text → Text → Text
first_match [] raw otherwise = otherwise
first_match (p ∷ ps) raw otherwise =
    let later = first_match ps raw otherwise in if p.matches raw then p.description else later

-- `Resolve`: the activity, and whether the title was read. A negative count of seconds is 0.
abbrev pub at_least_zero : ℤ → ℕ
at_least_zero (pos n) = n
at_least_zero (negsuc n) = 0

abbrev pub activity : Bool → ℕ → Text → Text → Bool → Activity
activity is_idle seconds app description locked = record {
  app = app;
  description = description;
  idle = is_idle;
  idle_seconds = seconds;
  locked = locked;
}

unfoldable pub resolve : Mapper → Text → Option Text → ℤ → Activity × Bool
unfolding normalize trim_space first_match seconds_duration
resolve m process title idle_seconds =
    let seconds = at_least_zero idle_seconds in
    let is_idle = not (ltb_ℤ (seconds_duration seconds) m.idle_threshold) in
    let report = activity is_idle seconds in
    if is_empty (normalize process)
    then (report m.locked_app m.locked_description true, false)
    else elim (rule_for (normalize process) m.rules) [
      | none ↦ (report m.default_app m.default_description false, false)
      | some rule ↦
          if any (λ k. text_eq k (normalize process)) m.expose
          then (
            report rule.app
                (if is_empty (trim_space (read_title title))
                  then rule.description
                  else trim_space (read_title title))
                false,
            is_called title,
          )
          else elim rule.patterns [
            | [] ↦ (report rule.app rule.description false, false)
            | p ∷ ps ↦ (
              report rule.app (first_match (p ∷ ps) (read_title title) rule.description) false,
              is_called title,
            )
          ]
    ]
