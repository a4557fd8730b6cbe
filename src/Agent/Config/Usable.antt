-- ===== src/Agent/Config/Usable.antt =====
-- `Validate` as a whole: the configurations that it accepts.
use cyberstalk_me.Base.{
  ℕ, ◌+◌, ◌≡◌, refl, ap₂, ◌∙◌, inl, inr, Bool, false, not, ◌&&◌, Option, none, some, Option-cases,
  List, [], ◌∷◌, Text, codes, is_empty, all, arith,
}
use cyberstalk_me.Api.{Rule}
use cyberstalk_me.Numbers.{ℤ}
use cyberstalk_me.Agent.Texts.{trim_space}
use cyberstalk_me.Agent.Mapping.{Mapper, Try, new_mapper, gives, fails}
use cyberstalk_me.Agent.Mapping.Compiled.{is_usable, succeeds}
use cyberstalk_me.Agent.Mapping.Usable.{new_mapper-usable}
use cyberstalk_me.Agent.Config.{
  Library, Config, rule_problem, ValidationError, mapper_options, is_positive, is_web, validate,
  validate_rules, validate_url, validate_missing, validate_mapper, validate_duration, or_else,
  is_accepted,
}

abbrev pub is_named : Rule → Bool
is_named r = not (is_empty (trim_space r.process)) && not (is_empty (trim_space r.app))

module _ (lib : Library) where
  abbrev pub is_web_url : Text → Bool
  is_web_url url = elim (lib.parse_url url) [
    | none ↦ false
    | some (scheme, host) ↦ is_web scheme host
  ]

  -- What a configuration must be for the agent to start with it.
  abbrev pub is_startable : Config → Bool
  is_startable c =
      (not (is_empty c.server_url) && not (is_empty c.device_id) && not (is_empty c.token))
      && is_web_url c.server_url
      && is_positive c.interval
      && is_positive c.idle_threshold
      && all is_named c.rules
      && is_usable lib.go (mapper_options c)

  or_else-accepted :
      (a b : Option ValidationError) → is_accepted (or_else a b) ≡ is_accepted a && is_accepted b
  or_else-accepted none b = refl
  or_else-accepted (some e) b = refl

  validate_rules-accepted :
      (source : Text) (i : ℕ) (rs : List Rule)
      → is_accepted (validate_rules source i rs) ≡ all is_named rs
  unfolding validate_rules
  validate_rules-accepted source i [] = refl
  validate_rules-accepted source i (r ∷ rs) =
      ground (arith, validate_rules-accepted source (i + 1) rs)

  validate_missing-accepted :
      (source : Text) (c : Config)
      → is_accepted (validate_missing lib source c)
        ≡ not (is_empty c.server_url) && not (is_empty c.device_id) && not (is_empty c.token)
  validate_missing-accepted source c = ground arith

  validate_duration-accepted :
      (source key : Text) (d : ℤ) → is_accepted (validate_duration lib source key d) ≡ is_positive d
  validate_duration-accepted source key d = ground arith

  validate_url-accepted :
      (source url : Text) → is_accepted (validate_url lib source url) ≡ is_web_url url
  validate_url-accepted source url = elim (Option-cases (lib.parse_url url)) [
    | inl e ↦ ground (arith, e)
    | inr ((scheme, host), e) ↦ ground (arith, e)
  ]

  rule_problem-accepted :
      (source : Text) (t : Try Mapper) → is_accepted (rule_problem source t) ≡ succeeds t
  rule_problem-accepted source (gives m) = refl
  rule_problem-accepted source (fails e) = refl

  -- The agent starts with a configuration exactly if the required keys are set, the address is one
  -- of http or https with a host, both durations are positive, every rule has a process and an
  -- app, and the rules compile.
  pub validate-startable :
      (source : Text) (c : Config) → is_accepted (validate lib source c) ≡ is_startable c
  unfolding validate
  validate-startable source c =
      let from_mapper =
        rule_problem-accepted source (new_mapper lib.go (mapper_options c))
        ∙ new_mapper-usable lib.go (mapper_options c) in
      let mapper = validate_mapper lib source c in
      let from_rules =
        or_else-accepted (validate_rules source 0 c.rules) mapper
        ∙ ap₂ (◌&&◌) (validate_rules-accepted source 0 c.rules) from_mapper in
      let rules = or_else (validate_rules source 0 c.rules) mapper in
      let idle = validate_duration lib source (codes "idle_threshold") c.idle_threshold in
      let from_idle =
        or_else-accepted idle rules
        ∙ ap₂ (◌&&◌) (validate_duration-accepted source (codes "idle_threshold") c.idle_threshold)
            from_rules in
      let interval = validate_duration lib source (codes "interval") c.interval in
      let from_interval =
        or_else-accepted interval (or_else idle rules)
        ∙ ap₂ (◌&&◌) (validate_duration-accepted source (codes "interval") c.interval) from_idle in
      let url = validate_url lib source c.server_url in
      let from_url =
        or_else-accepted url (or_else interval (or_else idle rules))
        ∙ ap₂ (◌&&◌) (validate_url-accepted source c.server_url) from_interval in
      or_else-accepted (validate_missing lib source c)
        (or_else url (or_else interval (or_else idle rules)))
      ∙ ap₂ (◌&&◌) (validate_missing-accepted source c) from_url
      ∙ ground arith
