-- ===== src/Agent/Config.antt =====
-- client-windows/internal/config: config.go and errors.go, the configuration that the agent starts
-- with, and `FormatDuration` of save.go; `RuleError.Error` of mapping/errors.go. `Library` is what
-- they take from Go's libraries. A missing file, YAML and the disk are left out.
pub mod Usable
use cyberstalk_me.Base.{
  ℕ, ◌+◌, ◌*◌, ◌/◌, ◌%◌, ◌-◌, Bool, true, false, not, ◌&&◌, ◌||◌, Option, none, some, List, [], ◌∷◌,
  ◌++◌, Text, codes, text_eq, is_empty, map, show, length, ◌==◌, ltb, if◌then◌else◌,
}
use Prim.Native.Nat.{◌^◌}
use cyberstalk_me.Numbers.{ℤ, pos, negsuc}
use cyberstalk_me.Api.{Rule}
use cyberstalk_me.Agent.Texts.{trim_space}
use cyberstalk_me.Agent.Mapping.{
  Go, Options, Mapper, RuleError, Try, fails, gives, field_path, seconds_duration, new_mapper,
}

-- `time.ParseDuration`, `strconv.Atoi`, `url.Parse` with the scheme and the host of what it gives
-- and the message of its error, and `String` of a duration.
pub record Library : Type 0 where
  pub go : Go
  pub parse_duration : Text → Option ℤ
  pub parse_int : Text → Option ℤ
  pub parse_url : Text → Option (Text × Text)
  pub url_error : Text → Text
  pub duration_text : ℤ → Text

pub record Config : Type 0 where
  pub server_url : Text
  pub device_id : Text
  pub token : Text
  pub interval : ℤ
  pub device_name : Text
  pub idle_threshold : ℤ
  pub default_app : Text
  pub default_description : Text
  pub locked_app : Text
  pub locked_description : Text
  pub rules : List Rule
  pub expose_title : List Text

-- `MapperOptions`.
abbrev pub mapper_options : Config → Options
mapper_options c = record {
  rules = c.rules;
  expose_title = c.expose_title;
  default_app = c.default_app;
  default_description = c.default_description;
  locked_app = c.locked_app;
  locked_description = c.locked_description;
  idle_threshold = c.idle_threshold;
}

-- `strings.TrimRight(s, "/")`.
unfoldable pub trim_slashes : Text → Text
trim_slashes [] = []
trim_slashes (c ∷ s) =
    let rest = trim_slashes s in if c == 0x2F && is_empty rest then [] else c ∷ rest

unfoldable pub or_default : Text → Text → Text
unfolding trim_space
or_default v otherwise = if is_empty (trim_space v) then otherwise else trim_space v

-- A duration that is not zero, or its default.
abbrev pub or_duration : ℤ → ℤ → ℤ
or_duration (pos n) otherwise = if n == 0 then otherwise else pos n
or_duration (negsuc n) otherwise = negsuc n

abbrev pub default_interval : ℤ
default_interval = pos 10000000000

abbrev pub default_idle_threshold : ℤ
default_idle_threshold = pos 300000000000

abbrev pub default_app_text : Text
default_app_text = codes "某个应用"

abbrev pub default_description_text : Text
default_description_text = codes "使用中"

abbrev pub default_locked_app : Text
default_locked_app = codes "已锁屏"

abbrev pub default_locked_description : Text
default_locked_description = codes "人不在"

unfoldable pub fill_description : Text → Rule → Rule
unfolding trim_space
fill_description otherwise r =
    if is_empty (trim_space r.description) then record r { description = otherwise } else r

-- `Normalize`.
unfoldable pub normalize_url : Text → Text
unfolding trim_slashes trim_space
normalize_url s = trim_slashes (trim_space s)

unfoldable pub normalize_config : Config → Config
unfolding normalize_url or_default fill_description trim_space
normalize_config c = record {
  server_url = normalize_url c.server_url;
  device_id = trim_space c.device_id;
  token = trim_space c.token;
  interval = or_duration c.interval default_interval;
  device_name = trim_space c.device_name;
  idle_threshold = or_duration c.idle_threshold default_idle_threshold;
  default_app = or_default c.default_app default_app_text;
  default_description = or_default c.default_description default_description_text;
  locked_app = or_default c.locked_app default_locked_app;
  locked_description = or_default c.locked_description default_locked_description;
  rules =
      map (fill_description (or_default c.default_description default_description_text)) c.rules;
  expose_title = c.expose_title;
}

pub record ValidationError : Type 0 where
  pub source : Text
  pub fields : List Text
  pub message : Text

-- `ValidationError.Error`.
unfoldable pub error_text : ValidationError → Text
error_text e =
    if is_empty e.source
    then e.message
    else codes "config " ++ (e.source ++ (codes ": " ++ e.message))

-- `RuleError.Error`.
unfoldable pub rule_error_text : RuleError → Text
rule_error_text e =
    if e.expose_title
    then codes "expose_title " ++ (show e.index ++ (codes ": " ++ e.message))
    else elim e.pattern [
      | some j ↦
          codes "rule "
          ++ (show e.index
              ++ (codes " ("
                  ++ (e.process
                      ++ (codes ") title_pattern " ++ (show j ++ (codes ": " ++ e.message))))))
      | none ↦ codes "rule " ++ (show e.index ++ (codes ": " ++ e.message))
    ]

-- `joinFields`.
abbrev pub join_fields : List Text → Text
join_fields [] = []
join_fields (p ∷ []) = p
join_fields (p ∷ q ∷ ps) = p ++ (codes ", " ++ join_fields (q ∷ ps))

-- `ruleField`.
abbrev pub rule_field : ℕ → Text → Text
rule_field i key = codes "rules[" ++ (show i ++ (codes "]." ++ key))

abbrev pub when_empty : Text → Text → List Text
when_empty value key = if is_empty value then key ∷ [] else []

abbrev pub missing_fields : Config → List Text
missing_fields c =
    when_empty c.server_url (codes "server_url")
    ++ (when_empty c.device_id (codes "device_id") ++ when_empty c.token (codes "token"))

abbrev pub is_positive : ℤ → Bool
is_positive (pos n) = ltb 0 n
is_positive (negsuc n) = false

abbrev pub invalid : Text → List Text → Text → Option ValidationError
invalid source fields message =
    some (record { source = source; fields = fields; message = message })

-- The loop of `Validate` over the rules.
unfoldable pub validate_rules : Text → ℕ → List Rule → Option ValidationError
unfolding trim_space
validate_rules source i [] = none
validate_rules source i (r ∷ rs) =
    let rest = validate_rules source (i + 1) rs in
    if is_empty (trim_space r.process)
    then invalid source (rule_field i (codes "process") ∷ [])
        (rule_field i (codes "process") ++ codes " must not be empty")
    else if is_empty (trim_space r.app)
    then invalid source (rule_field i (codes "app") ∷ []) (
        codes "rules["
        ++ (show i ++ (codes "] (" ++ (r.process ++ codes "): app must not be empty"))))
    else rest

-- `err == nil`.
abbrev pub is_accepted : Option ValidationError → Bool
is_accepted none = true
is_accepted (some e) = false

-- `or_else a b` is the first problem of two checks.
abbrev pub or_else : Option ValidationError → Option ValidationError → Option ValidationError
or_else none b = b
or_else (some e) b = some e

abbrev pub is_web : Text → Text → Bool
is_web scheme host =
    (text_eq scheme (codes "http") || text_eq scheme (codes "https")) && not (is_empty host)

-- What `Validate` makes of the result of `mapping.New`.
abbrev pub rule_problem : Text → Try Mapper → Option ValidationError
rule_problem source (gives m) = none
rule_problem source (fails e) = invalid source (field_path e ∷ []) (rule_error_text e)

module _ (lib : Library) where
  -- `ParseDuration`.
  unfoldable pub parse_duration : Text → Option ℤ
  unfolding trim_space seconds_duration
  parse_duration s = elim (lib.parse_duration (trim_space s)) [
    | some d ↦ some d
    | none ↦ elim (lib.parse_int (trim_space s)) [
      | none ↦ none
      | some (pos n) ↦ some (seconds_duration n)
      | some (negsuc n) ↦ some (seconds_duration (2 ^ 64 - (n + 1) % 2 ^ 64))
    ]
  ]

  abbrev pub duration_error : Text → Text
  duration_error s =
      codes "invalid duration "
      ++ (lib.go.quote (trim_space s) ++ codes " (examples: 10s, 1m30s, or bare seconds 10)")

  -- `FormatDuration`.
  unfoldable pub format_duration : ℤ → Text
  format_duration (pos n) =
      if n == 0
      then lib.duration_text (pos n)
      else if n % 3600000000000 == 0
      then show (n / 3600000000000) ++ codes "h"
      else if n % 60000000000 == 0
      then show (n / 60000000000) ++ codes "m"
      else if n % 1000000000 == 0
      then show (n / 1000000000) ++ codes "s"
      else lib.duration_text (pos n)
  format_duration (negsuc n) = lib.duration_text (negsuc n)

  abbrev pub validate_url : Text → Text → Option ValidationError
  validate_url source url = elim (lib.parse_url url) [
    | none ↦ invalid source (codes "server_url" ∷ []) (
        codes "server_url "
        ++ (lib.go.quote url ++ (codes " is not a valid URL: " ++ lib.url_error url)))
    | some (scheme, host) ↦
        if is_web scheme host
        then none
        else invalid source (codes "server_url" ∷ []) (
            codes "server_url "
            ++ (lib.go.quote url ++ codes " must be http(s)://host[:port] with no path"))
  ]

  abbrev pub validate_duration : Text → Text → ℤ → Option ValidationError
  validate_duration source key d =
      if is_positive d
      then none
      else invalid source (key ∷ [])
          (key ++ (codes " must be positive, got " ++ lib.duration_text d))

  abbrev pub validate_mapper : Text → Config → Option ValidationError
  validate_mapper source c = rule_problem source (new_mapper lib.go (mapper_options c))

  abbrev pub validate_missing : Text → Config → Option ValidationError
  validate_missing source c = elim (missing_fields c) [
    | [] ↦ none
    | f ∷ fs ↦ invalid source (f ∷ fs) (
        join_fields (f ∷ fs)
        ++ codes " must not be empty (run `server register-device` and paste its snippet)")
  ]

  -- `Validate`: the first problem found, in this order.
  unfoldable pub validate : Text → Config → Option ValidationError
  unfolding validate_rules
  validate source c = or_else (validate_missing source c) (
      or_else (validate_url source c.server_url) (
        or_else (validate_duration source (codes "interval") c.interval) (
          or_else (validate_duration source (codes "idle_threshold") c.idle_threshold)
            (or_else (validate_rules source 0 c.rules) (validate_mapper source c)))))
