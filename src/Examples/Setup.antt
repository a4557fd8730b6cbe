-- ===== src/Examples/Setup.antt =====
-- The agent at concrete drafts, with stand-ins for Go's libraries that read literal patterns, two
-- durations, and addresses without spaces.
use cyberstalk_me.Base.{
  ◌≡◌, refl, true, false, not, ◌||◌, some, none, [], ◌∷◌, Text, codes, text_eq, take, drop, any,
  ◌==◌, if◌then◌else◌, show, to_lower,
}
use cyberstalk_me.Numbers.{pos}
use cyberstalk_me.Api.{Draft}
use cyberstalk_me.Rules.{patterns_of, exposes_title, duplicate_processes}
use cyberstalk_me.Rules.Expose.{NoOrphans}
use cyberstalk_me.Agent.Texts.{normalize}
use cyberstalk_me.Agent.Mapping.{Go, Mapper, gives, new_mapper, resolve}
use cyberstalk_me.Agent.Mapping.Compiled.{succeeds, is_usable}
use cyberstalk_me.Agent.Mapping.Usable.{new_mapper-usable}
use cyberstalk_me.Agent.Mapping.Private.{says, asks_title}
use cyberstalk_me.Agent.Config.{
  Library, Config, mapper_options, normalize_config, is_accepted, validate, parse_duration,
  format_duration,
}
use cyberstalk_me.Agent.Config.Usable.{is_startable, validate-startable}
use cyberstalk_me.Agent.Setup.{Session, Server, right, raw_config, mapper_or, config_of, new_server}
use cyberstalk_me.Agent.Setup.Saves.{IsShown}
use cyberstalk_me.Agent.Setup.Served.{IsServed, put, save, session-IsServed, run as run_session}
use cyberstalk_me.Agent.Exposure.{expose-exposes_title, switched_off_is_private}
use cyberstalk_me.Agent.Warnings.{startable-unmarked}
use cyberstalk_me.Examples.Samples.{chrome, draft_with}

abbrev pub go : Go
go = record {
  compile = λ p. if any (λ c. c == 0x28) p then none else some (text_eq p);
  compile_error = λ p. codes "missing_fields closing )";
  quote = λ p. p;
}

abbrev pub lib : Library
lib = record {
  go = go;
  parse_duration = λ s.
      if text_eq s (codes "10s")
      then some (pos 10000000000)
      else if text_eq s (codes "5m")
      then some (pos 300000000000)
      else none;
  parse_int = λ s. none;
  parse_url = λ s.
      if any (λ c. c == 0x20) s
      then none
      else if text_eq (take 7 s) (codes "http://")
      then some (codes "http", drop 7 s)
      else some ([], []);
  url_error = λ s. codes "invalid character in host name";
  duration_text = λ d. [];
}

abbrev pub session : Session
session = record { config_path = codes "config.yaml"; notice = [] }

-- A draft with an address, and with nothing exposed.
abbrev pub draft_at : Text → Draft
draft_at url = record (draft_with (chrome ∷ []) []) {
  server_url = url;
  device_id = codes "pc";
  token = codes "t";
}

abbrev pub draft : Draft
draft = draft_at (codes "http://h:8080/")

abbrev pub exposing : Draft
exposing = record draft { expose_title = codes "CHROME.EXE" ∷ [] }

unfoldable pub config : Draft → Config
unfolding normalize_config
config d = normalize_config (raw_config lib d (pos 0) (pos 0))

abbrev no_mapper : Mapper
no_mapper = record {
  rules = [];
  expose = [];
  default_app = [];
  default_description = [];
  locked_app = [];
  locked_description = [];
  idle_threshold = pos 0;
}

unfoldable pub mapper : Draft → Mapper
unfolding config new_mapper
mapper d = mapper_or no_mapper (new_mapper go (mapper_options (config d)))

unfoldable pub server : Draft → Server
unfolding config mapper
server d = record { draft = config d; mapper = mapper d; saved = none }

new_mapper-usable_example :
    succeeds (new_mapper go (mapper_options (config exposing)))
    ≡ is_usable go (mapper_options (config exposing))
new_mapper-usable_example = new_mapper-usable go (mapper_options (config exposing))

validate-startable_example :
    is_accepted (validate lib (codes "draft") (config exposing))
    ≡ is_startable lib (config exposing)
validate-startable_example = validate-startable lib (codes "draft") (config exposing)

config_of-draft : config_of lib draft ≡ right (config draft)
unfolding config_of config
config_of-draft = refl

pub config_of-exposing : config_of lib exposing ≡ right (config exposing)
unfolding config_of config
config_of-exposing = refl

made : (new_mapper go (mapper_options (config draft))) ≡ gives (mapper draft)
unfolding mapper to_lower text_eq
made = refl

made_exposing : (new_mapper go (mapper_options (config exposing))) ≡ gives (mapper exposing)
unfolding mapper to_lower text_eq
made_exposing = refl

expose-exposes_title_example :
    any (λ k. text_eq k (normalize (codes "Chrome.exe"))) (mapper exposing).expose
    ≡ exposes_title exposing (codes "Chrome.exe")
expose-exposes_title_example =
    expose-exposes_title lib exposing (config exposing) (mapper exposing) (codes "Chrome.exe")
      config_of-exposing made_exposing (refl, tt) refl

switched_off : exposes_title draft (codes "chrome.exe") ≡ false
unfolding exposes_title
switched_off = refl

switched_off_is_private_example :
    let a = resolve (mapper draft) (codes "chrome.exe") (some (codes "mail")) (pos 3) in
    (says (mapper_options (config draft)) (codes "chrome.exe") a.0.description ≡ true)
    × ((not a.1 || asks_title (mapper_options (config draft)) (codes "chrome.exe")) ≡ true)
switched_off_is_private_example =
    switched_off_is_private lib draft (config draft) (mapper draft) (codes "chrome.exe")
      (some (codes "mail")) (pos 3) config_of-draft made tt refl switched_off

-- The title reaches the description only where the process is exposed.
reports :
    ((resolve (mapper draft) (codes "chrome.exe") (some (codes "mail")) (pos 3)).0.description
      ≡ codes "d")
    × ((resolve (mapper draft) (codes "chrome.exe") (some (codes "x")) (pos 3)).0.description
        ≡ codes "在上网")
    × ((resolve (mapper exposing) (codes "chrome.exe") (some (codes "x")) (pos 3)).0.description
        ≡ codes "x")
unfolding resolve mapper to_lower text_eq
reports = (refl, refl, refl)

pub startable : is_startable lib (config exposing) ≡ true
unfolding config normalize text_eq to_lower patterns_of
startable = refl

startable-unmarked_example : (duplicate_processes exposing ≡ []) × NoOrphans exposing
startable-unmarked_example =
    startable-unmarked lib exposing (config exposing) config_of-exposing ((refl, tt), (refl, tt))
      startable

started : new_server lib (config draft) ≡ some (server draft)
unfolding new_server server to_lower
started = refl

session-IsServed_example :
    IsServed lib session
      (run_session lib session (put exposing ∷ save true none ∷ []) (server draft))
session-IsServed_example =
    session-IsServed lib session (config draft) (server draft) (put exposing ∷ save true none ∷ [])
      started

pub shown : IsShown lib (config exposing)
unfolding config format_duration parse_duration text_eq show
shown = record { url = refl; interval = (refl, refl); idle_threshold = (refl, refl) }
