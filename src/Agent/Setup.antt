-- ===== src/Agent/Setup.antt =====
-- client-windows/internal/setup: draft.go, and the handlers of server.go that read or change the
-- session. `Server` is what `mu` guards, with the configuration that the last save wrote. The disk
-- is an argument: the error of a write, if it fails. Routing, the guards and JSON are left out.
pub mod Idempotent
pub mod Served
pub mod Saves
use cyberstalk_me.Base.{
  ℕ, ◌≡◌, refl, ◌⊎◌, inl, inr, Bool, true, false, not, ◌&&◌, ◌||◌, ◌==◌, any, Option, none, some,
  List, [], ◌∷◌, ◌++◌, Text, codes, is_empty, if◌then◌else◌,
}
use cyberstalk_me.Numbers.{ℤ, pos}
use cyberstalk_me.Api.{Draft, State, ValidationIssue, SaveResult, Preview, Activity, empty_draft}
use cyberstalk_me.Agent.Texts.{trim_space}
use cyberstalk_me.Agent.Mapping.{Mapper, Try, fails, gives, new_mapper, resolve}
use cyberstalk_me.Agent.Config.{
  Library, Config, ValidationError, mapper_options, normalize_config, parse_duration,
  duration_error, format_duration, is_accepted, validate,
}

-- A validation error, or a value.
pub data Checked (A : Type 0) : Type 0 where
  wrong : ValidationError → Checked A
  right : A → Checked A

pub Checked-cases :
    {A : Type 0} (t : Checked A)
    → ((e : ValidationError) × (t ≡ wrong e)) ⊎ ((a : A) × (t ≡ right a))
Checked-cases (wrong e) = inl (e, refl)
Checked-cases (right a) = inr (a, refl)

abbrev pub draft_source : Text
draft_source = codes "draft"

abbrev pub backup_path : Text → Text
backup_path path = path ++ codes ".bak"

-- What the server is started with: the file's path, and the notice of its options.
pub record Session : Type 0 where
  pub config_path : Text
  pub notice : Text

pub record Server : Type 0 where
  pub draft : Config
  pub mapper : Mapper
  pub saved : Option Config

-- `omitempty`.
abbrev pub unless_empty : Text → Option Text
unless_empty s = if is_empty s then none else some s

abbrev pub listed : List Text → Option (List Text)
listed [] = none
listed (f ∷ fs) = some (f ∷ fs)

-- `issueOf`, of a validation error and of another one.
abbrev pub issue_of_error : ValidationError → ValidationIssue
issue_of_error e = record { message = e.message; fields = listed e.fields }

abbrev pub issue_of_text : Text → ValidationIssue
issue_of_text message = record { message = message; fields = none }

abbrev pub mapper_or : Mapper → Try Mapper → Mapper
mapper_or old (fails e) = old
mapper_or old (gives m) = m

-- `isConfigurable` of catalog.go: the name has none of the characters ?*<>|"/\.
abbrev pub is_illegal : ℕ → Bool
is_illegal c =
    (c == 0x3F)
    || (c == 0x2A)
    || (c == 0x3C)
    || (c == 0x3E)
    || (c == 0x7C)
    || (c == 0x22)
    || (c == 0x2F)
    || (c == 0x5C)

abbrev pub is_configurable : Text → Bool
is_configurable process = not (any is_illegal process)

module _ (lib : Library) where
  -- `DraftOf`.
  unfoldable pub draft_of : Config → Draft
  unfolding format_duration
  draft_of c = record {
    server_url = c.server_url;
    device_id = c.device_id;
    token = c.token;
    interval = format_duration lib c.interval;
    device_name = c.device_name;
    idle_threshold = format_duration lib c.idle_threshold;
    default_app = c.default_app;
    default_description = c.default_description;
    locked_app = c.locked_app;
    locked_description = c.locked_description;
    rules = c.rules;
    expose_title = c.expose_title;
  }

  unfoldable pub parse_draft_duration : Text → Text → Checked ℤ
  unfolding trim_space parse_duration
  parse_draft_duration s field =
      if is_empty (trim_space s) then right (pos 0) else elim (parse_duration lib s) [
        | none ↦
            wrong (record {
              source = draft_source;
              fields = field ∷ [];
              message = duration_error lib s;
            })
        | some d ↦ right d
      ]

  abbrev pub raw_config : Draft → ℤ → ℤ → Config
  raw_config d interval idle = record {
    server_url = d.server_url;
    device_id = d.device_id;
    token = d.token;
    interval = interval;
    device_name = d.device_name;
    idle_threshold = idle;
    default_app = d.default_app;
    default_description = d.default_description;
    locked_app = d.locked_app;
    locked_description = d.locked_description;
    rules = d.rules;
    expose_title = d.expose_title;
  }

  -- `Draft.Config`.
  unfoldable pub config_of : Draft → Checked Config
  unfolding parse_draft_duration normalize_config
  config_of d = elim (parse_draft_duration d.interval (codes "interval")) [
    | wrong e ↦ wrong e
    | right interval ↦ elim (parse_draft_duration d.idle_threshold (codes "idle_threshold")) [
      | wrong e ↦ wrong e
      | right idle ↦ right (normalize_config (raw_config d interval idle))
    ]
  ]

  -- `defaultDraft`.
  abbrev pub default_draft : Draft
  default_draft = draft_of (normalize_config (raw_config empty_draft (pos 0) (pos 0)))

  -- `New`, of the options that a server needs.
  unfoldable pub new_server : Config → Option Server
  unfolding new_mapper
  new_server initial = elim (new_mapper lib.go (mapper_options initial)) [
    | fails e ↦ none
    | gives m ↦ some (record { draft = initial; mapper = m; saved = none })
  ]

  module _ (session : Session) where
    abbrev pub state_with_issue : Draft → Option ValidationError → State
    state_with_issue draft issue = record {
      draft = draft;
      config_path = session.config_path;
      backup_path = backup_path session.config_path;
      notice = unless_empty session.notice;
      defaults = default_draft;
      valid = is_accepted issue;
      error = elim issue [ none ↦ none | some e ↦ some (issue_of_error e) ];
    }

    -- The problem of a draft, as `state` finds it.
    abbrev pub problem_of : Checked Config → Option ValidationError
    problem_of (wrong e) = some e
    problem_of (right c) = validate lib draft_source c

    unfoldable pub state : Draft → State
    unfolding config_of validate
    state draft = state_with_issue draft (problem_of (config_of draft))

    unfoldable pub handle_get_config : Server → State
    unfolding state draft_of
    handle_get_config s = state (draft_of s.draft)

    -- `handlePutConfig`, of a body that is a draft; the branches are those of `draft.Config()`.
    abbrev pub put_answer : Draft → Server → Checked Config → State × Server
    put_answer draft s (wrong e) = (state_with_issue draft (some e), s)
    put_answer draft s (right c) = (
      state (draft_of c),
      record s { draft = c; mapper = mapper_or s.mapper (new_mapper lib.go (mapper_options c)) },
    )

    unfoldable pub handle_put_config : Draft → Server → State × Server
    unfolding config_of draft_of state new_mapper
    handle_put_config draft s = put_answer draft s (config_of draft)

    abbrev refused_save : ValidationIssue → SaveResult
    refused_save issue = record {
      saved = false;
      config_path = session.config_path;
      backup_path = none;
      error = some issue;
    }

    -- `handleSave`, with the status of its answer; the branches are those of the validation and of
    -- the write that comes after it. `had_file` is `fileExists`.
    abbrev pub save_answer :
        Bool → Server → Option ValidationError → Option Text → ℕ × SaveResult × Server
    save_answer had_file s (some e) write_error = (400, refused_save (issue_of_error e), s)
    save_answer had_file s none (some message) = (500, refused_save (issue_of_text message), s)
    save_answer had_file s none none = (
      200,
      record {
        saved = true;
        config_path = session.config_path;
        backup_path = if had_file then unless_empty (backup_path session.config_path) else none;
        error = none;
      },
      record s { saved = some s.draft },
    )

    unfoldable pub handle_save : Bool → Option Text → Server → ℕ × SaveResult × Server
    unfolding validate
    handle_save had_file write_error s =
        save_answer had_file s (validate lib session.config_path s.draft) write_error

-- `handlePreview`, of a reading of the foreground window.
unfoldable pub handle_preview : Text → Option Text → ℤ → Server → Preview
unfolding resolve
handle_preview process title idle_seconds s = record {
  activity = (resolve s.mapper process title idle_seconds).0;
  process = process;
  configurable = not (is_empty process) && is_configurable process;
}
