-- ===== src/Api.antt =====
-- client-windows/webui/src/types/api.ts: the values that the agent and the page exchange. An
-- optional key, and a `null`, are `none`. `patch` records stand for `Partial<...>`, where `none`
-- is a key that the object literal does not name.
use cyberstalk_me.Base.{ℕ, Text, Bool, Option, List, []}

pub record TitlePattern : Type 0 where
  pub match : Text
  pub description : Text

pub record Rule : Type 0 where
  pub process : Text
  pub app : Text
  pub description : Text
  pub title_patterns : Option (List TitlePattern)

pub record Draft : Type 0 where
  pub server_url : Text
  pub device_id : Text
  pub token : Text
  pub interval : Text
  pub device_name : Text
  pub idle_threshold : Text
  pub default_app : Text
  pub default_description : Text
  pub locked_app : Text
  pub locked_description : Text
  pub rules : List Rule
  pub expose_title : List Text

-- `ValidationIssue`; a missing `fields` is `none`.
pub record ValidationIssue : Type 0 where
  pub message : Text
  pub fields : Option (List Text)

pub record State : Type 0 where
  pub draft : Draft
  pub config_path : Text
  pub backup_path : Text
  pub notice : Option Text
  pub defaults : Draft
  pub valid : Bool
  pub error : Option ValidationIssue

-- The time stamps stay texts; `relativeTime` parses them.
pub record TitleSample : Type 0 where
  pub title : Text
  pub first_seen : Text
  pub last_seen : Text
  pub count : ℕ

pub record CatalogApp : Type 0 where
  pub process : Text
  pub first_seen : Text
  pub last_seen : Text
  pub count : ℕ
  pub samples : Option (List TitleSample)
  pub configurable : Bool

pub record CatalogSnapshot : Type 0 where
  pub apps : Option (List CatalogApp)
  pub locked : Bool
  pub locked_seen : ℕ
  pub observations : ℕ

pub record Activity : Type 0 where
  pub app : Text
  pub description : Text
  pub idle : Bool
  pub idle_seconds : ℕ
  pub locked : Bool

pub record Preview : Type 0 where
  pub activity : Activity
  pub process : Text
  pub configurable : Bool

pub record RegexTestResult : Type 0 where
  pub valid : Bool
  pub error : Option Text
  pub matched : List Bool
  pub match_count : ℕ
  pub titles : Option (List Text)

pub record SaveResult : Type 0 where
  pub saved : Bool
  pub config_path : Text
  pub backup_path : Option Text
  pub error : Option ValidationIssue

abbrev pub empty_draft : Draft
empty_draft = record {
  server_url = [];
  device_id = [];
  token = [];
  interval = [];
  device_name = [];
  idle_threshold = [];
  default_app = [];
  default_description = [];
  locked_app = [];
  locked_description = [];
  rules = [];
  expose_title = [];
}
