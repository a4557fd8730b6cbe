-- ===== src/Examples/Samples.antt =====
-- Inputs that the tests share, most of them from client-windows/webui/src/lib/rules.test.ts.
use cyberstalk_me.Base.{Text, codes, some, none, List, [], ◌∷◌, true}
use cyberstalk_me.Api.{TitlePattern, Rule, Draft, State, SaveResult, empty_draft}

abbrev pub pattern : Text → TitlePattern
pattern m = record { match = m; description = codes "d" }

abbrev pub rule_of : Text → Rule
rule_of p = record { process = p; app = codes "A"; description = []; title_patterns = some [] }

abbrev pub chrome : Rule
chrome = record {
  process = codes "chrome.exe";
  app = codes "Chrome";
  description = codes "在上网";
  title_patterns =
      some (pattern (codes "youtube") ∷ pattern (codes "github") ∷ pattern (codes "mail") ∷ []);
}

abbrev pub draft_with : List Rule → List Text → Draft
draft_with rules exposed = record empty_draft { rules = rules; expose_title = exposed }

abbrev pub chrome_draft : Draft
chrome_draft = draft_with (chrome ∷ []) (codes "CHROME.EXE" ∷ [])

abbrev pub good_state : Draft → State
good_state d = record {
  draft = d;
  config_path = codes "config.yaml";
  backup_path = [];
  notice = none;
  defaults = empty_draft;
  valid = true;
  error = none;
}

abbrev pub good_save : SaveResult
good_save = record {
  saved = true;
  config_path = codes "config.yaml";
  backup_path = none;
  error = none;
}
