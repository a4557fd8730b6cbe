-- ===== src/ConfigPage/View.antt =====
-- client-windows/webui/src/App.tsx: what the page shows, and the edits that discovery makes.
use cyberstalk_me.Base.{
  Bool, true, false, not, ◌||◌, Option, none, some, List, [], ◌∷◌, ◌++◌, Text, codes, text_eq,
  is_empty, any, find_index, if◌then◌else◌,
}
use cyberstalk_me.Api.{Rule, Draft}
use cyberstalk_me.Rules.{new_rule, add_rule, add_pattern, normalize_process}
use cyberstalk_me.ConfigPage.{Page, is_valid}

-- `handleAddRule`: the rules that normalise like the process are looked up first.
abbrev pub claims_process : Text → Rule → Bool
claims_process process r = text_eq (normalize_process r.process) (normalize_process process)

unfoldable pub discovered_rule : Text → Draft → Draft
discovered_rule process draft =
    if any (claims_process process) draft.rules
    then draft
    else add_rule draft (new_rule process [] [])

-- `handleAddPattern` once the suggestion is there; without one the pattern is empty.
unfoldable pub discovered_pattern : Text → Option Text → Draft → Draft
discovered_pattern process suggestion draft =
    let pattern : Text = elim suggestion [ none ↦ [] | some found ↦ found ] in
    elim (find_index (claims_process process) draft.rules) [
      | none ↦ draft
      | some index ↦ add_pattern draft index (record { match = pattern; description = [] })
    ]

-- The three screens.
pub data Screen : Type 0 where
  reading done editor : Screen

unfoldable pub screen : Page → Screen
screen p = if p.loading then reading else if p.finished then done else editor

-- `SaveControls`: the badge, and whether the two buttons are disabled.
pub record Controls : Type 0 where
  pub badge : Option Text
  pub disabled : Bool
  pub spinning : Bool

unfoldable pub save_controls : Page → Controls
save_controls p = record {
  badge =
      if is_valid p then if p.dirty then some (codes "有改动没保存") else none else some (codes "还不能保存");
  disabled = not (is_valid p) || p.saving;
  spinning = p.saving;
}

-- The tones of a `Message`, and the role that it has for a screen reader.
pub data Tone : Type 0 where
  destructive warning info success : Tone

unfoldable pub is_alert : Tone → Bool
is_alert destructive = true
is_alert warning = true
is_alert _ = false

abbrev pub said : Tone → Option Text → List (Tone × Text)
said tone none = []
said tone (some text) = if is_empty text then [] else (tone, text) ∷ []

-- `config.valid ? null : (config.issue?.message ?? null)`.
abbrev pub issue_of : Page → Option Text
issue_of p = elim p.state [
  | none ↦ none
  | some s ↦
      if s.valid then none else elim s.error [ none ↦ none | some issue ↦ some issue.message ]
]

abbrev pub notice_of : Page → Option Text
notice_of p = elim p.state [ none ↦ none | some s ↦ s.notice ]

abbrev pub issue_text : Option Text → Option Text
issue_text none = none
issue_text (some m) = if is_empty m then none else some (codes "agent 不会接受这份配置：" ++ m)

-- The stack of messages, by urgency.
unfoldable pub messages : Page → List (Tone × Text)
messages p =
    said destructive p.connection_error
    ++ (said destructive p.save_error
        ++ (said warning (issue_text (issue_of p))
            ++ (said info (notice_of p) ++ said success p.saved)))

-- The page asks before it is closed.
abbrev pub warns_on_close : Page → Bool
warns_on_close p = p.dirty
