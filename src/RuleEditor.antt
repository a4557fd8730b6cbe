-- ===== src/RuleEditor.antt =====
-- client-windows/webui/src/components/RuleEditor.tsx: the edits that its controls make, and what
-- each rule's card says. Markup and animation are left out.
pub mod Orphans
pub mod PatternTest
use cyberstalk_me.Base.{
  ℕ, zero, suc, ◌+◌, ◌-◌, Bool, true, false, not, ◌||◌, Option, none, some, List, [], ◌∷◌, ◌++◌,
  map, Text, codes, text_eq, is_empty, or_text, trim, show, any, length, ◌==◌, ltb, if◌then◌else◌,
}
use cyberstalk_me.Api.{TitlePattern, Rule, Draft, RegexTestResult}
use cyberstalk_me.Numbers.{ℤ, pos, negsuc}
use cyberstalk_me.Rules.{
  RulePatch, PatternPatch, patterns_of, new_rule, add_rule, update_rule, remove_rule, add_pattern,
  update_pattern, remove_pattern, move_pattern, normalize_process, has, duplicate_processes,
}

-- The controls: of the editor, of the card at a position, and of a pattern's row on it.
pub data Edit : Type 0 where
  add_by_hand : Edit
  set_process set_app set_description : ℕ → Text → Edit
  delete_rule : ℕ → Edit
  add_row : ℕ → Edit
  set_match set_row_description : ℕ → ℕ → Text → Edit
  move_up move_down : ℕ → ℕ → Edit
  delete_row : ℕ → ℕ → Edit

abbrev pub no_patch : RulePatch
no_patch = record { process = none; app = none; description = none; title_patterns = none }

abbrev pub blank_pattern : TitlePattern
blank_pattern = record { match = []; description = [] }

-- `patternIndex + delta` for the two buttons' deltas.
abbrev pub above : ℕ → ℤ
above zero = negsuc 0
above (suc j) = pos j

abbrev pub below : ℕ → ℤ
below j = pos (j + 1)

unfoldable pub apply : Draft → Edit → Draft
apply d add_by_hand = record d { rules = d.rules ++ new_rule [] [] [] ∷ [] }
apply d (set_process i text) = update_rule d i (record no_patch { process = some text })
apply d (set_app i text) = update_rule d i (record no_patch { app = some text })
apply d (set_description i text) = update_rule d i (record no_patch { description = some text })
apply d (delete_rule i) = remove_rule d i
apply d (add_row i) = add_pattern d i blank_pattern
apply d (set_match i j text) =
    update_pattern d i j (record { match = some text; description = none })
apply d (set_row_description i j text) =
    update_pattern d i j (record { match = none; description = some text })
apply d (move_up i j) = move_pattern d i (pos j) (above j)
apply d (move_down i j) = move_pattern d i (pos j) (below j)
apply d (delete_row i j) = remove_pattern d i j

-- `rules[${index}].${key}` and `rules[${index}].title_patterns[${patternIndex}].match`.
unfoldable pub rule_path : ℕ → Text → Text
rule_path index key = codes "rules[" ++ (show index ++ (codes "]." ++ key))

unfoldable pub match_path : ℕ → ℕ → Text
unfolding rule_path
match_path index j = rule_path index (codes "title_patterns[" ++ (show j ++ codes "].match"))

abbrev pub includes : List Text → Text → Bool
includes fields key = any (λ f. text_eq f key) fields

-- `usePatternTest`'s answer, and the hint under a pattern.
pub record PatternTestState : Type 0 where
  pub valid : Bool
  pub error : Option Text
  pub matched : ℕ
  pub total : ℕ

unfoldable pub test_state : RegexTestResult → PatternTestState
test_state result = record {
  valid = result.valid;
  error = result.error;
  matched = result.match_count;
  total = elim result.titles [ none ↦ 0 | some titles ↦ length titles ];
}

pub data Hint : Type 0 where
  matches_all checking : Hint
  invalid : Option Text → Hint
  no_samples : Hint
  hits : ℕ → ℕ → Bool → Hint  -- matched, total, and whether it says that none matched

unfoldable pub match_hint : Text → Option PatternTestState → Hint
match_hint match test = if is_empty (trim match) then matches_all else elim test [
  | none ↦ checking
  | some t ↦
      if not t.valid
      then invalid t.error
      else if t.total == 0
      then no_samples
      else hits t.matched t.total (t.matched == 0)
]

-- One pattern's row: the buttons' `disabled`, and whether its input is marked.
pub record RowView : Type 0 where
  pub up_disabled : Bool
  pub down_disabled : Bool
  pub marked : Bool
  pub hint : Hint

unfoldable pub row_view : List Text → ℕ → ℕ → ℕ → TitlePattern → Option PatternTestState → RowView
row_view fields index count j pattern test = record {
  up_disabled = j == 0;
  down_disabled = j == count - 1;
  marked =
      includes fields (match_path index j) || elim test [ none ↦ false | some t ↦ not t.valid ];
  hint = match_hint pattern.match test;
}

-- One rule's card: the messages under its inputs, and the label of the button that deletes it.
pub record CardView : Type 0 where
  pub process_error : Option Text
  pub process_marked : Bool
  pub app_error : Option Text
  pub delete_label : Text
  pub row_count : ℕ

unfoldable pub card_view : Draft → List Text → ℕ → Rule → CardView
card_view draft fields index rule =
    let duplicate = has (duplicate_processes draft) (normalize_process rule.process) in
    let flagged = λ (key : Text). includes fields (rule_path index key) in
    record {
      process_error =
          if duplicate
          then some (codes "这个进程已经有规则了，同一个进程只能有一条")
          else if flagged (codes "process")
          then some (codes "进程名不能为空")
          else none;
      process_marked = duplicate || flagged (codes "process");
      app_error = if flagged (codes "app") then some (codes "显示名不能为空") else none;
      delete_label = codes "删除 " ++ (or_text rule.process (codes "这条") ++ codes " 的规则");
      row_count = length (patterns_of rule);
    }

-- The cards of the rules from a position on, and the editor around them.
cards_from : Draft → List Text → ℕ → List Rule → List CardView
cards_from draft fields index [] = []
cards_from draft fields index (rule ∷ rest) =
    card_view draft fields index rule ∷ cards_from draft fields (index + 1) rest

pub record EditorView : Type 0 where
  pub default_hint : Text
  pub says_empty : Bool
  pub cards : List CardView

unfoldable pub editor_view : Draft → List Text → EditorView
unfolding cards_from card_view
editor_view draft fields = record {
  default_hint = codes "没有规则的应用只会显示成「" ++ (or_text draft.default_app (codes "某个应用") ++ codes "」");
  says_empty = length draft.rules == 0;
  cards = cards_from draft fields 0 draft.rules;
}
