-- ===== src/Rules.antt =====
-- client-windows/webui/src/lib/rules.ts: the pure operations on a draft's rules. A rule index is a
-- position of the rendered list, so a natural number; a move's target may be -1, so an integer.
pub mod Move
pub mod Expose
pub mod Duplicates
use cyberstalk_me.Base.{
  ℕ, Bool, not, ◌||◌, Option, none, some, List, [], ◌∷◌, ◌++◌, Text, leb, ◌==◌, if◌then◌else◌,
  is_empty, text_eq, trim, to_lower, length, get_elem?, modify, erase_idx, insert_idx, any, filter,
}
use cyberstalk_me.Numbers.{ℤ, pos, negsuc}
use cyberstalk_me.Api.{TitlePattern, Rule, Draft}

-- `Partial<Rule>` and `Partial<TitlePattern>`.
pub record RulePatch : Type 0 where
  pub process : Option Text
  pub app : Option Text
  pub description : Option Text
  pub title_patterns : Option (Option (List TitlePattern))

pub record PatternPatch : Type 0 where
  pub match : Option Text
  pub description : Option Text

-- `{ ...old, ...patch }`, key by key.
abbrev pub patched {ℓ} : {A : Type ℓ} → A → Option A → A
patched old none = old
patched old (some new) = new

abbrev pub patch_rule : Rule → RulePatch → Rule
patch_rule rule patch = record {
  process = patched rule.process patch.process;
  app = patched rule.app patch.app;
  description = patched rule.description patch.description;
  title_patterns = patched rule.title_patterns patch.title_patterns;
}

abbrev pub patch_pattern : TitlePattern → PatternPatch → TitlePattern
patch_pattern p patch = record {
  match = patched p.match patch.match;
  description = patched p.description patch.description;
}

abbrev pub only_patterns : List TitlePattern → RulePatch
only_patterns ps = record {
  process = none;
  app = none;
  description = none;
  title_patterns = some (some ps);
}

abbrev pub only_process : Text → RulePatch
only_process p = record { process = some p; app = none; description = none; title_patterns = none }

unfoldable pub patterns_of : Rule → List TitlePattern
patterns_of rule = elim rule.title_patterns [ none ↦ [] | some ps ↦ ps ]

unfoldable pub new_rule : Text → Text → Text → Rule
new_rule process app description = record {
  process = process;
  app = app;
  description = description;
  title_patterns = some [];
}

unfoldable pub add_rule : Draft → Rule → Draft
add_rule draft rule = record draft { rules = draft.rules ++ rule ∷ [] }

unfoldable pub update_rule : Draft → ℕ → RulePatch → Draft
update_rule draft index patch = record draft {
  rules = modify draft.rules index (λ rule. patch_rule rule patch);
}

unfoldable pub normalize_process : Text → Text
normalize_process process = to_lower (trim process)

unfoldable pub same_process : Text → Text → Bool
same_process a b = text_eq (normalize_process a) (normalize_process b)

-- `draft.expose_title.filter((p) => !sameProcess(p, process))`.
abbrev pub without : Text → List Text → List Text
without process = filter (λ p. not (same_process p process))

unfoldable pub remove_rule : Draft → ℕ → Draft
remove_rule draft index = record draft {
  rules = erase_idx draft.rules index;
  expose_title = elim (get_elem? draft.rules index) [
    | none ↦ draft.expose_title
    | some removed ↦ without removed.process draft.expose_title
  ];
}

unfoldable pub add_pattern : Draft → ℕ → TitlePattern → Draft
add_pattern draft rule_index pattern = elim (get_elem? draft.rules rule_index) [
  | none ↦ draft
  | some rule ↦ update_rule draft rule_index (only_patterns (patterns_of rule ++ pattern ∷ []))
]

unfoldable pub update_pattern : Draft → ℕ → ℕ → PatternPatch → Draft
update_pattern draft rule_index pattern_index patch = elim (get_elem? draft.rules rule_index) [
  | none ↦ draft
  | some rule ↦
      update_rule draft rule_index
        (only_patterns (modify (patterns_of rule) pattern_index (λ p. patch_pattern p patch)))
]

unfoldable pub remove_pattern : Draft → ℕ → ℕ → Draft
remove_pattern draft rule_index pattern_index = elim (get_elem? draft.rules rule_index) [
  | none ↦ draft
  | some rule ↦
      update_rule draft rule_index (only_patterns (erase_idx (patterns_of rule) pattern_index))
]

-- The two `splice` calls of `movePattern`, on positions within the list.
unfoldable pub reorder {ℓ} : {A : Type ℓ} → List A → ℕ → ℕ → List A
reorder xs from to = elim (get_elem? xs from) [
  | none ↦ xs
  | some moved ↦ insert_idx (erase_idx xs from) to moved
]

unfoldable pub move_within : Draft → ℕ → Rule → ℕ → ℕ → Draft
unfolding reorder
move_within draft rule_index rule from to =
    let patterns = patterns_of rule in
    if from == to || leb (length patterns) from || leb (length patterns) to
    then draft
    else update_rule draft rule_index (only_patterns (reorder patterns from to))

-- A negative position takes the early return.
abbrev pub move_checked : Draft → ℕ → Rule → ℤ → ℤ → Draft
move_checked draft rule_index rule (pos from) (pos to) = move_within draft rule_index rule from to
move_checked draft rule_index rule (pos from) (negsuc _) = draft
move_checked draft rule_index rule (negsuc _) to = draft

unfoldable pub move_pattern : Draft → ℕ → ℤ → ℤ → Draft
unfolding move_within
move_pattern draft rule_index from to = elim (get_elem? draft.rules rule_index) [
  | none ↦ draft
  | some rule ↦ move_checked draft rule_index rule from to
]

unfoldable pub exposes_title : Draft → Text → Bool
exposes_title draft process = any (λ p. same_process p process) draft.expose_title

unfoldable pub set_expose_title : Draft → Text → Bool → Draft
set_expose_title draft process exposed =
    let rest = without process draft.expose_title in
    record draft { expose_title = if exposed then rest ++ process ∷ [] else rest }

-- A `Set` of strings, as the list of its members in the order of insertion.
unfoldable pub has : List Text → Text → Bool
has set key = any (text_eq key) set

unfoldable pub add : List Text → Text → List Text
unfolding has
add set key = if has set key then set else set ++ key ∷ []

-- The loop of `duplicateProcesses`, over the rules left.
unfoldable pub duplicates_from : List Text → List Text → List Rule → List Text
duplicates_from seen duplicates [] = duplicates
duplicates_from seen duplicates (rule ∷ rest) =
    let key = normalize_process rule.process in
    let skipped = duplicates_from seen duplicates rest in
    let visited =
      duplicates_from (add seen key) (if has seen key then add duplicates key else duplicates)
        rest in
    if is_empty key then skipped else visited

unfoldable pub duplicate_processes : Draft → List Text
unfolding duplicates_from
duplicate_processes draft = duplicates_from [] [] draft.rules
