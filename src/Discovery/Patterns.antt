-- ===== src/Discovery/Patterns.antt =====
-- A title sample made into a pattern: `handleAddPattern` of client-windows/webui/src/App.tsx.
use cyberstalk_me.Base.{
  ℕ, ◌≡◌, refl, ap, ◌∙◌, Bool, true, false, Option, none, some, List, [], ◌∷◌, ◌++◌, Text, any,
  length, get_elem?, modify, find_index, arith,
}
use cyberstalk_me.Api.{TitlePattern, Rule, Draft}
use cyberstalk_me.Rules.{add_pattern, patterns_of, update_rule, patch_rule, only_patterns}
use cyberstalk_me.ConfigPage.View.{claims_process, discovered_pattern}

-- The position behind a front part.
module _ {A : Type 0} where
  find_index-after :
      (p : A → Bool) (before after : List A) (x : A)
      → any p before ≡ false
      → p x ≡ true
      → find_index p (before ++ x ∷ after) ≡ some (length before)
  find_index-after p [] after x h e = ground (arith, e)
  find_index-after p (y ∷ before) after x h e =
      ground (arith, find_index-after p before after x (ground arith) e)

  get_elem?-after :
      (before after : List A) (x : A) → get_elem? (before ++ x ∷ after) (length before) ≡ some x
  get_elem?-after [] after x = refl
  get_elem?-after (y ∷ before) after x = get_elem?-after before after x

  modify-after :
      (before after : List A) (x : A) (f : A → A)
      → modify (before ++ x ∷ after) (length before) f ≡ before ++ f x ∷ after
  modify-after [] after x f = refl
  modify-after (y ∷ before) after x f = ap (λ ys. y ∷ ys) (modify-after before after x f)

  find_index-none : (p : A → Bool) (xs : List A) → any p xs ≡ false → find_index p xs ≡ none
  find_index-none p [] h = refl
  find_index-none p (x ∷ xs) h = ground (arith, find_index-none p xs (ground arith))

-- The pattern of a suggestion, or an empty one.
abbrev pub suggested : Option Text → TitlePattern
suggested none = record { match = []; description = [] }
suggested (some found) = record { match = found; description = [] }

-- The rule with one pattern more, behind those it has.
abbrev pub with_pattern : Rule → TitlePattern → Rule
with_pattern rule pattern = record rule { title_patterns = some (patterns_of rule ++ pattern ∷ []) }

add_pattern-after :
    (draft : Draft) (before after : List Rule) (rule : Rule) (pattern : TitlePattern)
    → draft.rules ≡ before ++ rule ∷ after
    → add_pattern draft (length before) pattern
      ≡ record draft { rules = before ++ with_pattern rule pattern ∷ after }
unfolding add_pattern update_rule patterns_of
add_pattern-after draft before after rule pattern e =
    let found =
      ap (λ rules. get_elem? rules (length before)) e ∙ get_elem?-after before after rule in
    let f : Rule → Rule = λ r. patch_rule r (only_patterns (patterns_of rule ++ pattern ∷ [])) in
    let changed =
      ap (λ rules. modify rules (length before) f) e ∙ modify-after before after rule f in
    rw (add_pattern, found) (ap (λ rules. record draft { rules = rules }) changed)

discovered_pattern-found :
    (process : Text) (suggestion : Option Text) (draft : Draft) {index : ℕ}
    → find_index (claims_process process) draft.rules ≡ some index
    → discovered_pattern process suggestion draft ≡ add_pattern draft index (suggested suggestion)
unfolding discovered_pattern
discovered_pattern-found process none draft e = rw (discovered_pattern, e) refl
discovered_pattern-found process (some found) draft e = rw (discovered_pattern, e) refl

pub discovered_pattern_unclaimed :
    (process : Text) (suggestion : Option Text) (draft : Draft)
    → any (claims_process process) draft.rules ≡ false
    → discovered_pattern process suggestion draft ≡ draft
unfolding discovered_pattern
discovered_pattern_unclaimed process suggestion draft h =
    rw (discovered_pattern, find_index-none (claims_process process) draft.rules h) refl

-- The first rule that claims the process gets the suggested pattern, or an empty one without a
-- suggestion, behind its own, and nothing else changes, later rules for the process included.
pub discovered_pattern_lem :
    (process : Text) (suggestion : Option Text) (draft : Draft) (before after : List Rule)
    (rule : Rule)
    → draft.rules ≡ before ++ rule ∷ after
    → any (claims_process process) before ≡ false
    → claims_process process rule ≡ true
    → discovered_pattern process suggestion draft
      ≡ record draft { rules = before ++ with_pattern rule (suggested suggestion) ∷ after }
discovered_pattern_lem process suggestion draft before after rule e h c =
    let found =
      ap (find_index (claims_process process)) e
      ∙ find_index-after (claims_process process) before after rule h c in
    discovered_pattern-found process suggestion draft found
    ∙ add_pattern-after draft before after rule (suggested suggestion) e
