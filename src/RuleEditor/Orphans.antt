-- ===== src/RuleEditor/Orphans.antt =====
-- Which edits of the rule editor leave an entry of `expose_title` without a rule.
use cyberstalk_me.Base.{
  ℕ, zero, suc, ◌≡◌, refl, sym, ◌∙◌, true, false, ◌||◌, Bool-cases, some, List, [], ◌∷◌, Text,
  get_elem?, modify, erase_idx, any, All, inl, inr, arith,
}
use cyberstalk_me.Api.{Rule, Draft}
use cyberstalk_me.Numbers.{pos}
use cyberstalk_me.Rules.{patch_rule, new_rule, add_rule, update_rule, same_process, exposes_title}
use cyberstalk_me.Rules.Expose.{
  same_process_left, has_rule, NoOrphans, add_rule-NoOrphans, remove_rule-NoOrphans,
  update_rule-NoOrphans, EditsPatterns-NoOrphans, add_pattern-EditsPatterns,
  update_pattern-EditsPatterns, remove_pattern-EditsPatterns, move_pattern-EditsPatterns,
}
use cyberstalk_me.RuleEditor.{
  Edit, add_by_hand, set_process, set_app, set_description, delete_rule, add_row, set_match,
  set_row_description, move_up, move_down, delete_row, no_patch, above, below, apply,
}

-- The edit changes no rule's process name.
abbrev pub KeepsProcesses : Edit → Type 0
KeepsProcesses (set_process i text) = ⊥
KeepsProcesses _ = Unit

-- Every control of the editor but the process input keeps each exposed process with a rule; the
-- button that deletes a rule is among them.
pub apply-NoOrphans :
    (d : Draft) (e : Edit) → KeepsProcesses e → NoOrphans d → NoOrphans (apply d e)
unfolding apply
apply-NoOrphans d add_by_hand k h = unfold add_rule in add_rule-NoOrphans d (new_rule [] [] []) h
apply-NoOrphans d (set_process i text) k h = absurd k
apply-NoOrphans d (set_app i text) k h =
    update_rule-NoOrphans d i (record no_patch { app = some text }) refl h
apply-NoOrphans d (set_description i text) k h =
    update_rule-NoOrphans d i (record no_patch { description = some text }) refl h
apply-NoOrphans d (delete_rule i) k h = remove_rule-NoOrphans d i h
apply-NoOrphans d (add_row i) k h =
    EditsPatterns-NoOrphans d i _ (add_pattern-EditsPatterns d i _) h
apply-NoOrphans d (set_match i j text) k h =
    EditsPatterns-NoOrphans d i _ (update_pattern-EditsPatterns d i j _) h
apply-NoOrphans d (set_row_description i j text) k h =
    EditsPatterns-NoOrphans d i _ (update_pattern-EditsPatterns d i j _) h
apply-NoOrphans d (move_up i j) k h =
    EditsPatterns-NoOrphans d i _ (move_pattern-EditsPatterns d i (pos j) (above j)) h
apply-NoOrphans d (move_down i j) k h =
    EditsPatterns-NoOrphans d i _ (move_pattern-EditsPatterns d i (pos j) (below j)) h
apply-NoOrphans d (delete_row i j) k h =
    EditsPatterns-NoOrphans d i _ (remove_pattern-EditsPatterns d i j) h

has_rule-modify_at :
    (rules : List Rule) (i : ℕ) (f : Rule → Rule) (p : Text) {r : Rule}
    → get_elem? rules i ≡ some r
    → has_rule (modify rules i f) p ≡ has_rule (erase_idx rules i) p || same_process p (f r).process
unfolding has_rule
has_rule-modify_at [] i f p e = cc
has_rule-modify_at (q ∷ rules) zero f p e = ground arith
has_rule-modify_at (q ∷ rules) (suc i) f p {r} e =
    ground (arith, has_rule-modify_at rules i f p {r = r})

has_rule-same :
    (rules : List Rule) (x p : Text) → same_process x p ≡ true → has_rule rules x ≡ has_rule rules p
unfolding has_rule
has_rule-same [] x p h = refl
has_rule-same (r ∷ rules) x p h =
    ground (arith, has_rule-same rules x p h, same_process_left x p r.process h)

rule_of_exposed :
    (rules : List Rule) (names : List Text) (p : Text)
    → any (λ x. same_process x p) names ≡ true
    → All (λ x. has_rule rules x ≡ true) names
    → has_rule rules p ≡ true
rule_of_exposed rules [] p e h = cc
rule_of_exposed rules (x ∷ names) p e h = elim (Bool-cases (same_process x p)) [
  | inl same ↦ sym (has_rule-same rules x p same) ∙ h.0
  | inr other ↦ rule_of_exposed rules names p (rw other at e) h.1
]

-- Renaming the only rule of an exposed process leaves the entry behind, without a rule: the process
-- input, unlike the delete button, does not look at `expose_title`.
pub rename_leaves_orphan :
    (d : Draft) (i : ℕ) (name : Text) {r : Rule}
    → get_elem? d.rules i ≡ some r
    → exposes_title d r.process ≡ true
    → has_rule (erase_idx d.rules i) r.process ≡ false
    → same_process r.process name ≡ false
    → ¬ NoOrphans (apply d (set_process i name))
unfolding apply update_rule exposes_title
rename_leaves_orphan d i name {r} e exposed alone other h =
    let f = λ (q : Rule). patch_rule q (record no_patch { process = some name }) in
    let found = rule_of_exposed (modify d.rules i f) d.expose_title r.process exposed h in
    ground (arith, has_rule-modify_at d.rules i f r.process {r = r} e)
