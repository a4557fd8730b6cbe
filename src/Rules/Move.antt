-- ===== src/Rules/Move.antt =====
-- `movePattern`: what a move does to the order in which the agent tries a rule's patterns.
use mathlib.Core.List.{Perm}
use mathlib.Core.List.Perm
use native.Mathlib.Decide.{ℕ_discrete, dec_lt}
use cyberstalk_me.Base.{
  ℕ, zero, suc, ◌<◌, ◌≤◌, ◌≡◌, ◌≢◌, refl, sym, ap, ◌∙◌, ◌⊎◌, inl, inr, Option-cases, none, some,
  List, [], ◌∷◌, length, get_elem?, modify, erase_idx, insert_idx, arith, erase_idx-insert_idx,
  insert_idx-erase_idx, get_elem?-insert_idx_self, length-erase_idx, length-insert_idx,
  get_elem?_of_lt, modify-modify, modify_same, get_elem?-modify_self,
}
use cyberstalk_me.Api.{TitlePattern, Rule, Draft}
use cyberstalk_me.Numbers.{ℤ, pos, negsuc}
use cyberstalk_me.Rules.{patterns_of, only_patterns, patch_rule, update_rule, reorder, move_pattern}

module _ {ℓ} {A : Type ℓ} where
  insert_idx-perm : (xs : List A) (i : ℕ) (y : A) → Perm (insert_idx xs i y) (y ∷ xs)
  insert_idx-perm xs zero y = Perm.refl _
  insert_idx-perm [] (suc i) y = Perm.refl _
  insert_idx-perm (x ∷ xs) (suc i) y =
      Perm.trans (Perm.cons x (insert_idx-perm xs i y)) (Perm.swap y x xs)

  erase_idx-perm :
      (xs : List A) (i : ℕ) {x : A} → get_elem? xs i ≡ some x → Perm (x ∷ erase_idx xs i) xs
  erase_idx-perm [] i h = cc
  erase_idx-perm (y ∷ xs) zero {x} h = let e : x ≡ y = cc in rw e (Perm.refl _)
  erase_idx-perm (y ∷ xs) (suc i) {x} h =
      Perm.trans (Perm.swap y x (erase_idx xs i)) (Perm.cons y (erase_idx-perm xs i h))

  reorder_at :
      (xs : List A) (from to : ℕ) (x : A)
      → get_elem? xs from ≡ some x
      → reorder xs from to ≡ insert_idx (erase_idx xs from) to x
  unfolding reorder
  reorder_at xs from to x e = rw (e, reorder) refl

  module _ (xs : List A) (from to : ℕ) (hf : from < length xs) where
    reorder-perm : Perm (reorder xs from to) xs
    reorder-perm =
        let (x, e) = get_elem?_of_lt xs from hf in
        rw (reorder_at xs from to x e)
          (Perm.trans (insert_idx-perm (erase_idx xs from) to x) (erase_idx-perm xs from e))

    length-reorder : length (reorder xs from to) ≡ length xs
    length-reorder =
        let (x, e) = get_elem?_of_lt xs from hf in
        rw (reorder_at xs from to x e)
          (length-insert_idx (erase_idx xs from) to x ∙ length-erase_idx xs from hf)

    module _ (ht : to < length xs) where
      get_elem?-reorder : get_elem? (reorder xs from to) to ≡ get_elem? xs from
      get_elem?-reorder =
          let (x, e) = get_elem?_of_lt xs from hf in
          rw (reorder_at xs from to x e, e)
            (get_elem?-insert_idx_self (erase_idx xs from) to x
              (omega (arith, length-erase_idx xs from hf)))

      erase_idx-reorder : erase_idx (reorder xs from to) to ≡ erase_idx xs from
      erase_idx-reorder =
          let (x, e) = get_elem?_of_lt xs from hf in
          rw (reorder_at xs from to x e) (
            erase_idx-insert_idx (erase_idx xs from) to x
              (omega (arith, length-erase_idx xs from hf)))

      -- Moving back restores the order.
      reorder-reorder : reorder (reorder xs from to) to from ≡ xs
      reorder-reorder =
          let (x, e) = get_elem?_of_lt xs from hf in
          reorder_at (reorder xs from to) to from x (get_elem?-reorder ∙ e)
          ∙ ap (λ ys. insert_idx ys from x) erase_idx-reorder
          ∙ insert_idx-erase_idx xs from x e

-- The patterns of the rule at a position, none where there is no such rule.
unfoldable pub patterns_at : Draft → ℕ → List TitlePattern
patterns_at draft i = elim (get_elem? draft.rules i) [ none ↦ [] | some rule ↦ patterns_of rule ]

patterns_at-of :
    (d : Draft) (i : ℕ) {rule : Rule}
    → get_elem? d.rules i ≡ some rule
    → patterns_at d i ≡ patterns_of rule
unfolding patterns_at
patterns_at-of d i e = rw (e, patterns_at)

patterns_at-update :
    (d : Draft) (i : ℕ) {rule : Rule} (ps : List TitlePattern)
    → get_elem? d.rules i ≡ some rule
    → patterns_at (update_rule d i (only_patterns ps)) i ≡ ps
unfolding update_rule patterns_of
patterns_at-update d i ps e =
    patterns_at-of (update_rule d i (only_patterns ps)) i (get_elem?-modify_self d.rules i _ e)

-- Within the list, a move is `reorder` on the patterns of the one rule.
module _ (d : Draft) (i from to : ℕ) {rule : Rule} (e : get_elem? d.rules i ≡ some rule) where
  move_pattern_within :
      from ≢ to
      → from < length (patterns_of rule)
      → to < length (patterns_of rule)
      → move_pattern d i (pos from) (pos to)
        ≡ update_rule d i (only_patterns (reorder (patterns_of rule) from to))
  unfolding move_pattern
  move_pattern_within ne hf ht = ground arith

  move_pattern_outside :
      (from ≡ to) ⊎ (length (patterns_of rule) ≤ from) ⊎ (length (patterns_of rule) ≤ to)
      → move_pattern d i (pos from) (pos to) ≡ d
  unfolding move_pattern
  move_pattern_outside h = ground arith

reorder_same {ℓ} : {A : Type ℓ} (xs : List A) (i : ℕ) → i < length xs → reorder xs i i ≡ xs
reorder_same xs i h =
    let (x, e) = get_elem?_of_lt xs i h in reorder_at xs i i x e ∙ insert_idx-erase_idx xs i x e

-- A rule with patterns is there.
rule_at :
    (d : Draft) (i n : ℕ)
    → n < length (patterns_at d i)
    → (rule : Rule) × (get_elem? d.rules i ≡ some rule)
unfolding patterns_at
rule_at d i n h = elim (Option-cases (get_elem? d.rules i)) [
  | inl e ↦ absurd (ground (arith, e))
  | inr found ↦ found
]

-- Writing the patterns that are there changes nothing.
update_rule_same :
    (d : Draft) (i n : ℕ)
    → n < length (patterns_at d i)
    → update_rule d i (only_patterns (patterns_at d i)) ≡ d
unfolding update_rule patterns_at patterns_of
update_rule_same d i n h = elim (Option-cases (get_elem? d.rules i)) [
  | inl e ↦ absurd (ground (arith, e))
  | inr (rule, e) ↦ elim (Option-cases rule.title_patterns) [
    | inl null ↦ absurd (ground (arith, e, null))
    | inr (ps, there) ↦
        ap (λ rs. record d { rules = rs })
          (modify_same d.rules i (λ r. patch_rule r (only_patterns (patterns_at d i))) e
            (ground (arith, e, there)))
  ]
]

update_rule-update_rule :
    (d : Draft) (i : ℕ) (ps qs : List TitlePattern)
    → update_rule (update_rule d i (only_patterns ps)) i (only_patterns qs)
      ≡ update_rule d i (only_patterns qs)
unfolding update_rule
update_rule-update_rule d i ps qs = ap (λ rs. record d { rules = rs }) (modify-modify d.rules i _ _)

-- In range, equal positions included, a move writes the reordered patterns.
move_pattern-eq-update_rule :
    (d : Draft) (i from to : ℕ)
    → from < length (patterns_at d i)
    → to < length (patterns_at d i)
    → move_pattern d i (pos from) (pos to)
      ≡ update_rule d i (only_patterns (reorder (patterns_at d i) from to))
move_pattern-eq-update_rule d i from to hf ht =
    let (rule, e) = rule_at d i from hf in
    let same = patterns_at-of d i e in
    elim (ℕ_discrete from to) [
      | yes eq ↦
          move_pattern_outside d i from to e (inl eq)
          ∙ sym (update_rule_same d i from hf)
          ∙ ap (λ ps. update_rule d i (only_patterns ps)) (sym (rw (← eq) (reorder_same _ from hf)))
      | no ne ↦ rw same (move_pattern_within d i from to e ne (rw same at hf) (rw same at ht))
    ]

patterns_at-moved :
    (d : Draft) (i n : ℕ) (ps : List TitlePattern)
    → n < length (patterns_at d i)
    → patterns_at (update_rule d i (only_patterns ps)) i ≡ ps
patterns_at-moved d i n ps h = let (rule, e) = rule_at d i n h in patterns_at-update d i ps e

erase_idx-modify {ℓ} :
    {A : Type ℓ} (xs : List A) (i : ℕ) (f : A → A) → erase_idx (modify xs i f) i ≡ erase_idx xs i
erase_idx-modify [] i f = refl
erase_idx-modify (x ∷ xs) zero f = refl
erase_idx-modify (x ∷ xs) (suc i) f = ap (x ∷◌) (erase_idx-modify xs i f)

rules-update_rule :
    (d : Draft) (i : ℕ) (ps : List TitlePattern)
    → erase_idx (update_rule d i (only_patterns ps)).rules i ≡ erase_idx d.rules i
unfolding update_rule
rules-update_rule d i ps = erase_idx-modify d.rules i _

-- A move within the list puts the pattern at `from` at `to`, and leaves the order of the others
-- and every other rule as they were.
pub move_pattern_lem :
    (d : Draft) (i from to : ℕ)
    → from < length (patterns_at d i)
    → to < length (patterns_at d i)
    → let after = move_pattern d i (pos from) (pos to) in
      (get_elem? (patterns_at after i) to ≡ get_elem? (patterns_at d i) from)
      × (erase_idx (patterns_at after i) to ≡ erase_idx (patterns_at d i) from)
      × (erase_idx after.rules i ≡ erase_idx d.rules i)
move_pattern_lem d i from to hf ht =
    rw (move_pattern-eq-update_rule d i from to hf ht, patterns_at-moved d i from _ hf)
      (
        get_elem?-reorder (patterns_at d i) from to hf ht,
        erase_idx-reorder (patterns_at d i) from to hf ht,
        rules-update_rule d i _,
      )

-- Moving a pattern and moving it back gives the draft back.
pub move_pattern_back :
    (d : Draft) (i from to : ℕ)
    → from < length (patterns_at d i)
    → to < length (patterns_at d i)
    → move_pattern (move_pattern d i (pos from) (pos to)) i (pos to) (pos from) ≡ d
move_pattern_back d i from to hf ht =
    let ps = patterns_at d i in
    let moved = patterns_at-moved d i from (reorder ps from to) hf in
    let long = length-reorder ps from to hf in
    rw (move_pattern-eq-update_rule d i from to hf ht) (
      move_pattern-eq-update_rule (update_rule d i (only_patterns (reorder ps from to))) i to from
        (rw (moved, long) ht) (rw (moved, long) hf)
      ∙ update_rule-update_rule d i (reorder ps from to) _
      ∙ ap (λ qs. update_rule d i (only_patterns qs)) (rw moved (reorder-reorder ps from to hf ht))
      ∙ update_rule_same d i from hf)

abbrev pub Within : Draft → ℕ → ℤ → Type 0
Within d i (pos n) = n < length (patterns_at d i)
Within d i (negsuc n) = ⊥

-- A move that would fall off either end of the rule's patterns, or names no rule, is a no-op.
pub move_pattern_off_end :
    (d : Draft) (i : ℕ) (from to : ℤ)
    → ¬ (Within d i from × Within d i to)
    → move_pattern d i from to ≡ d
unfolding move_pattern patterns_at
move_pattern_off_end d i (pos from) (pos to) h = ground (arith, h)
move_pattern_off_end d i (negsuc n) to h = ground arith
move_pattern_off_end d i (pos from) (negsuc n) h = ground arith

-- Whatever the positions, a move loses and repeats no pattern.
pub move_pattern-perm :
    (d : Draft) (i : ℕ) (from to : ℤ)
    → Perm (patterns_at (move_pattern d i from to) i) (patterns_at d i)
move_pattern-perm d i (pos from) (pos to) =
    let ps = patterns_at d i in
    elim (dec_lt from (length ps)) [
      | no short ↦ rw (move_pattern_off_end d i (pos from) (pos to) (λ h. short h.0)) (Perm.refl _)
      | yes hf ↦ elim (dec_lt to (length ps)) [
        | no short ↦
            rw (move_pattern_off_end d i (pos from) (pos to) (λ h. short h.1)) (Perm.refl _)
        | yes ht ↦
            rw (move_pattern-eq-update_rule d i from to hf ht, patterns_at-moved d i from _ hf)
              (reorder-perm ps from to hf)
      ]
    ]
move_pattern-perm d i (negsuc n) to =
    rw (move_pattern_off_end d i (negsuc n) to (λ h. h.0)) (Perm.refl _)
move_pattern-perm d i (pos from) (negsuc n) =
    rw (move_pattern_off_end d i (pos from) (negsuc n) (λ h. h.1)) (Perm.refl _)
