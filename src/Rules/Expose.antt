-- ===== src/Rules/Expose.antt =====
-- `expose_title`: the switch for one process, and the entries that point at no rule.
use cyberstalk_me.Base.{
  ℕ, zero, suc, ◌≡◌, refl, ap, ◌∙◌, ◌⊎◌, inl, inr, Bool, true, false, ◌||◌, Bool-cases,
  Option-cases, none, some, List, [], ◌∷◌, ◌++◌, Text, text_eq_iff, get_elem?, modify, erase_idx,
  erase_idx-none, any, any-append, All, All-mono, All-concat, if◌then◌else◌, length, leb, ◌==◌,
  arith,
}
use cyberstalk_me.Api.{TitlePattern, Rule, Draft}
use cyberstalk_me.Numbers.{ℤ, pos, negsuc}
use cyberstalk_me.Rules.{
  RulePatch, PatternPatch, patterns_of, only_patterns, patch_rule, patch_pattern, move_checked,
  reorder, add_rule, update_rule, remove_rule, add_pattern, update_pattern, remove_pattern,
  move_pattern, move_within, same_process, normalize_process, without, exposes_title,
  set_expose_title,
}

-- Names are the same process for the agent when their normal forms are equal.
pub same_process_refl : (p : Text) → same_process p p ≡ true
unfolding same_process
same_process_refl p = (text_eq_iff _ _).1 refl

pub same_process_left :
    (p q r : Text) → same_process p q ≡ true → same_process p r ≡ same_process q r
unfolding same_process
same_process_left p q r h = rw ((text_eq_iff (normalize_process p) (normalize_process q)).0 h)

same_process_right : (p q r : Text) → same_process q r ≡ true → same_process p q ≡ same_process p r
unfolding same_process
same_process_right p q r h = rw ((text_eq_iff (normalize_process q) (normalize_process r)).0 h)

any-without_same :
    (ps : List Text) (p q : Text)
    → same_process p q ≡ true
    → any (λ x. same_process x q) (without p ps) ≡ false
any-without_same [] p q h = refl
any-without_same (x ∷ ps) p q h =
    ground (arith, any-without_same ps p q h, same_process_right x p q h)

any-without_other :
    (ps : List Text) (p q : Text)
    → same_process p q ≡ false
    → any (λ x. same_process x q) (without p ps) ≡ any (λ x. same_process x q) ps
any-without_other [] p q h = refl
any-without_other (x ∷ ps) p q h =
    ground (arith, any-without_other ps p q h, same_process_left x p q)

-- After the switch is set for `p`, exactly the names of that process read as it was set; every
-- other process reads as before.
pub exposes_title-set_expose_title :
    (d : Draft) (p q : Text) (on : Bool)
    → exposes_title (set_expose_title d p on) q
      ≡ (if same_process p q then on else exposes_title d q)
unfolding exposes_title set_expose_title
exposes_title-set_expose_title d p q on =
    let matches = λ (x : Text). same_process x q in
    ground (
      arith,
      any-without_same d.expose_title p q,
      any-without_other d.expose_title p q,
      any-append matches (without p d.expose_title) (p ∷ []),
    )

-- Some rule claims the process.
unfoldable pub has_rule : List Rule → Text → Bool
has_rule rules p = any (λ r. same_process p r.process) rules

-- Every exposed process has a rule: the agent refuses to start with any other configuration.
abbrev pub NoOrphans : Draft → Type 0
NoOrphans d = All (λ p. has_rule d.rules p ≡ true) d.expose_title

All-without :
    {P Q : Text → Type 0} (p : Text) (xs : List Text)
    → ((x : Text) → same_process x p ≡ false → P x → Q x)
    → All P xs
    → All Q (without p xs)
All-without p [] f h = tt
All-without p (x ∷ xs) f h = elim (Bool-cases (same_process x p)) [
  | inl same ↦ rw same (All-without p xs f h.1)
  | inr other ↦ rw other (f x other h.0, All-without p xs f h.1)
]

has_rule-erase_idx :
    (rules : List Rule) (i : ℕ) (x : Text) {r : Rule}
    → get_elem? rules i ≡ some r
    → same_process x r.process ≡ false
    → has_rule rules x ≡ true
    → has_rule (erase_idx rules i) x ≡ true
unfolding has_rule
has_rule-erase_idx [] i x e n h = cc
has_rule-erase_idx (q ∷ rules) zero x e n h = ground arith
has_rule-erase_idx (q ∷ rules) (suc i) x e n h = ground (arith, has_rule-erase_idx rules i x e n)

remove_rule_at :
    (d : Draft) (i : ℕ) {r : Rule}
    → get_elem? d.rules i ≡ some r
    → remove_rule d i
      ≡ record d { rules = erase_idx d.rules i; expose_title = without r.process d.expose_title }
remove_rule_at d i e = unfold remove_rule in rw (e, remove_rule) refl

remove_rule-none : (d : Draft) (i : ℕ) → get_elem? d.rules i ≡ none → remove_rule d i ≡ d
remove_rule-none d i e =
    unfold remove_rule in
    rw (e, remove_rule) (ap (λ rs. record d { rules = rs }) (erase_idx-none d.rules i e))

-- Removing a rule drops the entries that point at it, so none is left without a rule.
pub remove_rule-NoOrphans : (d : Draft) (i : ℕ) → NoOrphans d → NoOrphans (remove_rule d i)
remove_rule-NoOrphans d i h = elim (Option-cases (get_elem? d.rules i)) [
  | inl e ↦ rw (remove_rule-none d i e) h
  | inr (r, e) ↦
      rw (remove_rule_at d i e)
        (All-without r.process d.expose_title (λ x n old. has_rule-erase_idx d.rules i x e n old) h)
]

has_rule-modify :
    (rules : List Rule) (i : ℕ) (f : Rule → Rule) (x : Text)
    → ((r : Rule) → (f r).process ≡ r.process)
    → has_rule (modify rules i f) x ≡ has_rule rules x
unfolding has_rule
has_rule-modify [] i f x same = refl
has_rule-modify (r ∷ rules) zero f x same = ground (arith, same r)
has_rule-modify (r ∷ rules) (suc i) f x same = ground (arith, has_rule-modify rules i f x same)

-- An update that leaves the process name alone keeps every entry's rule.
pub update_rule-NoOrphans :
    (d : Draft) (i : ℕ) (patch : RulePatch)
    → patch.process ≡ none
    → NoOrphans d
    → NoOrphans (update_rule d i patch)
unfolding update_rule
update_rule-NoOrphans d i patch e h =
    All-mono d.expose_title
      (λ x old. has_rule-modify d.rules i (λ r. patch_rule r patch) x (λ r. rw e refl) ∙ old) h

pub add_rule-NoOrphans : (d : Draft) (r : Rule) → NoOrphans d → NoOrphans (add_rule d r)
unfolding add_rule has_rule
add_rule-NoOrphans d r h =
    All-mono d.expose_title
      (λ x old.
        ground (arith, old, any-append (λ (q : Rule). same_process x q.process) d.rules (r ∷ [])))
      h

-- Turning the switch on for a process with a rule, or off for any, leaves no orphan.
pub set_expose_title-NoOrphans :
    (d : Draft) (p : Text) (on : Bool)
    → (on ≡ true → has_rule d.rules p ≡ true)
    → NoOrphans d
    → NoOrphans (set_expose_title d p on)
unfolding set_expose_title
set_expose_title-NoOrphans d p true ok h =
    All-concat _ (without p d.expose_title) p (All-without p d.expose_title (λ x _ old. old) h)
      (ok refl)
set_expose_title-NoOrphans d p false ok h = All-without p d.expose_title (λ x _ old. old) h

-- What an edit of one rule's patterns does to the draft.
abbrev pub EditsPatterns : Draft → ℕ → Draft → Type 0
EditsPatterns d i after =
    (after ≡ d) ⊎ ((ps : List TitlePattern) × (after ≡ update_rule d i (only_patterns ps)))

pub EditsPatterns-NoOrphans :
    (d : Draft) (i : ℕ) (after : Draft) → EditsPatterns d i after → NoOrphans d → NoOrphans after
EditsPatterns-NoOrphans d i after (inl e) h = rw e h
EditsPatterns-NoOrphans d i after (inr (ps, e)) h =
    rw e (update_rule-NoOrphans d i (only_patterns ps) refl h)

pub add_pattern-EditsPatterns :
    (d : Draft) (i : ℕ) (p : TitlePattern) → EditsPatterns d i (add_pattern d i p)
add_pattern-EditsPatterns d i p = elim (Option-cases (get_elem? d.rules i)) [
  | inl e ↦ inl (unfold add_pattern in rw (e, add_pattern))
  | inr (r, e) ↦ inr (patterns_of r ++ p ∷ [], unfold add_pattern in rw (e, add_pattern))
]

pub update_pattern-EditsPatterns :
    (d : Draft) (i j : ℕ) (patch : PatternPatch) → EditsPatterns d i (update_pattern d i j patch)
update_pattern-EditsPatterns d i j patch = elim (Option-cases (get_elem? d.rules i)) [
  | inl e ↦ inl (unfold update_pattern in rw (e, update_pattern))
  | inr (r, e) ↦ inr (
    modify (patterns_of r) j (λ p. patch_pattern p patch),
    unfold update_pattern in rw (e, update_pattern),
  )
]

pub remove_pattern-EditsPatterns : (d : Draft) (i j : ℕ) → EditsPatterns d i (remove_pattern d i j)
remove_pattern-EditsPatterns d i j = elim (Option-cases (get_elem? d.rules i)) [
  | inl e ↦ inl (unfold remove_pattern in rw (e, remove_pattern))
  | inr (r, e) ↦ inr (erase_idx (patterns_of r) j, unfold remove_pattern in rw (e, remove_pattern))
]

move_within-EditsPatterns :
    (d : Draft) (i : ℕ) (r : Rule) (from to : ℕ) → EditsPatterns d i (move_within d i r from to)
unfolding move_within
move_within-EditsPatterns d i r from to =
    let n = length (patterns_of r) in
    elim (Bool-cases (from == to || leb n from || leb n to)) [
      | inl edge ↦ inl (rw edge)
      | inr inside ↦ inr (reorder (patterns_of r) from to, rw inside)
    ]

move_checked-EditsPatterns :
    (d : Draft) (i : ℕ) (r : Rule) (from to : ℤ) → EditsPatterns d i (move_checked d i r from to)
move_checked-EditsPatterns d i r (pos a) (pos b) = move_within-EditsPatterns d i r a b
move_checked-EditsPatterns d i r (pos a) (negsuc b) = inl refl
move_checked-EditsPatterns d i r (negsuc a) b = inl refl

pub move_pattern-EditsPatterns :
    (d : Draft) (i : ℕ) (from to : ℤ) → EditsPatterns d i (move_pattern d i from to)
unfolding move_pattern
move_pattern-EditsPatterns d i from to = elim (Option-cases (get_elem? d.rules i)) [
  | inl e ↦ rw (e, move_pattern) (inl refl)
  | inr (r, e) ↦ rw (e, move_pattern) (move_checked-EditsPatterns d i r from to)
]
