-- ===== src/Discovery/Offers.antt =====
-- The offers of the discovery panel and what they do to the draft: `handleAddRule` and
-- `handleAddPattern` of client-windows/webui/src/App.tsx.
use cyberstalk_me.Base.{
  ◌≡◌, refl, ap, sym, ◌∙◌, inl, inr, ◌+◌, true, false, not, ◌&&◌, ◌||◌, Bool-cases, List, [], ◌∷◌,
  ◌++◌, Text, text_eq, text_eq_refl, text_eq_sound, is_empty, leb, any, any-append, map, arith,
  if◌then◌else◌,
}
use cyberstalk_me.Api.{Rule, Draft}
use cyberstalk_me.Rules.{normalize_process, new_rule, add_rule, has, duplicate_processes}
use cyberstalk_me.Rules.Duplicates.{claims, duplicate_processes_lem}
use cyberstalk_me.ConfigPage.View.{claims_process, discovered_rule}
use cyberstalk_me.Discovery.{is_configured, configured_processes}

is_configured_lem :
    (draft : Draft) (process : Text)
    → is_configured draft process ≡ any (claims_process process) draft.rules
unfolding is_configured
is_configured_lem draft process = any-map process draft.rules
  where
    any-map :
        (process : Text) (rules : List Rule)
        → any
            (λ p. text_eq p (normalize_process process))
            (map (λ rule. normalize_process rule.process) rules)
          ≡ any (claims_process process) rules
    any-map process [] = refl
    any-map process (rule ∷ rules) =
        ap (λ b. text_eq (normalize_process rule.process) (normalize_process process) || b)
          (any-map process rules)

discovered_known :
    (process : Text) (draft : Draft)
    → is_configured draft process ≡ true
    → discovered_rule process draft ≡ draft
unfolding discovered_rule
discovered_known process draft h = rw (sym (is_configured_lem draft process) ∙ h) refl

discovered_unknown :
    (process : Text) (draft : Draft)
    → is_configured draft process ≡ false
    → discovered_rule process draft ≡ add_rule draft (new_rule process [] [])
unfolding discovered_rule
discovered_unknown process draft h = rw (sym (is_configured_lem draft process) ∙ h) refl

is_configured-add_rule :
    (draft : Draft) (process other : Text)
    → is_configured (add_rule draft (new_rule process [] [])) other
      ≡ is_configured draft other || text_eq (normalize_process process) (normalize_process other)
unfolding add_rule new_rule
is_configured-add_rule draft process other =
    let rule = new_rule process [] [] in
    is_configured_lem (add_rule draft rule) other
    ∙ any-append (claims_process other) draft.rules (rule ∷ [])
    ∙ ground (arith, is_configured_lem draft other)

-- A name that is configured stays so, as do all with its normal form.
is_configured-same :
    (draft : Draft) (process other : Text)
    → normalize_process process ≡ normalize_process other
    → is_configured draft process ≡ is_configured draft other
unfolding is_configured
is_configured-same draft process other e =
    ap (λ n. any (λ p. text_eq p n) (configured_processes draft)) e

-- Exactly the processes with its normal form become configured by the button.
discovered_rule-is_configured :
    (process other : Text) (draft : Draft)
    → is_configured (discovered_rule process draft) other
      ≡ is_configured draft other || text_eq (normalize_process process) (normalize_process other)
discovered_rule-is_configured process other draft =
    elim (Bool-cases (is_configured draft process)) [
      | inl h ↦ elim (Bool-cases (text_eq (normalize_process process) (normalize_process other))) [
        | inl q ↦
            let same = is_configured-same draft process other (text_eq_sound _ _ q) in
            ground (
              arith,
              ap (λ d. is_configured d other) (discovered_known process draft h),
              same,
              h,
              q,
            )
        | inr q ↦
            ground (arith, ap (λ d. is_configured d other) (discovered_known process draft h), q)
      ]
      | inr h ↦
          ap (λ d. is_configured d other) (discovered_unknown process draft h)
          ∙ is_configured-add_rule draft process other
    ]

claims-append :
    (rules : List Rule) (rule : Rule) (key : Text)
    → claims (rules ++ rule ∷ []) key
      ≡ claims rules key + (if text_eq (normalize_process rule.process) key then 1 else 0)
unfolding claims
claims-append [] rule key = ground arith
claims-append (r ∷ rules) rule key = ground (arith, claims-append rules rule key)

claims-unclaimed :
    (rules : List Rule) (process : Text)
    → any (claims_process process) rules ≡ false
    → claims rules (normalize_process process) ≡ 0
unfolding claims
claims-unclaimed [] process h = refl
claims-unclaimed (r ∷ rules) process h = ground (arith, claims-unclaimed rules process)

-- One more rule for a process without any is no second claim.
claims-add_rule :
    (draft : Draft) (process key : Text)
    → is_configured draft process ≡ false
    → leb 2 (claims (add_rule draft (new_rule process [] [])).rules key)
      ≡ leb 2 (claims draft.rules key)
unfolding add_rule new_rule
claims-add_rule draft process key h = elim (Bool-cases (text_eq (normalize_process process) key)) [
  | inl q ↦
      let none_yet =
        ap (claims draft.rules) (sym (text_eq_sound _ _ q))
        ∙ claims-unclaimed draft.rules process (sym (is_configured_lem draft process) ∙ h) in
      ground (arith, q, none_yet, claims-append draft.rules (new_rule process [] []) key)
  | inr q ↦ ground (arith, q, claims-append draft.rules (new_rule process [] []) key)
]

discovered_rule-duplicates :
    (process key : Text) (draft : Draft)
    → has (duplicate_processes (discovered_rule process draft)) key
      ≡ has (duplicate_processes draft) key
discovered_rule-duplicates process key draft = elim (Bool-cases (is_configured draft process)) [
  | inl h ↦ ap (λ d. has (duplicate_processes d) key) (discovered_known process draft h)
  | inr h ↦
      let rule = new_rule process [] [] in
      ap (λ d. has (duplicate_processes d) key) (discovered_unknown process draft h)
      ∙ duplicate_processes_lem (add_rule draft rule) key
      ∙ ap (λ b. not (is_empty key) && b) (claims-add_rule draft process key h)
      ∙ sym (duplicate_processes_lem draft key)
]

-- The button of a discovered application: exactly the processes of its normal form become
-- configured, no name is claimed twice that was not before, and pressing it again changes nothing.
pub discovered_rule_lem :
    (process other : Text) (draft : Draft)
    → (is_configured (discovered_rule process draft) other
        ≡ is_configured draft other
          || text_eq (normalize_process process) (normalize_process other))
      × (has (duplicate_processes (discovered_rule process draft)) other
          ≡ has (duplicate_processes draft) other)
      × (discovered_rule process (discovered_rule process draft) ≡ discovered_rule process draft)
discovered_rule_lem process other draft = (
  discovered_rule-is_configured process other draft,
  discovered_rule-duplicates process other draft,
  discovered_known process (discovered_rule process draft) (
      discovered_rule-is_configured process process draft
      ∙ ground (arith, text_eq_refl (normalize_process process))),
)
