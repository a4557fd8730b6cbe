-- ===== src/DangerZone/Gate.antt =====
-- The confirmation gate: what has to happen before a process is exposed.
use mathlib.Core.Option.{some-injective}
use cyberstalk_me.Base.{
  ◌≡◌, refl, sym, ap, ◌∙◌, ◌↔◌, inl, inr, Bool, true, false, not, Bool-cases, Option-cases, Option,
  none, some, List, [], ◌∷◌, Text, text_eq, text_eq_iff, is_empty, trim, to_lower,
  is_empty-to_lower, ◌⊎◌, map, filter, find, if◌then◌else◌, arith,
}
use cyberstalk_me.Api.{Rule, Draft, RegexTestResult}
use cyberstalk_me.Rules.{normalize_process, same_process, exposes_title, set_expose_title}
use cyberstalk_me.Rules.Expose.{
  exposes_title-set_expose_title, has_rule, NoOrphans, set_expose_title-NoOrphans,
  same_process_refl,
}
use cyberstalk_me.Confirm.{confirmation_matches}
use cyberstalk_me.DangerZone.{
  Row, row, rows, Zone, same_pending, set_pending, Action, expose, conceal, write, cancel, confirm,
  polled, row_of, poll, press_confirm, act,
}

-- What was typed is accepted exactly when its normal form is that of the process, which has a
-- name.
pub confirmation_matches_iff :
    (input process : Text)
    → (confirmation_matches input process ≡ true)
      ↔ ((is_empty (trim process) ≡ false) × (normalize_process input ≡ normalize_process process))
unfolding confirmation_matches normalize_process
confirmation_matches_iff input process =
    ground (arith, text_eq_iff (to_lower (trim input)) (to_lower (trim process)))

-- The dialog is confirmed with the phrase that the process asks for.
pub record Confirmed (z : Zone) (q : Text) : Type 0 where
  pub asked : Text
  pub open_for : z.pending ≡ some asked
  pub the_process : same_process asked q ≡ true
  pub named : is_empty (trim asked) ≡ false
  pub typed : normalize_process z.typed ≡ normalize_process q

draft-poll :
    (z : Zone) (p : Text) (result : Option RegexTestResult) → (poll z p result).draft ≡ z.draft
unfolding poll
draft-poll z p result = ground arith

conceal_only :
    (d : Draft) (p q : Text)
    → exposes_title (set_expose_title d p false) q ≡ true
    → exposes_title d q ≡ true
conceal_only d p q h = ground (arith, exposes_title-set_expose_title d p q false)

draft-set_pending : (p : Option Text) (z : Zone) → (set_pending p z).draft ≡ z.draft
unfolding set_pending
draft-set_pending p z = ground arith

-- What the confirm button does to the draft.
draft-press_confirm :
    (z : Zone) (p : Text)
    → z.pending ≡ some p
    → (press_confirm z).draft
      ≡ (if confirmation_matches z.typed p then set_expose_title z.draft p true else z.draft)
unfolding press_confirm
draft-press_confirm z p e =
    rw (e, press_confirm)
      (ground
        (arith, draft-set_pending none (record z { draft = set_expose_title z.draft p true })))

draft-press_confirm_closed : (z : Zone) → z.pending ≡ none → press_confirm z ≡ z
unfolding press_confirm
draft-press_confirm_closed z e = ground (arith, e)

same_process_normal :
    (p q : Text) → same_process p q ≡ true → normalize_process p ≡ normalize_process q
unfolding same_process
same_process_normal p q = (text_eq_iff _ _).0

confirm_only :
    (z : Zone) (q : Text)
    → exposes_title (press_confirm z).draft q ≡ true
    → exposes_title z.draft q ≡ false
    → Confirmed z q
confirm_only z q now before = elim (Option-cases z.pending) [
  | inl closed ↦ absurd (
      ground
        (arith, ap (λ (y : Zone). exposes_title y.draft q) (draft-press_confirm_closed z closed)))
  | inr (p, e) ↦
      let after = ap (λ d. exposes_title d q) (draft-press_confirm z p e) in
      let set = exposes_title-set_expose_title z.draft p q true in
      let ok : confirmation_matches z.typed p ≡ true = ground (arith, after) in
      let same : same_process p q ≡ true = ground (arith, after, set) in
      let (named, typed) = (confirmation_matches_iff z.typed p).0 ok in
      record {
        asked = p;
        open_for = e;
        the_process = same;
        named = named;
        typed = typed ∙ same_process_normal p q same;
      }
]

-- A process that was not exposed becomes exposed by one event only: the confirm button, in the
-- dialog of that process, with the process's own name typed, up to case and outer spaces.
pub act-Confirmed :
    (z : Zone) (a : Action) (q : Text)
    → exposes_title (act z a).draft q ≡ true
    → exposes_title z.draft q ≡ false
    → (a ≡ confirm) × Confirmed z q
unfolding act
act-Confirmed z (expose p) q now before = absurd (ground (arith, draft-set_pending (some p) z))
act-Confirmed z (conceal p) q now before = absurd (ground (arith, conceal_only z.draft p q))
act-Confirmed z (write text) q now before = absurd (ground arith)
act-Confirmed z cancel q now before = absurd (ground (arith, draft-set_pending none z))
act-Confirmed z confirm q now before = (refl, confirm_only z q now before)
act-Confirmed z (polled p result) q now before = absurd (ground (arith, draft-poll z p result))

confirmation_matches_untyped : (p : Text) → confirmation_matches [] p ≡ false
unfolding confirmation_matches trim to_lower text_eq
confirmation_matches_untyped p = let shape = trim p in ground (arith, is_empty-to_lower shape)

-- What the button of a row that is off does.
expose_cases :
    (z : Zone) (p : Text)
    → (act z (expose p) ≡ z)
      ⊎ ((act z (expose p) ≡ set_pending (some p) z) × ((r : Row) × (row_of z p ≡ some r)))
unfolding act
expose_cases z p = elim (Option-cases (row_of z p)) [
  | inl e ↦ inl (rw (e, act) refl)
  | inr (r, e) ↦ elim (Bool-cases r.on) [
    | inl on ↦ inl (rw (e, act) (rw on refl))
    | inr off ↦ inr (rw (e, act) (rw off refl), (r, e))
  ]
]

opened :
    (z : Zone) (p : Text)
    → z.pending ≡ none
    → set_pending (some p) z ≡ record z { pending = some p; typed = []; titles = none }
unfolding set_pending
opened z p e = ground (arith, e)

-- Opening the dialog and pressing its button at once exposes nothing: the phrase has to be typed.
pub no_single_click :
    (z : Zone) (p : Text) → z.pending ≡ none → (act (act z (expose p)) confirm).draft ≡ z.draft
no_single_click z p closed = elim (expose_cases z p) [
  | inl same ↦
      unfold act in (rw same (ap (λ (y : Zone). y.draft) (draft-press_confirm_closed z closed)))
  | inr (set, _) ↦
      unfold act in
      (rw (set, opened z p closed)
        (draft-press_confirm (record z { pending = some p; typed = []; titles = none }) p refl
          ∙ rw (confirmation_matches_untyped p) refl))
]

-- What holds between two events: the dialog asks about a process with a rule, and no exposed
-- process lacks one.
pub record IsSafe (z : Zone) : Type 0 where
  pub no_orphans : NoOrphans z.draft
  pub asks_for_rule : (p : Text) → z.pending ≡ some p → has_rule z.draft.rules p ≡ true

has_rule-rows :
    (d : Draft) (rules : List Rule) (p : Text) {r : Row}
    → find
        (λ (r : Row). text_eq r.process p)
        (map (row d) (filter (λ (rule : Rule). not (is_empty (trim rule.process))) rules))
      ≡ some r
    → has_rule rules p ≡ true
unfolding has_rule row
has_rule-rows d [] p e = cc
has_rule-rows d (rule ∷ rules) p {r} e =
    ground (arith, text_eq_iff rule.process p, same_process_refl p, has_rule-rows d rules p {r = r})

row_of-has_rule :
    (z : Zone) (p : Text) {r : Row} → row_of z p ≡ some r → has_rule z.draft.rules p ≡ true
unfolding rows
row_of-has_rule z p e = has_rule-rows z.draft z.draft.rules p e

same_pending_sound : (a b : Option Text) → same_pending a b ≡ true → a ≡ b
same_pending_sound none none h = refl
same_pending_sound (some p) (some q) h = ap some ((text_eq_iff p q).0 h)
same_pending_sound none (some q) h = cc
same_pending_sound (some p) none h = cc

pending-set_pending : (p : Option Text) (z : Zone) → (set_pending p z).pending ≡ p
unfolding set_pending
pending-set_pending p z = ground (arith, same_pending_sound z.pending p)

IsSafe-set_pending :
    (p : Option Text) (z : Zone)
    → NoOrphans z.draft
    → ((q : Text) → p ≡ some q → has_rule z.draft.rules q ≡ true)
    → IsSafe (set_pending p z)
IsSafe-set_pending p z h ok = record {
  no_orphans = rw (draft-set_pending p z) h;
  asks_for_rule = λ q e. rw (draft-set_pending p z) (ok q (sym (pending-set_pending p z) ∙ e));
}

rules-set_expose_title :
    (d : Draft) (p : Text) (on : Bool) → (set_expose_title d p on).rules ≡ d.rules
unfolding set_expose_title
rules-set_expose_title d p on = refl

IsSafe-same :
    (z after : Zone) → after.draft ≡ z.draft → after.pending ≡ z.pending → IsSafe z → IsSafe after
IsSafe-same z after d p h = record {
  no_orphans = rw d h.no_orphans;
  asks_for_rule = λ q e. rw d (h.asks_for_rule q (sym p ∙ e));
}

pending-poll :
    (z : Zone) (p : Text) (result : Option RegexTestResult) → (poll z p result).pending ≡ z.pending
unfolding poll
pending-poll z p result = ground arith

-- The change that the confirm button makes.
abbrev exposing : Zone → Text → Zone
exposing z p = record z { draft = set_expose_title z.draft p true }

press_confirm_cases :
    (z : Zone)
    → (press_confirm z ≡ z)
      ⊎ ((p : Text) × (z.pending ≡ some p) × (press_confirm z ≡ set_pending none (exposing z p)))
unfolding press_confirm
press_confirm_cases z = elim (Option-cases z.pending) [
  | inl closed ↦ inl (draft-press_confirm_closed z closed)
  | inr (p, e) ↦ elim (Bool-cases (confirmation_matches z.typed p)) [
    | inl ok ↦ inr (p, e, ground (arith, e, ok))
    | inr wrong ↦ inl (ground (arith, e, wrong))
  ]
]

confirm-IsSafe : (z : Zone) → IsSafe z → IsSafe (press_confirm z)
confirm-IsSafe z h = elim (press_confirm_cases z) [
  | inl same ↦ rw same h
  | inr (p, e, set) ↦ rw set (
      IsSafe-set_pending none (exposing z p)
        (set_expose_title-NoOrphans z.draft p true (λ _. h.asks_for_rule p e) h.no_orphans)
        (λ q eq. cc))
]

conceal_cases :
    (z : Zone) (p : Text)
    → (act z (conceal p) ≡ z)
      ⊎ (act z (conceal p) ≡ record z { draft = set_expose_title z.draft p false })
unfolding act
conceal_cases z p = elim (Option-cases (row_of z p)) [
  | inl e ↦ inl (rw (e, act) refl)
  | inr (r, e) ↦ elim (Bool-cases r.on) [
    | inl on ↦ inr (rw (e, act) (rw on refl))
    | inr off ↦ inl (rw (e, act) (rw off refl))
  ]
]

conceal-IsSafe : (z : Zone) (p : Text) → IsSafe z → IsSafe (act z (conceal p))
conceal-IsSafe z p h = elim (conceal_cases z p) [
  | inl same ↦ rw same h
  | inr set ↦ rw set (record {
    no_orphans = set_expose_title-NoOrphans z.draft p false (λ e. cc) h.no_orphans;
    asks_for_rule = λ q e. rw rules-set_expose_title (h.asks_for_rule q e);
  })
]

-- Every action keeps this.
pub act-IsSafe : (z : Zone) (a : Action) → IsSafe z → IsSafe (act z a)
act-IsSafe z (expose p) h = elim (expose_cases z p) [
  | inl same ↦ rw same h
  | inr (set, (r, e)) ↦ rw set (
      IsSafe-set_pending (some p) z h.no_orphans
        (λ q eq. rw (← some-injective p q eq) (row_of-has_rule z p e)))
]
act-IsSafe z (conceal p) h = conceal-IsSafe z p h
act-IsSafe z (write text) h =
    unfold act in IsSafe-same z (act z (write text)) (ground arith) (ground arith) h
act-IsSafe z cancel h = unfold act in IsSafe-set_pending none z h.no_orphans (λ q e. cc)
act-IsSafe z confirm h = unfold act in confirm-IsSafe z h
act-IsSafe z (polled p result) h =
    unfold act in
    IsSafe-same z (poll z p result) (draft-poll z p result) (pending-poll z p result) h
