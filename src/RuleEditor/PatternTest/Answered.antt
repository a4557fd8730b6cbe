-- ===== src/RuleEditor/PatternTest/Answered.antt =====
-- Which answer of the agent the row of a pattern shows.
use cyberstalk_me.Base.{
  ◌≡◌, refl, ap, ◌∙◌, inl, inr, ℕ, zero, suc, Bool, true, false, ◌&&◌, Bool-cases, Option, none,
  some, Option-cases, List, [], ◌∷◌, ◌++◌, Text, text_eq, is_empty, trim, get_elem?, All, arith,
}
use cyberstalk_me.Api.{RegexTestResult}
use cyberstalk_me.RuleEditor.PatternTest.{
  Run, Test, cleaned, rendered, mounted, answer_state, receive, Event, render, timer_fired,
  earlier_answered, latest_answered, unmounted, step, run,
}

-- Every run but that of the pattern in the row has been cleaned up.
abbrev IsCleaned : Test → Type 0
IsCleaned t = All (λ r. r.cancelled ≡ true) t.earlier

cleaned-All :
    (rs : List Run) (r : Option Run)
    → All (λ q. q.cancelled ≡ true) rs
    → All (λ q. q.cancelled ≡ true) (rs ++ cleaned r)
cleaned-All [] none h = tt
cleaned-All [] (some r) h = (refl, tt)
cleaned-All (q ∷ rs) r h = (h.0, cleaned-All rs r h.1)

step-IsCleaned : (e : Event) (t : Test) → IsCleaned t → IsCleaned (step e t)
unfolding step rendered
step-IsCleaned (render match process) t h =
    elim (Bool-cases (text_eq match t.match && text_eq process t.process)) [
      | inl q ↦ rw q h
      | inr q ↦ rw q (cleaned-All t.earlier t.latest h)
    ]
step-IsCleaned timer_fired t h = elim (Option-cases t.latest) [
  | inl e ↦ rw (step, e) h
  | inr (r, e) ↦ rw (step, e) h
]
step-IsCleaned (earlier_answered i answer) t h = elim (Option-cases (get_elem? t.earlier i)) [
  | inl e ↦ rw (step, e) h
  | inr (r, e) ↦ rw (step, e) h
]
step-IsCleaned (latest_answered answer) t h = elim (Option-cases t.latest) [
  | inl e ↦ rw (step, e) h
  | inr (r, e) ↦ elim (Bool-cases r.waiting) [
    | inl w ↦ rw (step, e, w) h
    | inr w ↦ rw (step, e, w) h
  ]
]
step-IsCleaned unmounted t h = cleaned-All t.earlier t.latest h

run-IsCleaned : (es : List Event) (t : Test) → IsCleaned t → IsCleaned (run es t)
unfolding run
run-IsCleaned [] t h = h
run-IsCleaned (e ∷ es) t h = run-IsCleaned es (step e t) (step-IsCleaned e t h)

cancelled_run :
    (rs : List Run) (i : ℕ) {r : Run}
    → All (λ q. q.cancelled ≡ true) rs
    → get_elem? rs i ≡ some r
    → r.cancelled ≡ true
cancelled_run [] i h e = absurd (cc)
cancelled_run (q ∷ rs) zero h e = ground (arith, h.0)
cancelled_run (q ∷ rs) (suc i) h e = cancelled_run rs i h.1 e

earlier_ignored :
    (i : ℕ) (answer : Option RegexTestResult) (t : Test)
    → IsCleaned t
    → step (earlier_answered i answer) t ≡ t
unfolding step receive
earlier_ignored i answer t h = elim (Option-cases (get_elem? t.earlier i)) [
  | inl e ↦ ground (arith, e)
  | inr (r, e) ↦ ground (arith, e, cancelled_run t.earlier i h e)
]

abbrev pub is_earlier : Event → Bool
is_earlier (earlier_answered i answer) = true
is_earlier _ = false

earlier_run_ignored :
    (es : List Event) (t : Test) → All (λ e. is_earlier e ≡ true) es → IsCleaned t → run es t ≡ t
unfolding run
earlier_run_ignored [] t a h = refl
earlier_run_ignored (earlier_answered i answer ∷ es) t a h =
    ap (run es) (earlier_ignored i answer t h) ∙ earlier_run_ignored es t a.1 h
earlier_run_ignored (render match process ∷ es) t a h = absurd (cc (a.0))
earlier_run_ignored (timer_fired ∷ es) t a h = absurd (cc (a.0))
earlier_run_ignored (latest_answered answer ∷ es) t a h = absurd (cc (a.0))
earlier_run_ignored (unmounted ∷ es) t a h = absurd (cc (a.0))

asked_answer :
    (match process : Text) (t : Test) (answer : Option RegexTestResult)
    → (text_eq match t.match && text_eq process t.process) ≡ false
    → is_empty (trim match) ≡ false
    → (step (latest_answered answer) (step timer_fired (step (render match process) t))).shown
      ≡ answer_state answer
unfolding step rendered receive
asked_answer match process t answer new filled = ground (arith, new, filled)

-- However the row came here, once another pattern that is not blank stands in it and its debounce
-- has run out, its own answer decides what is shown, however many answers about earlier patterns
-- arrive before it and after it.
pub answer_of_rendered :
    (es : List Event) (first_match first_process match process : Text)
    → (answer : Option RegexTestResult) (before after : List Event)
    → let t = run es (mounted first_match first_process) in
      (text_eq match t.match && text_eq process t.process) ≡ false
      → is_empty (trim match) ≡ false
      → All (λ e. is_earlier e ≡ true) before
      → All (λ e. is_earlier e ≡ true) after
      → (run after (
          step
            (latest_answered answer)
            (run before (step timer_fired (step (render match process) t))))).shown
        ≡ answer_state answer
unfolding mounted
answer_of_rendered es first_match first_process match process answer before after new filled b a =
    let t = run es (mounted first_match first_process) in
    let asked = step timer_fired (step (render match process) t) in
    let ready = step-IsCleaned timer_fired (step (render match process) t) (
      step-IsCleaned (render match process) t
        (run-IsCleaned es (mounted first_match first_process) tt)) in
    ap Test.shown (
      ap (λ x. run after (step (latest_answered answer) x))
        (earlier_run_ignored before asked b ready)
      ∙ earlier_run_ignored after (step (latest_answered answer) asked) a
          (step-IsCleaned (latest_answered answer) asked ready))
    ∙ asked_answer match process t answer new filled
