-- ===== src/Usage/Requests.antt =====
-- The requests of `useUsage`: only the latest one can change what is shown.
use cyberstalk_me.Base.{
  ◌≡◌, refl, ap, ◌∙◌, inl, inr, ℕ, zero, suc, Bool, true, false, Bool-cases, Option, none, some,
  Option-cases, List, [], ◌∷◌, Text, All, All-concat, get_elem?, arith,
}
use cyberstalk_me.Wire.Types.{UsageResponse}
use cyberstalk_me.Wire.Read.{parse_usage}
use cyberstalk_me.Usage.{
  UsageWindow, Shown, Run, Usage, Answer, unreachable, bad_status, bad_body, body, Event, selected,
  earlier_answered, latest_answered, unmounted, begin_load, settle, load, cancel, same_window,
  select, step, run, mounted,
}

-- Every run but the latest has been cleaned up.
abbrev pub IsCleaned : Usage → Type 0
IsCleaned u = All (λ r. r.cancelled ≡ true) u.earlier

-- A load is under way, or it gave a payload, or it gave an error.
pub data IsConsistent : Shown → Type 0 where
  is_loading :
      {payload : Option UsageResponse}
      → IsConsistent (record { payload = payload; loading = true; error = none })
  has_payload :
      {parsed : UsageResponse}
      → IsConsistent (record { payload = some parsed; loading = false; error = none })
  has_error :
      {error : Text} → IsConsistent (record { payload = none; loading = false; error = some error })

abbrev pub is_earlier : Event → Bool
is_earlier (earlier_answered i answer) = true
is_earlier _ = false

cancelled_run :
    (rs : List Run) (i : ℕ) {r : Run}
    → All (λ q. q.cancelled ≡ true) rs
    → get_elem? rs i ≡ some r
    → r.cancelled ≡ true
cancelled_run [] i h e = absurd (cc)
cancelled_run (q ∷ rs) zero h e = ground (arith, h.0)
cancelled_run (q ∷ rs) (suc i) h e = cancelled_run rs i h.1 e

earlier_ignored :
    (i : ℕ) (answer : Answer) (u : Usage) → IsCleaned u → step (earlier_answered i answer) u ≡ u
unfolding step load
earlier_ignored i answer u h = elim (Option-cases (get_elem? u.earlier i)) [
  | inl e ↦ ground (arith, e)
  | inr (r, e) ↦ ground (arith, e, cancelled_run u.earlier i h e)
]

step-IsCleaned : (e : Event) (u : Usage) → IsCleaned u → IsCleaned (step e u)
unfolding step select
step-IsCleaned (selected w) u h = elim (Bool-cases u.latest.cancelled) [
  | inl c ↦ rw c h
  | inr c ↦ elim (Bool-cases (same_window w u.latest.usage_window)) [
    | inl q ↦ rw (c, q) h
    | inr q ↦ rw (c, q) (All-concat _ u.earlier (cancel u.latest) h refl)
  ]
]
step-IsCleaned (earlier_answered i answer) u h = rw (earlier_ignored i answer u h) h
step-IsCleaned (latest_answered answer) u h = h
step-IsCleaned unmounted u h = h

run-IsCleaned : (es : List Event) (u : Usage) → IsCleaned u → IsCleaned (run es u)
unfolding run
run-IsCleaned [] u h = h
run-IsCleaned (e ∷ es) u h = run-IsCleaned es (step e u) (step-IsCleaned e u h)

-- However the page came here, the answer of a request that was replaced changes nothing.
pub stale_answer_ignored :
    (es : List Event) (i : ℕ) (answer : Answer)
    → step (earlier_answered i answer) (run es mounted) ≡ run es mounted
unfolding mounted
stale_answer_ignored es i answer =
    earlier_ignored i answer (run es mounted) (run-IsCleaned es mounted tt)

earlier_run_ignored :
    (es : List Event) (u : Usage) → All (λ e. is_earlier e ≡ true) es → IsCleaned u → run es u ≡ u
unfolding run
earlier_run_ignored [] u a h = refl
earlier_run_ignored (earlier_answered i answer ∷ es) u a h =
    ap (run es) (earlier_ignored i answer u h) ∙ earlier_run_ignored es u a.1 h
earlier_run_ignored (selected w ∷ es) u a h = absurd (cc (a.0))
earlier_run_ignored (latest_answered answer ∷ es) u a h = absurd (cc (a.0))
earlier_run_ignored (unmounted ∷ es) u a h = absurd (cc (a.0))

settle-IsConsistent : (answer : Answer) → IsConsistent (settle answer)
unfolding settle
settle-IsConsistent (body v) = elim (Option-cases (parse_usage v)) [
  | inl e ↦ rw (settle, e) has_error
  | inr (parsed, e) ↦ rw (settle, e) has_payload
]
settle-IsConsistent unreachable = has_error
settle-IsConsistent bad_status = has_error
settle-IsConsistent bad_body = has_error

load-IsConsistent :
    (r : Run) (answer : Answer) (shown : Shown)
    → IsConsistent shown
    → IsConsistent (load r answer shown)
unfolding load
load-IsConsistent r answer shown h = elim (Bool-cases r.cancelled) [
  | inl c ↦ rw c h
  | inr c ↦ rw c (settle-IsConsistent answer)
]

pub step-IsConsistent :
    (e : Event) (u : Usage) → IsConsistent u.shown → IsConsistent (step e u).shown
unfolding step select begin_load
step-IsConsistent (selected w) u h = elim (Bool-cases u.latest.cancelled) [
  | inl c ↦ rw c h
  | inr c ↦ elim (Bool-cases (same_window w u.latest.usage_window)) [
    | inl q ↦ rw (c, q) h
    | inr q ↦ rw (c, q) is_loading
  ]
]
step-IsConsistent (earlier_answered i answer) u h = elim (Option-cases (get_elem? u.earlier i)) [
  | inl e ↦ rw (step, e) h
  | inr (r, e) ↦ rw (step, e) (load-IsConsistent r answer u.shown h)
]
step-IsConsistent (latest_answered answer) u h = load-IsConsistent u.latest answer u.shown h
step-IsConsistent unmounted u h = h

-- From a consistent state, whatever the order of events: a load is under way and no error is
-- shown, or a payload is shown without an error, or an error without a payload.
pub run-IsConsistent :
    (es : List Event) (u : Usage) → IsConsistent u.shown → IsConsistent (run es u).shown
unfolding run
run-IsConsistent [] u h = h
run-IsConsistent (e ∷ es) u h = run-IsConsistent es (step e u) (step-IsConsistent e u h)

selected_answer :
    (w : UsageWindow) (u : Usage) (answer : Answer)
    → u.latest.cancelled ≡ false
    → same_window w u.latest.usage_window ≡ false
    → (step (latest_answered answer) (step (selected w) u)).shown ≡ settle answer
unfolding step select load
selected_answer w u answer c q = ground (arith, c, q)

-- On a mounted page whose earlier runs are cleaned up, after another window is selected its
-- own answer decides what is shown, however many answers of earlier requests arrive before it
-- and after it.
pub answer_of_selected :
    (w : UsageWindow) (u : Usage) (answer : Answer) (before after : List Event)
    → IsCleaned u
    → u.latest.cancelled ≡ false
    → same_window w u.latest.usage_window ≡ false
    → All (λ e. is_earlier e ≡ true) before
    → All (λ e. is_earlier e ≡ true) after
    → (run after (step (latest_answered answer) (run before (step (selected w) u)))).shown
      ≡ settle answer
answer_of_selected w u answer before after h c q b a =
    let chosen = step (selected w) u in
    let cleaned = step-IsCleaned (selected w) u h in
    let idle = earlier_run_ignored before chosen b cleaned in
    ap Usage.shown (
      ap (λ x. run after (step (latest_answered answer) x)) idle
      ∙ earlier_run_ignored after (step (latest_answered answer) chosen) a
          (step-IsCleaned (latest_answered answer) chosen cleaned))
    ∙ selected_answer w u answer c q
