-- ===== src/RuleEditor/PatternTest.antt =====
-- client-windows/webui/src/components/RuleEditor.tsx, `usePatternTest`: the debounced question to
-- the agent what a pattern matches, and which of its answers is shown.
pub mod Answered
use cyberstalk_me.Base.{
  ◌≡◌, refl, ap, sym, ◌∙◌, inl, inr, ℕ, zero, suc, Bool, true, false, not, ◌&&◌, ◌||◌, Bool-cases,
  Option, none, some, Option-cases, List, [], ◌∷◌, ◌++◌, Text, text_eq, is_empty, trim, get_elem?,
  All, All-concat, arith, if◌then◌else◌,
}
use cyberstalk_me.Api.{RegexTestResult}
use cyberstalk_me.RuleEditor.{PatternTestState, test_state}

-- One run of the effect on a pattern that is not blank. `waiting` is that its timer is set.
pub record Run : Type 0 where
  pub match : Text
  pub process : Text
  pub waiting : Bool
  pub cancelled : Bool

-- What is shown, the runs that were cleaned up, and the run of the pattern in the row, if any.
pub record Test : Type 0 where
  pub match : Text
  pub process : Text
  pub shown : Option PatternTestState
  pub earlier : List Run
  pub latest : Option Run

abbrev pub cancel : Run → Run
cancel r = record r { waiting = false; cancelled = true }

abbrev pub cleaned : Option Run → List Run
cleaned none = []
cleaned (some r) = cancel r ∷ []

abbrev pub start : Text → Text → Option Run
start match process =
    if is_empty (trim match)
    then none
    else some (record { match = match; process = process; waiting = true; cancelled = false })

-- A render with this pattern and process: the effect runs again only for others.
unfoldable pub rendered : Text → Text → Test → Test
rendered match process t =
    if text_eq match t.match && text_eq process t.process then t else record {
      match = match;
      process = process;
      shown = if is_empty (trim match) then none else t.shown;
      earlier = t.earlier ++ cleaned t.latest;
      latest = start match process;
    }

-- The row on its first render.
unfoldable pub mounted : Text → Text → Test
mounted match process = record {
  match = match;
  process = process;
  shown = none;
  earlier = [];
  latest = start match process;
}

-- What an answer, or a failure (`none`), sets.
unfoldable pub answer_state : Option RegexTestResult → Option PatternTestState
answer_state none = none
answer_state (some result) = some (test_state result)

unfoldable pub receive :
    Run → Option RegexTestResult → Option PatternTestState → Option PatternTestState
unfolding answer_state
receive run answer shown = if run.cancelled then shown else answer_state answer

pub data Event : Type 0 where
  render : (match process : Text) → Event
  timer_fired : Event
  earlier_answered : ℕ → Option RegexTestResult → Event
  latest_answered : Option RegexTestResult → Event
  unmounted : Event

-- A request is in flight once its timer has fired, and only then is it answered.
unfoldable pub step : Event → Test → Test
unfolding rendered receive
step (render match process) t = rendered match process t
step timer_fired t = elim t.latest [
  | none ↦ t
  | some run ↦ record t { latest = some (record run { waiting = false }) }
]
step (earlier_answered i answer) t = elim (get_elem? t.earlier i) [
  | none ↦ t
  | some run ↦ record t { shown = receive run answer t.shown }
]
step (latest_answered answer) t = elim t.latest [
  | none ↦ t
  | some run ↦ if run.waiting then t else record t { shown = receive run answer t.shown }
]
step unmounted t = record t { earlier = t.earlier ++ cleaned t.latest; latest = none }

unfoldable pub run : List Event → Test → Test
unfolding step
run [] t = t
run (e ∷ es) t = run es (step e t)
