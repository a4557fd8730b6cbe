-- ===== src/DangerZone.antt =====
-- client-windows/webui/src/components/DangerZone.tsx: the rows, and the dialog that stands before
-- `setExposeTitle(d, process, true)`. An event whose control is not on the page, or is disabled,
-- does nothing. Markup is left out. `edit` is taken to apply its change at once, as `useDraft` does.
pub mod Gate
use cyberstalk_me.Base.{
  ℕ, Bool, true, false, not, ◌&&◌, Option, none, some, List, [], ◌∷◌, ◌++◌, map, Text, codes,
  text_eq, is_empty, or_text, trim, take, filter, find, length, ◌==◌, if◌then◌else◌,
}
use cyberstalk_me.Api.{Rule, Draft, RegexTestResult}
use cyberstalk_me.Rules.{same_process, exposes_title, set_expose_title}
use cyberstalk_me.Confirm.{confirmation_matches}

-- One row of the list: the text under the name, and which of the two buttons it has.
pub record Row : Type 0 where
  pub process : Text
  pub shown_as : Text
  pub on : Bool

unfoldable pub row : Draft → Rule → Row
row draft rule =
    let on = exposes_title draft rule.process in
    record {
      process = rule.process;
      shown_as =
          if on
          then codes "正在公开真实标题"
          else codes "显示成「" ++ (or_text rule.app (codes "未命名") ++ codes "」");
      on = on;
    }

-- The rows of the rules with a name, in order.
unfoldable pub rows : Draft → List Row
unfolding row
rows draft = map (row draft) (filter (λ rule. not (is_empty (trim rule.process))) draft.rules)

-- What the component and its dialog keep: `pending`, `typed`, and the dialog's live titles.
pub record Zone : Type 0 where
  pub draft : Draft
  pub pending : Option Text
  pub typed : Text
  pub titles : Option (List Text)

-- Whether the section is on the page at all.
unfoldable pub shows_zone : Draft → Bool
shows_zone draft = not ((length draft.rules == 0) && (length draft.expose_title == 0))

-- `process` of the dialog changes: both effects on `[process]` run.
abbrev pub same_pending : Option Text → Option Text → Bool
same_pending none none = true
same_pending (some p) (some q) = text_eq p q
same_pending _ _ = false

unfoldable pub set_pending : Option Text → Zone → Zone
set_pending p z =
    if same_pending z.pending p then z else record z { pending = p; typed = []; titles = none }

-- The user's actions, and the answer of `useLiveTitles`' poll for the process that it asked for.
pub data Action : Type 0 where
  expose : Text → Action  -- the button of a row that is off
  conceal : Text → Action  -- the button of a row that is on
  write : Text → Action  -- the dialog's input
  cancel : Action
  confirm : Action
  polled : Text → Option RegexTestResult → Action

-- The row of a process, by its exact name.
abbrev pub row_of : Zone → Text → Option Row
row_of z p = find (λ (r : Row). text_eq r.process p) (rows z.draft)

-- `testPattern('', process)`: its titles, or none after a failure. A poll of another process, or
-- of a dialog that is closed, was cancelled.
abbrev pub answered : Option RegexTestResult → List Text
answered none = []
answered (some result) = elim result.titles [ none ↦ [] | some titles ↦ titles ]

unfoldable pub poll : Zone → Text → Option RegexTestResult → Zone
poll z p result = elim z.pending [
  | none ↦ z
  | some asked ↦ if text_eq asked p then record z { titles = some (answered result) } else z
]

-- The confirm button, enabled once the phrase is there.
unfoldable pub press_confirm : Zone → Zone
unfolding set_pending
press_confirm z = elim z.pending [
  | none ↦ z
  | some p ↦
      if confirmation_matches z.typed p
      then set_pending none (record z { draft = set_expose_title z.draft p true })
      else z
]

unfoldable pub act : Zone → Action → Zone
unfolding set_pending press_confirm poll
act z (expose p) = elim (row_of z p) [
  | none ↦ z
  | some r ↦ if r.on then z else set_pending (some p) z
]
act z (conceal p) = elim (row_of z p) [
  | none ↦ z
  | some r ↦ if r.on then record z { draft = set_expose_title z.draft p false } else z
]
act z (write text) = elim z.pending [ none ↦ z | some p ↦ record z { typed = text } ]
act z cancel = set_pending none z
act z confirm = press_confirm z
act z (polled p result) = poll z p result

-- What the dialog shows of the titles.
pub data Samples : Type 0 where
  reading : Samples
  unseen : Samples
  seen : List Text → Samples

unfoldable pub samples : Zone → Samples
samples z = elim z.titles [
  | none ↦ Samples.reading
  | some titles ↦ if length titles == 0 then Samples.unseen else Samples.seen (take 5 titles)
]
