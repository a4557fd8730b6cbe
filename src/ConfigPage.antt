-- ===== src/ConfigPage.antt =====
-- client-windows/webui/src/hooks/useDraft.ts, and the handlers of src/App.tsx beside it: the draft,
-- its pushes to the agent, and the save. An `await` ends an event; the answer is an event of its
-- own, so edits may come in between. `stringify` is `JSON.stringify` on drafts. A failure carries
-- the message of the `Error` thrown, or none. A request stays in flight until it is answered.
pub mod View
pub mod Coherent
pub mod Saving
pub mod Settled
pub mod Teardown
pub mod Pushes
use cyberstalk_me.Base.{
  ℕ, Bool, true, false, not, ◌&&◌, ◌||◌, Option, none, some, List, [], ◌∷◌, ◌++◌, Text, codes,
  text_eq, is_empty, get_elem?, erase_idx, if◌then◌else◌,
}
use cyberstalk_me.Api.{Draft, ValidationIssue, State, SaveResult, empty_draft}

-- A `PUT /api/config` in flight, and whether `handleSave` waits for it.
pub record Put : Type 0 where
  pub sent : Draft
  pub for_save : Bool

-- The hook's state and refs, then `App`'s own state. `writing` says that `api.save()` is in flight.
pub record Page : Type 0 where
  pub state : Option State
  pub draft : Draft
  pub connection_error : Option Text
  pub loading : Bool
  pub dirty : Bool
  pub current : Draft
  pub pending : Option Draft
  pub timer : Bool
  pub persisted : Text
  pub puts : List Put
  pub saving : Bool
  pub saved : Option Text
  pub save_error : Option Text
  pub finished : Bool
  pub writing : Bool

abbrev pub initial : Page
initial = record {
  state = none;
  draft = empty_draft;
  connection_error = none;
  loading = true;
  dirty = false;
  current = empty_draft;
  pending = none;
  timer = false;
  persisted = [];
  puts = [];
  saving = false;
  saved = none;
  save_error = none;
  finished = false;
  writing = false;
}

-- `message ?? fallback`, and the message of what was thrown.
abbrev pub message_or : Option Text → Text → Text
message_or none fallback = fallback
message_or (some m) fallback = m

abbrev pub issue_message : Option ValidationIssue → Text → Text
issue_message none fallback = fallback
issue_message (some issue) fallback = issue.message

abbrev pub adopt : State → Page → Page
adopt next p = record p { state = some next; connection_error = none }

-- `valid` of the controller.
abbrev pub is_valid : Page → Bool
is_valid p = elim p.state [ none ↦ false | some s ↦ s.valid ]

-- The two buttons are enabled.
abbrev pub enabled : Page → Bool
enabled p = is_valid p && not p.saving

-- `flush` up to its `await`: whether a request was made, and the page.
unfoldable pub flush : Bool → Page → Bool × Page
flush for_save p = elim p.pending [
  | none ↦ (false, record p { timer = false })
  | some next ↦ (
    true,
    record p {
      timer = false;
      pending = none;
      puts = p.puts ++ record { sent = next; for_save = for_save } ∷ [];
    },
  )
]

-- The part of `handleSave` between the two awaits, on what `flush` gave.
unfoldable pub after_flush : Option State → Page → Page
after_flush none p = record p { writing = true }
after_flush (some synced) p = if synced.valid then record p { writing = true } else record p {
  save_error = some (issue_message synced.error (codes "这份配置还不能保存"));
  saving = false;
}

unfoldable pub put_answered : ℕ → State → Page → Page
unfolding after_flush
put_answered i s p = elim (get_elem? p.puts i) [
  | none ↦ p
  | some put ↦
      let adopted = adopt s (record p { puts = erase_idx p.puts i }) in
      if put.for_save then after_flush (some s) adopted else adopted
]

-- The edit stays pending, and `flush` gives null.
unfoldable pub put_failed : ℕ → Option Text → Page → Page
unfolding after_flush
put_failed i cause p = elim (get_elem? p.puts i) [
  | none ↦ p
  | some put ↦
      let kept = record p {
        puts = erase_idx p.puts i;
        pending = some put.sent;
        connection_error = some (message_or cause (codes "同步配置失败"));
      } in
      if put.for_save then after_flush none kept else kept
]

-- `await flush()` with nothing to push goes straight on.
abbrev pub go_on : Bool × Page → Page
go_on (true, p) = p
go_on (false, p) = after_flush none p

unfoldable pub press_save : Page → Page
unfolding flush after_flush
press_save p =
    if enabled p
    then go_on (flush true (record p { saving = true; save_error = none; saved = none }))
    else p

unfoldable pub fire_timer : Page → Page
unfolding flush
fire_timer p = if p.timer then (flush false p).1 else p

-- The cleanup of the hook's effect: the timer stops, and a waiting edit stays where it is.
unfoldable pub tear_down : Page → Page
tear_down p = record p { timer = false }

pub data Event : Type 0 where
  loaded : State → Event
  load_failed : Option Text → Event
  edited : (Draft → Draft) → Event
  timer_fired : Event
  put_ok : ℕ → State → Event
  put_bad : ℕ → Option Text → Event
  save_pressed : Event
  save_ok : SaveResult → Event
  save_bad : Option Text → Event
  finish_pressed : Event
  torn_down : Event

module _ (stringify : Draft → Text) where
  unfoldable pub load : State → Page → Page
  load next p = record (adopt next p) {
    current = next.draft;
    persisted = stringify next.draft;
    draft = next.draft;
    dirty = false;
    loading = false;
  }

  unfoldable pub edit : (Draft → Draft) → Page → Page
  edit change p =
      let next = change p.current in
      record p {
        current = next;
        draft = next;
        dirty = not (text_eq (stringify next) p.persisted);
        pending = some next;
        timer = true;
      }

  unfoldable pub mark_saved : Page → Page
  mark_saved p = record p { persisted = stringify p.current; dirty = false }

  unfoldable pub save_answered : SaveResult → Page → Page
  unfolding mark_saved
  save_answered result p =
      let done = record p { writing = false; saving = false } in
      if p.writing
      then if result.saved
        then record (mark_saved done) {
          saved = some (elim result.backup_path [
            | none ↦ codes "已保存"
            | some path ↦ if is_empty path then codes "已保存" else codes "已保存，原文件备份到 " ++ path
          ]);
        }
        else record done { save_error = some (issue_message result.error (codes "保存失败")) }
      else p

  abbrev save_failed : Option Text → Page → Page
  save_failed cause p =
      if p.writing
      then record p {
        writing = false;
        saving = false;
        save_error = some (message_or cause (codes "保存失败"));
      }
      else p

  -- `api.quit()` is not waited for with any effect.
  unfoldable pub press_finish : Page → Page
  unfolding mark_saved
  press_finish p = if enabled p then mark_saved (record p { finished = true }) else p

  unfoldable pub step : Page → Event → Page
  unfolding load edit fire_timer put_answered put_failed press_save save_answered press_finish
      tear_down
  step p (loaded s) = load s p
  step p (load_failed cause) = record p {
    connection_error = some (message_or cause (codes "读取配置失败"));
    loading = false;
  }
  step p (edited change) = edit change p
  step p timer_fired = fire_timer p
  step p (put_ok i s) = put_answered i s p
  step p (put_bad i cause) = put_failed i cause p
  step p save_pressed = press_save p
  step p (save_ok result) = save_answered result p
  step p (save_bad cause) = save_failed cause p
  step p finish_pressed = press_finish p
  step p torn_down = tear_down p
