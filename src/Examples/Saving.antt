-- ===== src/Examples/Saving.antt =====
-- The page and the agent, in a session with one edit.
use cyberstalk_me.Base.{
  ◌≡◌, ◌≢◌, refl, ap, Bool, false, is_empty, text_eq, text_eq-false, none, some, [], ◌∷◌, ◌++◌,
  Text, codes, show, length,
}
use cyberstalk_me.Api.{Draft}
use cyberstalk_me.ConfigPage.{
  Page, initial, loaded, edited, timer_fired, put_ok, put_bad, save_pressed, save_ok, torn_down,
  step,
}
use cyberstalk_me.ConfigPage.Coherent.{IsCoherent, load-IsCoherent, step-IsCoherent}
use cyberstalk_me.ConfigPage.Saving.{
  Agent, arriving, Tracked, run, failed_push_is_marked_saved, retry_sends_older_draft,
}
use cyberstalk_me.ConfigPage.Pushes.{save_writes_waiting, push_is_not_awaited}
use cyberstalk_me.ConfigPage.Settled.{IsArmed, loaded_run-Tracked}
use cyberstalk_me.ConfigPage.Teardown.{torn_down_drops_edit}
use cyberstalk_me.Examples.Samples.{rule_of, chrome_draft, good_state, good_save}

-- A text that tells the drafts of the session apart.
abbrev stringify : Draft → Text
stringify d = d.token ++ show (length d.rules)

abbrev add_code : Draft → Draft
add_code d = record d { rules = rule_of (codes "code.exe") ∷ d.rules }

abbrev rename_token : Draft → Draft
rename_token d = record d { token = codes "t2" }

abbrev opened : Page
opened = step stringify initial (loaded (good_state chrome_draft))

abbrev changed : Page
changed = step stringify opened (edited add_code)

abbrev agent : Agent
agent = record { held = chrome_draft; disk = chrome_draft }

-- The agent takes an interval that is not filled in as its default.
abbrev parses : Draft → Bool
parses d = is_empty d.interval

opened-IsCoherent : IsCoherent stringify opened
opened-IsCoherent = load-IsCoherent stringify initial (good_state chrome_draft)

step-IsCoherent_example : IsCoherent stringify changed
step-IsCoherent_example = step-IsCoherent stringify opened (edited add_code) opened-IsCoherent

failed_push_is_marked_saved_example :
    let (after, done) =
      run stringify parses
        (changed, agent)
        (save_pressed ∷ put_bad 0 none ∷ save_ok good_save ∷ []) in
    (done.disk ≡ agent.held) × (after.current ≡ changed.current) × (after.dirty ≡ false)
unfolding step
failed_push_is_marked_saved_example =
    failed_push_is_marked_saved stringify parses changed agent none good_save {d = changed.current}
      refl refl refl refl

renamed_differs : rename_token changed.current ≢ changed.current
unfolding step text_eq
renamed_differs same = text_eq-false (codes "t2") chrome_draft.token refl (ap Draft.token same)

retry_sends_older_draft_example :
    let (after, done) =
      run stringify parses
        (changed, agent)
        (timer_fired
          ∷ edited rename_token
          ∷ put_bad 0 none
          ∷ timer_fired
          ∷ put_ok 0 (good_state chrome_draft)
          ∷ []) in
    (done.held ≡ changed.current)
    × (after.current ≡ rename_token changed.current)
    × (done.held ≢ after.current)
    × (after.pending ≡ none)
    × (after.puts ≡ [])
unfolding step text_eq
retry_sends_older_draft_example =
    retry_sends_older_draft stringify parses changed agent none (good_state chrome_draft)
      rename_token refl refl refl refl renamed_differs

-- An edit, a push that the agent answers, a second edit, and a save that waits for its push.
loaded_run-Tracked_example :
    let (q, b) =
      run stringify parses
        (initial, agent)
        (loaded (good_state chrome_draft)
          ∷ edited add_code
          ∷ timer_fired
          ∷ put_ok 0 (good_state chrome_draft)
          ∷ edited rename_token
          ∷ save_pressed
          ∷ edited add_code
          ∷ []) in
    Tracked parses q b × IsArmed q
loaded_run-Tracked_example =
    loaded_run-Tracked stringify parses
      (edited add_code
        ∷ timer_fired
        ∷ put_ok 0 (good_state chrome_draft)
        ∷ edited rename_token
        ∷ save_pressed
        ∷ edited add_code
        ∷ [])
      initial agent (good_state chrome_draft) refl refl
      ((tt, refl), ((tt, refl), ((tt, refl), ((tt, refl), ((tt, refl), ((tt, refl), tt))))))

torn_down_drops_edit_example :
    let (after, done) = run stringify parses (changed, agent) (torn_down ∷ timer_fired ∷ []) in
    (done.held ≡ agent.held) × (after.pending ≡ some changed.current)
unfolding step
torn_down_drops_edit_example =
    torn_down_drops_edit stringify parses (timer_fired ∷ []) changed agent {d = changed.current}
      refl refl (tt, tt)

-- A push in flight and a further edit that waits.
abbrev pushing : Page
pushing = step stringify changed timer_fired

abbrev waiting : Page
waiting = step stringify pushing (edited rename_token)

save_writes_waiting_example :
    let (after, done) =
      run stringify parses
        (waiting, agent)
        (save_pressed
          ∷ put_ok 0 (good_state chrome_draft)
          ∷ put_ok 0 (good_state chrome_draft)
          ∷ save_ok good_save
          ∷ []) in
    (done.disk ≡ waiting.current)
    × (after.current ≡ waiting.current)
    × (after.dirty ≡ false)
    × (after.saving ≡ false)
unfolding step arriving
save_writes_waiting_example =
    save_writes_waiting stringify parses (good_state chrome_draft ∷ []) waiting agent
      (good_state chrome_draft) good_save {d = waiting.current} (λ ok. refl) refl refl (refl, tt)
      refl refl refl refl

push_is_not_awaited_example :
    let (after, done) =
      run stringify parses (pushing, agent) (save_pressed ∷ save_ok good_save ∷ []) in
    (done.disk ≡ agent.held)
    × (after.current ≡ pushing.current)
    × (after.puts ≡ pushing.puts)
    × (after.dirty ≡ false)
unfolding step
push_is_not_awaited_example =
    push_is_not_awaited stringify parses pushing agent good_save refl refl refl
