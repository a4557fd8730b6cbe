-- ===== src/ConfigPage/Pushes.antt =====
-- A save while pushes are in flight: one that waits for its own push, and one that has none.
use cyberstalk_me.Base.{
  ◌≡◌, refl, ap, subst, sym, ◌∙◌, Bool, true, false, none, some, List, [], ◌∷◌, ◌++◌, Text, All,
  length, map, arith,
}
use cyberstalk_me.Api.{Draft, State, SaveResult}
use cyberstalk_me.ConfigPage.{
  Put, Page, Event, put_ok, save_pressed, save_ok, enabled, flush, put_answered, press_save,
  save_answered, after_flush, mark_saved, step,
}
use cyberstalk_me.ConfigPage.Saving.{Agent, serve, arriving, Tracked, put_answered-current, run}

module _ (stringify : Draft → Text) where
  pub press_save-puts :
      (p : Page) {d : Draft}
      → p.pending ≡ some d
      → enabled p ≡ true
      → ((step stringify p save_pressed).puts ≡ p.puts ++ record { sent = d; for_save = true } ∷ [])
        × ((step stringify p save_pressed).current ≡ p.current)
  unfolding step press_save flush
  press_save-puts p e on = ground (arith, e, on)

module _ (stringify : Draft → Text) (parses : Draft → Bool) where
  run-append :
      (es fs : List Event) (p : Page) (a : Agent)
      → run stringify parses (p, a) (es ++ fs)
        ≡ run stringify parses (run stringify parses (p, a) es) fs
  unfolding run
  run-append [] fs p a = refl
  run-append (e ∷ es) fs p a = run-append es fs (step stringify p e) (serve parses p e a)

  -- The answers to the pushes in front of one leave that one.
  answers-front :
      (states : List State) (front : List Put) (last : Put) (p : Page) (a : Agent)
      → p.puts ≡ front ++ last ∷ []
      → All (λ put. put.for_save ≡ false) front
      → length states ≡ length front
      → let (after, agent) = run stringify parses (p, a) (map (put_ok 0) states) in
        (after.puts ≡ last ∷ []) × (after.current ≡ p.current)
  unfolding run
  answers-front [] [] last p a e own l = (e, refl)
  answers-front [] (put ∷ front) last p a e own l = absurd (omega (arith, l))
  answers-front (s ∷ states) [] last p a e own l = absurd (omega (arith, l))
  answers-front (s ∷ states) (put ∷ front) last p a e own l =
      let next = step stringify p (put_ok 0 s) in
      let shorter : next.puts ≡ front ++ last ∷ [] =
        unfold step put_answered in ground (arith, e, own.0) in
      let same : next.current ≡ p.current = unfold step in put_answered-current 0 s p in
      let (puts, current) =
        answers-front states front last next (serve parses p (put_ok 0 s) a) shorter own.1
          (omega (arith, l)) in
      (puts, current ∙ same)

  -- The answer to the push of the save, and then that of the save itself.
  save-ends :
      (p : Page) (a : Agent) (s : State) (result : SaveResult) {d : Draft}
      → p.puts ≡ record { sent = d; for_save = true } ∷ []
      → parses d ≡ true
      → s.valid ≡ true
      → result.saved ≡ true
      → let (after, agent) = run stringify parses (p, a) (put_ok 0 s ∷ save_ok result ∷ []) in
        (agent.disk ≡ d)
        × (after.current ≡ p.current)
        × (after.dirty ≡ false)
        × (after.saving ≡ false)
  unfolding run step serve put_answered after_flush save_answered mark_saved
  save-ends p a s result e reads valid saved = ground (arith, e, reads, valid, saved)

  -- A save pressed while an edit waits in the debounce, whatever pushes of earlier edits are still
  -- in flight, with every answer in order and without failures, writes the draft on the page, whose
  -- durations the agent reads, and then nothing is marked unsaved.
  pub save_writes_waiting :
      (states : List State) (p : Page) (a : Agent) (s : State) (result : SaveResult) {d : Draft}
      → Tracked parses p a
      → parses p.current ≡ true
      → p.pending ≡ some d
      → All (λ put. put.for_save ≡ false) p.puts
      → length states ≡ length p.puts
      → enabled p ≡ true
      → s.valid ≡ true
      → result.saved ≡ true
      → let (after, agent) =
          run stringify parses
            (p, a)
            (save_pressed ∷ (map (put_ok 0) states ++ put_ok 0 s ∷ save_ok result ∷ [])) in
        (agent.disk ≡ p.current)
        × (after.current ≡ p.current)
        × (after.dirty ≡ false)
        × (after.saving ≡ false)
  unfolding run serve
  save_writes_waiting states p a s result {d} h reads waiting own l on valid saved =
      let (pushed, kept) = press_save-puts stringify p waiting on in
      let pressed = step stringify p save_pressed in
      let (puts, current) =
        answers-front states p.puts (record { sent = d; for_save = true }) pressed a pushed own l in
      let (q, b) = run stringify parses (pressed, a) (map (put_ok 0) states) in
      let written : d ≡ p.current = unfold arriving in ground (arith, h reads, waiting) in
      let (disk, same, clean, done) =
        save-ends q b s result puts (ap parses written ∙ reads) valid saved in
      subst
        (λ w.
          (w.1.disk ≡ p.current)
          × (w.0.current ≡ p.current)
          × (w.0.dirty ≡ false)
          × (w.0.saving ≡ false))
        (sym (run-append (map (put_ok 0) states) (put_ok 0 s ∷ save_ok result ∷ []) pressed a))
        (disk ∙ written, same ∙ current ∙ kept, clean, done)

  -- A save does not wait for a push that is already in flight: when the agent answers the save
  -- first, it writes the draft that it held before, and the page says that nothing is unsaved.
  pub push_is_not_awaited :
      (p : Page) (a : Agent) (result : SaveResult)
      → p.pending ≡ none
      → enabled p ≡ true
      → result.saved ≡ true
      → let (after, agent) = run stringify parses (p, a) (save_pressed ∷ save_ok result ∷ []) in
        (agent.disk ≡ a.held)
        × (after.current ≡ p.current)
        × (after.puts ≡ p.puts)
        × (after.dirty ≡ false)
  unfolding run step serve press_save flush after_flush save_answered mark_saved
  push_is_not_awaited p a result none_waits on saved = ground (arith, none_waits, on, saved)
