-- ===== src/ConfigPage/Teardown.antt =====
-- What becomes of an edit that waits when the page is torn down.
use cyberstalk_me.Base.{◌≡◌, refl, ◌∙◌, Bool, false, some, List, [], ◌∷◌, Text, All, arith}
use cyberstalk_me.Api.{Draft}
use cyberstalk_me.ConfigPage.{
  Page, Event, loaded, load_failed, edited, timer_fired, put_ok, put_bad, save_pressed, save_ok,
  save_bad, finish_pressed, torn_down, put_answered, put_failed, fire_timer, save_answered,
  mark_saved, tear_down, step,
}
use cyberstalk_me.ConfigPage.Saving.{Agent, serve, run}

module _ (stringify : Draft → Text) (parses : Draft → Bool) where
  -- What can still arrive once the page is torn down, while no edit is made any more. The answer to
  -- a suggestion that was asked for before the teardown would make one (App.tsx, handleAddPattern).
  abbrev pub IsQuiet : Event → Type 0
  IsQuiet timer_fired = Unit
  IsQuiet (put_ok i s) = Unit
  IsQuiet (put_bad i cause) = Unit
  IsQuiet (save_ok result) = Unit
  IsQuiet (save_bad cause) = Unit
  IsQuiet (load_failed cause) = Unit
  IsQuiet _ = ⊥

  late_step :
      (e : Event) (p : Page) (a : Agent)
      → p.timer ≡ false
      → p.puts ≡ []
      → IsQuiet e
      → ((step stringify p e).timer ≡ false)
        × ((step stringify p e).puts ≡ [])
        × ((step stringify p e).pending ≡ p.pending)
        × ((serve parses p e a).held ≡ a.held)
  unfolding step fire_timer put_answered put_failed save_answered mark_saved serve
  late_step (loaded s) p a off idle l = absurd l
  late_step (load_failed cause) p a off idle l = (off, idle, refl, refl)
  late_step (edited change) p a off idle l = absurd l
  late_step timer_fired p a off idle l = ground (arith, off, idle)
  late_step (put_ok i s) p a off idle l = ground (arith, off, idle)
  late_step (put_bad i cause) p a off idle l = ground (arith, off, idle)
  late_step save_pressed p a off idle l = absurd l
  late_step (save_ok result) p a off idle l = ground (arith, off, idle)
  late_step (save_bad cause) p a off idle l = ground (arith, off, idle)
  late_step finish_pressed p a off idle l = absurd l
  late_step torn_down p a off idle l = absurd l

  late_kept :
      (es : List Event) (p : Page) (a : Agent)
      → p.timer ≡ false
      → p.puts ≡ []
      → All IsQuiet es
      → let (after, agent) = run stringify parses (p, a) es in
        (agent.held ≡ a.held) × (after.pending ≡ p.pending)
  unfolding run
  late_kept [] p a off idle l = (refl, refl)
  late_kept (e ∷ es) p a off idle l =
      let (still_off, still_idle, kept, held) = late_step e p a off idle l.0 in
      let (held_on, kept_on) =
        late_kept es (step stringify p e) (serve parses p e a) still_off still_idle l.1 in
      (held_on ∙ held, kept_on ∙ kept)

  -- An edit that waits in the debounce when the page is torn down, with no push in flight, never
  -- reaches the agent, whatever answers to pushes and saves still arrive: it stays waiting. That no
  -- edit is made any more, as the late answer to a suggestion would make one, is a condition.
  pub torn_down_drops_edit :
      (es : List Event) (p : Page) (a : Agent) {d : Draft}
      → p.puts ≡ []
      → p.pending ≡ some d
      → All IsQuiet es
      → let (after, agent) = run stringify parses (p, a) (torn_down ∷ es) in
        (agent.held ≡ a.held) × (after.pending ≡ some d)
  unfolding run step tear_down serve
  torn_down_drops_edit es p a idle waiting l =
      let (held, kept) = late_kept es (tear_down p) a refl idle l in (held, kept ∙ waiting)
