-- ===== src/Agent/Pushed.antt =====
-- The page together with the agent: a save pressed on the page, up to the agent's file.
use cyberstalk_me.Base.{
  ◌≡◌, ap, ◌∙◌, Bool, true, false, none, some, [], ◌∷◌, Text, arith, if◌then◌else◌,
}
use cyberstalk_me.Api.{Draft, State, SaveResult}
use cyberstalk_me.ConfigPage.{
  Page, put_ok, save_pressed, save_ok, enabled, step, put_answered, press_save, flush, after_flush,
  save_answered, mark_saved,
}
use cyberstalk_me.Agent.Config.{Library, Config}
use cyberstalk_me.Agent.Config.Usable.{is_startable}
use cyberstalk_me.Agent.Setup.{right, Session, Server, config_of, handle_put_config, handle_save}
use cyberstalk_me.Agent.Setup.Saves.{IsShown, put_then_save}

-- The push that a save makes of the draft on the page, and the page after the two answers.
save_sends :
    (stringify : Draft → Text) (p : Page) (st : State) (result : SaveResult)
    → p.pending ≡ some p.current
    → p.puts ≡ []
    → enabled p ≡ true
    → st.valid ≡ true
    → result.saved ≡ true
    → let pressed = step stringify p save_pressed in
      let after = step stringify (step stringify pressed (put_ok 0 st)) (save_ok result) in
      (pressed.puts ≡ record { sent = p.current; for_save = true } ∷ [])
      × (after.current ≡ p.current)
      × (after.dirty ≡ false)
      × (after.saving ≡ false)
unfolding step put_answered press_save flush after_flush save_answered mark_saved
save_sends stringify p st result waiting idle on valid saved =
    ground (arith, waiting, idle, on, valid, saved)

module _ (lib : Library) (session : Session) (stringify : Draft → Text) where
  -- A save pressed on the page while the draft on it waits to be pushed, and no push is in flight,
  -- pushes that draft. If the draft parses, and the agent would start with its configuration, shows
  -- it as it is, and writes without an error, then with its two answers the file is that
  -- configuration, and the page marks nothing unsaved.
  pub save_reaches_file :
      (p : Page) (s : Server) (c : Config) (had_file : Bool)
      → p.pending ≡ some p.current
      → p.puts ≡ []
      → enabled p ≡ true
      → config_of lib p.current ≡ right c
      → IsShown lib c
      → is_startable lib c ≡ true
      → let (st, s1) = handle_put_config lib session p.current s in
        let (status, result, s2) = handle_save lib session had_file none s1 in
        let pressed = step stringify p save_pressed in
        let after = step stringify (step stringify pressed (put_ok 0 st)) (save_ok result) in
        (pressed.puts ≡ record { sent = p.current; for_save = true } ∷ [])
        × (s2.saved ≡ some c)
        × (after.current ≡ p.current)
        × (after.dirty ≡ false)
        × (after.saving ≡ false)
  save_reaches_file p s c had_file waiting idle on h shown ok =
      let (valid, saved, written) = put_then_save lib session p.current c s had_file h shown in
      let accepted = valid ∙ ok in
      let (pushed, same, clean, done) =
        save_sends stringify p _ _ waiting idle on accepted (saved ∙ accepted) in
      (pushed, written ∙ ap (λ b. if b then some c else s.saved) accepted, same, clean, done)
