-- ===== src/Agent/Held.antt =====
-- The draft that the agent of ConfigPage.Saving holds, beside the configuration that
-- client-windows/internal/setup/server.go holds after the same pushes.
use cyberstalk_me.Base.{
  ◌≡◌, ap, sym, ◌∙◌, inl, inr, Bool, true, false, List, [], ◌∷◌, if◌then◌else◌,
}
use cyberstalk_me.Api.{Draft}
use cyberstalk_me.ConfigPage.Saving.{hold}
use cyberstalk_me.Agent.Config.{Library, Config}
use cyberstalk_me.Agent.Setup.{
  Checked, wrong, right, Checked-cases, Session, Server, config_of, handle_put_config,
}
use cyberstalk_me.Agent.Setup.Saves.{put_right, put_wrong}

abbrev is_right : Checked Config → Bool
is_right (wrong e) = false
is_right (right c) = true

-- Whether the agent reads the durations of a draft.
abbrev reads : Library → Draft → Bool
reads lib d = is_right (config_of lib d)

module _ (lib : Library) (session : Session) where
  abbrev pushed : List Draft → Server → Server
  pushed [] s = s
  pushed (d ∷ ds) s = pushed ds (handle_put_config lib session d s).1

  abbrev held : List Draft → Draft → Draft
  held [] kept = kept
  held (d ∷ ds) kept = held ds (hold (reads lib) kept d)

  hold-refines :
      (d kept : Draft) (s : Server)
      → config_of lib kept ≡ right s.draft
      → config_of lib (hold (reads lib) kept d) ≡ right (handle_put_config lib session d s).1.draft
  hold-refines d kept s h = elim (Checked-cases (config_of lib d)) [
    | inl (e, bad) ↦
        ap (λ b. config_of lib (if b then d else kept)) (ap is_right bad)
        ∙ (h ∙ sym (ap (λ w. right w.1.draft) (put_wrong lib session d e s bad)))
    | inr (c, good) ↦
        ap (λ b. config_of lib (if b then d else kept)) (ap is_right good)
        ∙ (good ∙ sym (ap (λ w. right w.1.draft) (put_right lib session d c s good)))
  ]

  -- After any pushes, the configuration that the agent holds is that of the last draft among them
  -- that it could read, or else that of the draft it held before.
  held-refines :
      (ds : List Draft) (kept : Draft) (s : Server)
      → config_of lib kept ≡ right s.draft
      → config_of lib (held ds kept) ≡ right (pushed ds s).draft
  held-refines [] kept s h = h
  held-refines (d ∷ ds) kept s h =
      held-refines ds (hold (reads lib) kept d) (handle_put_config lib session d s).1
        (hold-refines d kept s h)
