-- ===== src/Agent/Renamed.antt =====
-- A rule renamed on the page, `RuleEditor` of client-windows/webui/src/components/RuleEditor.tsx, as
-- the agent takes it.
use cyberstalk_me.Base.{
  ℕ, ◌≡◌, refl, ◌∙◌, inl, inr, Bool, true, false, Bool-cases, none, some, Text, get_elem?,
  erase_idx,
}
use cyberstalk_me.Api.{Draft, Rule}
use cyberstalk_me.Rules.{exposes_title, same_process}
use cyberstalk_me.Rules.Expose.{has_rule}
use cyberstalk_me.RuleEditor.{apply, set_process}
use cyberstalk_me.RuleEditor.Orphans.{rename_leaves_orphan}
use cyberstalk_me.Agent.Config.{Library, Config}
use cyberstalk_me.Agent.Config.Usable.{is_startable}
use cyberstalk_me.Agent.Setup.{right, Session, Server, config_of, handle_put_config, handle_save}
use cyberstalk_me.Agent.Setup.Saves.{put_right, put_server, save_lem}
use cyberstalk_me.Agent.Warnings.{IsPortable, startable-unmarked}

module _ (lib : Library) (session : Session) where
  -- Renaming the only rule of an exposed process to another one makes a draft that the agent does
  -- not start with, since the entry of `expose_title` stays: once it is pushed, a save is refused,
  -- and writes nothing; for names on which the two languages trim alike, and durations that parse.
  pub rename_is_refused :
      (d : Draft) (i : ℕ) (name : Text) (r : Rule) (c : Config) (s : Server) (had_file : Bool)
      → get_elem? d.rules i ≡ some r
      → exposes_title d r.process ≡ true
      → has_rule (erase_idx d.rules i) r.process ≡ false
      → same_process r.process name ≡ false
      → config_of lib (apply d (set_process i name)) ≡ right c
      → IsPortable (apply d (set_process i name))
      → let (st, s1) = handle_put_config lib session (apply d (set_process i name)) s in
        let (status, result, s2) = handle_save lib session had_file none s1 in
        (result.saved ≡ false) × (s2.saved ≡ s.saved) × (status ≡ 400)
  rename_is_refused d i name r c s had_file at exposed alone other h portable =
      elim (Bool-cases (is_startable lib c)) [
        | inl ok ↦ absurd (
            rename_leaves_orphan d i name {r = r} at exposed alone other
              (startable-unmarked lib (apply d (set_process i name)) c h portable ok).1)
        | inr bad ↦
            let (saved, written, status) = save_lem lib session had_file (put_server lib c s) in
            rw (put_right lib session (apply d (set_process i name)) c s h)
              (saved ∙ bad, written ∙ rw bad refl, status ∙ rw bad refl)
      ]
