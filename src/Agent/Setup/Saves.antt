-- ===== src/Agent/Setup/Saves.antt =====
-- What a save does with a draft that was put before.
use cyberstalk_me.Base.{
  ◌≡◌, ap, sym, ◌∙◌, inl, inr, Bool, none, some, Option-cases, Text, codes, map, if◌then◌else◌,
  arith,
}
use cyberstalk_me.Numbers.{ℤ}
use cyberstalk_me.Api.{Draft}
use cyberstalk_me.Agent.Mapping.{new_mapper}
use cyberstalk_me.Agent.Config.{
  Library, Config, ValidationError, normalize_url, normalize_config, fill_description, or_default,
  default_description_text, validate, mapper_options,
}
use cyberstalk_me.Agent.Config.Usable.{is_startable, validate-startable}
use cyberstalk_me.Agent.Setup.{
  wrong, right, Checked-cases, Session, Server, raw_config, parse_draft_duration, config_of,
  draft_of, state, state_with_issue, handle_put_config, handle_save, draft_source, mapper_or,
  put_answer,
}
use cyberstalk_me.Agent.Setup.Idempotent.{IsReadBack, config_of-draft_of, normalize_config_idem}

module _ (lib : Library) where
  pub config_of-normalized :
      (d : Draft) (c : Config)
      → config_of lib d ≡ right c
      → (interval idle : ℤ) × (normalize_config (raw_config lib d interval idle) ≡ c)
  unfolding config_of
  config_of-normalized d c h =
      elim (Checked-cases (parse_draft_duration lib d.interval (codes "interval"))) [
        | inl (e, q) ↦ absurd (ground (arith, h, q))
        | inr (interval, q) ↦
            elim (Checked-cases
              (parse_draft_duration lib d.idle_threshold (codes "idle_threshold"))) [
                | inl (e, r) ↦ absurd (ground (arith, h, q, r))
                | inr (idle, r) ↦ (interval, idle, ground (arith, h, q, r))
              ]
      ]

  -- The lists of a draft in its configuration: only descriptions are filled in.
  pub config_of-lists :
      (d : Draft) (c : Config)
      → config_of lib d ≡ right c
      → (c.expose_title ≡ d.expose_title)
        × (t : Text) × (c.rules ≡ map (fill_description t) d.rules)
  unfolding normalize_config
  config_of-lists d c h =
      let (interval, idle, e) = config_of-normalized d c h in
      (
        ap Config.expose_title (sym e),
        or_default d.default_description default_description_text,
        ap Config.rules (sym e),
      )

  -- A configuration that the UI shows as it is: nothing more to trim off the address, and durations
  -- that the library reads as it wrote them.
  pub record IsShown (c : Config) : Type 0 where
    pub url : normalize_url c.server_url ≡ c.server_url
    pub interval : IsReadBack lib c.interval
    pub idle_threshold : IsReadBack lib c.idle_threshold

  normal_again :
      (d : Draft) (c : Config)
      → config_of lib d ≡ right c
      → normalize_url c.server_url ≡ c.server_url
      → normalize_config c ≡ c
  normal_again d c h url =
      let (interval, idle, e) = config_of-normalized d c h in
      let raw = raw_config lib d interval idle in
      ap normalize_config (sym e)
      ∙ normalize_config_idem raw
          (ap (λ x. normalize_url x.server_url) e ∙ url ∙ ap Config.server_url (sym e))
      ∙ e

  state-valid :
      (session : Session) (draft : Draft) (c : Config)
      → config_of lib draft ≡ right c
      → (state lib session draft).valid ≡ is_startable lib c
  unfolding state
  state-valid session draft c h = rw h (validate-startable lib draft_source c)

  -- A save, if the disk takes it.
  pub save_lem :
      (session : Session) (had_file : Bool) (s : Server)
      → let (status, result, s2) = handle_save lib session had_file none s in
        (result.saved ≡ is_startable lib s.draft)
        × (s2.saved ≡ (if is_startable lib s.draft then some s.draft else s.saved))
        × (status ≡ (if is_startable lib s.draft then 200 else 400))
  unfolding handle_save
  save_lem session had_file s =
      let whole = validate-startable lib session.config_path s.draft in
      elim (Option-cases (validate lib session.config_path s.draft)) [
        | inl e ↦ ground (arith, e, whole)
        | inr (p, e) ↦ ground (arith, e, whole)
      ]

  -- The server after a draft that has a configuration.
  abbrev pub put_server : Config → Server → Server
  put_server c s = record s {
    draft = c;
    mapper = mapper_or s.mapper (new_mapper lib.go (mapper_options c));
  }

  pub put_right :
      (session : Session) (draft : Draft) (c : Config) (s : Server)
      → config_of lib draft ≡ right c
      → handle_put_config lib session draft s ≡ (state lib session (draft_of lib c), put_server c s)
  unfolding handle_put_config
  put_right session draft c s h = ap (put_answer lib session draft s) h

  pub put_wrong :
      (session : Session) (draft : Draft) (e : ValidationError) (s : Server)
      → config_of lib draft ≡ wrong e
      → handle_put_config lib session draft s ≡ (state_with_issue lib session draft (some e), s)
  unfolding handle_put_config
  put_wrong session draft e s h = ap (put_answer lib session draft s) h

  -- The answer to a draft judges the configuration as it is normalized a second time, from what the
  -- UI is shown of it, and a save judges it as it was normalized once.
  pub valid_judges_again :
      (session : Session) (draft : Draft) (c : Config) (s : Server) (had_file : Bool)
      → config_of lib draft ≡ right c
      → IsReadBack lib c.interval
      → IsReadBack lib c.idle_threshold
      → let (st, s1) = handle_put_config lib session draft s in
        let (status, result, s2) = handle_save lib session had_file none s1 in
        (st.valid ≡ is_startable lib (normalize_config c))
        × (result.saved ≡ is_startable lib c)
        × (s2.saved ≡ (if is_startable lib c then some c else s.saved))
        × (status ≡ (if is_startable lib c then 200 else 400))
  valid_judges_again session draft c s had_file h interval idle =
      let v =
        state-valid session (draft_of lib c) (normalize_config c)
          (config_of-draft_of lib c interval idle) in
      let (saved, written, status) = save_lem session had_file (put_server c s) in
      rw (put_right session draft c s h) (v, saved, written, status)

  -- Once the agent has answered a draft whose address is trimmed, and whose durations the library
  -- reads as it wrote them, the answer says `valid` exactly if it would start with the
  -- configuration, and exactly then a save whose write succeeds is one: it writes that
  -- configuration, and a refused one writes nothing.
  pub put_then_save :
      (session : Session) (draft : Draft) (c : Config) (s : Server) (had_file : Bool)
      → config_of lib draft ≡ right c
      → IsShown c
      → let (st, s1) = handle_put_config lib session draft s in
        let (status, result, s2) = handle_save lib session had_file none s1 in
        (st.valid ≡ is_startable lib c)
        × (result.saved ≡ st.valid)
        × (s2.saved ≡ (if st.valid then some c else s.saved))
  put_then_save session draft c s had_file h shown =
      let (v, saved, written, status) =
        valid_judges_again session draft c s had_file h shown.interval shown.idle_threshold in
      let valid = v ∙ ap (is_startable lib) (normal_again draft c h shown.url) in
      (valid, saved ∙ sym valid, written ∙ ap (λ b. if b then some c else s.saved) (sym valid))
