-- ===== src/Agent/Setup/Served.antt =====
-- What holds of the server through a session: its mapper, and what it wrote.
use cyberstalk_me.Base.{
  ◌≡◌, ap, sym, subst, ◌∙◌, inl, inr, Bool, true, Option, none, some, Text, List, [], ◌∷◌, arith,
}
use cyberstalk_me.Api.{Draft}
use cyberstalk_me.Agent.Mapping.{Options, Mapper, gives, new_mapper}
use cyberstalk_me.Agent.Mapping.Compiled.{Try-cases}
use cyberstalk_me.Agent.Config.{
  Library, Config, ValidationError, mapper_options, validate, is_accepted,
}
use cyberstalk_me.Agent.Config.Usable.{is_startable, validate-startable}
use cyberstalk_me.Agent.Setup.{
  Checked-cases, Session, Server, config_of, mapper_or, new_server, handle_put_config, handle_save,
  save_answer,
}
use cyberstalk_me.Agent.Setup.Saves.{put_server, put_wrong, put_right}

-- The calls that change the server: a draft, and a save with what the disk does.
pub data Turn : Type 0 where
  put : Draft → Turn
  save : Bool → Option Text → Turn

module _ (lib : Library) (session : Session) where
  unfoldable pub call : Turn → Server → Server
  unfolding handle_put_config handle_save
  call (put d) s = (handle_put_config lib session d s).1
  call (save had_file write_error) s = (handle_save lib session had_file write_error s).2

  unfoldable pub run : List Turn → Server → Server
  unfolding call
  run [] s = s
  run (c ∷ cs) s = run cs (call c s)

  -- The mapper is compiled from some options, and from those of the draft if that compiles; what
  -- was written is a configuration that the agent starts with.
  pub record IsServed (s : Server) : Type 0 where
    pub options : Options
    pub compiled : new_mapper lib.go options ≡ gives s.mapper
    pub latest : (m : Mapper) → new_mapper lib.go (mapper_options s.draft) ≡ gives m → s.mapper ≡ m
    pub written : (c : Config) → s.saved ≡ some c → is_startable lib c ≡ true

  new_server-IsServed : (c : Config) (s : Server) → new_server lib c ≡ some s → IsServed s
  unfolding new_server
  new_server-IsServed c s h = elim (Try-cases (new_mapper lib.go (mapper_options c))) [
    | inl q ↦ absurd (ground (arith, h, q))
    | inr (m, q) ↦
        let e : record { draft = c; mapper = m; saved = none } ≡ s = ground (arith, h, q) in
        subst IsServed e (record {
          options = mapper_options c;
          compiled = q;
          latest = λ n made. ground (arith, q, made);
          written = λ d saved. absurd (ground (arith, saved));
        })
  ]

  put_server-IsServed : (c : Config) (s : Server) → IsServed s → IsServed (put_server lib c s)
  put_server-IsServed c s h = elim (Try-cases (new_mapper lib.go (mapper_options c))) [
    | inl q ↦
        let kept : mapper_or s.mapper (new_mapper lib.go (mapper_options c)) ≡ s.mapper =
          ground (arith, q) in
        record {
          options = h.options;
          compiled = h.compiled ∙ ap gives (sym kept);
          latest = λ n made. absurd (ground (arith, q, made));
          written = h.written;
        }
    | inr (m, q) ↦
        let replaced : mapper_or s.mapper (new_mapper lib.go (mapper_options c)) ≡ m =
          ground (arith, q) in
        record {
          options = mapper_options c;
          compiled = q ∙ ap gives (sym replaced);
          latest = λ n made. ground (arith, q, made);
          written = h.written;
        }
  ]

  put-IsServed : (d : Draft) (s : Server) → IsServed s → IsServed (call (put d) s)
  unfolding call
  put-IsServed d s h = elim (Checked-cases (config_of lib d)) [
    | inl (e, q) ↦ subst (λ a. IsServed a.1) (sym (put_wrong lib session d e s q)) h
    | inr (c, q) ↦
        subst (λ a. IsServed a.1) (sym (put_right lib session d c s q)) (put_server-IsServed c s h)
  ]

  save-IsServed :
      (had_file : Bool) (write_error : Option Text) (s : Server)
      → IsServed s
      → IsServed (call (save had_file write_error) s)
  unfolding call handle_save
  save-IsServed had_file write_error s h =
      let whole = validate-startable lib session.config_path s.draft in
      by_validation (validate lib session.config_path s.draft) write_error whole
    where
      by_validation :
          (problem : Option ValidationError) (e : Option Text)
          → is_accepted problem ≡ is_startable lib s.draft
          → IsServed (save_answer lib session had_file s problem e).2
      by_validation (some p) e fine = h
      by_validation none (some message) fine = h
      by_validation none none fine = record {
        options = h.options;
        compiled = h.compiled;
        latest = h.latest;
        written = λ c saved.
            let same : s.draft ≡ c = ground (arith, saved) in
            subst (λ x. is_startable lib x ≡ true) same (sym fine);
      }

  run-IsServed : (cs : List Turn) (s : Server) → IsServed s → IsServed (run cs s)
  unfolding run
  run-IsServed [] s h = h
  run-IsServed (put d ∷ cs) s h = run-IsServed cs (call (put d) s) (put-IsServed d s h)
  run-IsServed (save b e ∷ cs) s h = run-IsServed cs (call (save b e) s) (save-IsServed b e s h)

  -- However drafts and saves follow each other, the mapper of the preview is one that compiled,
  -- and that of the draft if the draft compiles; what was written is a configuration that the
  -- agent starts with.
  pub session-IsServed :
      (c : Config) (s : Server) (cs : List Turn) → new_server lib c ≡ some s → IsServed (run cs s)
  session-IsServed c s cs h = run-IsServed cs s (new_server-IsServed c s h)
