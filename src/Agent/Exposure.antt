-- ===== src/Agent/Exposure.antt =====
-- The page's switch for a process, `exposesTitle` of client-windows/webui/src/lib/rules.ts, beside
-- what the agent resolves with the draft that the page pushed.
use cyberstalk_me.Base.{
  ◌≡◌, refl, ap, ap₂, ◌∙◌, true, false, not, ◌||◌, Option, List, [], ◌∷◌, Text, text_eq, any, All,
}
use cyberstalk_me.Numbers.{ℤ}
use cyberstalk_me.Api.{Draft}
use cyberstalk_me.Rules.{same_process, exposes_title}
use cyberstalk_me.Agent.Texts.{IsAgreed, normalize, normalize-agrees}
use cyberstalk_me.Agent.Mapping.{Mapper, gives, new_mapper, resolve}
use cyberstalk_me.Agent.Mapping.Usable.{new_mapper-IsMapper}
use cyberstalk_me.Agent.Mapping.Private.{says, asks_title, any-map, resolve-private}
use cyberstalk_me.Agent.Config.{Library, Config, mapper_options}
use cyberstalk_me.Agent.Setup.{right, config_of}
use cyberstalk_me.Agent.Setup.Saves.{config_of-lists}

agreed-any :
    (ps : List Text) (p : Text)
    → All IsAgreed ps
    → IsAgreed p
    → any (λ x. text_eq (normalize x) (normalize p)) ps ≡ any (λ x. same_process x p) ps
unfolding same_process
agreed-any [] p all_agreed agreed = refl
agreed-any (x ∷ ps) p (first, rest) agreed =
    ap₂ (◌||◌) (ap₂ text_eq (normalize-agrees x first) (normalize-agrees p agreed))
      (agreed-any ps p rest agreed)

module _ (lib : Library) where
  hidden-agrees :
      (d : Draft) (c : Config) (p : Text)
      → config_of lib d ≡ right c
      → All IsAgreed d.expose_title
      → IsAgreed p
      → any (λ x. text_eq (normalize x) (normalize p)) c.expose_title ≡ exposes_title d p
  unfolding exposes_title
  hidden-agrees d c p h names agreed =
      ap (any (λ x. text_eq (normalize x) (normalize p))) (config_of-lists lib d c h).0
      ∙ agreed-any d.expose_title p names agreed

  -- Once the pushed draft's durations parse and its rules compile, so that the agent resolves with
  -- the mapper of that draft: the processes whose title the mapper exposes are those whose switch
  -- is on in the draft, for names on which the two languages trim alike.
  pub expose-exposes_title :
      (d : Draft) (c : Config) (m : Mapper) (p : Text)
      → config_of lib d ≡ right c
      → new_mapper lib.go (mapper_options c) ≡ gives m
      → All IsAgreed d.expose_title
      → IsAgreed p
      → any (λ k. text_eq k (normalize p)) m.expose ≡ exposes_title d p
  expose-exposes_title d c m p h made names agreed =
      ap (any (λ k. text_eq k (normalize p)))
        (new_mapper-IsMapper lib.go (mapper_options c) m made).expose
      ∙ any-map normalize (λ k. text_eq k (normalize p)) c.expose_title
      ∙ hidden-agrees d c p h names agreed

  -- Once the pushed draft's durations parse and its rules compile, so that the agent resolves with
  -- the mapper of that draft: a process whose switch is off in the draft is reported, whatever its
  -- window's title, with a description that the configuration holds, and its title is read only
  -- for patterns of its rule; for names on which the two languages trim alike.
  pub switched_off_is_private :
      (d : Draft) (c : Config) (m : Mapper) (p : Text) (title : Option Text) (idle_seconds : ℤ)
      → config_of lib d ≡ right c
      → new_mapper lib.go (mapper_options c) ≡ gives m
      → All IsAgreed d.expose_title
      → IsAgreed p
      → exposes_title d p ≡ false
      → (says (mapper_options c) p (resolve m p title idle_seconds).0.description ≡ true)
        × ((not (resolve m p title idle_seconds).1 || asks_title (mapper_options c) p) ≡ true)
  switched_off_is_private d c m p title idle_seconds h made names agreed off =
      resolve-private lib.go (mapper_options c) m p title idle_seconds made
        (hidden-agrees d c p h names agreed ∙ off)
