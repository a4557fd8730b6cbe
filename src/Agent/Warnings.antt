-- ===== src/Agent/Warnings.antt =====
-- The page's marks on a draft, `duplicateProcesses` and the entries of `expose_title` without a rule
-- (client-windows/webui/src/lib/rules.ts), beside the agent's validation of that draft.
use cyberstalk_me.Base.{
  ◌≡◌, refl, ap, ap₂, subst, ◌∙◌, inl, inr, Bool, true, false, not, ◌&&◌, Bool-cases, List, [], ◌∷◌,
  Text, text_eq, text_eq_iff, text_eq_refl, is_empty, any, all, map, All, leb, arith,
}
use cyberstalk_me.Api.{Rule, Draft}
use cyberstalk_me.Rules.{normalize_process, same_process, has, duplicate_processes}
use cyberstalk_me.Rules.Duplicates.{claims, duplicate_processes_lem}
use cyberstalk_me.Rules.Expose.{has_rule, NoOrphans}
use cyberstalk_me.Agent.Texts.{IsAgreed, normalize, normalize-agrees}
use cyberstalk_me.Agent.Mapping.Compiled.{keys_of_rules, are_distinct}
use cyberstalk_me.Agent.Config.{Library, Config, fill_description}
use cyberstalk_me.Agent.Config.Usable.{is_startable}
use cyberstalk_me.Agent.Setup.{right, config_of}
use cyberstalk_me.Agent.Setup.Saves.{config_of-lists}

-- The names of a draft on which the two languages trim alike.
abbrev pub IsPortable : Draft → Type 0
IsPortable d = All (λ r. IsAgreed r.process) d.rules × All IsAgreed d.expose_title

abbrev page_keys : List Rule → List Text
page_keys rules = map (λ r. normalize_process r.process) rules

-- An exposed process has a name, and its key is among those of the rules.
abbrev has_key : List Text → Text → Bool
has_key ks p = not (is_empty (normalize p)) && any (λ k. text_eq k (normalize p)) ks

fill_description-process : (t : Text) (r : Rule) → (fill_description t r).process ≡ r.process
unfolding fill_description
fill_description-process t r = ground arith

keys-fill :
    (t : Text) (rs : List Rule)
    → All (λ r. IsAgreed r.process) rs
    → keys_of_rules (map (fill_description t) rs) ≡ page_keys rs
keys-fill t [] h = refl
keys-fill t (r ∷ rs) (first, rest) =
    ap₂ ◌∷◌ (ap normalize (fill_description-process t r) ∙ normalize-agrees r.process first)
      (keys-fill t rs rest)

claims-none :
    (rs : List Rule) (k key : Text)
    → text_eq k key ≡ true
    → any (λ q. text_eq k q) (page_keys rs) ≡ false
    → claims rs key ≡ 0
unfolding claims
claims-none [] k key e h = refl
claims-none (r ∷ rs) k key e h = ground (
  arith,
  h,
  claims-none rs k key e,
  text_eq_iff k key,
  text_eq_iff (normalize_process r.process) key,
  text_eq_iff k (normalize_process r.process),
)

distinct-claims :
    (rs : List Rule) (key : Text)
    → are_distinct (page_keys rs) ≡ true
    → leb 2 (claims rs key) ≡ false
unfolding claims
distinct-claims [] key h = refl
distinct-claims (r ∷ rs) key h = elim (Bool-cases (text_eq (normalize_process r.process) key)) [
  | inl e ↦
      ground (arith, h, e, claims-none rs (normalize_process r.process) key e (ground (arith, h)))
  | inr e ↦ ground (arith, h, e, distinct-claims rs key (ground (arith, h)))
]

has_none : (xs : List Text) → ((key : Text) → has xs key ≡ false) → xs ≡ []
unfolding has
has_none [] h = refl
has_none (x ∷ xs) h = absurd (ground (arith, h x, text_eq_refl x))

rule-found :
    (rs : List Rule) (p : Text)
    → any (λ k. text_eq k (normalize_process p)) (page_keys rs) ≡ true
    → has_rule rs p ≡ true
unfolding has_rule same_process
rule-found [] p h = absurd (ground (arith, h))
rule-found (r ∷ rs) p h = ground (
  arith,
  h,
  rule-found rs p,
  text_eq_iff (normalize_process r.process) (normalize_process p),
  text_eq_iff (normalize_process p) (normalize_process r.process),
)

rules-found :
    (rs : List Rule) (ps : List Text)
    → All IsAgreed ps
    → all (has_key (page_keys rs)) ps ≡ true
    → All (λ p. has_rule rs p ≡ true) ps
rules-found rs [] names h = tt
rules-found rs (p ∷ ps) (first, rest) h =
    let found : any (λ k. text_eq k (normalize p)) (page_keys rs) ≡ true = ground (arith, h) in
    (
      rule-found rs p (
          subst (λ q. any (λ k. text_eq k q) (page_keys rs) ≡ true) (normalize-agrees p first)
            found),
      rules-found rs ps rest (ground (arith, h)),
    )

module _ (lib : Library) where
  -- A draft that the agent would start with has no mark on the page: no name that two rules claim,
  -- and no exposed process without a rule; for names on which the two languages trim alike.
  pub startable-unmarked :
      (d : Draft) (c : Config)
      → config_of lib d ≡ right c
      → IsPortable d
      → is_startable lib c ≡ true
      → (duplicate_processes d ≡ []) × NoOrphans d
  startable-unmarked d c h (names, exposed) ok =
      let (same, t, filled) = config_of-lists lib d c h in
      let keys : keys_of_rules c.rules ≡ page_keys d.rules =
        ap keys_of_rules filled ∙ keys-fill t d.rules names in
      let once : are_distinct (keys_of_rules c.rules) ≡ true = ground (arith, ok) in
      let claimed_once = subst (λ ks. are_distinct ks ≡ true) keys once in
      let ruled : all (has_key (keys_of_rules c.rules)) c.expose_title ≡ true =
        ground (arith, ok) in
      let found = subst (λ ks. all (has_key ks) c.expose_title ≡ true) keys ruled in
      (
        has_none (duplicate_processes d) (λ key.
            duplicate_processes_lem d key
            ∙ ground (arith, distinct-claims d.rules key claimed_once)),
        rules-found d.rules d.expose_title exposed
            (subst (λ ps. all (has_key (page_keys d.rules)) ps ≡ true) same found),
      )
