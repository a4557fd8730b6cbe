-- ===== src/Agent/Setup/Idempotent.antt =====
-- What the UI shows of a configuration is read back as that configuration.
use cyberstalk_me.Base.{
  ℕ, ◌+◌, ◌≡◌, refl, ap, ap₂, ◌∙◌, inl, inr, false, Bool-cases, some, List, [], ◌∷◌, Text, codes,
  is_empty, map, arith,
}
use cyberstalk_me.Numbers.{ℤ, pos, negsuc}
use cyberstalk_me.Api.{Rule}
use cyberstalk_me.Agent.Texts.{is_white, trim_left, trim_right, trim_space}
use cyberstalk_me.Agent.Config.{
  Library, Config, normalize_url, normalize_config, or_default, or_duration, fill_description,
  parse_duration, format_duration, default_app_text, default_description_text, default_locked_app,
  default_locked_description,
}
use cyberstalk_me.Agent.Setup.{right, draft_of, config_of, parse_draft_duration}

trim_right_idem : (s : Text) → trim_right (trim_right s) ≡ trim_right s
unfolding trim_right
trim_right_idem [] = refl
trim_right_idem (c ∷ s) = ground (arith, trim_right_idem s)

-- A text that begins with no white space.
abbrev Starts : Text → Type 0
Starts [] = Unit
Starts (c ∷ _) = is_white c ≡ false

trim_left-Starts : (s : Text) → Starts (trim_left s)
unfolding trim_left
trim_left-Starts [] = tt
trim_left-Starts (c ∷ s) = elim (Bool-cases (is_white c)) [
  | inl white ↦ rw white (trim_left-Starts s)
  | inr other ↦ rw other other
]

trim_right-Starts : (s : Text) → Starts s → Starts (trim_right s)
unfolding trim_right
trim_right-Starts [] h = tt
trim_right-Starts (c ∷ s) h = rw h h

trim_left_of_Starts : (s : Text) → Starts s → trim_left s ≡ s
unfolding trim_left
trim_left_of_Starts [] h = refl
trim_left_of_Starts (c ∷ s) h = rw h refl

pub trim_space_idem : (s : Text) → trim_space (trim_space s) ≡ trim_space s
unfolding trim_space
trim_space_idem s =
    let starts = trim_right-Starts (trim_left s) (trim_left-Starts s) in
    rw (trim_left_of_Starts (trim_right (trim_left s)) starts) (trim_right_idem (trim_left s))

-- A default that is neither blank nor surrounded by white space.
abbrev IsDefault : Text → Type 0
IsDefault d = (trim_space d ≡ d) × (is_empty d ≡ false)

or_default-trimmed : (v d : Text) → IsDefault d → IsDefault (or_default v d)
unfolding or_default
or_default-trimmed v d (h, filled) = elim (Bool-cases (is_empty (trim_space v))) [
  | inl e ↦ rw e (h, filled)
  | inr e ↦ rw e (trim_space_idem v, e)
]

or_default_of_IsDefault : (v d : Text) → IsDefault v → or_default v d ≡ v
unfolding or_default
or_default_of_IsDefault v d (h, filled) = rw (h, filled) refl

or_default_idem : (v d : Text) → IsDefault d → or_default (or_default v d) d ≡ or_default v d
or_default_idem v d h = or_default_of_IsDefault (or_default v d) d (or_default-trimmed v d h)

or_duration_idem :
    (d : ℤ) (n : ℕ)
    → or_duration (or_duration d (pos (n + 1))) (pos (n + 1)) ≡ or_duration d (pos (n + 1))
or_duration_idem (pos k) n = ground arith
or_duration_idem (negsuc k) n = refl

fill_description_idem :
    (d : Text) (r : Rule)
    → IsDefault d
    → fill_description d (fill_description d r) ≡ fill_description d r
unfolding fill_description
fill_description_idem d r (h, filled) = elim (Bool-cases (is_empty (trim_space r.description))) [
  | inl e ↦ rw (e, h, filled) refl
  | inr e ↦ rw (e, e) refl
]

filled_idem :
    (d : Text) (rs : List Rule)
    → IsDefault d
    → map (fill_description d) (map (fill_description d) rs) ≡ map (fill_description d) rs
filled_idem d [] h = refl
filled_idem d (r ∷ rs) h = ap₂ ◌∷◌ (fill_description_idem d r h) (filled_idem d rs h)

app_IsDefault : IsDefault default_app_text
unfolding trim_space
app_IsDefault = (refl, refl)

description_IsDefault : IsDefault default_description_text
unfolding trim_space
description_IsDefault = (refl, refl)

locked_app_IsDefault : IsDefault default_locked_app
unfolding trim_space
locked_app_IsDefault = (refl, refl)

locked_description_IsDefault : IsDefault default_locked_description
unfolding trim_space
locked_description_IsDefault = (refl, refl)

-- `Normalize` changes nothing the second time, if it has left no spaces or slashes to trim at the
-- end of the address.
pub normalize_config_idem :
    (c : Config)
    → normalize_url (normalize_config c).server_url ≡ (normalize_config c).server_url
    → normalize_config (normalize_config c) ≡ normalize_config c
unfolding normalize_config
normalize_config_idem c h =
    let description = or_default c.default_description default_description_text in
    let is_default =
      or_default-trimmed c.default_description default_description_text description_IsDefault in
    let descriptions =
      or_default_idem c.default_description default_description_text description_IsDefault in
    let filled =
      ap (λ d. map (fill_description d) (map (fill_description description) c.rules)) descriptions
      ∙ filled_idem description c.rules is_default in
    λ i. record {
      server_url = h i;
      device_id = trim_space_idem c.device_id i;
      token = trim_space_idem c.token i;
      interval = or_duration_idem c.interval 9999999999 i;
      device_name = trim_space_idem c.device_name i;
      idle_threshold = or_duration_idem c.idle_threshold 299999999999 i;
      default_app = or_default_idem c.default_app default_app_text app_IsDefault i;
      default_description = descriptions i;
      locked_app = or_default_idem c.locked_app default_locked_app locked_app_IsDefault i;
      locked_description =
          or_default_idem c.locked_description default_locked_description
            locked_description_IsDefault i;
      rules = filled i;
      expose_title = c.expose_title;
    }

module _ (lib : Library) where
  -- The library reads a duration as it was written.
  abbrev pub IsReadBack : ℤ → Type 0
  IsReadBack d =
      (parse_duration lib (format_duration lib d) ≡ some d)
      × (is_empty (trim_space (format_duration lib d)) ≡ false)

  parse_draft_duration-format :
      (d : ℤ) (field : Text)
      → IsReadBack d
      → parse_draft_duration lib (format_duration lib d) field ≡ right d
  unfolding parse_draft_duration
  parse_draft_duration-format d field (e, filled) = rw (filled, e) refl

  pub config_of-draft_of :
      (c : Config)
      → IsReadBack c.interval
      → IsReadBack c.idle_threshold
      → config_of lib (draft_of lib c) ≡ right (normalize_config c)
  unfolding config_of draft_of
  config_of-draft_of c interval idle = ground (
    arith,
    parse_draft_duration-format c.interval (codes "interval") interval,
    parse_draft_duration-format c.idle_threshold (codes "idle_threshold") idle,
  )
