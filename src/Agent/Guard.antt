-- ===== src/Agent/Guard.antt =====
-- client-windows/internal/setup/guard.go: which requests the agent answers. `equal_fold` is
-- `strings.EqualFold`. The token is compared in constant time there; only what is compared is
-- modelled.
use cyberstalk_me.Base.{
  ℕ, ◌≡◌, refl, ap, sym, ◌∙◌, ◌↔◌, ◌⊎◌, inl, inr, Bool, Bool-cases, true, false, not, Option,
  Option-cases, none, some, List, [], ◌∷◌, ◌++◌, Text, codes, text_eq, text_eq_sound, text_eq_refl,
  is_empty, any, if◌then◌else◌, arith,
}
use cyberstalk_me.Api.{Draft}
use cyberstalk_me.Wire.Json.{Json}
use cyberstalk_me.Client.Frames.{strip_prefix}
use cyberstalk_me.Client.Calls.{
  Request, Call, get_state, put_draft, get_preview, test_pattern, suggest_pattern, save, quit, send,
}
use cyberstalk_me.Agent.Texts.{trim_space}
use cyberstalk_me.Agent.Config.{Library}
pub mod Passes

-- The parts of a request that are looked at; a header that is absent is empty.
pub record Incoming : Type 0 where
  pub host : Text
  pub origin : Text
  pub authorization : Text

-- `loopbackHosts`.
abbrev pub loopback_hosts : Text → List Text
loopback_hosts port =
    (codes "127.0.0.1:" ++ port) ∷ (codes "localhost:" ++ port) ∷ (codes "[::1]:" ++ port) ∷ []

-- `tokenAllowed`.
unfoldable pub token_allowed : Text → Incoming → Bool
unfolding trim_space
token_allowed token r = elim (strip_prefix (codes "Bearer ") r.authorization) [
  | none ↦ false
  | some value ↦ text_eq (trim_space value) token
]

module _ (lib : Library) (equal_fold : Text → Text → Bool) (hosts : List Text) where
  abbrev pub host_allowed : Text → Bool
  host_allowed host = any (equal_fold host) hosts

  -- `originAllowed`.
  unfoldable pub origin_allowed : Incoming → Bool
  origin_allowed r =
      if not (host_allowed r.host)
      then false
      else if is_empty r.origin
      then true
      else elim (lib.parse_url r.origin) [
        | none ↦ false
        | some (scheme, host) ↦ if text_eq scheme (codes "http") then host_allowed host else false
      ]

  -- `guard`: the refusal, if any.
  unfoldable pub guard : Text → Incoming → Option (ℕ × Text)
  unfolding origin_allowed token_allowed
  guard token r =
      if not (origin_allowed r)
      then some (403, codes "cross-origin request rejected")
      else if not (token_allowed token r)
      then some (401, codes "missing or invalid setup token")
      else none

-- A request of the page, from a place.
abbrev pub incoming : Text → Text → Request → Incoming
incoming host origin r = record { host = host; origin = origin; authorization = r.authorization }
