-- ===== src/Client/Calls.antt =====
-- The requests of `api`: the session token, the path, the method and the body of each call.
-- `stringify` is `JSON.stringify`, on a draft and on the two small objects.
use cyberstalk_me.Base.{
  ◌≡◌, refl, inl, inr, Bool-cases, arith, Bool, true, false, not, ◌&&◌, Option, none, some, [],
  ◌++◌, Text, codes, is_empty, if◌then◌else◌,
}
use cyberstalk_me.Api.{Draft}
use cyberstalk_me.Wire.Json.{Json, str, obj, field, end}
use cyberstalk_me.Client.Frames.{strip_prefix}

-- `sessionToken`: what the agent embedded, if it replaced the placeholder; in the development
-- server, the query's `token`.
abbrev pub is_placeholder : Text → Bool
is_placeholder token = elim (strip_prefix (codes "__SETUP_TOKEN") token) [
  | none ↦ false
  | some _ ↦ true
]

abbrev pub usable : Option Text → Option Text
usable none = none
usable (some embedded) =
    if not (is_empty embedded) && not (is_placeholder embedded) then some embedded else none

abbrev pub or_empty : Option Text → Text
or_empty none = []
or_empty (some t) = t

unfoldable pub session_token : Option Text → Bool → Option Text → Text
session_token embedded dev query = elim (usable embedded) [
  | some token ↦ token
  | none ↦ if dev then or_empty query else []
]

pub data Method : Type 0 where
  get put post : Method

pub record Request : Type 0 where
  pub path : Text
  pub method : Method
  pub authorization : Text
  pub content_type : Option Text
  pub body : Option Text

-- The members of `api`.
pub data Call : Type 0 where
  get_state get_preview save quit : Call
  put_draft : Draft → Call
  test_pattern : (pattern process : Text) → Call
  suggest_pattern : (title : Text) → Call

-- The headers that `request` sets.
unfoldable pub request : Text → Text → Method → Option Text → Request
request token path method body = record {
  path = path;
  method = method;
  authorization = codes "Bearer " ++ token;
  content_type = elim body [ none ↦ none | some _ ↦ some (codes "application/json") ];
  body = body;
}

module _ (stringify_draft : Draft → Text) (stringify : Json → Text) where
  unfoldable pub send : Text → Call → Request
  unfolding request
  send token get_state = request token (codes "/api/config") get none
  send token (put_draft draft) =
      request token (codes "/api/config") put (some (stringify_draft draft))
  send token get_preview = request token (codes "/api/preview") get none
  send token (test_pattern pattern process) =
      request token (codes "/api/regex/test") post
        (some (stringify (obj (field "pattern" (str pattern) (field "process" (str process) end)))))
  send token (suggest_pattern title) =
      request token (codes "/api/regex/suggest") post
        (some (stringify (obj (field "title" (str title) end))))
  send token save = request token (codes "/api/save") post none
  send token quit = request token (codes "/api/quit") post none

-- In a shipped page the token never comes from the URL, and the placeholder that the agent failed
-- to replace is never sent as one.
pub session_token-shipped :
    (embedded query other : Option Text)
    → (session_token embedded false query ≡ session_token embedded false other)
      × (is_placeholder (session_token embedded false query) ≡ false)
unfolding session_token
session_token-shipped none query other = (refl, refl)
session_token-shipped (some token) query other =
    elim (Bool-cases (not (is_empty token) && not (is_placeholder token))) [
      | inl h ↦ (refl, ground (arith, h))
      | inr h ↦ (refl, ground (arith, h))
    ]
