-- ===== src/Snippet.antt =====
-- client-windows/webui/src/lib/register.ts: the connection keys in a pasted snippet.
pub mod Printed
use cyberstalk_me.Base.{
  ℕ, Bool, true, false, not, ◌&&◌, ◌||◌, Option, none, some, List, [], ◌∷◌, ◌++◌, Text, codes,
  text_eq, is_empty, is_space, starts_with, trim, to_lower, all, ◌==◌, if◌then◌else◌,
}

pub record ParsedConnection : Type 0 where
  pub server_url : Option Text
  pub device_id : Option Text
  pub token : Option Text
  pub interval : Option Text

pub data Key : Type 0 where
  server_url_key device_id_key token_key interval_key : Key

abbrev pub key_text : Key → Text
key_text server_url_key = codes "server_url"
key_text device_id_key = codes "device_id"
key_text token_key = codes "token"
key_text interval_key = codes "interval"

unfoldable pub nothing : ParsedConnection
nothing = record { server_url = none; device_id = none; token = none; interval = none }

-- A code unit in front of the first line.
abbrev pub cons_line : ℕ → List Text → List Text
cons_line c [] = (c ∷ []) ∷ []
cons_line c (line ∷ more) = (c ∷ line) ∷ more

-- `text.split(/\r?\n/)`: the `\r` before a `\n` belongs to the separator.
unfoldable pub lines : Text → List Text
lines [] = [] ∷ []
lines (c ∷ s) =
    let rest = lines s in
    if c == 10 then [] ∷ rest else if (c == 13) && starts_with 10 s then rest else cons_line c rest

-- What stands before the first `:` of a line, and what after it.
abbrev pub cut : Text → Option (Text × Text)
cut [] = none
cut (c ∷ s) =
    let rest = cut s in
    if c == b':' then some ([], s) else elim rest [ none ↦ none | some (k, v) ↦ some (c ∷ k, v) ]

-- All but the last code unit, and the last.
abbrev pub split_last : Text → Option (Text × ℕ)
split_last [] = none
split_last (c ∷ s) = elim (split_last s) [
  | none ↦ some ([], c)
  | some (middle, last) ↦ some (c ∷ middle, last)
]

-- `.` matches no line terminator.
abbrev is_dot : ℕ → Bool
is_dot c = not ((c == 10) || (c == 13) || (c == 0x2028) || (c == 0x2029))

-- `/^(["'])(.*)\1$/`, with the second group as the result.
unfoldable pub quoted : Text → Option Text
quoted [] = none
quoted (q ∷ s) =
    if (q == b'"') || (q == b'\'')
    then elim (split_last s) [
      | none ↦ none
      | some (middle, last) ↦ if (last == q) && all is_dot middle then some middle else none
    ]
    else none

-- The text before the first white space that `#` follows.
unfoldable pub before_comment : Text → Text
before_comment [] = []
before_comment (c ∷ s) =
    let rest = before_comment s in if is_space c && starts_with b'#' s then [] else c ∷ rest

unfoldable pub unquote : Text → Text
unfolding quoted before_comment trim
unquote value = elim (quoted value) [ some inner ↦ inner | none ↦ trim (before_comment value) ]

abbrev pub key_of : Text → Option Key
key_of s =
    if text_eq s (key_text server_url_key)
    then some server_url_key
    else if text_eq s (key_text device_id_key)
    then some device_id_key
    else if text_eq s (key_text token_key)
    then some token_key
    else if text_eq s (key_text interval_key)
    then some interval_key
    else none

unfoldable pub set_key : Key → Text → ParsedConnection → ParsedConnection
set_key server_url_key v found = record found { server_url = some v }
set_key device_id_key v found = record found { device_id = some v }
set_key token_key v found = record found { token = some v }
set_key interval_key v found = record found { interval = some v }

-- One round of the loop: what the line sets, if it sets anything.
unfoldable pub read_line : Text → Option (Key × Text)
unfolding trim to_lower unquote
read_line raw =
    let line = trim raw in
    if is_empty line || starts_with b'#' line then none else elim (cut line) [
      | none ↦ none
      | some (k, v) ↦ elim (key_of (to_lower (trim k))) [
        | none ↦ none
        | some key ↦ if is_empty (unquote (trim v)) then none else some (key, unquote (trim v))
      ]
    ]

abbrev pub set_line : Option (Key × Text) → ParsedConnection → ParsedConnection
set_line none found = found
set_line (some (key, value)) found = set_key key value found

unfoldable pub read_lines : List Text → ParsedConnection → ParsedConnection
unfolding read_line set_key
read_lines [] found = found
read_lines (line ∷ more) found = read_lines more (set_line (read_line line) found)

abbrev pub is_nothing : ParsedConnection → Bool
is_nothing found = elim found.server_url [
  | some _ ↦ false
  | none ↦ elim found.device_id [
    | some _ ↦ false
    | none ↦ elim found.token [
      | some _ ↦ false
      | none ↦ elim found.interval [ some _ ↦ false | none ↦ true ]
    ]
  ]
]

unfoldable pub parse_register_snippet : Text → Option ParsedConnection
unfolding lines read_lines nothing
parse_register_snippet text =
    let found = read_lines (lines text) nothing in if is_nothing found then none else some found
