-- ===== src/Snippet/Printed.antt =====
-- The lines that `server register-device` prints, read back.
use cyberstalk_me.Base.{
  ◌≡◌, refl, ap, ◌∙◌, ℕ, Bool, true, false, not, ◌||◌, none, some, List, [], ◌∷◌, ◌++◌, Text, codes,
  text_eq, is_empty, is_space, starts_with, trim, trim_start, trim_end, lower, to_lower, all, All,
  ◌==◌, arith,
}
use cyberstalk_me.Snippet.{
  ParsedConnection, Key, server_url_key, device_id_key, token_key, interval_key, key_text, nothing,
  lines, cut, quoted, before_comment, unquote, key_of, set_key, read_line, set_line, read_lines,
  is_nothing, parse_register_snippet,
}

abbrev pub is_inline : ℕ → Bool
is_inline c = not ((c == 10) || (c == 13))

-- A value that YAML would take as it stands: not empty, on one line, without outer spaces, without
-- quotes around it and without a comment.
pub record IsPlain (v : Text) : Type 0 where
  pub filled : is_empty v ≡ false
  pub no_space_before : trim_start v ≡ v
  pub no_space_after : trim_end v ≡ v
  pub no_quotes : quoted v ≡ none
  pub no_comment : before_comment v ≡ v
  pub one_line : all is_inline v ≡ true

abbrev pub printed_line : Key → Text → Text
printed_line key v = key_text key ++ codes ": " ++ v

abbrev pub printed : List (Key × Text) → Text
printed [] = []
printed ((key, v) ∷ more) = printed_line key v ++ codes "\n" ++ printed more

abbrev pub set_all : List (Key × Text) → ParsedConnection → ParsedConnection
set_all [] found = found
set_all ((key, v) ∷ more) found = set_all more (set_key key v found)

lines-line :
    (line rest : Text)
    → all is_inline line ≡ true
    → lines (line ++ codes "\n" ++ rest) ≡ line ∷ lines rest
unfolding lines
lines-line [] rest h = refl
lines-line (c ∷ line) rest h = ground (arith, lines-line line rest)

is_empty-append : (u v : Text) → is_empty v ≡ false → is_empty (u ++ v) ≡ false
is_empty-append [] v n = n
is_empty-append (c ∷ u) v n = refl

trim_end-append : (u v : Text) → is_empty v ≡ false → trim_end v ≡ v → trim_end (u ++ v) ≡ u ++ v
unfolding trim_end
trim_end-append [] v n h = h
trim_end-append (c ∷ u) v n h = ground (arith, trim_end-append u v n h, is_empty-append u v n)

trim_plain : (v : Text) → IsPlain v → trim v ≡ v
unfolding trim
trim_plain v p = ap trim_end p.no_space_before ∙ p.no_space_after

unquote_plain : (v : Text) → IsPlain v → unquote v ≡ v
unfolding unquote
unquote_plain v p = ground (arith, p.no_quotes, ap trim p.no_comment ∙ trim_plain v p)

trim_line : (key : Key) (v : Text) → IsPlain v → trim (printed_line key v) ≡ printed_line key v
unfolding trim trim_start is_space
trim_line server_url_key v p = trim_end-append (codes "server_url: ") v p.filled p.no_space_after
trim_line device_id_key v p = trim_end-append (codes "device_id: ") v p.filled p.no_space_after
trim_line token_key v p = trim_end-append (codes "token: ") v p.filled p.no_space_after
trim_line interval_key v p = trim_end-append (codes "interval: ") v p.filled p.no_space_after

cut_line : (key : Key) (v : Text) → cut (printed_line key v) ≡ some (key_text key, codes " " ++ v)
cut_line server_url_key v = refl
cut_line device_id_key v = refl
cut_line token_key v = refl
cut_line interval_key v = refl

key_of-key_text : (key : Key) → key_of (to_lower (trim (key_text key))) ≡ some key
unfolding to_lower lower trim trim_start trim_end is_space text_eq
key_of-key_text server_url_key = refl
key_of-key_text device_id_key = refl
key_of-key_text token_key = refl
key_of-key_text interval_key = refl

trim-space : (v : Text) → trim (codes " " ++ v) ≡ trim v
unfolding trim trim_start is_space
trim-space v = refl

opens_line :
    (key : Key) (v : Text)
    → is_empty (printed_line key v) || starts_with b'#' (printed_line key v) ≡ false
opens_line server_url_key v = refl
opens_line device_id_key v = refl
opens_line token_key v = refl
opens_line interval_key v = refl

read_line-printed_line :
    (key : Key) (v : Text) → IsPlain v → read_line (printed_line key v) ≡ some (key, v)
unfolding read_line
read_line-printed_line key v p =
    let value = ap unquote (trim-space v ∙ trim_plain v p) ∙ unquote_plain v p in
    ground (
      arith,
      trim_line key v p,
      opens_line key v,
      cut_line key v,
      key_of-key_text key,
      value,
      p.filled,
    )

all-append : (p : ℕ → Bool) (s t : Text) → all p s ≡ true → all p t ≡ true → all p (s ++ t) ≡ true
all-append p [] t h k = k
all-append p (c ∷ s) t h k = ground (arith, all-append p s t)

all-printed_line : (key : Key) (v : Text) → IsPlain v → all is_inline (printed_line key v) ≡ true
all-printed_line server_url_key v p = all-append is_inline (codes "server_url: ") v refl p.one_line
all-printed_line device_id_key v p = all-append is_inline (codes "device_id: ") v refl p.one_line
all-printed_line token_key v p = all-append is_inline (codes "token: ") v refl p.one_line
all-printed_line interval_key v p = all-append is_inline (codes "interval: ") v refl p.one_line

empty_line : read_line [] ≡ none
unfolding read_line trim trim_start trim_end
empty_line = refl

read_lines-printed :
    (kvs : List (Key × Text)) (found : ParsedConnection)
    → All (λ kv. IsPlain kv.1) kvs
    → read_lines (lines (printed kvs)) found ≡ set_all kvs found
unfolding read_lines lines
read_lines-printed [] found h = ap (λ l. set_line l found) empty_line
read_lines-printed ((key, v) ∷ more) found h =
    ap (λ ls. read_lines ls found)
      (lines-line (printed_line key v) (printed more) (all-printed_line key v h.0))
    ∙ ap (λ l. read_lines (lines (printed more)) (set_line l found))
        (read_line-printed_line key v h.0)
    ∙ read_lines-printed more (set_key key v found) h.1

set_key-something :
    (key : Key) (v : Text) (found : ParsedConnection) → is_nothing (set_key key v found) ≡ false
unfolding set_key
set_key-something key v found = ground arith

set_all-something :
    (kvs : List (Key × Text)) (found : ParsedConnection)
    → is_nothing found ≡ false
    → is_nothing (set_all kvs found) ≡ false
unfolding set_key
set_all-something [] found h = h
set_all-something ((key, v) ∷ more) found h =
    set_all-something more (set_key key v found) (set_key-something key v found)

-- Whatever keys a command prints, one to a line with a plain value, pasting the lines sets exactly
-- these keys, the last value of each, and leaves the others as they are.
pub parse-printed :
    (key : Key) (v : Text) (more : List (Key × Text))
    → All (λ kv. IsPlain kv.1) ((key, v) ∷ more)
    → parse_register_snippet (printed ((key, v) ∷ more)) ≡ some (set_all ((key, v) ∷ more) nothing)
unfolding parse_register_snippet
parse-printed key v more h = ground (
  arith,
  read_lines-printed ((key, v) ∷ more) nothing h,
  set_all-something more (set_key key v nothing) (set_key-something key v nothing),
)
