-- ===== src/Examples/Pasting.antt =====
-- Snippets from client-windows/webui/src/lib/register.test.ts.
use cyberstalk_me.Base.{
  ◌≡◌, refl, some, Text, codes, trim, trim_start, trim_end, is_space, to_lower, lower, text_eq,
}
use cyberstalk_me.Snippet.{
  nothing, quoted, before_comment, unquote, lines, set_key, read_line, read_lines,
  parse_register_snippet,
}
use cyberstalk_me.Snippet.Printed.{IsPlain}

abbrev pub url : Text
url = codes "http://localhost:8080"

abbrev pub secret : Text
secret = codes "abc#123"

pub url-IsPlain : IsPlain url
unfolding trim_start trim_end is_space quoted before_comment
url-IsPlain = record {
  filled = refl;
  no_space_before = refl;
  no_space_after = refl;
  no_quotes = refl;
  no_comment = refl;
  one_line = refl;
}

pub secret-IsPlain : IsPlain secret
unfolding trim_start trim_end is_space quoted before_comment
secret-IsPlain = record {
  filled = refl;
  no_space_before = refl;
  no_space_after = refl;
  no_quotes = refl;
  no_comment = refl;
  one_line = refl;
}

prose_is_ignored :
    parse_register_snippet (codes "已注册设备 win-desktop。\r\n\r\n  TOKEN: 'abc' \r\n# device_id: x\n")
    ≡ some (record nothing { token = some (codes "abc") })
unfolding parse_register_snippet lines read_lines read_line unquote quoted before_comment nothing
    set_key trim trim_start trim_end is_space to_lower lower text_eq
prose_is_ignored = refl

comment_is_removed : unquote (codes "10s   # 每 10 秒上报一次") ≡ codes "10s"
unfolding unquote quoted before_comment trim trim_start trim_end is_space
comment_is_removed = refl

-- A comment after the closing quote keeps the quotes in the value.
quotes_stay : unquote (codes "\"abc\" # secret") ≡ codes "\"abc\""
unfolding unquote quoted before_comment trim trim_start trim_end is_space
quotes_stay = refl
