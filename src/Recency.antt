-- ===== src/Recency.antt =====
-- client-windows/webui/src/lib/time.ts: how long ago an entry of the discovery panel was seen.
use cyberstalk_me.Base.{
  ℕ, ◌+◌, ◌-◌, ◌/◌, Bool, false, not, Option, none, some, [], ◌++◌, Text, codes, show, ltb,
  if◌then◌else◌,
}
use cyberstalk_me.Numbers.{ℤ, pos, negsuc, sub_ℤ, ltb_ℤ}

-- `seconds` of a difference in milliseconds, `Math.round(difference / 1000)`: a half is rounded up.
unfoldable pub rounded_seconds : ℤ → ℤ
rounded_seconds (pos m) = pos ((m + 500) / 1000)
rounded_seconds (negsuc m) = if ltb m 500 then pos 0 else negsuc ((m + 500) / 1000 - 1)

unfoldable pub seconds_ago : ℤ → Text
seconds_ago (negsuc _) = codes "刚刚"
seconds_ago (pos seconds) =
    let minutes = seconds / 60 in
    let hours = minutes / 60 in
    if ltb seconds 5
    then codes "刚刚"
    else if ltb seconds 60
    then show seconds ++ codes " 秒前"
    else if ltb minutes 60
    then show minutes ++ codes " 分钟前"
    else if ltb hours 24
    then show hours ++ codes " 小时前"
    else show (hours / 24) ++ codes " 天前"

-- `relativeTime`, with `Date.parse` as a parameter, whose `none` is NaN.
unfoldable pub relative_time : (Text → Option ℤ) → Text → ℤ → Text
unfolding seconds_ago rounded_seconds
relative_time date_parse iso now = elim (date_parse iso) [
  | none ↦ []
  | some date ↦ seconds_ago (rounded_seconds (sub_ℤ now date))
]

-- `isRecent`.
unfoldable pub is_recent : (Text → Option ℤ) → Text → ℤ → ℕ → Bool
is_recent date_parse iso now within_ms = elim (date_parse iso) [
  | none ↦ false
  | some date ↦ not (ltb_ℤ (pos within_ms) (sub_ℤ now date))
]
