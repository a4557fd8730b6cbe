-- ===== src/Format.antt =====
-- web/src/lib/format.ts: the texts that the public page shapes. Keys that every object inherits
-- ("constructor" and the like) are not told apart in the label tables.
pub mod Durations
pub mod Dates
use cyberstalk_me.Base.{
  ℕ, ◌+◌, ◌-◌, ◌*◌, ◌/◌, ◌%◌, Bool, true, false, ◌&&◌, Option, none, some, List, [], ◌∷◌, ◌++◌,
  Text, codes, text_eq, show, leb, ltb, ◌==◌, if◌then◌else◌,
}
use cyberstalk_me.Numbers.{
  ℤ, pos, negsuc, Number, nan, infinity, neg_infinity, finite, floor_ℤ, trunc_ℤ, sub_ℤ, show_ℤ,
}

abbrev minute : ℕ
minute = 60

abbrev hour : ℕ
hour = 60 * minute

abbrev day : ℕ
day = 24 * hour

-- `timeAgo`, with `Date.parse` as a parameter, whose `none` is NaN; a date and `now` are whole
-- milliseconds, so their difference over 1000 is a number of thousandths.
unfoldable pub ago : ℤ → Text
ago (negsuc _) = codes "刚刚"
ago (pos seconds) =
    if ltb seconds 10
    then codes "刚刚"
    else if ltb seconds minute
    then show seconds ++ codes " 秒前"
    else if ltb seconds hour
    then show (seconds / minute) ++ codes " 分钟前"
    else if ltb seconds day
    then show (seconds / hour) ++ codes " 小时前"
    else show (seconds / day) ++ codes " 天前"

unfoldable pub time_ago : (Text → Option ℤ) → Text → ℤ → Text
unfolding ago
time_ago date_parse iso now = elim (date_parse iso) [
  | none ↦ codes "未知"
  | some date ↦ ago (floor_ℤ (sub_ℤ now date))
]

unfoldable pub format_idle : Number → Text
format_idle (finite (pos m)) =
    if ltb m (minute * 1000)
    then show (m / 1000) ++ codes " 秒"
    else if ltb m (hour * 1000)
    then show (m / (minute * 1000)) ++ codes " 分钟"
    else show (m / (hour * 1000)) ++ codes " 小时"
format_idle _ = codes "未知"

unfoldable pub format_total : ℕ → Text
format_total total =
    let hours = total / hour in
    let minutes = (total % hour) / minute in
    if ltb total minute
    then show total ++ codes " 秒"
    else if ltb total hour
    then show (total / minute) ++ codes " 分"
    else if minutes == 0
    then show hours ++ codes " 小时"
    else show hours ++ codes " 小时 " ++ show minutes ++ codes " 分"

unfoldable pub format_duration : Number → Text
unfolding format_total
format_duration (finite (pos m)) = format_total (m / 1000)
format_duration _ = codes "未知"

unfoldable pub format_hour : Number → Text
format_hour (finite m) = show_ℤ (trunc_ℤ m) ++ codes " 时"
format_hour _ = codes "未知"

abbrev pub is_digit : ℕ → Bool
is_digit c = leb b'0' c && leb c b'9'

-- `Number` of two digits.
abbrev pub two_digits : ℕ → ℕ → ℕ
two_digits c d = (c - b'0') * 10 + (d - b'0')

-- The ten code units that `/^\d{4}-(\d{2})-(\d{2})$/` matches.
unfoldable pub format_day : Text → Text
format_day (y1 ∷ y2 ∷ y3 ∷ y4 ∷ s1 ∷ m1 ∷ m2 ∷ s2 ∷ d1 ∷ d2 ∷ []) =
    if is_digit y1
      && is_digit y2
      && is_digit y3
      && is_digit y4
      && (s1 == b'-')
      && is_digit m1
      && is_digit m2
      && (s2 == b'-')
      && is_digit d1
      && is_digit d2
    then show (two_digits m1 m2) ++ codes "/" ++ show (two_digits d1 d2)
    else y1 ∷ y2 ∷ y3 ∷ y4 ∷ s1 ∷ m1 ∷ m2 ∷ s2 ∷ d1 ∷ d2 ∷ []
format_day date = date

-- `table[key] ?? fallback`, for a table of labels.
abbrev pub label_of : List (Text × Text) → Text → Text → Text
label_of [] key fallback = fallback
label_of ((k, label) ∷ table) key fallback =
    if text_eq k key then label else label_of table key fallback

abbrev network_labels : List (Text × Text)
network_labels =
    (codes "wifi", codes "Wi-Fi")
    ∷ (codes "cellular", codes "移动网络")
    ∷ (codes "ethernet", codes "有线")
    ∷ (codes "offline", codes "无网络")
    ∷ []

unfoldable pub network_label : Option Text → Option Text
network_label none = none
network_label (some network) = some (label_of network_labels network network)

unfoldable pub device_type_label : Text → Text
device_type_label device_type =
    label_of ((codes "windows", codes "电脑") ∷ (codes "android", codes "手机") ∷ []) device_type
      (codes "设备")
