-- ===== src/Format/Durations.antt =====
-- How durations and times past are read, in hours, minutes and seconds.
use cyberstalk_me.Base.{
  ◌≡◌, refl, ap, ◌∙◌, ◌<◌, ℕ, zero, suc, ◌+◌, ◌-◌, ◌*◌, ◌/◌, ◌%◌, Option, some, ◌++◌, Text, codes,
  show, ltb, arith, if◌then◌else◌,
}
use cyberstalk_me.Numbers.{ℤ, pos, negsuc, finite, sub_ℕ, sub_ℤ, floor_ℤ}
use cyberstalk_me.Format.{ago, time_ago, format_total, format_duration}

-- h hours, m minutes and s seconds as they are read: the seconds only on their own, and no part
-- that is zero but the seconds.
abbrev pub reading : ℕ → ℕ → ℕ → Text
reading zero zero s = show s ++ codes " 秒"
reading zero (suc m) s = show (suc m) ++ codes " 分"
reading (suc h) zero s = show (suc h) ++ codes " 小时"
reading (suc h) (suc m) s = show (suc h) ++ codes " 小时 " ++ show (suc m) ++ codes " 分"

hours_of : (h m s : ℕ) → m < 60 → s < 60 → (h * 3600 + m * 60 + s) / 3600 ≡ h
hours_of h m s lm ls = omega arith

minutes_of : (h m s : ℕ) → m < 60 → s < 60 → (h * 3600 + m * 60 + s) % 3600 / 60 ≡ m
minutes_of h m s lm ls = omega arith

format_total_lem :
    (h m s : ℕ) → m < 60 → s < 60 → format_total (h * 3600 + m * 60 + s) ≡ reading h m s
unfolding format_total
format_total_lem zero zero s lm ls = ground arith
format_total_lem zero (suc m) s lm ls =
    let e : (suc m * 60 + s) / 60 ≡ suc m = omega arith in ground (arith, e)
format_total_lem (suc h) zero s lm ls =
    ground (arith, hours_of (suc h) 0 s lm ls, minutes_of (suc h) 0 s lm ls)
format_total_lem (suc h) (suc m) s lm ls =
    ground (arith, hours_of (suc h) (suc m) s lm ls, minutes_of (suc h) (suc m) s lm ls)

-- A duration of h hours, m minutes and s seconds, and any part of a second, is read as its hours
-- and minutes, or as its seconds below one minute; a part that is zero is left out.
pub format_duration_lem :
    (h m s f : ℕ)
    → m < 60
    → s < 60
    → f < 1000
    → format_duration (finite (pos ((h * 3600 + m * 60 + s) * 1000 + f))) ≡ reading h m s
unfolding format_duration
format_duration_lem h m s f lm ls lf =
    let e : ((h * 3600 + m * 60 + s) * 1000 + f) / 1000 ≡ h * 3600 + m * 60 + s = omega arith in
    ap format_total e ∙ format_total_lem h m s lm ls

-- d days, h hours, m minutes and s seconds ago, as it is read: the largest part that is not zero,
-- and nothing below ten seconds.
abbrev pub past : ℕ → ℕ → ℕ → ℕ → Text
past (suc d) h m s = show (suc d) ++ codes " 天前"
past zero (suc h) m s = show (suc h) ++ codes " 小时前"
past zero zero (suc m) s = show (suc m) ++ codes " 分钟前"
past zero zero zero s = if ltb s 10 then codes "刚刚" else show s ++ codes " 秒前"

ago_lem :
    (d h m s : ℕ)
    → h < 24
    → m < 60
    → s < 60
    → ago (pos (d * 86400 + h * 3600 + m * 60 + s)) ≡ past d h m s
unfolding ago
ago_lem (suc d) h m s lh lm ls =
    let e : (suc d * 86400 + h * 3600 + m * 60 + s) / 86400 ≡ suc d = omega arith in
    ground (arith, e)
ago_lem zero (suc h) m s lh lm ls =
    let e : (suc h * 3600 + m * 60 + s) / 3600 ≡ suc h = omega arith in ground (arith, e)
ago_lem zero zero (suc m) s lh lm ls =
    let e : (suc m * 60 + s) / 60 ≡ suc m = omega arith in ground (arith, e)
ago_lem zero zero zero s lh lm ls = ground arith

elapsed : (date k : ℕ) → floor_ℤ (sub_ℤ (pos (date + k)) (pos date)) ≡ pos (k / 1000)
unfolding floor_ℤ sub_ℤ sub_ℕ
elapsed date k = let e : date + k - date ≡ k = omega arith in ground arith

time_ago_parsed :
    (date_parse : Text → Option ℤ) (iso : Text) (date now : ℤ)
    → date_parse iso ≡ some date
    → time_ago date_parse iso now ≡ ago (floor_ℤ (sub_ℤ now date))
unfolding time_ago
time_ago_parsed date_parse iso date now e = rw (time_ago, e) refl

-- A date d days, h hours, m minutes, s seconds and f milliseconds before now reads as the largest
-- of these parts that is not zero, and as just now below ten seconds.
pub time_ago_lem :
    (date_parse : Text → Option ℤ) (iso : Text) (date d h m s f : ℕ)
    → h < 24
    → m < 60
    → s < 60
    → f < 1000
    → date_parse iso ≡ some (pos date)
    → time_ago date_parse iso (pos (date + ((d * 86400 + h * 3600 + m * 60 + s) * 1000 + f)))
      ≡ past d h m s
time_ago_lem date_parse iso date d h m s f lh lm ls lf e =
    let k = (d * 86400 + h * 3600 + m * 60 + s) * 1000 + f in
    let q : k / 1000 ≡ d * 86400 + h * 3600 + m * 60 + s = omega arith in
    time_ago_parsed date_parse iso (pos date) (pos (date + k)) e
    ∙ ap ago (elapsed date k ∙ ap pos q)
    ∙ ago_lem d h m s lh lm ls

not_yet :
    (now later : ℕ) → floor_ℤ (sub_ℤ (pos now) (pos (now + suc later))) ≡ negsuc (later / 1000)
unfolding floor_ℤ sub_ℤ sub_ℕ
not_yet now later = let e : now + suc later - now - 1 ≡ later = omega arith in ground (arith, e)

-- A date after now, as when two clocks disagree, reads as just now.
pub time_ago_future :
    (date_parse : Text → Option ℤ) (iso : Text) (now later : ℕ)
    → date_parse iso ≡ some (pos (now + suc later))
    → time_ago date_parse iso (pos now) ≡ codes "刚刚"
unfolding ago
time_ago_future date_parse iso now later e =
    time_ago_parsed date_parse iso _ (pos now) e ∙ ap ago (not_yet now later) ∙ refl
