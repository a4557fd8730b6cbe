-- ===== src/Examples/Cards.antt =====
-- A battery at 19.5 percent, and the entries of the discovery panel.
use cyberstalk_me.Base.{◌≡◌, refl, ℕ, some, true, Option, Text, [], codes, show}
use cyberstalk_me.Numbers.{ℤ, pos, finite, sub_ℤ, ltb_ℤ}
use cyberstalk_me.Cards.{percent_of}
use cyberstalk_me.Recency.{rounded_seconds, seconds_ago, relative_time, is_recent}

abbrev level : ℕ
level = 19500

level_runs : percent_of (finite (pos level)) ≡ some 20
unfolding percent_of
level_runs = refl

-- The instants of client-windows/webui/src/lib/time.test.ts around one reading of the clock.
abbrev one_instant : Text → Option ℤ
one_instant _ = some (pos 1785412800000)

five_seconds_runs : relative_time one_instant [] (pos 1785412805000) ≡ codes "5 秒前"
unfolding relative_time seconds_ago rounded_seconds sub_ℤ show
five_seconds_runs = refl

clock_skew_runs : relative_time one_instant [] (pos 1785412795000) ≡ codes "刚刚"
unfolding relative_time seconds_ago rounded_seconds sub_ℤ
clock_skew_runs = refl

recent_runs : is_recent one_instant [] (pos 1785412803000) 3000 ≡ true
unfolding is_recent sub_ℤ ltb_ℤ
recent_runs = refl
