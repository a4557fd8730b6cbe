-- ===== src/Usage/Share.antt =====
-- web/src/lib/usage.ts: shares of a total in percent, as exact quotients, and the longest slot.
use cyberstalk_me.Base.{◌*◌, ◌&&◌, ◌||◌, List, [], ◌∷◌, leb, if◌then◌else◌}
use cyberstalk_me.Numbers.{
  pos, Number, finite, whole, is_finite, ltb_number, Ratio, whole_ratio, min_ratio,
}

unfoldable pub share_percent : Number → Number → Ratio
unfolding min_ratio
share_percent (finite (pos v)) (finite (pos t)) =
    if leb t 0 || leb v 0
    then whole_ratio 0
    else min_ratio (whole_ratio 100) (record { num = v * 100; den = t })
share_percent _ _ = whole_ratio 0

-- The `reduce` of `maxSeconds`, over the seconds of the items.
unfoldable pub max_from : Number → List Number → Number
unfolding is_finite ltb_number
max_from max [] = max
max_from max (n ∷ ns) = max_from (if is_finite n && ltb_number max n then n else max) ns

unfoldable pub max_seconds : List Number → Number
unfolding max_from
max_seconds = max_from (whole 0)
