-- ===== src/Numbers.antt =====
-- Integers, and the values of JavaScript's `number` that the pages meet: NaN, the infinities, and
-- finite numbers counted in thousandths, so that a whole number of milliseconds over 1000 is
-- exact. Rounding to the nearest double is not modelled, nor is -0.
use cyberstalk_me.Base.{
  ℕ, ◌+◌, ◌-◌, ◌*◌, ◌/◌, Bool, true, false, Text, codes, ◌++◌, leb, ltb, ◌==◌, show, if◌then◌else◌,
}

-- `negsuc n` is -(n + 1).
pub data ℤ : Type 0 where
  pos : ℕ → ℤ
  negsuc : ℕ → ℤ

pub data Number : Type 0 where
  nan infinity neg_infinity : Number
  finite : ℤ → Number  -- in thousandths

-- The number that an integer is.
abbrev pub whole : ℕ → Number
whole n = finite (pos (n * 1000))

unfoldable pub is_finite : Number → Bool
is_finite (finite m) = true
is_finite _ = false

-- `Math.floor` and `Math.trunc` of a finite number, as integers.
unfoldable pub floor_ℤ : ℤ → ℤ
floor_ℤ (pos m) = pos (m / 1000)
floor_ℤ (negsuc m) = negsuc (m / 1000)

unfoldable pub trunc_ℤ : ℤ → ℤ
trunc_ℤ (pos m) = pos (m / 1000)
trunc_ℤ (negsuc m) = let n = (m + 1) / 1000 in if n == 0 then pos 0 else negsuc (n - 1)

-- a - b, as an integer.
unfoldable pub sub_ℕ : ℕ → ℕ → ℤ
sub_ℕ a b = if leb b a then pos (a - b) else negsuc (b - a - 1)

-- `${n}` of an integer.
unfoldable pub show_ℤ : ℤ → Text
show_ℤ (pos n) = show n
show_ℤ (negsuc n) = codes "-" ++ show (n + 1)

-- The difference of two integers.
unfoldable pub sub_ℤ : ℤ → ℤ → ℤ
unfolding sub_ℕ
sub_ℤ (pos a) (pos b) = sub_ℕ a b
sub_ℤ (pos a) (negsuc b) = pos (a + b + 1)
sub_ℤ (negsuc a) (pos b) = negsuc (a + b)
sub_ℤ (negsuc a) (negsuc b) = sub_ℕ b a

unfoldable pub add_ℤ : ℤ → ℤ → ℤ
unfolding sub_ℕ
add_ℤ (pos a) (pos b) = pos (a + b)
add_ℤ (pos a) (negsuc b) = sub_ℕ a (b + 1)
add_ℤ (negsuc a) (pos b) = sub_ℕ b (a + 1)
add_ℤ (negsuc a) (negsuc b) = negsuc (a + b + 1)

unfoldable pub ltb_ℤ : ℤ → ℤ → Bool
ltb_ℤ (pos a) (pos b) = ltb a b
ltb_ℤ (pos a) (negsuc b) = false
ltb_ℤ (negsuc a) (pos b) = true
ltb_ℤ (negsuc a) (negsuc b) = ltb b a

-- `a < b`, `a + b` and `Math.max(a, 0)`.
unfoldable pub ltb_number : Number → Number → Bool
unfolding ltb_ℤ
ltb_number (finite a) (finite b) = ltb_ℤ a b
ltb_number (finite a) infinity = true
ltb_number neg_infinity (finite b) = true
ltb_number neg_infinity infinity = true
ltb_number _ _ = false

unfoldable pub add : Number → Number → Number
unfolding add_ℤ
add (finite a) (finite b) = finite (add_ℤ a b)
add nan b = nan
add infinity nan = nan
add infinity neg_infinity = nan
add infinity b = infinity
add neg_infinity nan = nan
add neg_infinity infinity = nan
add neg_infinity b = neg_infinity
add (finite a) b = b

unfoldable pub max_zero : Number → Number
max_zero nan = nan
max_zero infinity = infinity
max_zero neg_infinity = whole 0
max_zero (finite (pos m)) = finite (pos m)
max_zero (finite (negsuc m)) = whole 0

-- An exact quotient of two natural numbers, for percentages.
pub record Ratio : Type 0 where
  pub num : ℕ
  pub den : ℕ

abbrev pub whole_ratio : ℕ → Ratio
whole_ratio n = record { num = n; den = 1 }

unfoldable pub leb_ratio : Ratio → Ratio → Bool
leb_ratio a b = leb (a.num * b.den) (b.num * a.den)

unfoldable pub min_ratio : Ratio → Ratio → Ratio
unfolding leb_ratio
min_ratio a b = if leb_ratio a b then a else b

unfoldable pub max_ratio : Ratio → Ratio → Ratio
unfolding leb_ratio
max_ratio a b = if leb_ratio a b then b else a
