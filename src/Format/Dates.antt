-- ===== src/Format/Dates.antt =====
-- How the day slots are labelled.
use cyberstalk_me.Base.{
  ◌≡◌, refl, ◌<◌, ℕ, ◌+◌, ◌/◌, ◌%◌, true, [], ◌∷◌, ◌++◌, Text, codes, show, arith,
}
use cyberstalk_me.Format.{format_day, is_digit, two_digits}

-- The text `YYYY-MM-DD` of a date.
abbrev pub digit : ℕ → ℕ
digit d = b'0' + d

abbrev pub iso_date : ℕ → ℕ → ℕ → Text
iso_date y m d =
    digit (y / 1000)
    ∷ digit (y / 100 % 10)
    ∷ digit (y / 10 % 10)
    ∷ digit (y % 10)
    ∷ b'-'
    ∷ digit (m / 10)
    ∷ digit (m % 10)
    ∷ b'-'
    ∷ digit (d / 10)
    ∷ digit (d % 10)
    ∷ []

digit-is_digit : (n : ℕ) → n < 10 → is_digit (digit n) ≡ true
digit-is_digit n h = ground arith

two_digits_lem : (n : ℕ) → n < 100 → two_digits (digit (n / 10)) (digit (n % 10)) ≡ n
two_digits_lem n h = omega arith

-- The date of a day slot reads as its month and day, without leading zeros.
pub format_day_lem :
    (y m d : ℕ)
    → y < 10000
    → m < 100
    → d < 100
    → format_day (iso_date y m d) ≡ show m ++ codes "/" ++ show d
unfolding format_day
format_day_lem y m d hy hm hd =
    rw
      (
        digit-is_digit (y / 1000) (omega arith),
        digit-is_digit (y / 100 % 10) (omega arith),
        digit-is_digit (y / 10 % 10) (omega arith),
        digit-is_digit (y % 10) (omega arith),
        digit-is_digit (m / 10) (omega arith),
        digit-is_digit (m % 10) (omega arith),
        digit-is_digit (d / 10) (omega arith),
        digit-is_digit (d % 10) (omega arith),
        two_digits_lem m hm,
        two_digits_lem d hd,
      )
      refl
