-- ===== src/Cards/Gauge.antt =====
-- The battery gauge of a card.
use cyberstalk_me.Base.{
  ◌≡◌, refl, ℕ, ◌+◌, ◌*◌, ◌/◌, ◌≤◌, ◌<◌, inl, inr, Bool-cases, some, leb, arith,
}
use cyberstalk_me.Numbers.{pos, finite}
use cyberstalk_me.Cards.{percent_of}

-- A level of 0 or more is shown as a percentage of at most 100: below 100.5 the nearest whole
-- one, a half rounded up, and from 100 on 100.
pub percent_of_lem :
    (m : ℕ)
    → (p : ℕ) × (percent_of (finite (pos m)) ≡ some p)
      × (p ≤ 100)
      × (m < 100500 → (p * 1000 ≤ m + 500) × (m < p * 1000 + 500))
      × (100000 ≤ m → p ≡ 100)
unfolding percent_of
percent_of_lem m = elim (Bool-cases (leb ((m + 500) / 1000) 100)) [
  | inl e ↦ (
    (m + 500) / 1000,
    ground (arith, e),
    ground arith,
    λ h. (omega arith, omega arith),
    λ h. ground arith,
  )
  | inr e ↦ (100, ground (arith, e), omega arith, λ h. absurd (ground arith), λ h. refl)
]
