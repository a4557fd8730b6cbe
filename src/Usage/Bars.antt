-- ===== src/Usage/Bars.antt =====
-- The bars stay within their tracks: shares, widths and heights between 0 and 100 percent.
use cyberstalk_me.Base.{
  ◌≡◌, refl, inl, inr, ◌≤◌, ◌<◌, ℕ, ◌+◌, ◌*◌, true, false, ◌&&◌, ◌||◌, Bool-cases, List, [], ◌∷◌,
  map, All, leb, arith,
}
use cyberstalk_me.Numbers.{
  ℤ, pos, negsuc, Number, nan, infinity, neg_infinity, finite, whole, is_finite, ltb_ℤ, ltb_number,
  add, add_ℤ, max_zero, Ratio, whole_ratio, leb_ratio, min_ratio, max_ratio,
}
use cyberstalk_me.Usage.Share.{share_percent, max_from, max_seconds}
use cyberstalk_me.Usage.Charts.{
  slices_total, usage_totals, UsageChartSlot, bar_of, bar_height, usage_chart,
}

-- A percentage: at most 100, and not divided by zero.
abbrev pub IsPercent : Ratio → Type 0
IsPercent r = (r.num ≤ 100 * r.den) × (0 < r.den)

min_ratio-IsPercent :
    (v t : ℕ)
    → leb t 0 || leb v 0 ≡ false
    → IsPercent (min_ratio (whole_ratio 100) (record { num = v * 100; den = t }))
unfolding min_ratio leb_ratio
min_ratio-IsPercent v t h = (ground arith, ground arith)

-- Whatever the numbers, not a number and infinite ones included, a share is a percentage.
pub share_percent-IsPercent : (value total : Number) → IsPercent (share_percent value total)
unfolding share_percent
share_percent-IsPercent (finite (pos v)) (finite (pos t)) = elim (Bool-cases (leb t 0 || leb v 0)) [
  | inl e ↦ rw e (omega arith, omega arith)
  | inr e ↦ rw e (min_ratio-IsPercent v t e)
]
share_percent-IsPercent (finite (pos v)) (finite (negsuc t)) = (omega arith, omega arith)
share_percent-IsPercent (finite (pos v)) nan = (omega arith, omega arith)
share_percent-IsPercent (finite (pos v)) infinity = (omega arith, omega arith)
share_percent-IsPercent (finite (pos v)) neg_infinity = (omega arith, omega arith)
share_percent-IsPercent (finite (negsuc v)) total = (omega arith, omega arith)
share_percent-IsPercent nan total = (omega arith, omega arith)
share_percent-IsPercent infinity total = (omega arith, omega arith)
share_percent-IsPercent neg_infinity total = (omega arith, omega arith)

-- A width is the exact part v of t, in percent.
abbrev pub IsPortion : ℕ → ℕ → Ratio → Type 0
IsPortion v t r = (r.num * t ≡ v * 100 * r.den) × (0 < r.den)

abbrev pub ArePortions : ℕ → List ℕ → List Ratio → Type 0
ArePortions t [] [] = Unit
ArePortions t (v ∷ vs) (r ∷ rs) = IsPortion v t r × ArePortions t vs rs
ArePortions t _ _ = ⊥

min_ratio-IsPortion :
    (v t : ℕ)
    → v ≤ t
    → 0 < t
    → IsPortion v t (min_ratio (whole_ratio 100) (record { num = v * 100; den = t }))
unfolding min_ratio leb_ratio
min_ratio-IsPortion v t h p = elim (Bool-cases (leb (100 * t) (v * 100 * 1))) [
  | inl e ↦ rw e (ground arith, omega arith)
  | inr e ↦ rw e (refl, p)
]

share_percent-IsPortion :
    (v t : ℕ) → v ≤ t → 0 < t → IsPortion v t (share_percent (finite (pos v)) (finite (pos t)))
unfolding share_percent
share_percent-IsPortion v t h p = elim (Bool-cases (leb t 0 || leb v 0)) [
  | inl e ↦ rw e (ground arith, omega arith)
  | inr e ↦ rw e (min_ratio-IsPortion v t h p)
]

totals_sum :
    (a i l : ℕ)
    → slices_total (record {
      active_seconds = finite (pos a);
      idle_seconds = finite (pos i);
      locked_seconds = finite (pos l);
    })
      ≡ finite (pos (a + i + l))
unfolding slices_total max_zero add add_ℤ
totals_sum a i l = ground arith

-- The three slices of a window that is not empty fill the track: each is as wide as its exact part
-- of the whole.
pub usage_totals_lem :
    (a i l : ℕ)
    → 0 < a + i + l
    → ArePortions (a + i + l) (a ∷ i ∷ l ∷ []) (
        map
          (λ slice. slice.width)
          (usage_totals (record {
            active_seconds = finite (pos a);
            idle_seconds = finite (pos i);
            locked_seconds = finite (pos l);
          })))
unfolding usage_totals
usage_totals_lem a i l p = rw (totals_sum a i l) (
  share_percent-IsPortion a (a + i + l) (omega arith) p,
  (
    share_percent-IsPortion i (a + i + l) (omega arith) p,
    (share_percent-IsPortion l (a + i + l) (omega arith) p, tt),
  ),
)

ltb_ℤ_trans : (a b c : ℤ) → ltb_ℤ c b ≡ false → ltb_ℤ a b ≡ true → ltb_ℤ c a ≡ false
unfolding ltb_ℤ
ltb_ℤ_trans (pos a) (pos b) (pos c) h k = ground arith
ltb_ℤ_trans (pos a) (pos b) (negsuc c) h k = ground arith
ltb_ℤ_trans (pos a) (negsuc b) c h k = absurd (cc)
ltb_ℤ_trans (negsuc a) (pos b) (pos c) h k = refl
ltb_ℤ_trans (negsuc a) (pos b) (negsuc c) h k = absurd (cc)
ltb_ℤ_trans (negsuc a) (negsuc b) (pos c) h k = refl
ltb_ℤ_trans (negsuc a) (negsuc b) (negsuc c) h k = ground arith

ltb_ℤ_irrefl : (a : ℤ) → ltb_ℤ a a ≡ false
unfolding ltb_ℤ
ltb_ℤ_irrefl (pos a) = ground arith
ltb_ℤ_irrefl (negsuc a) = ground arith

ltb_ℤ_trans_false : (a b c : ℤ) → ltb_ℤ b a ≡ false → ltb_ℤ c b ≡ false → ltb_ℤ c a ≡ false
unfolding ltb_ℤ
ltb_ℤ_trans_false (pos a) (pos b) (pos c) h k = ground arith
ltb_ℤ_trans_false (pos a) (pos b) (negsuc c) h k = absurd (cc)
ltb_ℤ_trans_false (pos a) (negsuc b) c h k = absurd (cc)
ltb_ℤ_trans_false (negsuc a) b (pos c) h k = refl
ltb_ℤ_trans_false (negsuc a) (pos b) (negsuc c) h k = absurd (cc)
ltb_ℤ_trans_false (negsuc a) (negsuc b) (negsuc c) h k = ground arith

-- No finite number of the list is above it.
abbrev pub IsBound : ℤ → List Number → Type 0
IsBound k = All (λ n. (is_finite n && ltb_number (finite k) n) ≡ false)

max_from_lem :
    (ns : List Number) (m : ℤ)
    → (k : ℤ) × (max_from (finite m) ns ≡ finite k) × (ltb_ℤ k m ≡ false) × IsBound k ns
unfolding max_from is_finite ltb_number
max_from_lem [] m = (m, refl, ltb_ℤ_irrefl m, tt)
max_from_lem (nan ∷ ns) m = let r = max_from_lem ns m in (r.0, r.1, r.2, (refl, r.3))
max_from_lem (infinity ∷ ns) m = let r = max_from_lem ns m in (r.0, r.1, r.2, (refl, r.3))
max_from_lem (neg_infinity ∷ ns) m = let r = max_from_lem ns m in (r.0, r.1, r.2, (refl, r.3))
max_from_lem (finite n ∷ ns) m = elim (Bool-cases (ltb_ℤ m n)) [
  | inl e ↦
      let r = max_from_lem ns n in
      (r.0, ground (arith, e, r.1), ltb_ℤ_trans m n r.0 r.2 e, (r.2, r.3))
  | inr e ↦
      let r = max_from_lem ns m in
      (r.0, ground (arith, e, r.1), r.2, (ltb_ℤ_trans_false n m r.0 e r.2, r.3))
]

-- The peak is a finite number that no finite slot is above, and not below 0.
pub max_seconds_lem :
    (ns : List Number)
    → (k : ℤ) × (max_seconds ns ≡ finite k) × (ltb_ℤ k (pos 0) ≡ false) × IsBound k ns
unfolding max_seconds
max_seconds_lem ns = max_from_lem ns (pos 0)

max_ratio-IsPercent : (r s : Ratio) → IsPercent r → IsPercent s → IsPercent (max_ratio r s)
unfolding max_ratio
max_ratio-IsPercent r s h k = elim (Bool-cases (leb_ratio r s)) [ inl e ↦ rw e k | inr e ↦ rw e h ]

bar_height-IsPercent : (seconds peak : Number) → IsPercent (bar_height seconds peak)
unfolding bar_height
bar_height-IsPercent seconds peak = elim (Bool-cases (ltb_number (whole 0) seconds)) [
  | inl e ↦ rw e (
      max_ratio-IsPercent (share_percent seconds peak) (whole_ratio 4)
        (share_percent-IsPercent seconds peak) (omega arith, omega arith))
  | inr e ↦ rw e (omega arith, omega arith)
]

heights-IsPercent :
    (peak : Number) (slots : List UsageChartSlot)
    → All (λ bar. IsPercent bar.height) (map (bar_of peak) slots)
unfolding bar_of
heights-IsPercent peak [] = tt
heights-IsPercent peak (slot ∷ slots) =
    (bar_height-IsPercent slot.seconds peak, heights-IsPercent peak slots)

-- However the slots are filled, no bar of the chart is higher than its track.
pub usage_chart-IsPercent :
    (slots : List UsageChartSlot) → All (λ bar. IsPercent bar.height) (usage_chart slots).1
unfolding usage_chart
usage_chart-IsPercent slots =
    heights-IsPercent (max_seconds (map (λ slot. slot.seconds) slots)) slots

-- A slot with active time has a bar that is visible, at least 4 percent high, and the longest slot
-- fills its track.
pub bar_height_lem :
    (v t : ℕ)
    → 0 < v
    → v ≤ t
    → (leb_ratio (whole_ratio 4) (bar_height (finite (pos v)) (finite (pos t))) ≡ true)
      × (v ≡ t → leb_ratio (whole_ratio 100) (bar_height (finite (pos v)) (finite (pos t))) ≡ true)
unfolding bar_height share_percent min_ratio max_ratio leb_ratio ltb_number ltb_ℤ
bar_height_lem v t h k = (ground arith, λ e. ground arith)
