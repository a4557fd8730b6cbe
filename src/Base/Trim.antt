-- ===== src/Base/Trim.antt =====
-- `trim` and `toLowerCase`: how the two normalisations of a name act together.
use cyberstalk_me.Base.Tests.{Bool-cases}
use cyberstalk_me.Base.Strings.{
  Text, is_empty, is_space, trim_start, trim_end, trim, lower, to_lower,
}
use Prim.Native.Nat.{ℕ}
use mathlib.Core.Path.{◌≡◌, refl, ap₂}
use mathlib.Core.Logic.{inl, inr}
use mathlib.Core.Bool.{false}
use mathlib.Core.List.{[], ◌∷◌}
use native.Mathlib.Omega.{arith}

lower_idem : (c : ℕ) → lower (lower c) ≡ lower c
unfolding lower
lower_idem c = ground arith

is_space-lower : (c : ℕ) → is_space (lower c) ≡ is_space c
unfolding lower is_space
is_space-lower c = ground arith

pub to_lower_idem : (s : Text) → to_lower (to_lower s) ≡ to_lower s
unfolding to_lower
to_lower_idem [] = refl
to_lower_idem (c ∷ s) = ap₂ ◌∷◌ (lower_idem c) (to_lower_idem s)

pub is_empty-to_lower : (s : Text) → is_empty (to_lower s) ≡ is_empty s
unfolding to_lower
is_empty-to_lower [] = refl
is_empty-to_lower (c ∷ s) = refl

trim_start-to_lower : (s : Text) → trim_start (to_lower s) ≡ to_lower (trim_start s)
unfolding trim_start to_lower
trim_start-to_lower [] = refl
trim_start-to_lower (c ∷ s) = ground (arith, is_space-lower c, trim_start-to_lower s)

trim_end-to_lower : (s : Text) → trim_end (to_lower s) ≡ to_lower (trim_end s)
unfolding trim_end to_lower
trim_end-to_lower [] = refl
trim_end-to_lower (c ∷ s) =
    ground (arith, is_space-lower c, trim_end-to_lower s, is_empty-to_lower (trim_end s))

-- Lower-casing and trimming commute.
pub trim-to_lower : (s : Text) → trim (to_lower s) ≡ to_lower (trim s)
unfolding trim
trim-to_lower s = ground (arith, trim_start-to_lower s, trim_end-to_lower (trim_start s))

trim_end_idem : (s : Text) → trim_end (trim_end s) ≡ trim_end s
unfolding trim_end
trim_end_idem [] = refl
trim_end_idem (c ∷ s) = ground (arith, trim_end_idem s)

-- A text that begins with no space.
abbrev Starts : Text → Type 0
Starts [] = Unit
Starts (c ∷ _) = is_space c ≡ false

trim_start-Starts : (s : Text) → Starts (trim_start s)
unfolding trim_start
trim_start-Starts [] = tt
trim_start-Starts (c ∷ s) = elim (Bool-cases (is_space c)) [
  | inl space ↦ rw space (trim_start-Starts s)
  | inr other ↦ rw other other
]

trim_end-Starts : (s : Text) → Starts s → Starts (trim_end s)
unfolding trim_end
trim_end-Starts [] h = tt
trim_end-Starts (c ∷ s) h = rw h h

trim_start_of_Starts : (s : Text) → Starts s → trim_start s ≡ s
unfolding trim_start
trim_start_of_Starts [] h = refl
trim_start_of_Starts (c ∷ s) h = rw h refl

-- Trimming twice is trimming once.
pub trim_idem : (s : Text) → trim (trim s) ≡ trim s
unfolding trim
trim_idem s =
    let starts = trim_end-Starts (trim_start s) (trim_start-Starts s) in
    rw (trim_start_of_Starts (trim_end (trim_start s)) starts) (trim_end_idem (trim_start s))
