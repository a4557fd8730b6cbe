-- ===== src/Stream/Order.antt =====
-- `String.prototype.localeCompare` as the pages use it, an order on texts under which distinct
-- texts may be equal, and the order by code units as an instance of it.
use cyberstalk_me.Base.{
  ◌≡◌, refl, ◌⊎◌, inl, inr, Bool, true, false, ◌&&◌, ◌||◌, [], ◌∷◌, Text, ltb, ◌==◌, arith,
}

-- `le a b` is `a.localeCompare(b) <= 0`.
pub record Collation : Type 0 where
  pub le : Text → Text → Bool
  pub le_total : (a b : Text) → (le a b ≡ true) ⊎ (le b a ≡ true)
  pub le_trans : (a b c : Text) → le a b ≡ true → le b c ≡ true → le a c ≡ true

abbrev pub code_unit_le : Text → Text → Bool
code_unit_le [] t = true
code_unit_le (a ∷ s) [] = false
code_unit_le (a ∷ s) (b ∷ t) = ltb a b || ((a == b) && code_unit_le s t)

pub code_unit_le_total : (s t : Text) → (code_unit_le s t ≡ true) ⊎ (code_unit_le t s ≡ true)
code_unit_le_total [] t = inl refl
code_unit_le_total (a ∷ s) [] = inr refl
code_unit_le_total (a ∷ s) (b ∷ t) = ground (arith, code_unit_le_total s t)

pub code_unit_le_trans :
    (s t u : Text) → code_unit_le s t ≡ true → code_unit_le t u ≡ true → code_unit_le s u ≡ true
code_unit_le_trans [] t u h k = refl
code_unit_le_trans (a ∷ s) [] u h k = absurd (cc)
code_unit_le_trans (a ∷ s) (b ∷ t) [] h k = absurd (cc)
code_unit_le_trans (a ∷ s) (b ∷ t) (c ∷ u) h k = ground (arith, code_unit_le_trans s t u)

abbrev pub code_units : Collation
code_units = record {
  le = code_unit_le;
  le_total = code_unit_le_total;
  le_trans = code_unit_le_trans;
}
