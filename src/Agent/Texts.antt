-- ===== src/Agent/Texts.antt =====
-- Go's `strings.TrimSpace` and the agent's `normalize`, client-windows/internal/mapping/mapping.go,
-- beside `normalizeProcess` of the page.
use cyberstalk_me.Base.{
  ◌≡◌, refl, ap, ◌∙◌, Bool, true, not, ◌&&◌, ◌||◌, [], ◌∷◌, Text, is_empty, is_space, trim_start,
  trim_end, trim, to_lower, all, leb, ◌==◌, ℕ, if◌then◌else◌, arith,
}
use cyberstalk_me.Rules.{normalize_process}

-- `unicode.IsSpace`.
unfoldable pub is_white : ℕ → Bool
is_white c =
    (leb 9 c && leb c 13)
    || (c == 32)
    || (c == 0x85)
    || (c == 160)
    || (c == 0x1680)
    || (leb 0x2000 c && leb c 0x200A)
    || (c == 0x2028)
    || (c == 0x2029)
    || (c == 0x202F)
    || (c == 0x205F)
    || (c == 0x3000)

unfoldable pub trim_left : Text → Text
trim_left [] = []
trim_left (c ∷ s) = let rest = trim_left s in if is_white c then rest else c ∷ s

unfoldable pub trim_right : Text → Text
trim_right [] = []
trim_right (c ∷ s) = let rest = trim_right s in if is_white c && is_empty rest then [] else c ∷ rest

-- `strings.TrimSpace`.
unfoldable pub trim_space : Text → Text
unfolding trim_left trim_right is_white
trim_space s = trim_right (trim_left s)

unfoldable pub normalize : Text → Text
unfolding trim_space
normalize process = to_lower (trim_space process)

-- The two code units that one of the languages takes for white space and the other does not: the
-- next line, and the byte order mark.
abbrev pub is_agreed : ℕ → Bool
is_agreed c = not (c == 0x85) && not (c == 0xFEFF)

abbrev pub IsAgreed : Text → Type 0
IsAgreed s = all is_agreed s ≡ true

is_white-is_space : (c : ℕ) → is_agreed c ≡ true → is_white c ≡ is_space c
unfolding is_white is_space
is_white-is_space c h = ground (arith, h)

trim_left-trim_start : (s : Text) → IsAgreed s → trim_left s ≡ trim_start s
unfolding trim_left trim_start
trim_left-trim_start [] h = refl
trim_left-trim_start (c ∷ s) h =
    ground (arith, h, is_white-is_space c (ground arith), trim_left-trim_start s (ground arith))

trim_right-trim_end : (s : Text) → IsAgreed s → trim_right s ≡ trim_end s
unfolding trim_right trim_end
trim_right-trim_end [] h = refl
trim_right-trim_end (c ∷ s) h =
    ground (arith, h, is_white-is_space c (ground arith), trim_right-trim_end s (ground arith))

trim_start-IsAgreed : (s : Text) → IsAgreed s → IsAgreed (trim_start s)
unfolding trim_start
trim_start-IsAgreed [] h = refl
trim_start-IsAgreed (c ∷ s) h = ground (arith, h, trim_start-IsAgreed s (ground arith))

-- On names without those two the agent's comparison is the page's.
pub normalize-agrees : (s : Text) → IsAgreed s → normalize s ≡ normalize_process s
unfolding normalize normalize_process trim_space trim
normalize-agrees s h =
    ap (λ t. to_lower (trim_right t)) (trim_left-trim_start s h)
    ∙ ap to_lower (trim_right-trim_end (trim_start s) (trim_start-IsAgreed s h))
