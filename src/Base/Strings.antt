-- ===== src/Base/Strings.antt =====
-- JavaScript strings as lists of UTF-16 code units, and the `String.prototype` methods in use.
use Prim.Native.Nat.{ℕ, zero, suc, ◌+◌, ◌/◌, ◌%◌}
use Prim.Native.Char.{code}
use Prim.Native.String.{String}
use mathlib.Core.Path.{◌≡◌, refl}
use mathlib.Core.Logic.{◌↔◌, ◌≢◌}
use mathlib.Core.Bool.{Bool, true, false, ◌&&◌, ◌||◌}
use mathlib.Core.List.{List, [], ◌∷◌, map}
use native.Mathlib.Omega.{arith}
use cyberstalk_me.Base.Tests.{leb, ltb, ◌==◌, if◌then◌else◌}

abbrev pub Text : Type 0
Text = List ℕ

-- The code units of a literal; every literal of the program lies in the Basic Multilingual Plane,
-- where a code point is one code unit.
abbrev pub codes : String → Text
codes String.[] = []
codes (String.◌∷◌ c s) = code c ∷ codes s

-- `===` on strings.
unfoldable pub text_eq : Text → Text → Bool
text_eq [] [] = true
text_eq (a ∷ s) (b ∷ t) = (a == b) && text_eq s t
text_eq _ _ = false

pub text_eq_refl : (s : Text) → text_eq s s ≡ true
unfolding text_eq
text_eq_refl [] = refl
text_eq_refl (a ∷ s) = ground (arith, text_eq_refl s)

pub text_eq_sound : (s t : Text) → text_eq s t ≡ true → s ≡ t
unfolding text_eq
text_eq_sound [] [] h = refl
text_eq_sound [] (b ∷ t) h = cc
text_eq_sound (a ∷ s) [] h = cc
text_eq_sound (a ∷ s) (b ∷ t) h = ground (arith, text_eq_sound s t)

pub text_eq-false : (s t : Text) → text_eq s t ≡ false → s ≢ t
text_eq-false s t h e = absurd (ground (arith, text_eq_refl s, e, h))

pub text_eq_iff : (s t : Text) → (text_eq s t ≡ true) ↔ (s ≡ t)
text_eq_iff s t = (text_eq_sound s t, λ e. rw e (text_eq_refl t))

-- Whether a string is falsy.
abbrev pub is_empty : Text → Bool
is_empty [] = true
is_empty (_ ∷ _) = false

-- Whether `s[0] === c`.
abbrev pub starts_with : ℕ → Text → Bool
starts_with c [] = false
starts_with c (d ∷ s) = c == d

-- `s || fallback`.
abbrev pub or_text : Text → Text → Text
or_text s fallback = if is_empty s then fallback else s

-- White space and line terminators of ECMAScript, which `trim` removes and `\s` matches.
unfoldable pub is_space : ℕ → Bool
is_space c =
    (leb 9 c && leb c 13)
    || (c == 32)
    || (c == 160)
    || (c == 0x1680)
    || (leb 0x2000 c && leb c 0x200A)
    || (c == 0x2028)
    || (c == 0x2029)
    || (c == 0x202F)
    || (c == 0x205F)
    || (c == 0x3000)
    || (c == 0xFEFF)

unfoldable pub trim_start : Text → Text
trim_start [] = []
trim_start (c ∷ s) = let rest = trim_start s in if is_space c then rest else c ∷ s

unfoldable pub trim_end : Text → Text
trim_end [] = []
trim_end (c ∷ s) = let rest = trim_end s in if is_space c && is_empty rest then [] else c ∷ rest

unfoldable pub trim : Text → Text
unfolding trim_start trim_end is_space
trim s = trim_end (trim_start s)

-- The lower case of one letter: ASCII, Latin-1, Cyrillic and full-width Latin. Other letters are
-- kept as they are.
unfoldable pub lower : ℕ → ℕ
lower c =
    if (leb 65 c && leb c 90) || (leb 0xC0 c && leb c 0xD6) || (leb 0xD8 c && leb c 0xDE)
    then c + 32
    else if (leb 0x410 c && leb c 0x42F) || (leb 0xFF21 c && leb c 0xFF3A)
    then c + 32
    else if leb 0x400 c && leb c 0x40F
    then c + 80
    else c

unfoldable pub to_lower : Text → Text
unfolding lower
to_lower = map lower

-- `${n}` of a whole number below 10^21.
abbrev digit : ℕ → ℕ
digit d = b'0' + d

show_fuel : ℕ → ℕ → Text → Text
show_fuel zero n rest = rest
show_fuel (suc f) n rest =
    let more = show_fuel f (n / 10) (digit (n % 10) ∷ rest) in
    if ltb n 10 then digit n ∷ rest else more

unfoldable pub show : ℕ → Text
unfolding show_fuel
show n = show_fuel (n + 1) n []

show_runs : show 10203 ≡ codes "10203"
unfolding show
show_runs = refl

trim_runs : trim (codes "  a b ") ≡ codes "a b"
unfolding trim
trim_runs = refl

lower_runs : to_lower (codes "Code.EXE") ≡ codes "code.exe"
unfolding to_lower
lower_runs = refl
