-- ===== src/Base/Lists.antt =====
-- Lists measured and indexed by the native numbers, and the array methods that the pages call.
use Prim.Native.Nat.{ℕ, zero, suc, ◌+◌, ◌≤◌, ◌<◌}
use mathlib.Core.Path.{◌≡◌, refl, ap}
use mathlib.Core.Bool.{Bool, true, false, ◌&&◌, ◌||◌, not}
use mathlib.Core.List.{List, [], ◌∷◌, ◌++◌}
use mathlib.Core.Option.{Option, none, some}
use native.Mathlib.Omega.{arith}
use cyberstalk_me.Base.Tests.{if◌then◌else◌}

module _ {ℓ} {A : Type ℓ} where
  abbrev pub length : List A → ℕ
  length [] = 0
  length (x ∷ xs) = suc (length xs)

  -- `xs[i]`, undefined out of range.
  abbrev pub get_elem? : List A → ℕ → Option A
  get_elem? [] i = none
  get_elem? (x ∷ xs) zero = some x
  get_elem? (x ∷ xs) (suc i) = get_elem? xs i

  -- `xs.map((x, i) => i === index ? f(x) : x)`.
  abbrev pub modify : List A → ℕ → (A → A) → List A
  modify [] i f = []
  modify (x ∷ xs) zero f = f x ∷ xs
  modify (x ∷ xs) (suc i) f = x ∷ modify xs i f

  -- `xs.filter((_, i) => i !== index)`, and `xs.splice(index, 1)` within the list.
  abbrev pub erase_idx : List A → ℕ → List A
  erase_idx [] i = []
  erase_idx (x ∷ xs) zero = xs
  erase_idx (x ∷ xs) (suc i) = x ∷ erase_idx xs i

  -- `xs.splice(index, 0, y)`, which clamps an index past the end.
  abbrev pub insert_idx : List A → ℕ → A → List A
  insert_idx xs zero y = y ∷ xs
  insert_idx [] (suc i) y = y ∷ []
  insert_idx (x ∷ xs) (suc i) y = x ∷ insert_idx xs i y

  -- `xs.slice(0, n)` and `xs.slice(n)`.
  abbrev pub take : ℕ → List A → List A
  take zero xs = []
  take (suc n) [] = []
  take (suc n) (x ∷ xs) = x ∷ take n xs

  abbrev pub drop : ℕ → List A → List A
  drop zero xs = xs
  drop (suc n) [] = []
  drop (suc n) (x ∷ xs) = drop n xs

  -- `xs.some(p)`, `xs.every(p)`, `xs.filter(p)`, `xs.find(p)`.
  abbrev pub any : (A → Bool) → List A → Bool
  any p [] = false
  any p (x ∷ xs) = p x || any p xs

  abbrev pub all : (A → Bool) → List A → Bool
  all p [] = true
  all p (x ∷ xs) = p x && all p xs

  abbrev pub filter : (A → Bool) → List A → List A
  filter p [] = []
  filter p (x ∷ xs) = let rest = filter p xs in if p x then x ∷ rest else rest

  abbrev pub find : (A → Bool) → List A → Option A
  find p [] = none
  find p (x ∷ xs) = if p x then some x else find p xs

  -- `xs.findIndex(p)`, with `none` for -1.
  abbrev pub find_index : (A → Bool) → List A → Option ℕ
  find_index p [] = none
  find_index p (x ∷ xs) =
      let later = find_index p xs in
      if p x then some 0 else elim later [ none ↦ none | some i ↦ some (suc i) ]

  abbrev pub All {κ} : (A → Type κ) → List A → Type κ
  All P [] = Unit
  All P (x ∷ xs) = P x × All P xs

  pub All-mono {κ μ} :
      {P : A → Type κ} {Q : A → Type μ} (xs : List A) → ((x : A) → P x → Q x) → All P xs → All Q xs
  All-mono [] f h = tt
  All-mono (x ∷ xs) f h = (f x h.0, All-mono xs f h.1)

  pub All-concat {κ} :
      (P : A → Type κ) (xs : List A) (x : A) → All P xs → P x → All P (xs ++ x ∷ [])
  All-concat P [] x h p = (p, tt)
  All-concat P (y ∷ xs) x h p = (h.0, All-concat P xs x h.1 p)

  pub length-append : (xs ys : List A) → length (xs ++ ys) ≡ length xs + length ys
  length-append [] ys = omega arith
  length-append (x ∷ xs) ys = omega (arith, length-append xs ys)

  pub length-erase_idx :
      (s : List A) (n : ℕ) → n < length s → suc (length (erase_idx s n)) ≡ length s
  length-erase_idx [] n h = absurd (omega arith)
  length-erase_idx (b ∷ s) zero h = refl
  length-erase_idx (b ∷ s) (suc n) h = ap suc (length-erase_idx s n (omega arith))

  pub erase_idx-none : (xs : List A) (i : ℕ) → get_elem? xs i ≡ none → erase_idx xs i ≡ xs
  erase_idx-none [] i e = refl
  erase_idx-none (x ∷ xs) zero e = cc
  erase_idx-none (x ∷ xs) (suc i) e = ap (x ∷◌) (erase_idx-none xs i e)

  pub erase_idx-insert_idx :
      (s : List A) (n : ℕ) (a : A) → n ≤ length s → erase_idx (insert_idx s n a) n ≡ s
  erase_idx-insert_idx s zero a h = refl
  erase_idx-insert_idx [] (suc n) a h = absurd (omega arith)
  erase_idx-insert_idx (b ∷ s) (suc n) a h = ap (b ∷◌) (erase_idx-insert_idx s n a (omega arith))

  pub insert_idx-erase_idx :
      (s : List A) (n : ℕ) (a : A) → get_elem? s n ≡ some a → insert_idx (erase_idx s n) n a ≡ s
  insert_idx-erase_idx [] n a h = cc
  insert_idx-erase_idx (b ∷ s) zero a h = cc
  insert_idx-erase_idx (b ∷ s) (suc n) a h = cc (insert_idx-erase_idx s n a h)

  pub get_elem?-insert_idx_self :
      (xs : List A) (i : ℕ) (y : A) → i ≤ length xs → get_elem? (insert_idx xs i y) i ≡ some y
  get_elem?-insert_idx_self xs zero y h = refl
  get_elem?-insert_idx_self [] (suc i) y h = absurd (omega arith)
  get_elem?-insert_idx_self (x ∷ xs) (suc i) y h = get_elem?-insert_idx_self xs i y (omega arith)

  pub get_elem?_of_lt : (xs : List A) (i : ℕ) → i < length xs → (x : A) × (get_elem? xs i ≡ some x)
  get_elem?_of_lt [] i h = absurd (omega arith)
  get_elem?_of_lt (x ∷ xs) zero h = (x, refl)
  get_elem?_of_lt (x ∷ xs) (suc i) h = get_elem?_of_lt xs i (omega arith)

  pub length-insert_idx :
      (xs : List A) (i : ℕ) (y : A) → length (insert_idx xs i y) ≡ suc (length xs)
  length-insert_idx xs zero y = refl
  length-insert_idx [] (suc i) y = refl
  length-insert_idx (x ∷ xs) (suc i) y = ap suc (length-insert_idx xs i y)

  pub modify-modify :
      (xs : List A) (i : ℕ) (f g : A → A) → modify (modify xs i f) i g ≡ modify xs i (λ x. g (f x))
  modify-modify [] i f g = refl
  modify-modify (x ∷ xs) zero f g = refl
  modify-modify (x ∷ xs) (suc i) f g = ap (x ∷◌) (modify-modify xs i f g)

  pub modify_same :
      (xs : List A) (i : ℕ) (f : A → A) {x : A}
      → get_elem? xs i ≡ some x
      → f x ≡ x
      → modify xs i f ≡ xs
  modify_same [] i f h e = refl
  modify_same (y ∷ xs) zero f h e = cc
  modify_same (y ∷ xs) (suc i) f h e = ap (y ∷◌) (modify_same xs i f h e)

  pub get_elem?-modify_self :
      (xs : List A) (i : ℕ) (f : A → A) {x : A}
      → get_elem? xs i ≡ some x
      → get_elem? (modify xs i f) i ≡ some (f x)
  get_elem?-modify_self [] i f h = cc
  get_elem?-modify_self (y ∷ xs) zero f h = cc
  get_elem?-modify_self (y ∷ xs) (suc i) f h = get_elem?-modify_self xs i f h

  pub filter-filter-not : (p : A → Bool) (xs : List A) → any p (filter (λ x. not (p x)) xs) ≡ false
  filter-filter-not p [] = refl
  filter-filter-not p (x ∷ xs) = ground (arith, filter-filter-not p xs)

  pub any-append : (p : A → Bool) (xs ys : List A) → any p (xs ++ ys) ≡ any p xs || any p ys
  any-append p [] ys = refl
  any-append p (x ∷ xs) ys = ground (arith, any-append p xs ys)
