-- ===== src/Agent/Catalog/Bounded.antt =====
-- The catalog stays within its bounds, with each application and each of its titles once.
use cyberstalk_me.Base.{
  ℕ, zero, suc, ◌+◌, ◌≤◌, ◌≡◌, refl, ap, sym, subst, ◌∙◌, inl, inr, Bool, true, false, Bool-cases,
  none, some, Option-cases, List, [], ◌∷◌, Text, text_eq, text_eq_iff, text_eq_sound, is_empty, any,
  find, map, take, length, All, arith,
}
use cyberstalk_me.Agent.Mapping.Compiled.{are_distinct}
use cyberstalk_me.Agent.Catalog.{
  Sample, App, has_title, without_title, add_sample, is_app, new_app, sight, put_app,
}

abbrev sample_titles : List Sample → List Text
sample_titles ss = map Sample.title ss

abbrev pub names : List App → List Text
names apps = map App.process apps

any-take : (p : Text → Bool) (n : ℕ) (xs : List Text) → any p xs ≡ false → any p (take n xs) ≡ false
any-take p zero xs h = refl
any-take p (suc n) [] h = refl
any-take p (suc n) (x ∷ xs) h = ground (arith, h, any-take p n xs)

distinct-take : (n : ℕ) (xs : List Text) → are_distinct xs ≡ true → are_distinct (take n xs) ≡ true
distinct-take zero xs h = refl
distinct-take (suc n) [] h = refl
distinct-take (suc n) (x ∷ xs) h = ground (arith, h, any-take (text_eq x) n xs, distinct-take n xs)

map-take : (n : ℕ) (ss : List Sample) → sample_titles (take n ss) ≡ take n (sample_titles ss)
map-take zero ss = refl
map-take (suc n) [] = refl
map-take (suc n) (s ∷ ss) = ap (s.title ∷◌) (map-take n ss)

length-take : (n : ℕ) (ss : List Sample) → length (take n ss) ≤ n
length-take zero ss = omega arith
length-take (suc n) [] = omega arith
length-take (suc n) (s ∷ ss) = omega (arith, length-take n ss)

any-without :
    (p : Text → Bool) (title : Text) (ss : List Sample)
    → any p (sample_titles ss) ≡ false
    → any p (sample_titles (without_title title ss)) ≡ false
any-without p title [] h = refl
any-without p title (s ∷ ss) h = ground (arith, h, any-without p title ss)

distinct-without :
    (title : Text) (ss : List Sample)
    → are_distinct (sample_titles ss) ≡ true
    → are_distinct (sample_titles (without_title title ss)) ≡ true
distinct-without title [] h = refl
distinct-without title (s ∷ ss) h =
    ground (arith, h, any-without (text_eq s.title) title ss, distinct-without title ss)

without-absent :
    (title : Text) (ss : List Sample)
    → are_distinct (sample_titles ss) ≡ true
    → any (text_eq title) (sample_titles (without_title title ss)) ≡ false
without-absent title [] h = refl
without-absent title (s ∷ ss) h = elim (Bool-cases (has_title title s)) [
  | inl e ↦
      let same : s.title ≡ title = text_eq_sound s.title title e in
      let later : any (text_eq s.title) (sample_titles ss) ≡ false = ground (arith, h) in
      rw e (subst (λ t. any (text_eq t) (sample_titles ss) ≡ false) same later)
  | inr e ↦
      ground
        (arith, e, h, without-absent title ss, text_eq_iff title s.title, text_eq_iff s.title title)
]

found-length :
    (title : Text) (ss : List Sample) (s : Sample)
    → find (has_title title) ss ≡ some s
    → (suc (length (without_title title ss)) ≡ length ss) × (s.title ≡ title)
found-length title [] s h = absurd (ground (arith, h))
found-length title (x ∷ ss) s h = elim (Bool-cases (has_title title x)) [
  | inl e ↦
      let same : x ≡ s = ground (arith, e, h) in
      (rw e refl, ap Sample.title (sym same) ∙ text_eq_sound x.title title e)
  | inr e ↦ let (l, t) = found-length title ss s (ground (arith, e, h)) in (rw e (ap suc l), t)
]

absent :
    (title : Text) (ss : List Sample)
    → find (has_title title) ss ≡ none
    → any (text_eq title) (sample_titles ss) ≡ false
absent title [] h = refl
absent title (s ∷ ss) h =
    ground (arith, h, absent title ss, text_eq_iff title s.title, text_eq_iff s.title title)

-- Samples within a bound, each title once.
abbrev pub AreKept : ℕ → List Sample → Type 0
AreKept max ss = (length ss ≤ max) × (are_distinct (sample_titles ss) ≡ true)

-- The sample of a title that is seen goes to the front, and the bound is kept.
add_sample-AreKept :
    (title : Text) (now max : ℕ) (ss : List Sample)
    → AreKept max ss
    → AreKept max (add_sample title now max ss)
unfolding add_sample
add_sample-AreKept title now max ss (short, once) =
    elim (Option-cases (find (has_title title) ss)) [
      | inr (s, e) ↦
          let (l, t) = found-length title ss s e in
          let rest = sample_titles (without_title title ss) in
          let front : are_distinct (title ∷ rest) ≡ true =
            ground (arith, without-absent title ss once, distinct-without title ss once) in
          rw (add_sample, e)
            (omega (arith, l, short), subst (λ k. are_distinct (k ∷ rest) ≡ true) (sym t) front)
      | inl e ↦
          let first : Sample = record {
            title = title;
            first_seen = now;
            last_seen = now;
            count = 1;
          } in
          let front : are_distinct (sample_titles (first ∷ ss)) ≡ true =
            ground (arith, absent title ss e, once) in
          rw (add_sample, e)
            (
              length-take max (first ∷ ss),
              subst (λ ks. are_distinct ks ≡ true) (sym (map-take max (first ∷ ss)))
                  (distinct-take max (sample_titles (first ∷ ss)) front),
            )
    ]

-- How often the applications of a list were seen.
abbrev pub sightings : List App → ℕ
sightings [] = 0
sightings (app ∷ apps) = app.count + sightings apps

module _ (key : Text) (now : ℕ) (title : Text) (max : ℕ) where
  sight-AreKept :
      (app : App) → AreKept max app.samples → AreKept max (sight title now max app).samples
  unfolding sight
  sight-AreKept app h = elim (Bool-cases (is_empty title)) [
    | inl e ↦ rw e h
    | inr e ↦ rw e (add_sample-AreKept title now max app.samples h)
  ]

  -- One more sighting, and at most one more application.
  pub put_app-length :
      (apps : List App) → length (put_app key now (sight title now max) apps) ≤ length apps + 1
  unfolding put_app
  put_app-length [] = omega arith
  put_app-length (app ∷ apps) = ground (arith, put_app-length apps)

  pub put_app-sightings :
      (apps : List App)
      → sightings (put_app key now (sight title now max) apps) ≡ sightings apps + 1
  unfolding put_app sight
  put_app-sightings [] = refl
  put_app-sightings (app ∷ apps) = ground (arith, put_app-sightings apps)

  pub put_app-AreKept :
      (apps : List App)
      → All (λ app. AreKept max app.samples) apps
      → All (λ app. AreKept max app.samples) (put_app key now (sight title now max) apps)
  unfolding put_app
  put_app-AreKept [] h = (sight-AreKept (new_app key now) (omega arith, refl), tt)
  put_app-AreKept (app ∷ apps) (first, rest) = elim (Bool-cases (is_app key app)) [
    | inl e ↦ rw e (sight-AreKept app first, rest)
    | inr e ↦ rw e (first, put_app-AreKept apps rest)
  ]

  put_app-any :
      (p : Text → Bool) (apps : List App)
      → p key ≡ false
      → any p (names apps) ≡ false
      → any p (names (put_app key now (sight title now max) apps)) ≡ false
  unfolding put_app sight
  put_app-any p [] k h = ground (arith, k)
  put_app-any p (app ∷ apps) k h = ground (arith, h, put_app-any p apps k)

  pub put_app-distinct :
      (apps : List App)
      → are_distinct (names apps) ≡ true
      → are_distinct (names (put_app key now (sight title now max) apps)) ≡ true
  unfolding put_app sight
  put_app-distinct [] h = refl
  put_app-distinct (app ∷ apps) h = elim (Bool-cases (is_app key app)) [
    | inl e ↦ rw e h
    | inr e ↦
        rw e (ground (arith, h, put_app-distinct apps, put_app-any (text_eq app.process) apps e))
  ]
