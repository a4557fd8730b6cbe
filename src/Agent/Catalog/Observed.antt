-- ===== src/Agent/Catalog/Observed.antt =====
-- Eviction, and the catalog over a run of observations.
use cyberstalk_me.Base.{
  ℕ, ◌+◌, ◌-◌, ◌≤◌, ◌≡◌, refl, sym, subst, ◌∙◌, inl, inr, Bool, true, false, not, Bool-cases, List,
  [], ◌∷◌, Text, text_eq, text_eq_refl, is_empty, any, filter, take, length, leb, All, arith,
}
use cyberstalk_me.Numbers.{ℤ}
use cyberstalk_me.Agent.Texts.{normalize}
use cyberstalk_me.Agent.Mapping.Compiled.{are_distinct}
use cyberstalk_me.Agent.Catalog.{
  App, Catalog, Slices, seen_before, gone, evict_apps, put_app, sight, observe, new_catalog,
}
use cyberstalk_me.Agent.Catalog.Bounded.{
  names, AreKept, sightings, put_app-length, put_app-sightings, put_app-AreKept, put_app-distinct,
}

module _ (p : App → Bool) where
  abbrev left : List App → List App
  left apps = filter (λ app. not (p app)) apps

  left-length : (apps : List App) → length (left apps) ≤ length apps
  left-length [] = omega arith
  left-length (app ∷ apps) = ground (arith, left-length apps)

  left-shorter : (apps : List App) → any p apps ≡ true → length (left apps) + 1 ≤ length apps
  left-shorter [] h = absurd (ground (arith, h))
  left-shorter (app ∷ apps) h = elim (Bool-cases (p app)) [
    | inl e ↦ ground (arith, e, left-length apps)
    | inr e ↦ ground (arith, e, left-shorter apps (ground (arith, h, e)))
  ]

  left-sightings : (apps : List App) → sightings (left apps) ≤ sightings apps
  left-sightings [] = omega arith
  left-sightings (app ∷ apps) = ground (arith, left-sightings apps)

  left-All : (P : App → Type 0) (apps : List App) → All P apps → All P (left apps)
  left-All P [] h = tt
  left-All P (app ∷ apps) (first, rest) = elim (Bool-cases (p app)) [
    | inl e ↦ rw e (left-All P apps rest)
    | inr e ↦ rw e (first, left-All P apps rest)
  ]

  left-any :
      (q : Text → Bool) (apps : List App)
      → any q (names apps) ≡ false
      → any q (names (left apps)) ≡ false
  left-any q [] h = refl
  left-any q (app ∷ apps) h = ground (arith, h, left-any q apps)

  left-distinct :
      (apps : List App) → are_distinct (names apps) ≡ true → are_distinct (names (left apps)) ≡ true
  left-distinct [] h = refl
  left-distinct (app ∷ apps) h =
      ground (arith, h, left-any (text_eq app.process) apps, left-distinct apps)

-- The first of the applications in another order is one of them.
first_gone :
    (ys apps : List App)
    → ((p : App → Bool) → any p ys ≡ any p apps)
    → any (λ app. true) apps ≡ true
    → any (λ app. any (text_eq app.process) (take 1 (names ys))) apps ≡ true
first_gone [] apps same some_app = absurd (ground (arith, same (λ app. true), some_app))
first_gone (y ∷ ys) apps same some_app =
    sym (same (λ app. any (text_eq app.process) (y.process ∷ [])))
    ∙ ground (arith, text_eq_refl y.process)

any_app : (apps : List App) → 1 ≤ length apps → any (λ app. true) apps ≡ true
any_app [] h = absurd (omega (arith, h))
any_app (app ∷ apps) h = refl

-- The catalog within its bounds: the applications, each name once; the titles of each, each once;
-- and no more sightings and lock screens than observations.
pub record IsBounded (c : Catalog) : Type 0 where
  pub few : length c.apps ≤ c.max_apps
  pub once : are_distinct (names c.apps) ≡ true
  pub kept : All (λ app. AreKept c.max_samples app.samples) c.apps
  pub counted : sightings c.apps + c.locked_seen ≤ c.observations

-- The readings of a session, in order.
abbrev pub observed_all : Slices → List (Text × Text × ℕ) → Catalog → Catalog
observed_all slices [] c = c
observed_all slices ((process, title, now) ∷ rs) c =
    observed_all slices rs (observe slices process title now c)

module _ (slices : Slices)
    (permutes : (xs : List App) (p : App → Bool)
      → any p (slices.sort_slice (seen_before slices) xs) ≡ any p xs) where
  evict_apps-length :
      (max : ℕ) (apps : List App)
      → length apps ≤ max + 1
      → length (evict_apps slices max apps) ≤ max
  unfolding evict_apps
  evict_apps-length max apps h = elim (Bool-cases (leb (length apps) max)) [
    | inl e ↦ ground (arith, e)
    | inr e ↦
        let one : length apps - max ≡ 1 = ground (arith, e, h) in
        let found =
          first_gone (slices.sort_slice (seen_before slices) apps) apps (permutes apps)
            (any_app apps (omega (arith, one))) in
        let met : any (λ app. any (text_eq app.process) (gone slices max apps)) apps ≡ true =
          subst
            (λ n.
              any
                (λ app.
                  any (text_eq app.process)
                    (take n (names (slices.sort_slice (seen_before slices) apps))))
                apps
              ≡ true)
            (sym one) found in
        rw e (
          omega (
            arith,
            h,
            left-shorter (λ app. any (text_eq app.process) (gone slices max apps)) apps met,
          ))
  ]

  -- What eviction leaves, whatever it drops.
  evict_apps-left :
      (P : List App → Type 0) (max : ℕ) (apps : List App)
      → P apps
      → P (left (λ app. any (text_eq app.process) (gone slices max apps)) apps)
      → P (evict_apps slices max apps)
  unfolding evict_apps
  evict_apps-left P max apps whole less = elim (Bool-cases (leb (length apps) max)) [
    | inl e ↦ rw e whole
    | inr e ↦ rw e less
  ]

  -- An observation of a process.
  evicted-IsBounded :
      (key title : Text) (now : ℕ) (c : Catalog) (locked : Bool)
      → IsBounded c
      → IsBounded (record c {
        observations = c.observations + 1;
        locked = locked;
        apps =
            evict_apps slices c.max_apps (put_app key now (sight title now c.max_samples) c.apps);
      })
  evicted-IsBounded key title now c locked h =
      let apps = put_app key now (sight title now c.max_samples) c.apps in
      let old = λ (app : App). any (text_eq app.process) (gone slices c.max_apps apps) in
      let longer = put_app-length key now title c.max_samples c.apps in
      let once = put_app-distinct key now title c.max_samples c.apps h.once in
      let kept = put_app-AreKept key now title c.max_samples c.apps h.kept in
      let counted : sightings apps + c.locked_seen ≤ c.observations + 1 =
        omega (arith, put_app-sightings key now title c.max_samples c.apps, h.counted) in
      record {
        few = evict_apps-length c.max_apps apps (omega (arith, longer, h.few));
        once =
            evict_apps-left (λ xs. are_distinct (names xs) ≡ true) c.max_apps apps once
              (left-distinct old apps once);
        kept =
            evict_apps-left (λ xs. All (λ app. AreKept c.max_samples app.samples) xs) c.max_apps
              apps kept (left-All old (λ app. AreKept c.max_samples app.samples) apps kept);
        counted =
            evict_apps-left (λ xs. sightings xs + c.locked_seen ≤ c.observations + 1) c.max_apps
              apps counted (omega (arith, counted, left-sightings old apps));
      }

  observe-IsBounded :
      (process title : Text) (now : ℕ) (c : Catalog)
      → IsBounded c
      → IsBounded (observe slices process title now c)
  unfolding observe
  observe-IsBounded process title now c h = elim (Bool-cases (is_empty (normalize process))) [
    | inl e ↦
        rw (observe, e)
          (record { few = h.few; once = h.once; kept = h.kept; counted = omega (arith, h.counted) })
    | inr e ↦ rw (observe, e) (evicted-IsBounded (normalize process) title now c false h)
  ]

  observed_all-IsBounded :
      (rs : List (Text × Text × ℕ)) (c : Catalog)
      → IsBounded c
      → IsBounded (observed_all slices rs c)
  observed_all-IsBounded [] c h = h
  observed_all-IsBounded ((process, title, now) ∷ rs) c h =
      observed_all-IsBounded rs (observe slices process title now c)
        (observe-IsBounded process title now c h)

  new_catalog-IsBounded : (max_samples max_apps : ℤ) → IsBounded (new_catalog max_samples max_apps)
  unfolding new_catalog
  new_catalog-IsBounded max_samples max_apps = record {
    few = omega arith;
    once = refl;
    kept = tt;
    counted = omega arith;
  }

  -- Whatever is observed, and if sorting permutes: the catalog holds no more applications than its
  -- bound, each name once; of each no more samples than their bound, each title once; and no more
  -- sightings and lock screens than were observed.
  pub catalog-IsBounded :
      (max_samples max_apps : ℤ) (rs : List (Text × Text × ℕ))
      → IsBounded (observed_all slices rs (new_catalog max_samples max_apps))
  catalog-IsBounded max_samples max_apps rs =
      observed_all-IsBounded rs (new_catalog max_samples max_apps)
        (new_catalog-IsBounded max_samples max_apps)
