-- ===== src/Stream/Lookup.antt =====
-- What the page shows for an id, after `sort` and after `upsert`.
use cyberstalk_me.Base.{
  ◌≡◌, refl, ap, sym, ◌∙◌, inl, inr, true, not, Bool-cases, Option, none, some, Option-cases, List,
  [], ◌∷◌, ◌++◌, Text, text_eq, text_eq_sound, text_eq_refl, modify, find, filter, find_index, All,
  All-mono, ℕ, zero, suc, arith, if◌then◌else◌,
}
use cyberstalk_me.Wire.Types.{DeviceState}
use cyberstalk_me.Stream.Order.{Collation}
use cyberstalk_me.Stream.{same_id, by_device_id, insert, sort, upsert}
use cyberstalk_me.Stream.Sorting.{ids, IsSorted, upsert_new, upsert_known, sort-IsSorted}

-- The first device with an id.
abbrev pub device_with : Text → List DeviceState → Option DeviceState
device_with id ds = find (same_id id) ds

-- The devices with another id.
abbrev pub others : Text → List DeviceState → List DeviceState
others id ds = filter (λ d. not (same_id id d)) ds

device_with-concat :
    (id : Text) (ds : List DeviceState) (next : DeviceState)
    → find_index (same_id next.device_id) ds ≡ none
    → device_with id (ds ++ next ∷ []) ≡ (if same_id id next then some next else device_with id ds)
device_with-concat id [] next h = refl
device_with-concat id (d ∷ ds) next h = elim (Bool-cases (same_id id d)) [
  | inl p ↦ elim (Bool-cases (same_id id next)) [
    | inl q ↦
        let e = text_eq_sound d.device_id id p ∙ sym (text_eq_sound next.device_id id q) in
        absurd
          (ground (arith, h, ap (λ a. text_eq a next.device_id) e, text_eq_refl next.device_id))
    | inr q ↦ ground (arith, p, q)
  ]
  | inr p ↦ ground (arith, p, device_with-concat id ds next)
]

device_with-modify :
    (id : Text) (ds : List DeviceState) (next : DeviceState) (i : ℕ)
    → find_index (same_id next.device_id) ds ≡ some i
    → device_with id (modify ds i (λ _. next))
      ≡ (if same_id id next then some next else device_with id ds)
device_with-modify id [] next i h = absurd (cc)
device_with-modify id (d ∷ ds) next zero h =
    let p : same_id next.device_id d ≡ true = ground arith in
    let e = text_eq_sound d.device_id next.device_id p in ground (arith, ap (λ a. text_eq a id) e)
device_with-modify id (d ∷ ds) next (suc i) h = elim (Bool-cases (same_id id d)) [
  | inl p ↦ elim (Bool-cases (same_id id next)) [
    | inl q ↦
        let e = text_eq_sound d.device_id id p ∙ sym (text_eq_sound next.device_id id q) in
        absurd
          (ground (arith, h, ap (λ a. text_eq a next.device_id) e, text_eq_refl next.device_id))
    | inr q ↦ ground (arith, p, q)
  ]
  | inr p ↦ ground (arith, p, device_with-modify id ds next i)
]

others-modify :
    (next : DeviceState) (ds : List DeviceState) (i : ℕ)
    → find_index (same_id next.device_id) ds ≡ some i
    → others next.device_id (modify ds i (λ _. next)) ≡ others next.device_id ds
others-modify next [] i h = refl
others-modify next (d ∷ ds) zero h = ground (arith, text_eq_refl next.device_id)
others-modify next (d ∷ ds) (suc i) h = ground (arith, others-modify next ds i)

others-concat :
    (next : DeviceState) (ds : List DeviceState)
    → others next.device_id (ds ++ next ∷ []) ≡ others next.device_id ds
others-concat next [] = ground (arith, text_eq_refl next.device_id)
others-concat next (d ∷ ds) = ground (arith, others-concat next ds)

module _ (collation : Collation) where
  device_with-insert :
      (id : Text) (d : DeviceState) (es : List DeviceState)
      → device_with id (insert collation d es)
        ≡ (if same_id id d then some d else device_with id es)
  unfolding insert
  device_with-insert id d [] = refl
  device_with-insert id d (e ∷ es) = elim (Bool-cases (by_device_id collation d e)) [
    | inl q ↦ ground (arith, q)
    | inr q ↦ elim (Bool-cases (same_id id e)) [
      | inl p ↦ elim (Bool-cases (same_id id d)) [
        | inl r ↦
            let same = text_eq_sound d.device_id id r ∙ sym (text_eq_sound e.device_id id p) in
            let le = ap (collation.le d.device_id) (sym same) in
            elim (collation.le_total d.device_id d.device_id) [
              | inl t ↦ absurd (cc)
              | inr t ↦ absurd (cc)
            ]
        | inr r ↦ ground (arith, p, q, r)
      ]
      | inr p ↦ ground (arith, p, q, device_with-insert id d es)
    ]
  ]

  -- The sort is stable, so it keeps the first device of each id.
  pub device_with-sort :
      (id : Text) (ds : List DeviceState) → device_with id (sort collation ds) ≡ device_with id ds
  unfolding sort
  device_with-sort id [] = refl
  device_with-sort id (d ∷ ds) =
      device_with-insert id d (sort collation ds)
      ∙ ap (λ o. if same_id id d then some d else o) (device_with-sort id ds)

  pub device_with-upsert :
      (id : Text) (ds : List DeviceState) (next : DeviceState)
      → device_with id (upsert collation ds next)
        ≡ (if same_id id next then some next else device_with id ds)
  device_with-upsert id ds next = elim (Option-cases (find_index (same_id next.device_id) ds)) [
    | inl e ↦
        ap (device_with id) (upsert_new collation ds next e)
        ∙ device_with-sort id (ds ++ next ∷ [])
        ∙ device_with-concat id ds next e
    | inr (i, e) ↦
        ap (device_with id) (upsert_known collation ds next e) ∙ device_with-modify id ds next i e
  ]

  insert_least :
      (d : DeviceState) (es : List DeviceState)
      → All (λ b. collation.le d.device_id b ≡ true) (ids es)
      → insert collation d es ≡ d ∷ es
  unfolding insert
  insert_least d [] h = refl
  insert_least d (e ∷ es) h = ground (arith, h.0)

  others-All {ℓ} :
      (P : Text → Type ℓ) (id : Text) (es : List DeviceState)
      → All P (ids es)
      → All P (ids (others id es))
  others-All P id [] h = tt
  others-All P id (e ∷ es) h = elim (Bool-cases (same_id id e)) [
    | inl p ↦ rw p (others-All P id es h.1)
    | inr p ↦ rw p (h.0, others-All P id es h.1)
  ]

  others-insert :
      (id : Text) (d : DeviceState) (es : List DeviceState)
      → IsSorted collation (ids es)
      → others id (insert collation d es)
        ≡ (if same_id id d then others id es else insert collation d (others id es))
  unfolding insert
  others-insert id d [] h = ground arith
  others-insert id d (e ∷ es) h = elim (Bool-cases (by_device_id collation d e)) [
    | inl q ↦
        let after : All (λ b. collation.le d.device_id b ≡ true) (ids (e ∷ es)) =
          (q, All-mono _ (λ x. collation.le_trans _ _ _ q) h.0) in
        ground (arith, q, insert_least d (others id (e ∷ es)) (others-All _ id (e ∷ es) after))
    | inr q ↦ ground (arith, q, others-insert id d es h.1)
  ]

  sort_sorted : (ds : List DeviceState) → IsSorted collation (ids ds) → sort collation ds ≡ ds
  unfolding sort
  sort_sorted [] h = refl
  sort_sorted (d ∷ ds) h = ap (insert collation d) (sort_sorted ds h.1) ∙ insert_least d ds h.0

  others-sort :
      (id : Text) (ds : List DeviceState)
      → others id (sort collation ds) ≡ sort collation (others id ds)
  unfolding sort
  others-sort id [] = refl
  others-sort id (d ∷ ds) =
      others-insert id d (sort collation ds) (sort-IsSorted collation ds)
      ∙ ground (arith, others-sort id ds)

  others-IsSorted :
      (id : Text) (ds : List DeviceState)
      → IsSorted collation (ids ds)
      → IsSorted collation (ids (others id ds))
  others-IsSorted id [] h = tt
  others-IsSorted id (d ∷ ds) h = elim (Bool-cases (same_id id d)) [
    | inl p ↦ rw p (others-IsSorted id ds h.1)
    | inr p ↦ rw p (others-All _ id ds h.0, others-IsSorted id ds h.1)
  ]

  -- An event about one device moves and changes no other.
  pub others-upsert :
      (ds : List DeviceState) (next : DeviceState)
      → IsSorted collation (ids ds)
      → others next.device_id (upsert collation ds next) ≡ others next.device_id ds
  others-upsert ds next h = elim (Option-cases (find_index (same_id next.device_id) ds)) [
    | inl e ↦
        ap (others next.device_id) (upsert_new collation ds next e)
        ∙ others-sort next.device_id (ds ++ next ∷ [])
        ∙ ap (sort collation) (others-concat next ds)
        ∙ sort_sorted (others next.device_id ds) (others-IsSorted next.device_id ds h)
    | inr (i, e) ↦
        ap (others next.device_id) (upsert_known collation ds next e) ∙ others-modify next ds i e
  ]
