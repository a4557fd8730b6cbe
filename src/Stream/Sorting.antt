-- ===== src/Stream/Sorting.antt =====
-- The order of the devices: `sort` and `upsert` keep the ids in order, each once.
use cyberstalk_me.Base.{
  ◌≡◌, refl, ap, sym, inl, inr, ◌≢◌, true, Bool-cases, none, some, Option-cases, List, [], ◌∷◌,
  ◌++◌, map, Text, text_eq_sound, text_eq_refl, modify, find_index, All, All-mono, ℕ, zero, suc,
  arith,
}
use cyberstalk_me.Wire.Types.{DeviceState}
use cyberstalk_me.Stream.Order.{Collation}
use cyberstalk_me.Stream.{same_id, by_device_id, insert, sort, upsert}

abbrev pub ids : List DeviceState → List Text
ids = map (λ d. d.device_id)

-- No two devices have one id.
abbrev pub AreDistinct : List Text → Type 0
AreDistinct [] = Unit
AreDistinct (a ∷ s) = All (λ b. a ≢ b) s × AreDistinct s

-- A device takes the place of the first one with its id, so the ids are as they were.
pub ids-modify :
    (next : DeviceState) (ds : List DeviceState) (i : ℕ)
    → find_index (same_id next.device_id) ds ≡ some i
    → ids (modify ds i (λ _. next)) ≡ ids ds
ids-modify next [] i h = refl
ids-modify next (d ∷ ds) zero h =
    let e : same_id next.device_id d ≡ true = ground arith in
    ap (λ id. id ∷ ids ds) (sym (text_eq_sound d.device_id next.device_id e))
ids-modify next (d ∷ ds) (suc i) h = ap (d.device_id ∷◌) (ids-modify next ds i (ground arith))

pub find_index-none :
    (id : Text) (ds : List DeviceState)
    → find_index (same_id id) ds ≡ none
    → All (λ a. a ≢ id) (ids ds)
find_index-none id [] h = tt
find_index-none id (d ∷ ds) h =
    (λ e. absurd (ground (arith, text_eq_refl id, e)), find_index-none id ds (ground arith))

module _ (collation : Collation) where
  abbrev pub IsSorted : List Text → Type 0
  IsSorted [] = Unit
  IsSorted (a ∷ s) = All (λ b. collation.le a b ≡ true) s × IsSorted s

  pub insert-All {ℓ} :
      (P : Text → Type ℓ) (d : DeviceState) (es : List DeviceState)
      → P d.device_id
      → All P (ids es)
      → All P (ids (insert collation d es))
  unfolding insert
  insert-All P d [] p h = (p, tt)
  insert-All P d (e ∷ es) p h = elim (Bool-cases (by_device_id collation d e)) [
    | inl q ↦ rw q (p, h)
    | inr q ↦ rw q (h.0, insert-All P d es p h.1)
  ]

  insert-IsSorted :
      (d : DeviceState) (es : List DeviceState)
      → IsSorted (ids es)
      → IsSorted (ids (insert collation d es))
  unfolding insert
  insert-IsSorted d [] h = (tt, tt)
  insert-IsSorted d (e ∷ es) h = elim (Bool-cases (by_device_id collation d e)) [
    | inl q ↦ rw q ((q, All-mono _ (λ x. collation.le_trans _ _ _ q) h.0), h)
    | inr q ↦ rw q (
      insert-All _ d es
          (elim (collation.le_total d.device_id e.device_id) [ inl r ↦ absurd (cc) | inr r ↦ r ])
          h.0,
      insert-IsSorted d es h.1,
    )
  ]

  pub sort-IsSorted : (ds : List DeviceState) → IsSorted (ids (sort collation ds))
  unfolding sort
  sort-IsSorted [] = tt
  sort-IsSorted (d ∷ ds) = insert-IsSorted d (sort collation ds) (sort-IsSorted ds)

  -- The two branches of `upsert`.
  pub upsert_new :
      (ds : List DeviceState) (next : DeviceState)
      → find_index (same_id next.device_id) ds ≡ none
      → upsert collation ds next ≡ sort collation (ds ++ next ∷ [])
  unfolding upsert
  upsert_new ds next e = ground (arith, e)

  pub upsert_known :
      (ds : List DeviceState) (next : DeviceState) {i : ℕ}
      → find_index (same_id next.device_id) ds ≡ some i
      → upsert collation ds next ≡ modify ds i (λ _. next)
  unfolding upsert
  upsert_known ds next e = ground (arith, e)

  pub upsert-IsSorted :
      (ds : List DeviceState) (next : DeviceState)
      → IsSorted (ids ds)
      → IsSorted (ids (upsert collation ds next))
  upsert-IsSorted ds next h = elim (Option-cases (find_index (same_id next.device_id) ds)) [
    | inl e ↦ rw (upsert_new ds next e) (sort-IsSorted (ds ++ next ∷ []))
    | inr (i, e) ↦ rw (upsert_known ds next e, ids-modify next ds i e) h
  ]

  insert-AreDistinct :
      (d : DeviceState) (es : List DeviceState)
      → All (λ b. d.device_id ≢ b) (ids es)
      → AreDistinct (ids es)
      → AreDistinct (ids (insert collation d es))
  unfolding insert
  insert-AreDistinct d [] n h = (tt, tt)
  insert-AreDistinct d (e ∷ es) n h = elim (Bool-cases (by_device_id collation d e)) [
    | inl q ↦ rw q (n, h)
    | inr q ↦ rw q (insert-All _ d es (λ r. n.0 (sym r)) h.0, insert-AreDistinct d es n.1 h.1)
  ]

  sort-All {ℓ} :
      (P : Text → Type ℓ) (ds : List DeviceState) → All P (ids ds) → All P (ids (sort collation ds))
  unfolding sort
  sort-All P [] h = tt
  sort-All P (d ∷ ds) h = insert-All P d (sort collation ds) h.0 (sort-All P ds h.1)

  pub sort-AreDistinct :
      (ds : List DeviceState) → AreDistinct (ids ds) → AreDistinct (ids (sort collation ds))
  unfolding sort
  sort-AreDistinct [] h = tt
  sort-AreDistinct (d ∷ ds) h =
      insert-AreDistinct d (sort collation ds) (sort-All _ ds h.0) (sort-AreDistinct ds h.1)

  concat-All {ℓ} :
      (P : Text → Type ℓ) (ds : List DeviceState) (next : DeviceState)
      → All P (ids ds)
      → P next.device_id
      → All P (ids (ds ++ next ∷ []))
  concat-All P [] next h p = (p, tt)
  concat-All P (d ∷ ds) next h p = (h.0, concat-All P ds next h.1 p)

  concat-AreDistinct :
      (ds : List DeviceState) (next : DeviceState)
      → All (λ a. a ≢ next.device_id) (ids ds)
      → AreDistinct (ids ds)
      → AreDistinct (ids (ds ++ next ∷ []))
  concat-AreDistinct [] next n h = (tt, tt)
  concat-AreDistinct (d ∷ ds) next n h =
      (concat-All (λ b. d.device_id ≢ b) ds next h.0 n.0, concat-AreDistinct ds next n.1 h.1)

  pub upsert-AreDistinct :
      (ds : List DeviceState) (next : DeviceState)
      → AreDistinct (ids ds)
      → AreDistinct (ids (upsert collation ds next))
  upsert-AreDistinct ds next h = elim (Option-cases (find_index (same_id next.device_id) ds)) [
    | inl e ↦
        let n = find_index-none next.device_id ds e in
        rw (upsert_new ds next e) (sort-AreDistinct _ (concat-AreDistinct ds next n h))
    | inr (i, e) ↦ rw (upsert_known ds next e, ids-modify next ds i e) h
  ]
