-- ===== src/Rules/Duplicates.antt =====
-- `duplicateProcesses`: the names that it marks are those claimed by two rules or more.
use cyberstalk_me.Base.{
  ℕ, suc, ◌≡◌, refl, true, false, not, ◌&&◌, ◌||◌, List, [], ◌∷◌, Text, text_eq, text_eq_iff,
  is_empty, any-append, if◌then◌else◌, leb, arith,
}
use cyberstalk_me.Api.{Rule, Draft}
use cyberstalk_me.Rules.{normalize_process, has, add, duplicates_from, duplicate_processes}

-- How many rules claim the normal form `key`.
unfoldable pub claims : List Rule → Text → ℕ
claims [] key = 0
claims (rule ∷ rest) key =
    let later = claims rest key in
    if text_eq (normalize_process rule.process) key then suc later else later

has-add : (set : List Text) (x key : Text) → has (add set x) key ≡ text_eq key x || has set key
unfolding has add
has-add set x key = ground (arith, text_eq_iff key x, any-append (text_eq key) set (x ∷ []))

duplicates_from_lem :
    (seen duplicates : List Text) (rules : List Rule) (key : Text)
    → is_empty key ≡ false
    → has (duplicates_from seen duplicates rules) key
      ≡ has duplicates key || leb 2 (claims rules key) || (has seen key && leb 1 (claims rules key))
unfolding duplicates_from claims
duplicates_from_lem seen duplicates [] key ne = ground arith
duplicates_from_lem seen duplicates (rule ∷ rest) key ne =
    let k = normalize_process rule.process in
    ground (
      arith,
      text_eq_iff k key,
      text_eq_iff key k,
      has-add seen k key,
      has-add duplicates k key,
      duplicates_from_lem seen duplicates rest key ne,
      duplicates_from_lem (add seen k) duplicates rest key ne,
      duplicates_from_lem (add seen k) (add duplicates k) rest key ne,
    )

duplicates_from_blank :
    (seen duplicates : List Text) (rules : List Rule) (key : Text)
    → is_empty key ≡ true
    → has (duplicates_from seen duplicates rules) key ≡ has duplicates key
unfolding duplicates_from
duplicates_from_blank seen duplicates [] key blank = refl
duplicates_from_blank seen duplicates (rule ∷ rest) key blank =
    let k = normalize_process rule.process in
    ground (
      arith,
      text_eq_iff key k,
      has-add duplicates k key,
      duplicates_from_blank seen duplicates rest key blank,
      duplicates_from_blank (add seen k) duplicates rest key blank,
      duplicates_from_blank (add seen k) (add duplicates k) rest key blank,
    )

-- The marked names are exactly the normal forms, blank ones left out, that two rules or more claim.
pub duplicate_processes_lem :
    (d : Draft) (key : Text)
    → has (duplicate_processes d) key ≡ not (is_empty key) && leb 2 (claims d.rules key)
unfolding duplicate_processes has
duplicate_processes_lem d key =
    ground (arith, duplicates_from_lem [] [] d.rules key, duplicates_from_blank [] [] d.rules key)
