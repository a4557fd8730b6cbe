-- ===== src/Usage/Selection.antt =====
-- The controls of the usage tab: the device that is shown and the window that is asked for.
use cyberstalk_me.Base.{
  ◌≡◌, refl, ap, sym, ◌∙◌, ◌↔◌, inl, inr, Bool, true, false, Bool-cases, none, some, List, [], ◌∷◌,
  Text, codes, text_eq, text_eq_sound, any, find, arith,
}
use cyberstalk_me.Wire.Types.{DeviceUsage}
use cyberstalk_me.Usage.{UsageWindow, today, last_7d, last_30d, window_value}
use cyberstalk_me.Usage.Panel.{selected_device, select_window}

abbrev pub has_id : Text → DeviceUsage → Bool
has_id id d = text_eq d.device_id id

find_of_any :
    (id : Text) (ds : List DeviceUsage)
    → any (has_id id) ds ≡ true
    → (d : DeviceUsage) × (find (has_id id) ds ≡ some d) × (d.device_id ≡ id)
find_of_any id [] h = absurd (cc)
find_of_any id (d ∷ ds) h = elim (Bool-cases (has_id id d)) [
  | inl e ↦ (d, ground (arith, e), text_eq_sound d.device_id id e)
  | inr e ↦ let r = find_of_any id ds (ground arith) in (r.0, ground (arith, e, r.1), r.2)
]

find_of_none :
    (id : Text) (ds : List DeviceUsage) → any (has_id id) ds ≡ false → find (has_id id) ds ≡ none
find_of_none id [] h = refl
find_of_none id (d ∷ ds) h = ground (arith, find_of_none id ds)

-- Of a payload with devices, a picked device that is there is the one shown, and when it is
-- not there the first one is shown instead.
pub selected_device_lem :
    (id : Text) (d : DeviceUsage) (ds : List DeviceUsage)
    → (any (has_id id) (d ∷ ds) ≡ true
        → (e : DeviceUsage) × (selected_device (some id) (d ∷ ds) ≡ some e) × (e.device_id ≡ id))
      × (any (has_id id) (d ∷ ds) ≡ false → selected_device (some id) (d ∷ ds) ≡ some d)
unfolding selected_device
selected_device_lem id d ds = (
  λ h. let r = find_of_any id (d ∷ ds) h in (r.0, ground (arith, r.1), r.2),
  λ h. ground (arith, find_of_none id (d ∷ ds) h),
)

window_of : (value : Text) (w : UsageWindow) → select_window value ≡ some w → value ≡ window_value w
unfolding select_window window_value
window_of value w h = elim (Bool-cases (text_eq (codes "today") value)) [
  | inl e ↦ let q : w ≡ today = ground arith in sym (text_eq_sound _ _ e) ∙ sym (ap window_value q)
  | inr e ↦ elim (Bool-cases (text_eq (codes "7d") value)) [
    | inl f ↦
        let q : w ≡ last_7d = ground arith in sym (text_eq_sound _ _ f) ∙ sym (ap window_value q)
    | inr f ↦ elim (Bool-cases (text_eq (codes "30d") value)) [
      | inl g ↦
          let q : w ≡ last_30d = ground arith in sym (text_eq_sound _ _ g) ∙ sym (ap window_value q)
      | inr g ↦ absurd (ground arith)
    ]
  ]
]

select_own : (w : UsageWindow) → select_window (window_value w) ≡ some w
unfolding select_window window_value text_eq
select_own today = refl
select_own last_7d = refl
select_own last_30d = refl

-- The control sets a window exactly when it reports the value of that window.
pub select_window_lem :
    (value : Text) (w : UsageWindow) → (select_window value ≡ some w) ↔ (value ≡ window_value w)
select_window_lem value w = (window_of value w, λ e. ap select_window e ∙ select_own w)
