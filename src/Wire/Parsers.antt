-- ===== src/Wire/Parsers.antt =====
-- What the parsers accept, and what they give for it.
use cyberstalk_me.Base.{
  ◌≡◌, refl, ap, ap₂, ◌∙◌, subst, ◌↔◌, inl, inr, true, false, ◌&&◌, Bool-cases, Option-cases,
  Option, none, some, List, [], ◌∷◌, map, Text, codes, text_eq, text_eq_refl, text_eq_sound, all,
  arith,
}
use cyberstalk_me.Wire.Json.{Json, null, bool, num, str, arr, obj, Items, elems, get}
use cyberstalk_me.Wire.Types.{DeviceState, StreamEvent, update, offline}
use cyberstalk_me.Wire.Guards.{is_record, is_device_state}
use cyberstalk_me.Wire.Read.{
  as_device_state, text_is, parse_snapshot, event_from, parse_stream_event,
}
use cyberstalk_me.Wire.Shape.{IsText, IsDevice, as_device_state-IsDevice}
use cyberstalk_me.Wire.Complete.{device_complete}

-- The values of a list have the shapes of the devices of another, one by one.
pub data AreDevices : List Json → List DeviceState → Type 0 where
  no_device : AreDevices [] []
  next_device :
      {v : Json} {vs : List Json} {d : DeviceState} {ds : List DeviceState}
      → IsDevice (some v) d
      → AreDevices vs ds
      → AreDevices (v ∷ vs) (d ∷ ds)

devices_sound :
    (vs : List Json)
    → all (λ v. is_device_state (some v)) vs ≡ true
    → AreDevices vs (map (λ v. as_device_state (some v)) vs)
devices_sound [] h = no_device
devices_sound (v ∷ vs) h =
    next_device (as_device_state-IsDevice (some v) (ground arith)) (devices_sound vs (ground arith))

devices_complete :
    (vs : List Json) (ds : List DeviceState)
    → AreDevices vs ds
    → (all (λ v. is_device_state (some v)) vs ≡ true)
      × (map (λ v. as_device_state (some v)) vs ≡ ds)
devices_complete _ _ no_device = (refl, refl)
devices_complete _ _ (next_device r rs) =
    let c = device_complete _ _ r in
    let cs = devices_complete _ _ rs in (ap₂ (◌&&◌) c.0 cs.0, ap₂ (◌∷◌) c.1 cs.1)

snapshot_sound :
    (v : Json) (ds : List DeviceState)
    → parse_snapshot v ≡ some ds
    → (vs : Items) × (v ≡ arr vs) × AreDevices (elems vs) ds
unfolding parse_snapshot
snapshot_sound (arr vs) ds h = elim (Bool-cases (all (λ v. is_device_state (some v)) (elems vs))) [
  | inl e ↦ (vs, refl, subst (AreDevices (elems vs)) (ground arith) (devices_sound (elems vs) e))
  | inr e ↦ absurd (ground arith)
]
snapshot_sound null ds h = absurd (cc)
snapshot_sound (bool _) ds h = absurd (cc)
snapshot_sound (num _) ds h = absurd (cc)
snapshot_sound (str _) ds h = absurd (cc)
snapshot_sound (obj _) ds h = absurd (cc)

snapshot_complete :
    (vs : Items) (ds : List DeviceState)
    → AreDevices (elems vs) ds
    → parse_snapshot (arr vs) ≡ some ds
unfolding parse_snapshot
snapshot_complete vs ds r = let c = devices_complete _ _ r in ground (arith, c.0, c.1)

-- A payload is parsed to a list of devices exactly when it is an array whose values have the
-- shapes of those devices, in order: whatever else it is, nothing is parsed.
pub parse_snapshot_iff :
    (v : Json) (ds : List DeviceState)
    → (parse_snapshot v ≡ some ds) ↔ ((vs : Items) × (v ≡ arr vs) × AreDevices (elems vs) ds)
parse_snapshot_iff v ds =
    (snapshot_sound v ds, λ r. ap parse_snapshot r.1 ∙ snapshot_complete r.0 ds r.2)

-- What a stream message must hold to be an event.
pub data IsEvent : Json → StreamEvent → Type 0 where
  is_update :
      {v : Json} {d : DeviceState}
      → IsText (get "type" (some v)) (codes "update")
      → IsDevice (get "device" (some v)) d
      → IsEvent v (update d)
  is_offline :
      {v : Json} {d : DeviceState}
      → IsText (get "type" (some v)) (codes "offline")
      → IsDevice (get "device" (some v)) d
      → IsEvent v (offline d)

text_is_iff : (v : Option Json) (t : Text) → (text_is v t ≡ true) ↔ IsText v t
text_is_iff none t = (λ h. absurd (cc), λ e. cc)
text_is_iff (some null) t = (λ h. absurd (cc), λ e. cc)
text_is_iff (some (bool _)) t = (λ h. absurd (cc), λ e. cc)
text_is_iff (some (num _)) t = (λ h. absurd (cc), λ e. cc)
text_is_iff (some (arr _)) t = (λ h. absurd (cc), λ e. cc)
text_is_iff (some (obj _)) t = (λ h. absurd (cc), λ e. cc)
text_is_iff (some (str s)) t = (λ h. cc (text_eq_sound s t h), λ e. cc (text_eq_refl t))

has_key : (v : Json) (s : Text) → IsText (get "type" (some v)) s → is_record (some v) ≡ true
unfolding is_record
has_key v s e = ground arith

offline_is_not_update : text_eq (codes "offline") (codes "update") ≡ false
unfolding text_eq
offline_is_not_update = refl

event_from-IsEvent :
    (v : Json) (event : StreamEvent) → event_from (some v) ≡ some event → IsEvent v event
unfolding event_from
event_from-IsEvent v event h = elim (Bool-cases (text_is (get "type" (some v)) (codes "update"))) [
  | inl e ↦
      let d : is_device_state (get "device" (some v)) ≡ true = ground arith in
      subst (IsEvent v) (ground arith)
        (is_update ((text_is_iff _ _).0 e) (as_device_state-IsDevice (get "device" (some v)) d))
  | inr e ↦
      let d : is_device_state (get "device" (some v)) ≡ true = ground arith in
      let t : text_is (get "type" (some v)) (codes "offline") ≡ true = ground arith in
      subst (IsEvent v) (ground arith)
        (is_offline ((text_is_iff _ _).0 t) (as_device_state-IsDevice (get "device" (some v)) d))
]

event_complete :
    (v : Json) (event : StreamEvent) → IsEvent v event → event_from (some v) ≡ some event
unfolding event_from
event_complete v _ (is_update t r) =
    let c = device_complete _ _ r in ground (arith, has_key v _ t, c.0, c.1, (text_is_iff _ _).1 t)
event_complete v _ (is_offline t r) =
    let c = device_complete _ _ r in
    let other = ap (λ k. text_is k (codes "update")) t ∙ offline_is_not_update in
    ground (arith, has_key v _ t, c.0, c.1, (text_is_iff _ _).1 t, other)

-- A message is an event exactly when it parses as JSON, to an object whose type is one of the two
-- and whose device has the shape of the event's device: any other message is dropped.
pub parse_stream_event_iff :
    (json_parse : Text → Option Json) (raw : Text) (event : StreamEvent)
    → (parse_stream_event json_parse raw ≡ some event)
      ↔ ((v : Json) × (json_parse raw ≡ some v) × IsEvent v event)
unfolding parse_stream_event event_from
parse_stream_event_iff json_parse raw event = elim (Option-cases (json_parse raw)) [
  | inl e ↦ (λ h. absurd (ground arith), λ r. absurd (cc (r.1)))
  | inr (v, e) ↦ (
    λ h. (v, e, event_from-IsEvent v event (ground arith)),
    λ r. ground (arith, event_complete r.0 event r.2, r.1),
  )
]
