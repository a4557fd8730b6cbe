-- ===== src/Stream/Step.antt =====
-- What the events do to the page: the refinement of a map from ids to devices, and the order.
use cyberstalk_me.Base.{
  ◌≡◌, refl, ◌∙◌, ◌⊎◌, inl, inr, Bool, true, false, Bool-cases, Option, none, some, Option-cases,
  List, [], ◌∷◌, Text, ℕ, ◌+◌, ◌-◌, arith, All, if◌then◌else◌,
}
use cyberstalk_me.Wire.Json.{Json}
use cyberstalk_me.Wire.Types.{DeviceState, StreamEvent}
use cyberstalk_me.Wire.Read.{parse_snapshot, parse_stream_event}
use cyberstalk_me.Stream.Order.{Collation}
use cyberstalk_me.Stream.{
  Stream, unreachable, bad_status, bad_body, body, Event, answered, opened, message, failed,
  unmounted, same_id, event_device, sort, upsert, load_snapshot, on_open, on_message, step, run,
  mounted,
}
use cyberstalk_me.Stream.Sorting.{
  ids, AreDistinct, IsSorted, sort-IsSorted, upsert-IsSorted, sort-AreDistinct, upsert-AreDistinct,
}
use cyberstalk_me.Stream.Lookup.{
  device_with, others, device_with-sort, device_with-upsert, others-upsert,
}

-- The page as a map from ids to devices, without an order.
abbrev pub View : Type 0
View = Text → Option DeviceState

abbrev pub view_of : List DeviceState → View
view_of ds id = device_with id ds

-- What an event means for that map: a whole snapshot replaces it, an event sets one id, and
-- everything else leaves it alone.
abbrev pub abstract_step : (Text → Option Json) → Event → View → View
abstract_step json_parse (answered (body v)) m = elim (parse_snapshot v) [
  | none ↦ m
  | some parsed ↦ view_of parsed
]
abstract_step json_parse (message raw) m = elim (parse_stream_event json_parse raw) [
  | none ↦ m
  | some event ↦ λ id. if same_id id (event_device event) then some (event_device event) else m id
]
abstract_step json_parse _ m = m

-- How often the event source opens.
abbrev pub opens_once : Event → ℕ
opens_once opened = 1
opens_once _ = 0

abbrev pub opens : List Event → ℕ
opens [] = 0
opens (e ∷ es) = opens_once e + opens es

abbrev pub is_unmount : Event → Bool
is_unmount unmounted = true
is_unmount _ = false

-- The requests sent, with those that n more openings send.
abbrev pub due : Stream → ℕ → ℕ
due s n = s.requests + (if s.connected_once then n else n - 1)

-- The event is the answer of a request that carries the devices.
abbrev pub IsSnapshot : Event → List DeviceState → Type 0
IsSnapshot (answered (body v)) ds = parse_snapshot v ≡ some ds
IsSnapshot _ ds = ⊥

abbrev pub IsOrdered : Collation → List DeviceState → Type 0
IsOrdered collation ds = IsSorted collation (ids ds) × AreDistinct (ids ds)

module _ (collation : Collation) (json_parse : Text → Option Json) where
  -- While the page is mounted, the list of devices stands for the map: every event changes what
  -- the page shows for an id exactly as it changes the map.
  pub step-refines :
      (e : Event) (s : Stream) (id : Text)
      → s.cancelled ≡ false
      → device_with id (step collation json_parse e s).devices
        ≡ abstract_step json_parse e (view_of s.devices) id
  unfolding step load_snapshot on_open on_message
  step-refines (answered (body v)) s id h = elim (Option-cases (parse_snapshot v)) [
    | inl e ↦ ground (arith, e)
    | inr (ds, e) ↦ ground (arith, e, device_with-sort collation id ds)
  ]
  step-refines (answered unreachable) s id h = ground arith
  step-refines (answered bad_status) s id h = ground arith
  step-refines (answered bad_body) s id h = ground arith
  step-refines opened s id h = ground arith
  step-refines (message raw) s id h = elim (Option-cases (parse_stream_event json_parse raw)) [
    | inl e ↦ ground (arith, e)
    | inr (event, e) ↦
        ground (arith, e, device_with-upsert collation id s.devices (event_device event))
  ]
  step-refines failed s id h = ground arith
  step-refines unmounted s id h = refl

  -- The three things that an event does to the list.
  step_devices :
      (e : Event) (s : Stream)
      → ((step collation json_parse e s).devices ≡ s.devices)
        ⊎ ((ds : List DeviceState) × (IsSnapshot e ds)
            × ((step collation json_parse e s).devices ≡ sort collation ds))
        ⊎ ((next : DeviceState) × ((step collation json_parse e s).devices
              ≡ upsert collation s.devices next))
  unfolding step load_snapshot on_open on_message
  step_devices (answered (body v)) s = elim (Option-cases (parse_snapshot v)) [
    | inl e ↦ inl (ground (arith, e))
    | inr (ds, e) ↦ elim (Bool-cases s.cancelled) [
      | inl c ↦ inl (ground (arith, c))
      | inr c ↦ inr (inl (ds, e, ground (arith, c, e)))
    ]
  ]
  step_devices (answered unreachable) s = inl (ground arith)
  step_devices (answered bad_status) s = inl (ground arith)
  step_devices (answered bad_body) s = inl (ground arith)
  step_devices opened s = inl (ground arith)
  step_devices (message raw) s = elim (Option-cases (parse_stream_event json_parse raw)) [
    | inl e ↦ inl (ground (arith, e))
    | inr (event, e) ↦ elim (Bool-cases s.cancelled) [
      | inl c ↦ inl (ground (arith, c))
      | inr c ↦ inr (inr (event_device event, ground (arith, c, e)))
    ]
  ]
  step_devices failed s = inl (ground arith)
  step_devices unmounted s = inl refl

  step-IsOrdered :
      (e : Event) (s : Stream)
      → ((ds : List DeviceState) → IsSnapshot e ds → AreDistinct (ids ds))
      → IsOrdered collation s.devices
      → IsOrdered collation (step collation json_parse e s).devices
  step-IsOrdered e s d h = elim (step_devices e s) [
    | inl k ↦ rw k h
    | inr (inl (ds, i, k)) ↦
        rw k (sort-IsSorted collation ds, sort-AreDistinct collation ds (d ds i))
    | inr (inr (next, k)) ↦ rw k (
      upsert-IsSorted collation s.devices next h.0,
      upsert-AreDistinct collation s.devices next h.1,
    )
  ]

  -- From a page whose devices are in the order of their ids, each id once, any events keep it
  -- so, as long as no snapshot names a device twice.
  pub run-IsOrdered :
      (es : List Event) (s : Stream)
      → All (λ e. (ds : List DeviceState) → IsSnapshot e ds → AreDistinct (ids ds)) es
      → IsOrdered collation s.devices
      → IsOrdered collation (run collation json_parse es s).devices
  unfolding run
  run-IsOrdered [] s d h = h
  run-IsOrdered (e ∷ es) s d h =
      run-IsOrdered es (step collation json_parse e s) d.1 (step-IsOrdered e s d.0 h)

  -- After the cleanup, nothing that arrives changes anything.
  pub step_after_unmount :
      (e : Event) (s : Stream) → s.cancelled ≡ true → step collation json_parse e s ≡ s
  unfolding step load_snapshot on_open on_message
  step_after_unmount (answered (body v)) s h = ground arith
  step_after_unmount (answered unreachable) s h = ground arith
  step_after_unmount (answered bad_status) s h = ground arith
  step_after_unmount (answered bad_body) s h = ground arith
  step_after_unmount opened s h = ground arith
  step_after_unmount (message raw) s h = ground arith
  step_after_unmount failed s h = ground arith
  step_after_unmount unmounted s h = ground arith

  -- While the devices are in the order of their ids, an event for one device moves and changes
  -- no other device.
  pub message_keeps_others :
      (raw : Text) (event : StreamEvent) (s : Stream)
      → IsSorted collation (ids s.devices)
      → parse_stream_event json_parse raw ≡ some event
      → others (event_device event).device_id (step collation json_parse (message raw) s).devices
        ≡ others (event_device event).device_id s.devices
  unfolding step on_message
  message_keeps_others raw event s h e =
      ground (arith, e, others-upsert collation s.devices (event_device event) h)

  step-due :
      (e : Event) (s : Stream) (n : ℕ)
      → is_unmount e ≡ false
      → s.cancelled ≡ false
      → (due (step collation json_parse e s) n ≡ due s (opens_once e + n))
        × ((step collation json_parse e s).cancelled ≡ false)
  unfolding step load_snapshot on_open on_message
  step-due (answered (body v)) s n m h = ground arith
  step-due (answered unreachable) s n m h = ground arith
  step-due (answered bad_status) s n m h = ground arith
  step-due (answered bad_body) s n m h = ground arith
  step-due opened s n m h = ground arith
  step-due (message raw) s n m h = ground arith
  step-due failed s n m h = ground arith
  step-due unmounted s n m h = absurd (cc)

  run-due :
      (es : List Event) (s : Stream)
      → All (λ e. is_unmount e ≡ false) es
      → s.cancelled ≡ false
      → (run collation json_parse es s).requests ≡ due s (opens es)
  unfolding run
  run-due [] s m h = ground arith
  run-due (e ∷ es) s m h =
      let c = step-due e s (opens es) m.0 h in
      run-due es (step collation json_parse e s) m.1 c.1 ∙ c.0

  -- As long as the page is mounted, it asks for the snapshot once before the first opening of
  -- the stream, and once for each opening after the first.
  pub requests_lem :
      (es : List Event)
      → All (λ e. is_unmount e ≡ false) es
      → (run collation json_parse es mounted).requests ≡ 1 + (opens es - 1)
  unfolding mounted
  requests_lem es m = run-due es mounted m refl
