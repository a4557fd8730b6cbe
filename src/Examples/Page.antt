-- ===== src/Examples/Page.antt =====
-- The public page: one device in a snapshot, and the events after it.
use cyberstalk_me.Base.{
  ◌≡◌, refl, ap, ◌↔◌, true, false, Option, some, none, List, [], ◌∷◌, Text, codes, text_eq,
  text_eq-false, subst, map,
}
use cyberstalk_me.Numbers.{whole}
use cyberstalk_me.Wire.Json.{
  Json, null, bool, num, str, arr, obj, Items, nil, cons, end, field, elems,
}
use cyberstalk_me.Wire.Types.{DeviceState, update}
use cyberstalk_me.Wire.Guards.{is_record, is_activity, is_battery, is_device_state}
use cyberstalk_me.Wire.Read.{as_device_state, parse_snapshot, event_from, parse_stream_event}
use cyberstalk_me.Wire.Parsers.{AreDevices, parse_snapshot_iff}
use cyberstalk_me.Stream.Order.{code_units}
use cyberstalk_me.Stream.{
  Stream, Event, answered, opened, message, failed, unmounted, body, step, run, mounted,
}
use cyberstalk_me.Stream.Sorting.{AreDistinct}
use cyberstalk_me.Stream.Lookup.{device_with}
use cyberstalk_me.Stream.Step.{
  step-refines, IsOrdered, IsSnapshot, run-IsOrdered, abstract_step, view_of,
}

abbrev activity_json : Json
activity_json = obj (
    field "app" (str (codes "VSCode")) (
      field "description" (str (codes "写代码"))
        (field "idle" (bool false) (field "idle_seconds" (num (whole 3)) end))))

abbrev device_json : Text → Json
device_json id = obj (
    field "device_id" (str id) (
      field "device_name" (str (codes "台式机")) (
        field "device_type" (str (codes "windows")) (
          field "activity" activity_json (
            field "battery" null (
              field "network" (str (codes "wifi")) (
                field "online" (bool true) (
                  field "reported_at" (str (codes "2026-07-30T12:00:00Z"))
                    (field "last_seen_at" (str (codes "2026-07-30T12:00:00Z")) end)))))))))

abbrev device : Text → DeviceState
device id = as_device_state (some (device_json id))

abbrev event_json : Json
event_json =
    obj (field "type" (str (codes "update")) (field "device" (device_json (codes "b")) end))

-- A reader that knows one message.
abbrev json_parse : Text → Option Json
json_parse [] = none
json_parse (_ ∷ _) = some event_json

abbrev pub two_devices : Items
two_devices = cons (device_json (codes "b")) (cons (device_json (codes "a")) nil)

snapshot_runs :
    parse_snapshot (arr two_devices) ≡ some (device (codes "b") ∷ device (codes "a") ∷ [])
unfolding parse_snapshot is_device_state is_activity is_battery is_record
snapshot_runs = refl

event_runs : parse_stream_event json_parse (codes "x") ≡ some (update (device (codes "b")))
unfolding parse_stream_event event_from is_device_state is_activity is_battery is_record text_eq
event_runs = refl

parse_snapshot_iff_example :
    (parse_snapshot (arr two_devices) ≡ some (device (codes "b") ∷ device (codes "a") ∷ [])) ↔ (
      (vs : Items) × (arr two_devices ≡ arr vs)
      × AreDevices (elems vs) (device (codes "b") ∷ device (codes "a") ∷ []))
parse_snapshot_iff_example =
    parse_snapshot_iff (arr two_devices) (device (codes "b") ∷ device (codes "a") ∷ [])

abbrev history : List Event
history = opened ∷ answered (body (arr two_devices)) ∷ failed ∷ opened ∷ message (codes "x") ∷ []

distinct : AreDistinct (codes "b" ∷ codes "a" ∷ [])
unfolding text_eq
distinct = ((text_eq-false (codes "b") (codes "a") refl, tt), (tt, tt))

step-refines_example :
    device_with (codes "a") (step code_units json_parse (message (codes "x")) mounted).devices
    ≡ abstract_step json_parse (message (codes "x")) (view_of []) (codes "a")
unfolding mounted
step-refines_example =
    step-refines code_units json_parse (message (codes "x")) mounted (codes "a") refl

pub snapshot_distinct :
    (ds : List DeviceState)
    → IsSnapshot (answered (body (arr two_devices))) ds
    → AreDistinct (map (λ d. d.device_id) ds)
unfolding parse_snapshot is_device_state is_activity is_battery is_record
snapshot_distinct ds h =
    let same : some (device (codes "b") ∷ device (codes "a") ∷ []) ≡ some ds = h in
    subst (λ es. AreDistinct (map (λ d. d.device_id) es))
      (ap (λ o. elim o [ none ↦ [] | some es ↦ es ]) same) distinct

run-IsOrdered_example : IsOrdered code_units (run code_units json_parse history mounted).devices
unfolding mounted
run-IsOrdered_example =
    run-IsOrdered code_units json_parse history mounted
      (
        λ ds h. absurd h,
        (snapshot_distinct, (λ ds h. absurd h, (λ ds h. absurd h, (λ ds h. absurd h, tt)))),
      )
      (tt, tt)

abbrev left : Stream
left = step code_units json_parse unmounted mounted

left_is_cancelled : left.cancelled ≡ true
unfolding step mounted
left_is_cancelled = refl
