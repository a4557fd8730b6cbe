-- ===== src/Wire/Read.antt =====
-- What the typed code reads after a guard has passed, and the three parsers. `as_…` is the cast
-- `value as …`: each field is read by its key, and a value that the guard refuses is never cast.
use cyberstalk_me.Base.{
  Bool, false, not, ◌&&◌, Option, none, some, List, [], map, Text, codes, text_eq, all,
  if◌then◌else◌,
}
use cyberstalk_me.Numbers.{Number, nan}
use cyberstalk_me.Wire.Json.{Json, null, bool, num, str, arr, elems, get}
use cyberstalk_me.Wire.Types.{
  Activity, Battery, DeviceState, StreamEvent, update, offline, UsageTotals, ActivityUsage,
  AppUsage, HourUsage, DayUsage, DeviceUsage, UsageResponse,
}
use cyberstalk_me.Wire.Guards.{is_record, is_device_state, is_usage_response}

abbrev pub as_text : Option Json → Text
as_text (some (str s)) = s
as_text _ = []

abbrev pub as_number : Option Json → Number
as_number (some (num n)) = n
as_number _ = nan

abbrev pub as_bool : Option Json → Bool
as_bool (some (bool b)) = b
as_bool _ = false

-- A key that may be missing, and a value that may be null.
abbrev pub if_defined {ℓ} : {A : Type ℓ} → (Option Json → A) → Option Json → Option A
if_defined read none = none
if_defined read (some v) = some (read (some v))

abbrev pub if_not_null {ℓ} : {A : Type ℓ} → (Option Json → A) → Option Json → Option A
if_not_null read (some null) = none
if_not_null read v = some (read v)

abbrev pub as_list {ℓ} : {A : Type ℓ} → (Option Json → A) → Option Json → List A
as_list read (some (arr vs)) = map (λ v. read (some v)) (elems vs)
as_list read _ = []

abbrev pub as_activity : Option Json → Activity
as_activity v = record {
  app = as_text (get "app" v);
  description = as_text (get "description" v);
  idle = as_bool (get "idle" v);
  idle_seconds = as_number (get "idle_seconds" v);
  locked = if_defined as_bool (get "locked" v);
}

abbrev pub as_battery : Option Json → Battery
as_battery v = record {
  level = if_not_null as_number (get "level" v);
  charging = as_bool (get "charging" v);
}

abbrev pub as_device_state : Option Json → DeviceState
as_device_state v = record {
  device_id = as_text (get "device_id" v);
  device_name = as_text (get "device_name" v);
  device_type = as_text (get "device_type" v);
  activity = as_activity (get "activity" v);
  battery = if_not_null as_battery (get "battery" v);
  network = if_not_null as_text (get "network" v);
  online = as_bool (get "online" v);
  reported_at = as_text (get "reported_at" v);
  last_seen_at = as_text (get "last_seen_at" v);
}

abbrev pub as_usage_totals : Option Json → UsageTotals
as_usage_totals v = record {
  active_seconds = as_number (get "active_seconds" v);
  idle_seconds = as_number (get "idle_seconds" v);
  locked_seconds = as_number (get "locked_seconds" v);
}

abbrev pub as_activity_usage : Option Json → ActivityUsage
as_activity_usage v = record {
  description = as_text (get "description" v);
  seconds = as_number (get "seconds" v);
}

abbrev pub as_app_usage : Option Json → AppUsage
as_app_usage v = record {
  app = as_text (get "app" v);
  seconds = as_number (get "seconds" v);
  activities = as_list as_activity_usage (get "activities" v);
}

abbrev pub as_hour_usage : Option Json → HourUsage
as_hour_usage v = record {
  hour = as_number (get "hour" v);
  seconds = as_number (get "seconds" v);
  top_app = as_text (get "top_app" v);
}

abbrev pub as_day_usage : Option Json → DayUsage
as_day_usage v = record {
  date = as_text (get "date" v);
  seconds = as_number (get "seconds" v);
  top_app = as_text (get "top_app" v);
}

abbrev pub as_device_usage : Option Json → DeviceUsage
as_device_usage v = record {
  device_id = as_text (get "device_id" v);
  device_name = as_text (get "device_name" v);
  device_type = as_text (get "device_type" v);
  totals = as_usage_totals (get "totals" v);
  apps = as_list as_app_usage (get "apps" v);
  hourly = if_not_null (as_list as_hour_usage) (get "hourly" v);
  daily = if_not_null (as_list as_day_usage) (get "daily" v);
}

abbrev pub as_usage_response : Option Json → UsageResponse
as_usage_response v = record {
  window = as_text (get "window" v);
  timezone = as_text (get "timezone" v);
  from = as_text (get "from" v);
  to = as_text (get "to" v);
  devices = as_list as_device_usage (get "devices" v);
}

-- `parseSnapshot`: null unless the value is an array of devices.
unfoldable pub parse_snapshot : Json → Option (List DeviceState)
parse_snapshot (arr vs) =
    if all (λ v. is_device_state (some v)) (elems vs)
    then some (as_list as_device_state (some (arr vs)))
    else none
parse_snapshot _ = none

unfoldable pub parse_usage : Json → Option UsageResponse
parse_usage v = if is_usage_response (some v) then some (as_usage_response (some v)) else none

-- `data.type === '…'`.
abbrev pub text_is : Option Json → Text → Bool
text_is (some (str s)) t = text_eq s t
text_is _ t = false

-- `parseStreamEvent`, with `JSON.parse` as a parameter, whose `none` is that it throws; and the
-- tests that follow it.
unfoldable pub event_from : Option Json → Option StreamEvent
event_from payload =
    let is_update = text_is (get "type" payload) (codes "update") in
    let device = get "device" payload in
    if not (is_record payload)
    then none
    else if not is_update && not (text_is (get "type" payload) (codes "offline"))
    then none
    else if not (is_device_state device)
    then none
    else some
        (if is_update then update (as_device_state device) else offline (as_device_state device))

unfoldable pub parse_stream_event : (Text → Option Json) → Text → Option StreamEvent
unfolding event_from
parse_stream_event json_parse raw = elim (json_parse raw) [
  | none ↦ none
  | some payload ↦ event_from (some payload)
]
