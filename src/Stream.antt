-- ===== src/Stream.antt =====
-- web/src/hooks/useDeviceStream.ts: the devices of the public page, fed by one snapshot request
-- and one event stream.
pub mod Order
pub mod Sorting
pub mod Lookup
pub mod Step
use cyberstalk_me.Base.{
  ℕ, ◌+◌, Bool, true, false, not, ◌||◌, Option, none, some, List, [], ◌∷◌, ◌++◌, Text, codes,
  text_eq, modify, find_index, if◌then◌else◌,
}
use cyberstalk_me.Wire.Json.{Json}
use cyberstalk_me.Wire.Types.{DeviceState, StreamEvent, update, offline}
use cyberstalk_me.Wire.Read.{parse_snapshot, parse_stream_event}
use cyberstalk_me.Stream.Order.{Collation}

pub data ConnectionState : Type 0 where
  connecting live reconnecting : ConnectionState

-- `requests` counts the calls of `loadSnapshot`. `cancelled` stands for the flag, the aborted
-- controller and the closed event source, which the cleanup sets together.
pub record Stream : Type 0 where
  pub devices : List DeviceState
  pub connection : ConnectionState
  pub error : Option Text
  pub connected_once : Bool
  pub cancelled : Bool
  pub requests : ℕ

-- What becomes of a request: `fetch` rejects, the status is not a success, the body is no JSON, or
-- the body is a value.
pub data Answer : Type 0 where
  unreachable bad_status bad_body : Answer
  body : Json → Answer

pub data Event : Type 0 where
  answered : Answer → Event
  opened : Event
  message : Text → Event
  failed : Event
  unmounted : Event

abbrev pub same_id : Text → DeviceState → Bool
same_id id d = text_eq d.device_id id

abbrev pub event_device : StreamEvent → DeviceState
event_device (update d) = d
event_device (offline d) = d

module _ (collation : Collation) where
  -- `a.localeCompare(b) <= 0` of the two ids, for `byDeviceId`.
  abbrev pub by_device_id : DeviceState → DeviceState → Bool
  by_device_id a b = collation.le a.device_id b.device_id

  -- `Array.prototype.sort`, which is stable: an element goes before the first that it is not after.
  unfoldable pub insert : DeviceState → List DeviceState → List DeviceState
  insert d [] = d ∷ []
  insert d (e ∷ es) = let rest = insert d es in if by_device_id d e then d ∷ e ∷ es else e ∷ rest

  unfoldable pub sort : List DeviceState → List DeviceState
  unfolding insert
  sort [] = []
  sort (d ∷ ds) = insert d (sort ds)

  unfoldable pub upsert : List DeviceState → DeviceState → List DeviceState
  unfolding sort
  upsert devices next = elim (find_index (same_id next.device_id) devices) [
    | none ↦ sort (devices ++ next ∷ [])
    | some index ↦ modify devices index (λ _. next)
  ]

  -- The rest of `loadSnapshot`, from the `await`s on.
  unfoldable pub load_snapshot : Answer → Stream → Stream
  unfolding sort
  load_snapshot (body v) s = if s.cancelled then s else elim (parse_snapshot v) [
    | none ↦ s
    | some parsed ↦ record s { devices = sort parsed; error = none }
  ]
  load_snapshot _ s = if s.cancelled then s else record s { error = some (codes "拉取设备快照失败") }

  -- `source.onopen`.
  unfoldable pub on_open : Stream → Stream
  on_open s = record s {
    connection = live;
    error = none;
    connected_once = true;
    requests = s.requests + (if s.connected_once then 1 else 0);
  }

  -- `source.onmessage`, with `JSON.parse` as a parameter.
  unfoldable pub on_message : (Text → Option Json) → Text → Stream → Stream
  unfolding upsert
  on_message json_parse raw s = elim (parse_stream_event json_parse raw) [
    | none ↦ s
    | some parsed ↦ record s { devices = upsert s.devices (event_device parsed) }
  ]

  -- One event. A closed event source sends nothing.
  unfoldable pub step : (Text → Option Json) → Event → Stream → Stream
  unfolding load_snapshot on_open on_message
  step json_parse (answered a) s = load_snapshot a s
  step json_parse opened s = if s.cancelled then s else on_open s
  step json_parse (message raw) s = if s.cancelled then s else on_message json_parse raw s
  step json_parse failed s = if s.cancelled then s else record s { connection = reconnecting }
  step json_parse unmounted s = record s { cancelled = true }

  unfoldable pub run : (Text → Option Json) → List Event → Stream → Stream
  unfolding step
  run json_parse [] s = s
  run json_parse (e ∷ es) s = run json_parse es (step json_parse e s)

-- The page as mounted: no device yet, and the first request sent.
unfoldable pub mounted : Stream
mounted = record {
  devices = [];
  connection = connecting;
  error = none;
  connected_once = false;
  cancelled = false;
  requests = 1;
}
