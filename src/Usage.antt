-- ===== src/Usage.antt =====
-- web/src/hooks/useUsage.ts, web/src/lib/usage.ts and the usage components: the statistics of one
-- window, from the request to the bars.
pub mod Share
pub mod Bars
pub mod Requests
pub mod Charts
pub mod Panel
pub mod Selection
use cyberstalk_me.Base.{
  ℕ, Bool, true, false, not, ◌&&◌, Option, none, some, List, [], ◌∷◌, ◌++◌, Text, codes, text_eq,
  get_elem?, if◌then◌else◌,
}
use cyberstalk_me.Wire.Json.{Json}
use cyberstalk_me.Wire.Types.{UsageResponse}
use cyberstalk_me.Wire.Read.{parse_usage}

pub data UsageWindow : Type 0 where
  today last_7d last_30d : UsageWindow

unfoldable pub window_value : UsageWindow → Text
window_value today = codes "today"
window_value last_7d = codes "7d"
window_value last_30d = codes "30d"

-- What the hook returns.
pub record Shown : Type 0 where
  pub payload : Option UsageResponse
  pub loading : Bool
  pub error : Option Text

-- One run of the effect: its window, and its `cancelled` flag with the controller that is aborted
-- along with it.
pub record Run : Type 0 where
  pub usage_window : UsageWindow
  pub cancelled : Bool

-- The runs so far, the latest one apart: the earlier ones have been cleaned up.
pub record Usage : Type 0 where
  pub shown : Shown
  pub earlier : List Run
  pub latest : Run

pub data Answer : Type 0 where
  unreachable bad_status bad_body : Answer
  body : Json → Answer

abbrev pub cancel : Run → Run
cancel r = record r { cancelled = true }

-- What an effect run sets before it requests.
unfoldable pub begin_load : Shown → Shown
begin_load prev = record { payload = prev.payload; loading = true; error = none }

-- The rest of `load`, from the `await`s on, with what it sets.
unfoldable pub settle : Answer → Shown
settle (body v) = elim (parse_usage v) [
  | none ↦ record { payload = none; loading = false; error = some (codes "统计数据格式异常") }
  | some parsed ↦ record { payload = some parsed; loading = false; error = none }
]
settle _ = record { payload = none; loading = false; error = some (codes "拉取使用时间统计失败") }

unfoldable pub load : Run → Answer → Shown → Shown
unfolding settle
load run answer shown = if run.cancelled then shown else settle answer

-- The hook on its first render.
unfoldable pub mounted : Usage
unfolding begin_load
mounted = record {
  shown = begin_load (record { payload = none; loading = true; error = none });
  earlier = [];
  latest = record { usage_window = today; cancelled = false };
}

pub data Event : Type 0 where
  selected : UsageWindow → Event
  earlier_answered : ℕ → Answer → Event
  latest_answered : Answer → Event
  unmounted : Event

-- `[usageWindow]`: the effect runs again only for another window.
unfoldable pub same_window : UsageWindow → UsageWindow → Bool
unfolding window_value
same_window a b = text_eq (window_value a) (window_value b)

unfoldable pub select : UsageWindow → Usage → Usage
unfolding same_window begin_load
select w u = if same_window w u.latest.usage_window then u else record {
  shown = begin_load u.shown;
  earlier = u.earlier ++ cancel u.latest ∷ [];
  latest = record { usage_window = w; cancelled = false };
}

-- One event. Nothing is selected on an unmounted page, whose latest run is cancelled.
unfoldable pub step : Event → Usage → Usage
unfolding select load
step (selected w) u = if u.latest.cancelled then u else select w u
step (earlier_answered i answer) u = elim (get_elem? u.earlier i) [
  | none ↦ u
  | some run ↦ record u { shown = load run answer u.shown }
]
step (latest_answered answer) u = record u { shown = load u.latest answer u.shown }
step unmounted u = record u { latest = cancel u.latest }

unfoldable pub run : List Event → Usage → Usage
unfolding step
run [] u = u
run (e ∷ es) u = run es (step e u)
