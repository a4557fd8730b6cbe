-- ===== src/Usage/Panel.antt =====
-- web/src/components/UsagePanel.tsx: what the usage tab shows and how its controls change it. Icons,
-- class names and the keys of list elements are left out.
use cyberstalk_me.Base.{
  ℕ, suc, ◌+◌, ◌%◌, Bool, false, ◌||◌, Option, none, some, List, [], ◌∷◌, ◌++◌, map, Text, codes,
  text_eq, is_empty, find, length, leb, ◌==◌, if◌then◌else◌,
}
use cyberstalk_me.Numbers.{pos, negsuc, Number, finite, add, max_zero}
use cyberstalk_me.Format.{format_hour, format_day, device_type_label}
use cyberstalk_me.Wire.Types.{HourUsage, DayUsage, DeviceUsage, UsageResponse}
use cyberstalk_me.Usage.{UsageWindow, today, last_7d, last_30d, window_value, Shown}
use cyberstalk_me.Usage.Charts.{
  Slice, usage_totals, UsageChartSlot, Bar, usage_chart, AppRow, app_rows,
}

-- UsagePanel.
abbrev windows : List (UsageWindow × Text)
windows = (today, codes "今日") ∷ (last_7d, codes "近 7 天") ∷ (last_30d, codes "近 30 天") ∷ []

abbrev pub find_window : Text → Option (UsageWindow × Text)
find_window value = find (λ w. text_eq (window_value w.0) value) windows

-- `selectWindow`: the window to set, if any.
unfoldable pub select_window : Text → Option UsageWindow
unfolding window_value
select_window value = elim (find_window value) [ none ↦ none | some w ↦ some w.0 ]

-- The change of the device toggle.
unfoldable pub select_device : Text → Option Text → Option Text
select_device value device_id = if is_empty value then device_id else some value

-- `device`: the one picked, or else the first.
unfoldable pub selected_device : Option Text → List DeviceUsage → Option DeviceUsage
selected_device device_id [] = none
selected_device none (d ∷ ds) = some d
selected_device (some id) (d ∷ ds) = elim (find (λ e. text_eq e.device_id id) (d ∷ ds)) [
  | none ↦ some d
  | some e ↦ some e
]

-- `hour % 6 === 0`.
abbrev pub every_sixth : Number → Bool
every_sixth (finite (pos m)) = m % 6000 == 0
every_sixth (finite (negsuc m)) = suc m % 6000 == 0
every_sixth _ = false

abbrev hour_slot : HourUsage → UsageChartSlot
hour_slot slot = record {
  label = format_hour slot.hour;
  seconds = slot.seconds;
  top_app = slot.top_app;
  tick = every_sixth slot.hour;
}

-- The slots of the days, from one index on, of `count` days.
abbrev pub day_slots : ℕ → ℕ → List DayUsage → List UsageChartSlot
day_slots count index [] = []
day_slots count index (slot ∷ slots) =
    record {
      label = format_day slot.date;
      seconds = slot.seconds;
      top_app = slot.top_app;
      tick = leb count 7 || (index % 5 == 0) || (index + 1 == count);
    }
    ∷ day_slots count (index + 1) slots

unfoldable pub chart_slots : DeviceUsage → List UsageChartSlot
chart_slots device = elim device.hourly [
  | some hourly ↦ map hour_slot hourly
  | none ↦ elim device.daily [ none ↦ [] | some daily ↦ day_slots (length daily) 0 daily ]
]

unfoldable pub window_label : Option UsageResponse → Text
unfolding window_value
window_label none = codes "这段时间"
window_label (some payload) = elim (find_window payload.window) [
  | none ↦ codes "这段时间"
  | some w ↦ w.1
]

-- What stands under the controls.
pub data PanelView : Type 0 where
  skeleton : PanelView
  notice : Text → PanelView
  no_record : (title description text : Text) → PanelView
  statistics :
      (title description : Text)
      → List Slice
      → List AppRow
      → Option (Text × Text × List Bar)
      → PanelView

abbrev pub devices_of : Option UsageResponse → List DeviceUsage
devices_of none = []
devices_of (some payload) = payload.devices

abbrev is_zero : Number → Bool
is_zero (finite (pos m)) = m == 0
is_zero _ = false

abbrev chart_view : UsageResponse → DeviceUsage → Option (Text × Text × List Bar)
chart_view payload device = elim (chart_slots device) [
  | [] ↦ none
  | slot ∷ slots ↦ some (
    codes "按 "
        ++ payload.timezone
        ++ (elim device.hourly [ some _ ↦ codes " 的本地小时划分" | none ↦ codes " 的本地日期划分" ]),
    (usage_chart (slot ∷ slots)).0,
    (usage_chart (slot ∷ slots)).1,
  )
]

-- `totalSeconds`.
unfoldable pub total_seconds : DeviceUsage → Number
unfolding add max_zero
total_seconds device =
    add (add (max_zero device.totals.active_seconds) (max_zero device.totals.idle_seconds))
      (max_zero device.totals.locked_seconds)

-- No rows stand for the line that no app was active.
unfoldable pub device_view : Bool → UsageResponse → DeviceUsage → PanelView
unfolding window_label total_seconds usage_totals app_rows chart_slots usage_chart device_type_label
device_view show_all payload device =
    let label = window_label (some payload) in
    let description = device_type_label device.device_type ++ codes " · " ++ label in
    if is_zero (total_seconds device)
    then no_record device.device_name description
        (label ++ codes "内这台设备没有任何记录。功能上线前的时间没有统计数据，长窗口在初期只会有一部分。")
    else statistics device.device_name description (usage_totals device.totals)
        (app_rows show_all device.apps) (chart_view payload device)

unfoldable pub panel_view : Bool → Option Text → Shown → PanelView
unfolding device_view selected_device
panel_view show_all device_id shown = elim shown.payload [
  | none ↦
      if shown.loading
      then skeleton
      else notice (elim shown.error [ none ↦ codes "拉取使用时间统计失败" | some error ↦ error ])
  | some payload ↦ elim shown.error [
    | some error ↦ notice error
    | none ↦ elim (selected_device device_id payload.devices) [
      | none ↦ notice (codes "还没有设备上报过。启动任意一台设备上的采集客户端，它就会出现在这里。")
      | some device ↦ device_view show_all payload device
    ]
  ]
]
