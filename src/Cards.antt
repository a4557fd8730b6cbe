-- ===== src/Cards.antt =====
-- web/src/components/DeviceCard.tsx, web/src/components/BatteryIndicator.tsx and web/src/App.tsx: what
-- a card says of its device, and which of its views the page shows. Icons and class names are left
-- out.
pub mod Gauge
use cyberstalk_me.Base.{
  ℕ, ◌+◌, ◌/◌, Bool, true, false, not, ◌&&◌, Option, none, some, List, [], ◌∷◌, ◌++◌, Text, codes,
  is_empty, or_text, trim, leb, ltb, show, map, if◌then◌else◌,
}
use cyberstalk_me.Numbers.{ℤ, pos, negsuc, Number, nan, infinity, neg_infinity, finite}
use cyberstalk_me.Wire.Types.{Battery, DeviceState}
use cyberstalk_me.Format.{time_ago, format_idle, network_label, device_type_label}
use cyberstalk_me.Stream.{Stream, ConnectionState, connecting, live, reconnecting}

-- `Math.min(100, Math.max(0, Math.round(level)))`; `none` is NaN. A half is rounded up.
unfoldable pub percent_of : Number → Option ℕ
percent_of nan = none
percent_of infinity = some 100
percent_of neg_infinity = some 0
percent_of (finite (negsuc m)) = some 0
percent_of (finite (pos m)) =
    let rounded = (m + 500) / 1000 in if leb rounded 100 then some rounded else some 100

-- No gauge, or a gauge with its width in percent, and whether it warns.
pub data BatteryView : Type 0 where
  plain : Text → BatteryView
  gauge : (percent : Option ℕ) (low : Bool) (hint : Text) → BatteryView

unfoldable pub battery_view : Option Battery → Option BatteryView
unfolding percent_of
battery_view none = none
battery_view (some battery) = elim battery.level [
  | none ↦ some (plain (if battery.charging then codes "充电中" else codes "电池"))
  | some level ↦
      let hint = if battery.charging then codes "充电中" else codes "未充电" in
      elim (percent_of level) [
        | none ↦ some (gauge none false hint)
        | some percent ↦ some (gauge (some percent) (leb percent 20) hint)
      ]
]

pub record CardView : Type 0 where
  pub dimmed : Bool
  pub title : Text
  pub kind : Text
  pub status : Text
  pub app : Text
  pub description : Option Text
  pub idle : Option Text
  pub battery : Option BatteryView
  pub network : Option Text
  pub last_seen : Text

unfoldable pub device_card : (Text → Option ℤ) → ℤ → DeviceState → CardView
unfolding battery_view trim
device_card date_parse now device =
    let description = trim device.activity.description in
    record {
      dimmed = not device.online;
      title = device.device_name;
      kind = device_type_label device.device_type;
      status = if device.online then codes "在线" else codes "离线";
      app = or_text (trim device.activity.app) (codes "未知应用");
      description = if is_empty description then none else some description;
      idle =
          if device.online && device.activity.idle
          then some (codes "空闲 " ++ format_idle device.activity.idle_seconds)
          else none;
      battery = battery_view device.battery;
      network = elim (network_label device.network) [
        | none ↦ none
        | some network ↦ if is_empty network then none else some network
      ];
      last_seen = codes "最后活跃 " ++ time_ago date_parse device.last_seen_at now;
    }

unfoldable pub connection_label : ConnectionState → Text
connection_label connecting = codes "连接中"
connection_label live = codes "实时"
connection_label reconnecting = codes "重连中"

-- The tab of the devices.
pub data NowView : Type 0 where
  failure : Text → NowView
  loading_grid no_device : NowView
  cards : List CardView → NowView

abbrev pub is_connecting : ConnectionState → Bool
is_connecting connecting = true
is_connecting _ = false

unfoldable pub now_view : (Text → Option ℤ) → ℤ → Stream → NowView
unfolding device_card
now_view date_parse now page = elim page.devices [
  | device ∷ devices ↦ cards (map (device_card date_parse now) (device ∷ devices))
  | [] ↦ elim page.error [
    | some error ↦
        if not (is_empty error)
        then failure error
        else if is_connecting page.connection
        then loading_grid
        else no_device
    | none ↦ if is_connecting page.connection then loading_grid else no_device
  ]
]
