-- ===== src/Wire/Types.antt =====
-- The payload types. The guards do not check the string unions, so those fields are any text.
use cyberstalk_me.Base.{Bool, Option, List, Text}
use cyberstalk_me.Numbers.{Number}

pub record Activity : Type 0 where
  pub app : Text
  pub description : Text
  pub idle : Bool
  pub idle_seconds : Number
  pub locked : Option Bool

pub record Battery : Type 0 where
  pub level : Option Number
  pub charging : Bool

pub record DeviceState : Type 0 where
  pub device_id : Text
  pub device_name : Text
  pub device_type : Text
  pub activity : Activity
  pub battery : Option Battery
  pub network : Option Text
  pub online : Bool
  pub reported_at : Text
  pub last_seen_at : Text

pub data StreamEvent : Type 0 where
  update offline : DeviceState → StreamEvent

pub record UsageTotals : Type 0 where
  pub active_seconds : Number
  pub idle_seconds : Number
  pub locked_seconds : Number

pub record ActivityUsage : Type 0 where
  pub description : Text
  pub seconds : Number

pub record AppUsage : Type 0 where
  pub app : Text
  pub seconds : Number
  pub activities : List ActivityUsage

pub record HourUsage : Type 0 where
  pub hour : Number
  pub seconds : Number
  pub top_app : Text

pub record DayUsage : Type 0 where
  pub date : Text
  pub seconds : Number
  pub top_app : Text

pub record DeviceUsage : Type 0 where
  pub device_id : Text
  pub device_name : Text
  pub device_type : Text
  pub totals : UsageTotals
  pub apps : List AppUsage
  pub hourly : Option (List HourUsage)
  pub daily : Option (List DayUsage)

pub record UsageResponse : Type 0 where
  pub window : Text
  pub timezone : Text
  pub from : Text
  pub to : Text
  pub devices : List DeviceUsage
