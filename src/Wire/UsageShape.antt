-- ===== src/Wire/UsageShape.antt =====
-- The shape of a usage payload, key by key, and what each guard of it says of the value that it
-- accepts.
use cyberstalk_me.Base.{◌≡◌, refl, Bool, true, Option, none, some, List, [], ◌∷◌, map, all, arith}
use cyberstalk_me.Wire.Json.{Json, null, bool, num, str, arr, obj, Items, elems, get, every}
use cyberstalk_me.Wire.Types.{
  UsageTotals, ActivityUsage, AppUsage, HourUsage, DayUsage, DeviceUsage, UsageResponse,
}
use cyberstalk_me.Wire.Guards.{
  is_record, is_usage_totals, is_activity_usage, is_app_usage, is_hour_usage, is_day_usage,
  is_device_usage, is_usage_response,
}
use cyberstalk_me.Wire.Read.{
  as_list, as_usage_totals, as_activity_usage, as_app_usage, as_hour_usage, as_day_usage,
  as_device_usage, as_usage_response,
}
use cyberstalk_me.Wire.Shape.{
  IsText, IsNumber, Nullable, as_text-IsText, as_number-IsNumber, if_not_null-Nullable,
}

-- Values that stand in a relation to those of another list, one by one; an array of such values.
pub data Each {A : Type 0} (R : Option Json → A → Type 0) : List Json → List A → Type 0 where
  no_value : Each R [] []
  next_value :
      {v : Json} {vs : List Json} {a : A} {xs : List A}
      → R (some v) a
      → Each R vs xs
      → Each R (v ∷ vs) (a ∷ xs)

abbrev pub IsArray : {A : Type 0} → (Option Json → A → Type 0) → Option Json → List A → Type 0
IsArray R v xs = (vs : Items) × (v ≡ some (arr vs)) × Each R (elems vs) xs

pub record IsTotals (v : Option Json) (t : UsageTotals) : Type 0 where
  pub object : is_record v ≡ true
  pub active_seconds : IsNumber (get "active_seconds" v) t.active_seconds
  pub idle_seconds : IsNumber (get "idle_seconds" v) t.idle_seconds
  pub locked_seconds : IsNumber (get "locked_seconds" v) t.locked_seconds

pub record IsDescribed (v : Option Json) (a : ActivityUsage) : Type 0 where
  pub object : is_record v ≡ true
  pub description : IsText (get "description" v) a.description
  pub seconds : IsNumber (get "seconds" v) a.seconds

pub record IsApp (v : Option Json) (a : AppUsage) : Type 0 where
  pub object : is_record v ≡ true
  pub app : IsText (get "app" v) a.app
  pub seconds : IsNumber (get "seconds" v) a.seconds
  pub activities : IsArray IsDescribed (get "activities" v) a.activities

pub record IsHour (v : Option Json) (h : HourUsage) : Type 0 where
  pub object : is_record v ≡ true
  pub hour : IsNumber (get "hour" v) h.hour
  pub seconds : IsNumber (get "seconds" v) h.seconds
  pub top_app : IsText (get "top_app" v) h.top_app

pub record IsDay (v : Option Json) (d : DayUsage) : Type 0 where
  pub object : is_record v ≡ true
  pub date : IsText (get "date" v) d.date
  pub seconds : IsNumber (get "seconds" v) d.seconds
  pub top_app : IsText (get "top_app" v) d.top_app

pub record IsUsedDevice (v : Option Json) (d : DeviceUsage) : Type 0 where
  pub object : is_record v ≡ true
  pub device_id : IsText (get "device_id" v) d.device_id
  pub device_name : IsText (get "device_name" v) d.device_name
  pub device_type : IsText (get "device_type" v) d.device_type
  pub totals : IsTotals (get "totals" v) d.totals
  pub apps : IsArray IsApp (get "apps" v) d.apps
  pub hourly : Nullable (IsArray IsHour) (get "hourly" v) d.hourly
  pub daily : Nullable (IsArray IsDay) (get "daily" v) d.daily

pub record IsUsage (v : Option Json) (u : UsageResponse) : Type 0 where
  pub object : is_record v ≡ true
  pub window : IsText (get "window" v) u.window
  pub timezone : IsText (get "timezone" v) u.timezone
  pub from : IsText (get "from" v) u.from
  pub to : IsText (get "to" v) u.to
  pub devices : IsArray IsUsedDevice (get "devices" v) u.devices

module _ {A : Type 0} (R : Option Json → A → Type 0) (read : Option Json → A)
    (guard : Option Json → Bool) (sound : (v : Option Json) → guard v ≡ true → R v (read v)) where
  all-Each :
      (vs : List Json)
      → all (λ v. guard (some v)) vs ≡ true
      → Each R vs (map (λ v. read (some v)) vs)
  all-Each [] h = no_value
  all-Each (v ∷ vs) h = next_value (sound (some v) (ground arith)) (all-Each vs (ground arith))

  every-IsArray : (v : Option Json) → every guard v ≡ true → IsArray R v (as_list read v)
  every-IsArray none h = absurd (cc)
  every-IsArray (some null) h = absurd (cc)
  every-IsArray (some (bool _)) h = absurd (cc)
  every-IsArray (some (num _)) h = absurd (cc)
  every-IsArray (some (str _)) h = absurd (cc)
  every-IsArray (some (obj _)) h = absurd (cc)
  every-IsArray (some (arr vs)) h = (vs, refl, all-Each (elems vs) h)

as_usage_totals-IsTotals :
    (v : Option Json) → is_usage_totals v ≡ true → IsTotals v (as_usage_totals v)
unfolding is_usage_totals
as_usage_totals-IsTotals v h = record {
  object = ground arith;
  active_seconds = as_number-IsNumber _ (ground arith);
  idle_seconds = as_number-IsNumber _ (ground arith);
  locked_seconds = as_number-IsNumber _ (ground arith);
}

as_activity_usage-IsDescribed :
    (v : Option Json) → is_activity_usage v ≡ true → IsDescribed v (as_activity_usage v)
unfolding is_activity_usage
as_activity_usage-IsDescribed v h = record {
  object = ground arith;
  description = as_text-IsText _ (ground arith);
  seconds = as_number-IsNumber _ (ground arith);
}

as_app_usage-IsApp : (v : Option Json) → is_app_usage v ≡ true → IsApp v (as_app_usage v)
unfolding is_app_usage
as_app_usage-IsApp v h = record {
  object = ground arith;
  app = as_text-IsText _ (ground arith);
  seconds = as_number-IsNumber _ (ground arith);
  activities =
      every-IsArray IsDescribed as_activity_usage is_activity_usage as_activity_usage-IsDescribed _
        (ground arith);
}

as_hour_usage-IsHour : (v : Option Json) → is_hour_usage v ≡ true → IsHour v (as_hour_usage v)
unfolding is_hour_usage
as_hour_usage-IsHour v h = record {
  object = ground arith;
  hour = as_number-IsNumber _ (ground arith);
  seconds = as_number-IsNumber _ (ground arith);
  top_app = as_text-IsText _ (ground arith);
}

as_day_usage-IsDay : (v : Option Json) → is_day_usage v ≡ true → IsDay v (as_day_usage v)
unfolding is_day_usage
as_day_usage-IsDay v h = record {
  object = ground arith;
  date = as_text-IsText _ (ground arith);
  seconds = as_number-IsNumber _ (ground arith);
  top_app = as_text-IsText _ (ground arith);
}

as_device_usage-IsUsedDevice :
    (v : Option Json) → is_device_usage v ≡ true → IsUsedDevice v (as_device_usage v)
unfolding is_device_usage
as_device_usage-IsUsedDevice v h =
    let hours = every-IsArray IsHour as_hour_usage is_hour_usage as_hour_usage-IsHour in
    let days = every-IsArray IsDay as_day_usage is_day_usage as_day_usage-IsDay in
    record {
      object = ground arith;
      device_id = as_text-IsText _ (ground arith);
      device_name = as_text-IsText _ (ground arith);
      device_type = as_text-IsText _ (ground arith);
      totals = as_usage_totals-IsTotals _ (ground arith);
      apps = every-IsArray IsApp as_app_usage is_app_usage as_app_usage-IsApp _ (ground arith);
      hourly =
          if_not_null-Nullable (IsArray IsHour) (as_list as_hour_usage) (every is_hour_usage) hours
            _ (ground arith);
      daily =
          if_not_null-Nullable (IsArray IsDay) (as_list as_day_usage) (every is_day_usage) days _
            (ground arith);
    }

pub as_usage_response-IsUsage :
    (v : Option Json) → is_usage_response v ≡ true → IsUsage v (as_usage_response v)
unfolding is_usage_response
as_usage_response-IsUsage v h = record {
  object = ground arith;
  window = as_text-IsText _ (ground arith);
  timezone = as_text-IsText _ (ground arith);
  from = as_text-IsText _ (ground arith);
  to = as_text-IsText _ (ground arith);
  devices =
      every-IsArray IsUsedDevice as_device_usage is_device_usage as_device_usage-IsUsedDevice _
        (ground arith);
}
