-- ===== src/Wire/Guards.antt =====
-- The runtime guards, conjunct by conjunct.
use cyberstalk_me.Base.{Bool, true, false, ◌&&◌, ◌||◌, Option, some}
use cyberstalk_me.Wire.Json.{
  Json, obj, get, is_string, is_number, is_boolean, is_null, is_undefined, every,
}

-- `typeof value === 'object' && value !== null && !Array.isArray(value)`.
unfoldable pub is_record : Option Json → Bool
is_record (some (obj fields)) = true
is_record _ = false

unfoldable pub is_activity : Option Json → Bool
is_activity v =
    is_record v
    && is_string (get "app" v)
    && is_string (get "description" v)
    && is_boolean (get "idle" v)
    && is_number (get "idle_seconds" v)
    && (is_undefined (get "locked" v) || is_boolean (get "locked" v))

unfoldable pub is_battery : Option Json → Bool
is_battery v =
    is_record v
    && (is_null (get "level" v) || is_number (get "level" v))
    && is_boolean (get "charging" v)

unfoldable pub is_device_state : Option Json → Bool
is_device_state v =
    is_record v
    && is_string (get "device_id" v)
    && is_string (get "device_name" v)
    && is_string (get "device_type" v)
    && is_activity (get "activity" v)
    && (is_null (get "battery" v) || is_battery (get "battery" v))
    && (is_null (get "network" v) || is_string (get "network" v))
    && is_boolean (get "online" v)
    && is_string (get "reported_at" v)
    && is_string (get "last_seen_at" v)

unfoldable pub is_usage_totals : Option Json → Bool
is_usage_totals v =
    is_record v
    && is_number (get "active_seconds" v)
    && is_number (get "idle_seconds" v)
    && is_number (get "locked_seconds" v)

unfoldable pub is_activity_usage : Option Json → Bool
is_activity_usage v = is_record v && is_string (get "description" v) && is_number (get "seconds" v)

unfoldable pub is_app_usage : Option Json → Bool
is_app_usage v =
    is_record v
    && is_string (get "app" v)
    && is_number (get "seconds" v)
    && every is_activity_usage (get "activities" v)

unfoldable pub is_hour_usage : Option Json → Bool
is_hour_usage v =
    is_record v
    && is_number (get "hour" v)
    && is_number (get "seconds" v)
    && is_string (get "top_app" v)

unfoldable pub is_day_usage : Option Json → Bool
is_day_usage v =
    is_record v
    && is_string (get "date" v)
    && is_number (get "seconds" v)
    && is_string (get "top_app" v)

unfoldable pub is_device_usage : Option Json → Bool
is_device_usage v =
    is_record v
    && is_string (get "device_id" v)
    && is_string (get "device_name" v)
    && is_string (get "device_type" v)
    && is_usage_totals (get "totals" v)
    && every is_app_usage (get "apps" v)
    && (is_null (get "hourly" v) || every is_hour_usage (get "hourly" v))
    && (is_null (get "daily" v) || every is_day_usage (get "daily" v))

unfoldable pub is_usage_response : Option Json → Bool
is_usage_response v =
    is_record v
    && is_string (get "window" v)
    && is_string (get "timezone" v)
    && is_string (get "from" v)
    && is_string (get "to" v)
    && every is_device_usage (get "devices" v)
