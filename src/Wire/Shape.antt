-- ===== src/Wire/Shape.antt =====
-- When a JSON value has the shape of a typed payload: key by key, with nothing said of other keys.
use cyberstalk_me.Base.{
  ◌≡◌, refl, ◌≢◌, Bool, true, false, ◌&&◌, ◌||◌, Option, none, some, List, [], ◌∷◌, Text, All,
  arith,
}
use cyberstalk_me.Numbers.{Number}
use cyberstalk_me.Wire.Json.{
  Json, null, bool, num, str, arr, obj, get, is_string, is_number, is_boolean, is_null,
  is_undefined,
}
use cyberstalk_me.Wire.Types.{Activity, Battery, DeviceState}
use cyberstalk_me.Wire.Guards.{is_record, is_activity, is_battery, is_device_state}
use cyberstalk_me.Wire.Read.{
  as_text, as_number, as_bool, if_defined, if_not_null, as_activity, as_battery, as_device_state,
}

abbrev pub IsText : Option Json → Text → Type 0
IsText v s = v ≡ some (str s)

abbrev pub IsNumber : Option Json → Number → Type 0
IsNumber v n = v ≡ some (num n)

abbrev pub IsBoolean : Option Json → Bool → Type 0
IsBoolean v b = v ≡ some (bool b)

-- A key that holds null or a value of the type; one that is missing or holds a value of the type.
pub data Nullable {A : Type 0} (R : Option Json → A → Type 0)
    : Option Json → Option A → Type 0 where
  is_null_value : Nullable R (some null) none
  not_null : {v : Option Json} {a : A} → v ≢ some null → R v a → Nullable R v (some a)

pub data Optional {A : Type 0} (R : Option Json → A → Type 0)
    : Option Json → Option A → Type 0 where
  missing : Optional R none none
  defined : {v : Json} {a : A} → R (some v) a → Optional R (some v) (some a)

pub record IsActivity (v : Option Json) (a : Activity) : Type 0 where
  pub object : is_record v ≡ true
  pub app : IsText (get "app" v) a.app
  pub description : IsText (get "description" v) a.description
  pub idle : IsBoolean (get "idle" v) a.idle
  pub idle_seconds : IsNumber (get "idle_seconds" v) a.idle_seconds
  pub locked : Optional IsBoolean (get "locked" v) a.locked

pub record IsBattery (v : Option Json) (b : Battery) : Type 0 where
  pub object : is_record v ≡ true
  pub level : Nullable IsNumber (get "level" v) b.level
  pub charging : IsBoolean (get "charging" v) b.charging

pub record IsDevice (v : Option Json) (d : DeviceState) : Type 0 where
  pub object : is_record v ≡ true
  pub device_id : IsText (get "device_id" v) d.device_id
  pub device_name : IsText (get "device_name" v) d.device_name
  pub device_type : IsText (get "device_type" v) d.device_type
  pub activity : IsActivity (get "activity" v) d.activity
  pub battery : Nullable IsBattery (get "battery" v) d.battery
  pub network : Nullable IsText (get "network" v) d.network
  pub online : IsBoolean (get "online" v) d.online
  pub reported_at : IsText (get "reported_at" v) d.reported_at
  pub last_seen_at : IsText (get "last_seen_at" v) d.last_seen_at

-- What each test says of the value that it accepts.
pub as_text-IsText : (v : Option Json) → is_string v ≡ true → IsText v (as_text v)
as_text-IsText v h = ground arith

pub as_number-IsNumber : (v : Option Json) → is_number v ≡ true → IsNumber v (as_number v)
as_number-IsNumber v h = ground arith

as_bool-IsBoolean : (v : Option Json) → is_boolean v ≡ true → IsBoolean v (as_bool v)
as_bool-IsBoolean v h = ground arith

module _ {A : Type 0} (R : Option Json → A → Type 0) (read : Option Json → A)
    (guard : Option Json → Bool) (sound : (v : Option Json) → guard v ≡ true → R v (read v)) where
  pub if_not_null-Nullable :
      (v : Option Json) → (is_null v || guard v) ≡ true → Nullable R v (if_not_null read v)
  if_not_null-Nullable none h = not_null (λ e. cc) (sound none h)
  if_not_null-Nullable (some null) h = is_null_value
  if_not_null-Nullable (some (bool b)) h = not_null (λ e. cc) (sound _ h)
  if_not_null-Nullable (some (num n)) h = not_null (λ e. cc) (sound _ h)
  if_not_null-Nullable (some (str s)) h = not_null (λ e. cc) (sound _ h)
  if_not_null-Nullable (some (arr vs)) h = not_null (λ e. cc) (sound _ h)
  if_not_null-Nullable (some (obj fs)) h = not_null (λ e. cc) (sound _ h)

  if_defined-Optional :
      (v : Option Json) → (is_undefined v || guard v) ≡ true → Optional R v (if_defined read v)
  if_defined-Optional none h = missing
  if_defined-Optional (some v) h = defined (sound (some v) h)

as_activity-IsActivity : (v : Option Json) → is_activity v ≡ true → IsActivity v (as_activity v)
unfolding is_activity
as_activity-IsActivity v h = record {
  object = ground arith;
  app = as_text-IsText _ (ground arith);
  description = as_text-IsText _ (ground arith);
  idle = as_bool-IsBoolean _ (ground arith);
  idle_seconds = as_number-IsNumber _ (ground arith);
  locked = if_defined-Optional IsBoolean as_bool is_boolean as_bool-IsBoolean _ (ground arith);
}

as_battery-IsBattery : (v : Option Json) → is_battery v ≡ true → IsBattery v (as_battery v)
unfolding is_battery
as_battery-IsBattery v h = record {
  object = ground arith;
  level = if_not_null-Nullable IsNumber as_number is_number as_number-IsNumber _ (ground arith);
  charging = as_bool-IsBoolean _ (ground arith);
}

-- A conjunction of tests, grouped from the left, holds when each of them does.
abbrev pub conjunction : Bool → List Bool → Bool
conjunction a [] = a
conjunction a (b ∷ bs) = conjunction (a && b) bs

pub conjuncts : (a : Bool) (bs : List Bool) → conjunction a bs ≡ true → All (λ b. b ≡ true) (a ∷ bs)
conjuncts a [] h = (h, tt)
conjuncts true (b ∷ bs) h = (refl, conjuncts b bs h)
conjuncts false (b ∷ bs) h = absurd (ground (arith, conjuncts false bs h))

abbrev device_tests : Option Json → List Bool
device_tests v =
    is_string (get "device_id" v)
    ∷ is_string (get "device_name" v)
    ∷ is_string (get "device_type" v)
    ∷ is_activity (get "activity" v)
    ∷ (is_null (get "battery" v) || is_battery (get "battery" v))
    ∷ (is_null (get "network" v) || is_string (get "network" v))
    ∷ is_boolean (get "online" v)
    ∷ is_string (get "reported_at" v)
    ∷ is_string (get "last_seen_at" v)
    ∷ []

pub as_device_state-IsDevice :
    (v : Option Json) → is_device_state v ≡ true → IsDevice v (as_device_state v)
unfolding is_device_state
as_device_state-IsDevice v h =
    let h1 = conjuncts (is_record v) (device_tests v) h in
    record {
      object = h1.0;
      device_id = as_text-IsText _ h1.1.0;
      device_name = as_text-IsText _ h1.1.1.0;
      device_type = as_text-IsText _ h1.1.1.1.0;
      activity = as_activity-IsActivity _ h1.1.1.1.1.0;
      battery =
          if_not_null-Nullable IsBattery as_battery is_battery as_battery-IsBattery _
            h1.1.1.1.1.1.0;
      network = if_not_null-Nullable IsText as_text is_string as_text-IsText _ h1.1.1.1.1.1.1.0;
      online = as_bool-IsBoolean _ h1.1.1.1.1.1.1.1.0;
      reported_at = as_text-IsText _ h1.1.1.1.1.1.1.1.1.0;
      last_seen_at = as_text-IsText _ h1.1.1.1.1.1.1.1.1.1.0;
    }
