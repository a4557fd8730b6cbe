-- ===== src/Wire/Complete.antt =====
-- The converse of Shape: a value of the shape passes its guard, and is read as the value it has.
use cyberstalk_me.Base.{◌≡◌, refl, ap, Bool, true, ◌||◌, Option, none, some, Text, arith}
use cyberstalk_me.Numbers.{Number}
use cyberstalk_me.Wire.Json.{
  Json, null, bool, num, str, arr, obj, is_string, is_number, is_boolean, is_null, is_undefined,
}
use cyberstalk_me.Wire.Types.{Activity, Battery, DeviceState}
use cyberstalk_me.Wire.Guards.{is_activity, is_battery, is_device_state}
use cyberstalk_me.Wire.Read.{
  as_text, as_number, as_bool, if_defined, if_not_null, as_activity, as_battery, as_device_state,
}
use cyberstalk_me.Wire.Shape.{
  IsText, IsNumber, IsBoolean, Nullable, is_null_value, not_null, Optional, missing, defined,
  IsActivity, IsBattery, IsDevice,
}

-- A guard with its cast accept exactly what a relation describes.
module _ {A : Type 0} (R : Option Json → A → Type 0) (read : Option Json → A)
    (guard : Option Json → Bool)
    (complete : (v : Option Json) (a : A) → R v a → (guard v ≡ true) × (read v ≡ a)) where
  pub Nullable-if_not_null :
      (v : Option Json) (a : Option A)
      → Nullable R v a
      → ((is_null v || guard v) ≡ true) × (if_not_null read v ≡ a)
  Nullable-if_not_null _ _ is_null_value = (refl, refl)
  Nullable-if_not_null none _ (not_null ne r) =
      let c = complete _ _ r in (ground (arith, c.0), ap some c.1)
  Nullable-if_not_null (some null) _ (not_null ne r) = absurd (ne refl)
  Nullable-if_not_null (some (bool b)) _ (not_null ne r) =
      let c = complete _ _ r in (c.0, ap some c.1)
  Nullable-if_not_null (some (num n)) _ (not_null ne r) =
      let c = complete _ _ r in (c.0, ap some c.1)
  Nullable-if_not_null (some (str s)) _ (not_null ne r) =
      let c = complete _ _ r in (c.0, ap some c.1)
  Nullable-if_not_null (some (arr vs)) _ (not_null ne r) =
      let c = complete _ _ r in (c.0, ap some c.1)
  Nullable-if_not_null (some (obj fs)) _ (not_null ne r) =
      let c = complete _ _ r in (c.0, ap some c.1)

  Optional-if_defined :
      (v : Option Json) (a : Option A)
      → Optional R v a
      → ((is_undefined v || guard v) ≡ true) × (if_defined read v ≡ a)
  Optional-if_defined _ _ missing = (refl, refl)
  Optional-if_defined _ _ (defined r) = let c = complete _ _ r in (c.0, ap some c.1)

pub text_complete :
    (v : Option Json) (s : Text) → IsText v s → (is_string v ≡ true) × (as_text v ≡ s)
text_complete v s e = (ap is_string e, ap as_text e)

pub number_complete :
    (v : Option Json) (n : Number) → IsNumber v n → (is_number v ≡ true) × (as_number v ≡ n)
number_complete v n e = (ap is_number e, ap as_number e)

boolean_complete :
    (v : Option Json) (b : Bool) → IsBoolean v b → (is_boolean v ≡ true) × (as_bool v ≡ b)
boolean_complete v b e = (ap is_boolean e, ap as_bool e)

activity_complete :
    (v : Option Json) (a : Activity) → IsActivity v a → (is_activity v ≡ true) × (as_activity v ≡ a)
unfolding is_activity
activity_complete v a r =
    let app = text_complete _ _ r.app in
    let description = text_complete _ _ r.description in
    let idle = boolean_complete _ _ r.idle in
    let idle_seconds = number_complete _ _ r.idle_seconds in
    let locked = Optional-if_defined IsBoolean as_bool is_boolean boolean_complete _ _ r.locked in
    (
      ground (arith, r.object, app.0, description.0, idle.0, idle_seconds.0, locked.0),
      λ i. record {
        app = app.1 i;
        description = description.1 i;
        idle = idle.1 i;
        idle_seconds = idle_seconds.1 i;
        locked = locked.1 i;
      },
    )

battery_complete :
    (v : Option Json) (b : Battery) → IsBattery v b → (is_battery v ≡ true) × (as_battery v ≡ b)
unfolding is_battery
battery_complete v b r =
    let level = Nullable-if_not_null IsNumber as_number is_number number_complete _ _ r.level in
    let charging = boolean_complete _ _ r.charging in
    (
      ground (arith, r.object, level.0, charging.0),
      λ i. record { level = level.1 i; charging = charging.1 i },
    )

pub device_complete :
    (v : Option Json) (d : DeviceState)
    → IsDevice v d
    → (is_device_state v ≡ true) × (as_device_state v ≡ d)
unfolding is_device_state
device_complete v d r =
    let device_id = text_complete _ _ r.device_id in
    let device_name = text_complete _ _ r.device_name in
    let device_type = text_complete _ _ r.device_type in
    let activity = activity_complete _ _ r.activity in
    let battery =
      Nullable-if_not_null IsBattery as_battery is_battery battery_complete _ _ r.battery in
    let network = Nullable-if_not_null IsText as_text is_string text_complete _ _ r.network in
    let online = boolean_complete _ _ r.online in
    let reported_at = text_complete _ _ r.reported_at in
    let last_seen_at = text_complete _ _ r.last_seen_at in
    (
      ground (
        arith, r.object, device_id.0, device_name.0, device_type.0, activity.0, battery.0,
        network.0, online.0, reported_at.0, last_seen_at.0,
      ),
      λ i. record {
        device_id = device_id.1 i;
        device_name = device_name.1 i;
        device_type = device_type.1 i;
        activity = activity.1 i;
        battery = battery.1 i;
        network = network.1 i;
        online = online.1 i;
        reported_at = reported_at.1 i;
        last_seen_at = last_seen_at.1 i;
      },
    )
