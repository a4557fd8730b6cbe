-- ===== src/Wire/UsageComplete.antt =====
-- The converse of UsageShape, and what the parser of a usage payload accepts.
use cyberstalk_me.Base.{
  ◌≡◌, refl, ap, ap₂, ◌∙◌, ◌↔◌, inl, inr, subst, Bool, true, ◌&&◌, Bool-cases, Option, some, List,
  ◌∷◌, map, all, arith,
}
use cyberstalk_me.Wire.Json.{Json, elems, every}
use cyberstalk_me.Wire.Types.{
  UsageTotals, ActivityUsage, AppUsage, HourUsage, DayUsage, DeviceUsage, UsageResponse,
}
use cyberstalk_me.Wire.Guards.{
  is_usage_totals, is_activity_usage, is_app_usage, is_hour_usage, is_day_usage, is_device_usage,
  is_usage_response,
}
use cyberstalk_me.Wire.Read.{
  as_list, as_usage_totals, as_activity_usage, as_app_usage, as_hour_usage, as_day_usage,
  as_device_usage, as_usage_response, parse_usage,
}
use cyberstalk_me.Wire.Complete.{text_complete, number_complete, Nullable-if_not_null}
use cyberstalk_me.Wire.UsageShape.{
  Each, no_value, next_value, IsArray, IsTotals, IsDescribed, IsApp, IsHour, IsDay, IsUsedDevice,
  IsUsage, as_usage_response-IsUsage,
}

module _ {A : Type 0} (R : Option Json → A → Type 0) (read : Option Json → A)
    (guard : Option Json → Bool)
    (complete : (v : Option Json) (a : A) → R v a → (guard v ≡ true) × (read v ≡ a)) where
  Each-all :
      (vs : List Json) (xs : List A)
      → Each R vs xs
      → (all (λ v. guard (some v)) vs ≡ true) × (map (λ v. read (some v)) vs ≡ xs)
  Each-all _ _ no_value = (refl, refl)
  Each-all _ _ (next_value r rs) =
      let c = complete _ _ r in
      let cs = Each-all _ _ rs in (ap₂ (◌&&◌) c.0 cs.0, ap₂ (◌∷◌) c.1 cs.1)

  array_complete :
      (v : Option Json) (xs : List A)
      → IsArray R v xs
      → (every guard v ≡ true) × (as_list read v ≡ xs)
  array_complete v xs (vs, e, r) =
      let c = Each-all (elems vs) xs r in (ap (every guard) e ∙ c.0, ap (as_list read) e ∙ c.1)

totals_complete :
    (v : Option Json) (t : UsageTotals)
    → IsTotals v t
    → (is_usage_totals v ≡ true) × (as_usage_totals v ≡ t)
unfolding is_usage_totals
totals_complete v t r =
    let active = number_complete _ _ r.active_seconds in
    let idle = number_complete _ _ r.idle_seconds in
    let locked = number_complete _ _ r.locked_seconds in
    (
      ground (arith, r.object, active.0, idle.0, locked.0),
      λ i. record {
        active_seconds = active.1 i;
        idle_seconds = idle.1 i;
        locked_seconds = locked.1 i;
      },
    )

described_complete :
    (v : Option Json) (a : ActivityUsage)
    → IsDescribed v a
    → (is_activity_usage v ≡ true) × (as_activity_usage v ≡ a)
unfolding is_activity_usage
described_complete v a r =
    let description = text_complete _ _ r.description in
    let seconds = number_complete _ _ r.seconds in
    (
      ground (arith, r.object, description.0, seconds.0),
      λ i. record { description = description.1 i; seconds = seconds.1 i },
    )

app_complete :
    (v : Option Json) (a : AppUsage) → IsApp v a → (is_app_usage v ≡ true) × (as_app_usage v ≡ a)
unfolding is_app_usage
app_complete v a r =
    let app = text_complete _ _ r.app in
    let seconds = number_complete _ _ r.seconds in
    let activities =
      array_complete IsDescribed as_activity_usage is_activity_usage described_complete _ _
        r.activities in
    (
      ground (arith, r.object, app.0, seconds.0, activities.0),
      λ i. record { app = app.1 i; seconds = seconds.1 i; activities = activities.1 i },
    )

hour_complete :
    (v : Option Json) (h : HourUsage)
    → IsHour v h
    → (is_hour_usage v ≡ true) × (as_hour_usage v ≡ h)
unfolding is_hour_usage
hour_complete v h r =
    let hour = number_complete _ _ r.hour in
    let seconds = number_complete _ _ r.seconds in
    let top_app = text_complete _ _ r.top_app in
    (
      ground (arith, r.object, hour.0, seconds.0, top_app.0),
      λ i. record { hour = hour.1 i; seconds = seconds.1 i; top_app = top_app.1 i },
    )

day_complete :
    (v : Option Json) (d : DayUsage) → IsDay v d → (is_day_usage v ≡ true) × (as_day_usage v ≡ d)
unfolding is_day_usage
day_complete v d r =
    let date = text_complete _ _ r.date in
    let seconds = number_complete _ _ r.seconds in
    let top_app = text_complete _ _ r.top_app in
    (
      ground (arith, r.object, date.0, seconds.0, top_app.0),
      λ i. record { date = date.1 i; seconds = seconds.1 i; top_app = top_app.1 i },
    )

used_device_complete :
    (v : Option Json) (d : DeviceUsage)
    → IsUsedDevice v d
    → (is_device_usage v ≡ true) × (as_device_usage v ≡ d)
unfolding is_device_usage
used_device_complete v d r =
    let hours = array_complete IsHour as_hour_usage is_hour_usage hour_complete in
    let days = array_complete IsDay as_day_usage is_day_usage day_complete in
    let device_id = text_complete _ _ r.device_id in
    let device_name = text_complete _ _ r.device_name in
    let device_type = text_complete _ _ r.device_type in
    let totals = totals_complete _ _ r.totals in
    let apps = array_complete IsApp as_app_usage is_app_usage app_complete _ _ r.apps in
    let hourly =
      Nullable-if_not_null (IsArray IsHour) (as_list as_hour_usage) (every is_hour_usage) hours _ _
        r.hourly in
    let daily =
      Nullable-if_not_null (IsArray IsDay) (as_list as_day_usage) (every is_day_usage) days _ _
        r.daily in
    (
      ground (
        arith, r.object, device_id.0, device_name.0, device_type.0, totals.0, apps.0, hourly.0,
        daily.0,
      ),
      λ i. record {
        device_id = device_id.1 i;
        device_name = device_name.1 i;
        device_type = device_type.1 i;
        totals = totals.1 i;
        apps = apps.1 i;
        hourly = hourly.1 i;
        daily = daily.1 i;
      },
    )

usage_complete :
    (v : Option Json) (u : UsageResponse)
    → IsUsage v u
    → (is_usage_response v ≡ true) × (as_usage_response v ≡ u)
unfolding is_usage_response
usage_complete v u r =
    let window = text_complete _ _ r.window in
    let timezone = text_complete _ _ r.timezone in
    let from = text_complete _ _ r.from in
    let to = text_complete _ _ r.to in
    let devices =
      array_complete IsUsedDevice as_device_usage is_device_usage used_device_complete _ _
        r.devices in
    (
      ground (arith, r.object, window.0, timezone.0, from.0, to.0, devices.0),
      λ i. record {
        window = window.1 i;
        timezone = timezone.1 i;
        from = from.1 i;
        to = to.1 i;
        devices = devices.1 i;
      },
    )

-- A payload is parsed to a usage report exactly when it has that report's shape, down to each hour
-- or day of each device, where null may stand for the hours and for the days.
pub parse_usage_iff : (v : Json) (u : UsageResponse) → (parse_usage v ≡ some u) ↔ IsUsage (some v) u
unfolding parse_usage
parse_usage_iff v u = elim (Bool-cases (is_usage_response (some v))) [
  | inl e ↦ (
    λ h. subst (IsUsage (some v)) (ground arith) (as_usage_response-IsUsage (some v) e),
    λ r. ground (arith, (usage_complete (some v) u r).1),
  )
  | inr e ↦
      (λ h. absurd (ground arith), λ r. absurd (ground (arith, (usage_complete (some v) u r).0)))
]
