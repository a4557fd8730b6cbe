-- ===== src/Examples/Tabs.antt =====
-- The public page as a whole, and a usage payload.
use cyberstalk_me.Base.{
  ◌≡◌, refl, true, ◌↔◌, Option, some, none, List, [], ◌∷◌, Text, codes, text_eq, map,
}
use cyberstalk_me.Numbers.{whole}
use cyberstalk_me.Wire.Json.{Json, null, num, str, arr, obj, nil, cons, end, field}
use cyberstalk_me.Wire.Types.{UsageResponse}
use cyberstalk_me.Wire.Guards.{
  is_device_state, is_activity, is_battery, is_record, is_usage_totals, is_activity_usage,
  is_app_usage, is_hour_usage, is_day_usage, is_device_usage, is_usage_response,
}
use cyberstalk_me.Wire.Read.{as_usage_response, parse_usage, parse_snapshot}
use cyberstalk_me.Wire.UsageShape.{IsUsage}
use cyberstalk_me.Wire.UsageComplete.{parse_usage_iff}
use cyberstalk_me.Stream.{
  opened, answered, body as device_body, step as stream_step, mounted as stream_mounted,
}
use cyberstalk_me.Stream.Order.{code_units}
use cyberstalk_me.Usage.{body}
use cyberstalk_me.Site.{
  step, Event, streamed, tab_chosen, in_panel, ticked, latest_usage, mounted, run,
}
use cyberstalk_me.Site.Whole.{IsSound, is_open, run-whole}
use cyberstalk_me.Stream.Step.{IsOrdered}
use cyberstalk_me.Examples.Page.{two_devices, snapshot_distinct}

abbrev app_json : Json
app_json = obj (
    field "app" (str (codes "VSCode")) (
      field "seconds" (num (whole 90)) (
        field "activities"
          (arr (
            cons
              (obj (field "description" (str (codes "写代码")) (field "seconds" (num (whole 90)) end)))
              nil))
          end)))

abbrev device_json : Json
device_json = obj (
    field "device_id" (str (codes "pc")) (
      field "device_name" (str (codes "台式机")) (
        field "device_type" (str (codes "windows")) (
          field "totals"
            (obj (
              field "active_seconds" (num (whole 90)) (
                field "idle_seconds" (num (whole 0)) (field "locked_seconds" (num (whole 0)) end))))
            (field "apps" (arr (cons app_json nil)) (
              field "hourly"
                (arr (
                  cons
                    (obj (
                      field "hour" (num (whole 9)) (
                        field "seconds" (num (whole 90))
                          (field "top_app" (str (codes "VSCode")) end))))
                    nil))
                (field "daily" null end)))))))

abbrev usage_json : Json
usage_json = obj (
    field "window" (str (codes "today")) (
      field "timezone" (str (codes "Asia/Shanghai")) (
        field "from" (str (codes "2026-07-30T00:00:00+08:00")) (
          field "to" (str (codes "2026-07-30T12:00:00+08:00"))
            (field "devices" (arr (cons device_json nil)) end)))))

abbrev report : UsageResponse
report = as_usage_response (some usage_json)

usage_runs : parse_usage usage_json ≡ some report
unfolding parse_usage is_usage_response is_device_usage is_usage_totals is_app_usage
    is_activity_usage is_hour_usage is_day_usage is_record
usage_runs = refl

parse_usage_iff_example : (parse_usage usage_json ≡ some report) ↔ IsUsage (some usage_json) report
parse_usage_iff_example = parse_usage_iff usage_json report

-- No message of the stream is read.
abbrev json_parse : Text → Option Json
json_parse raw = none

-- A snapshot of two devices while the usage tab is shown, and the answer to its query.
abbrev events : List Event
events =
    streamed opened
    ∷ tab_chosen (codes "usage")
    ∷ streamed (answered (device_body (arr two_devices)))
    ∷ in_panel (latest_usage (body usage_json))
    ∷ ticked
    ∷ []

run-whole_example :
    let s = run text_eq code_units json_parse events mounted in
    IsOrdered code_units s.stream.devices
    × (is_open s.panel ≡ text_eq s.tab (codes "usage"))
    × IsSound s.panel
run-whole_example =
    run-whole text_eq (λ value content. refl) code_units json_parse events
      (λ ds h. absurd h, (snapshot_distinct, tt))

-- At the end both devices are shown, in the order of their ids, and the panel is open.
two_shown :
    map (λ d. d.device_id) (run text_eq code_units json_parse events mounted).stream.devices
    ≡ codes "a" ∷ codes "b" ∷ []
unfolding run step stream_step parse_snapshot is_device_state is_activity is_battery is_record
    text_eq stream_mounted
two_shown = refl

panel_is_open : is_open (run text_eq code_units json_parse events mounted).panel ≡ true
unfolding run step stream_step text_eq
panel_is_open = refl
