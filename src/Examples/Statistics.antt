-- ===== src/Examples/Statistics.antt =====
-- The usage tab and the texts: a window change with a late answer, three totals, a few durations.
use cyberstalk_me.Base.{◌≡◌, refl, true, Option, some, none, List, [], ◌∷◌, Text, codes, text_eq}
use cyberstalk_me.Numbers.{ℤ, pos, finite, whole}
use cyberstalk_me.Wire.Types.{UsageTotals}
use cyberstalk_me.Usage.{
  Event, selected, earlier_answered, latest_answered, unreachable, bad_status, last_7d,
  window_value, same_window, settle, step, run, mounted,
}
use cyberstalk_me.Usage.Charts.{UsageChartSlot}
use cyberstalk_me.Usage.Requests.{answer_of_selected}

-- A reader of dates that knows one instant.
abbrev date_parse : Text → Option ℤ
date_parse [] = none
date_parse (_ ∷ _) = some (pos 1785000000000)

abbrev changes : List Event
changes = latest_answered bad_status ∷ selected last_7d ∷ []

answer_of_selected_example :
    (run
      (earlier_answered 0 unreachable ∷ [])
      (step (latest_answered bad_status) (run [] (step (selected last_7d) mounted)))).shown
    ≡ settle bad_status
unfolding mounted same_window window_value text_eq
answer_of_selected_example =
    answer_of_selected last_7d mounted bad_status [] (earlier_answered 0 unreachable ∷ []) tt refl
      refl tt (refl, tt)

abbrev some_totals : UsageTotals
some_totals = record {
  active_seconds = finite (pos 60000);
  idle_seconds = finite (pos 0);
  locked_seconds = finite (pos 30000);
}

abbrev slot : UsageChartSlot
slot = record { label = codes "14 时"; seconds = whole 60; top_app = codes "VSCode"; tick = true }
