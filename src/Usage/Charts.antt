-- ===== src/Usage/Charts.antt =====
-- web/src/components/UsageTotals.tsx, UsageChart.tsx and UsageAppList.tsx: the widths, heights and
-- texts of the bars. Class names, icons and the open state of each row are left out.
use cyberstalk_me.Base.{
  ℕ, ◌-◌, Bool, not, Option, none, some, List, [], ◌∷◌, ◌++◌, map, Text, codes, is_empty, or_text,
  trim, length, take, ltb, show, if◌then◌else◌,
}
use cyberstalk_me.Numbers.{Number, whole, ltb_number, add, max_zero, Ratio, whole_ratio, max_ratio}
use cyberstalk_me.Format.{format_duration}
use cyberstalk_me.Wire.Types.{UsageTotals, AppUsage}
use cyberstalk_me.Usage.Share.{share_percent, max_seconds}

-- UsageTotals: the label, the width and the text of each slice.
pub record Slice : Type 0 where
  pub label : Text
  pub width : Ratio
  pub text : Text

unfoldable pub slices_total : UsageTotals → Number
unfolding max_zero add
slices_total totals =
    add (add (add (whole 0) (max_zero totals.active_seconds)) (max_zero totals.idle_seconds))
      (max_zero totals.locked_seconds)

abbrev slice_of : Text → Number → Number → Slice
slice_of label seconds total = record {
  label = label;
  width = share_percent seconds total;
  text = format_duration seconds;
}

unfoldable pub usage_totals : UsageTotals → List Slice
unfolding slices_total
usage_totals totals =
    let total = slices_total totals in
    slice_of (codes "活跃") totals.active_seconds total
    ∷ slice_of (codes "挂机") totals.idle_seconds total
    ∷ slice_of (codes "锁屏") totals.locked_seconds total
    ∷ []

-- UsageChart: one slot, and its bar.
pub record UsageChartSlot : Type 0 where
  pub label : Text
  pub seconds : Number
  pub top_app : Text
  pub tick : Bool

pub record Bar : Type 0 where
  pub text : Text
  pub height : Ratio
  pub label : Text

unfoldable pub slot_text : UsageChartSlot → Text
unfolding ltb_number format_duration
slot_text slot =
    if ltb_number (whole 0) slot.seconds
    then slot.label
      ++ codes "，活跃 "
      ++ format_duration slot.seconds
      ++ (if is_empty slot.top_app then [] else codes "，主要应用 " ++ slot.top_app)
    else slot.label ++ codes "，无活跃记录"

unfoldable pub bar_height : Number → Number → Ratio
unfolding ltb_number share_percent max_ratio
bar_height seconds peak =
    if ltb_number (whole 0) seconds
    then max_ratio (share_percent seconds peak) (whole_ratio 4)
    else whole_ratio 0

unfoldable pub bar_of : Number → UsageChartSlot → Bar
unfolding slot_text bar_height
bar_of peak slot = record {
  text = slot_text slot;
  height = bar_height slot.seconds peak;
  label = if slot.tick then slot.label else [];
}

unfoldable pub usage_chart : List UsageChartSlot → Text × List Bar
unfolding bar_of max_seconds
usage_chart slots =
    let peak = max_seconds (map (λ slot. slot.seconds) slots) in
    (
      if ltb_number (whole 0) peak then codes "峰值 " ++ format_duration peak else codes "这段时间没有活跃记录",
      map (bar_of peak) slots,
    )

-- UsageAppList: the rows that show, and the text of the button under them.
pub record AppRow : Type 0 where
  pub name : Text
  pub width : Ratio
  pub text : Text
  pub details : List Slice

abbrev collapsed_rows : ℕ
collapsed_rows = 8

unfoldable pub app_row : Number → AppUsage → AppRow
unfolding share_percent trim
app_row longest app = record {
  name = or_text (trim app.app) (codes "未知应用");
  width = share_percent app.seconds longest;
  text = format_duration app.seconds;
  details =
      map
        (λ activity. record {
          label = or_text (trim activity.description) (codes "未标注");
          width = share_percent activity.seconds app.seconds;
          text = format_duration activity.seconds;
        })
        app.activities;
}

unfoldable pub app_rows : Bool → List AppUsage → List AppRow
unfolding app_row max_seconds
app_rows show_all apps =
    let longest = max_seconds (map (λ app. app.seconds) apps) in
    map (app_row longest) (if show_all then apps else take collapsed_rows apps)

unfoldable pub rows_button : Bool → List AppUsage → Option Text
rows_button show_all apps =
    if not (ltb collapsed_rows (length apps))
    then none
    else if show_all
    then some (codes "收起")
    else some (codes "展开剩下的 " ++ show (length apps - collapsed_rows) ++ codes " 个应用")
