-- ===== src/PreviewBar.antt =====
-- client-windows/webui/src/components/PreviewBar.tsx and hooks/usePreview.ts: the bar that says what
-- the site would show. Markup and animation are left out.
use cyberstalk_me.Base.{
  ℕ, ◌/◌, Bool, true, false, not, ◌&&◌, Option, none, some, List, [], ◌∷◌, ◌++◌, Text, codes,
  is_empty, or_text, ltb, show, if◌then◌else◌,
}
use cyberstalk_me.Api.{Preview, Draft}

-- `usePreview`: the last answer, and whether the cleanup has run.
pub record Poll : Type 0 where
  pub preview : Option Preview
  pub cancelled : Bool

abbrev pub mounted : Poll
mounted = record { preview = none; cancelled = false }

-- What `tick` does once its request is answered, or has failed (`none`).
unfoldable pub tick_answered : Option Preview → Poll → Poll
tick_answered none p = p
tick_answered (some next) p = if p.cancelled then p else record p { preview = some next }

abbrev pub unmounted : Poll → Poll
unmounted p = record p { cancelled = true }

unfoldable pub run : List (Option Preview) → Poll → Poll
unfolding tick_answered
run [] p = p
run (answer ∷ answers) p = run answers (tick_answered answer p)

-- `formatIdle` of a whole number of seconds.
unfoldable pub format_idle : ℕ → Text
format_idle seconds =
    let minutes = seconds / 60 in
    if ltb seconds 60
    then show seconds ++ codes " 秒"
    else if ltb minutes 60
    then show minutes ++ codes " 分钟"
    else show (minutes / 60) ++ codes " 小时"

-- The bar: what is shown, none while it is read; the three badges; the process.
pub record BarView : Type 0 where
  pub shown : Option (Text × Text)
  pub says_exposed : Bool
  pub says_locked : Bool
  pub idle : Option Text
  pub process : Text
  pub process_dimmed : Bool

abbrev pub process_of : Option Preview → Text
process_of none = []
process_of (some preview) = preview.process

unfoldable pub bar_view : Bool → Option Preview → BarView
unfolding format_idle
bar_view exposed preview = record {
  shown = elim preview [ none ↦ none | some p ↦ some (p.activity.app, p.activity.description) ];
  says_exposed = exposed;
  says_locked = elim preview [ none ↦ false | some p ↦ p.activity.locked ];
  idle = elim preview [
    | none ↦ none
    | some p ↦
        if p.activity.idle && not p.activity.locked
        then some (codes "空闲 " ++ format_idle p.activity.idle_seconds)
        else none
  ];
  process = or_text (process_of preview) (codes "无前台窗口");
  process_dimmed = is_empty (process_of preview);
}

-- The bar of the page: `exposed` is that some process is exposed.
abbrev pub page_bar : Draft → Poll → BarView
page_bar draft poll = bar_view (elim draft.expose_title [ [] ↦ false | _ ∷ _ ↦ true ]) poll.preview
