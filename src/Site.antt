-- ===== src/Site.antt =====
-- web/src/App.tsx, with the state of web/src/components/UsagePanel.tsx and UsageAppList.tsx: the
-- public page as a whole, the device stream above the tabs and the statistics inside one of them.
-- `renders` is the tabs library: whether it renders the content of a tab for the chosen value.
pub mod Tabs
pub mod Whole
use cyberstalk_me.Base.{
  ℕ, ◌+◌, Bool, true, false, not, Option, none, some, List, [], ◌∷◌, Text, codes, length,
  if◌then◌else◌,
}
use cyberstalk_me.Numbers.{ℤ}
use cyberstalk_me.Wire.Json.{Json}
use cyberstalk_me.Stream.Order.{Collation}
use cyberstalk_me.Stream.{Stream, Event as Feed, step as stream_step, mounted as stream_mounted}
use cyberstalk_me.Usage.{
  Usage, Answer, Event as UsageEvent, selected, earlier_answered, latest_answered,
  step as usage_step, mounted as usage_mounted,
}
use cyberstalk_me.Usage.Panel.{PanelView, statistics, panel_view, select_window, select_device}
use cyberstalk_me.Cards.{NowView, now_view, connection_label}

-- `UsagePanel`: the request's hook, the picked device, and whether all rows show.
pub record Panel : Type 0 where
  pub usage : Usage
  pub device_id : Option Text
  pub show_all : Bool

unfoldable pub mounted_panel : Panel
unfolding usage_mounted
mounted_panel = record { usage = usage_mounted; device_id = none; show_all = false }

-- What the panel shows.
abbrev pub view_of_panel : Panel → PanelView
view_of_panel p = panel_view p.show_all p.device_id p.usage.shown

abbrev pub has_list : PanelView → Bool
has_list (statistics title description slices rows chart) = true
has_list _ = false

-- A render that does not show the list unmounts it, so that it starts folded the next time.
unfoldable pub settled : Panel → Panel
unfolding panel_view
settled p = if has_list (view_of_panel p) then p else record p { show_all = false }

-- A control of the panel reports a value, or a request is answered.
pub data PanelEvent : Type 0 where
  window_reported device_reported : Text → PanelEvent
  rows_toggled : PanelEvent
  earlier_usage : ℕ → Answer → PanelEvent
  latest_usage : Answer → PanelEvent

abbrev pub handle : PanelEvent → Panel → Panel
handle (window_reported value) p = elim (select_window value) [
  | none ↦ p
  | some w ↦ record p { usage = usage_step (selected w) p.usage }
]
handle (device_reported value) p = record p { device_id = select_device value p.device_id }
handle rows_toggled p = record p { show_all = not p.show_all }
handle (earlier_usage i answer) p = record p {
  usage = usage_step (earlier_answered i answer) p.usage;
}
handle (latest_usage answer) p = record p { usage = usage_step (latest_answered answer) p.usage }

unfoldable pub panel_step : PanelEvent → Panel → Panel
unfolding settled select_window select_device usage_step
panel_step e p = settled (handle e p)

-- The page. `past` counts the requests of panels that were unmounted.
pub record Site : Type 0 where
  pub stream : Stream
  pub tab : Text
  pub panel : Option Panel
  pub past : ℕ

abbrev pub mounted : Site
mounted = record { stream = stream_mounted; tab = codes "now"; panel = none; past = 0 }

-- A panel requests once for each run of its effect.
abbrev pub requests_of : Option Panel → ℕ
requests_of none = 0
requests_of (some p) = length p.usage.earlier + 1

abbrev pub usage_requests : Site → ℕ
usage_requests s = s.past + requests_of s.panel

abbrev pub or_mounted : Option Panel → Panel
or_mounted none = mounted_panel
or_mounted (some p) = p

pub data Event : Type 0 where
  streamed : Feed → Event
  tab_chosen : Text → Event
  in_panel : PanelEvent → Event
  ticked : Event

module _ (renders : (value content : Text) → Bool) where
  -- `setTab`, and what rendering makes of the panel.
  unfoldable pub choose_tab : Text → Site → Site
  choose_tab value s =
      if renders value (codes "usage")
      then record s { tab = value; panel = some (or_mounted s.panel) }
      else record s { tab = value; panel = none; past = s.past + requests_of s.panel }

  module _ (collation : Collation) (json_parse : Text → Option Json) where
    -- Without a panel nothing comes from its controls, and its late answers are dropped. A tick
    -- renders.
    unfoldable pub step : Event → Site → Site
    unfolding stream_step choose_tab panel_step
    step (streamed feed) s = record s { stream = stream_step collation json_parse feed s.stream }
    step (tab_chosen value) s = choose_tab value s
    step (in_panel e) s = elim s.panel [
      | none ↦ s
      | some p ↦ record s { panel = some (panel_step e p) }
    ]
    step ticked s = s

    unfoldable pub run : List Event → Site → Site
    unfolding step
    run [] s = s
    run (e ∷ es) s = run es (step e s)

  -- What the page says under its title.
  pub record SiteView : Type 0 where
    pub connection : Text
    pub now_tab : Option NowView
    pub usage_tab : Option PanelView

  unfoldable pub site_view : (Text → Option ℤ) → ℤ → Site → SiteView
  unfolding now_view panel_view connection_label
  site_view date_parse now s = record {
    connection = connection_label s.stream.connection;
    now_tab = if renders s.tab (codes "now") then some (now_view date_parse now s.stream) else none;
    usage_tab = elim s.panel [ none ↦ none | some p ↦ some (view_of_panel p) ];
  }
