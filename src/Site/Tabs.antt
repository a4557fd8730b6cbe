-- ===== src/Site/Tabs.antt =====
-- What the tabs decide, and what they do not: the device stream runs whatever tab shows, and the
-- statistics are asked for by their tab alone.
use cyberstalk_me.Base.{
  ℕ, ◌+◌, ◌≤◌, ◌≡◌, refl, ap, sym, ◌∙◌, inl, inr, Bool, Bool-cases, Option, some, Option-cases,
  List, [], ◌∷◌, Text, codes, text_eq, length, length-append, if◌then◌else◌, arith,
}
use cyberstalk_me.Wire.Json.{Json}
use cyberstalk_me.Stream.Order.{Collation}
use cyberstalk_me.Stream.{Event as Feed, run as stream_run}
use cyberstalk_me.Usage.{
  Usage, UsageWindow, same_window, select, cancel, step as usage_step, mounted as usage_mounted,
}
use cyberstalk_me.Usage.Panel.{select_window}
use cyberstalk_me.Site.{
  Panel, PanelEvent, window_reported, device_reported, rows_toggled, earlier_usage, latest_usage,
  settled, handle, panel_step, Site, requests_of, usage_requests, mounted_panel, Event, streamed,
  tab_chosen, in_panel, ticked, choose_tab, step, run, view_of_panel, has_list,
}

-- The tabs library renders the content of the chosen value alone.
abbrev pub IsTabs : ((value content : Text) → Bool) → Type 0
IsTabs renders = (value content : Text) → renders value content ≡ text_eq value content

-- What the stream has sent.
abbrev pub feeds : List Event → List Feed
feeds [] = []
feeds (streamed feed ∷ es) = feed ∷ feeds es
feeds (tab_chosen value ∷ es) = feeds es
feeds (in_panel e ∷ es) = feeds es
feeds (ticked ∷ es) = feeds es

-- The requests that an event may cost: one for a choice of the statistics, and for a choice there.
abbrev pub cost : Event → ℕ
cost (tab_chosen value) = if text_eq value (codes "usage") then 1 else 0
cost (in_panel (window_reported value)) = 1
cost _ = 0

abbrev pub costs : List Event → ℕ
costs [] = 0
costs (e ∷ es) = cost e + costs es

requests-settled : (p : Panel) → requests_of (some (settled p)) ≡ requests_of (some p)
unfolding settled
requests-settled p = elim (Bool-cases (has_list (view_of_panel p))) [
  | inl on ↦ rw on refl
  | inr off ↦ rw off refl
]

select-requests : (w : UsageWindow) (u : Usage) → length (select w u).earlier ≤ length u.earlier + 1
unfolding select
select-requests w u = elim (Bool-cases (same_window w u.latest.usage_window)) [
  | inl same ↦ ground (arith, same)
  | inr other ↦ ground (arith, other, length-append u.earlier (cancel u.latest ∷ []))
]

step-requests :
    (e : PanelEvent) (p : Panel)
    → requests_of (some (handle e p)) ≤ requests_of (some p) + cost (in_panel e)
unfolding usage_step
step-requests (window_reported value) p = elim (Option-cases (select_window value)) [
  | inl e ↦ ground (arith, e)
  | inr (w, e) ↦ elim (Bool-cases p.usage.latest.cancelled) [
    | inl gone ↦ ground (arith, e, gone)
    | inr live ↦ ground (arith, e, live, select-requests w p.usage)
  ]
]
step-requests (device_reported value) p = omega arith
step-requests rows_toggled p = omega arith
step-requests (earlier_usage i answer) p = ground arith
step-requests (latest_usage answer) p = omega arith

module _ (renders : (value content : Text) → Bool) (tabs : IsTabs renders) (collation : Collation)
    (json_parse : Text → Option Json) where
  site_step-requests :
      (e : Event) (s : Site)
      → usage_requests (step renders collation json_parse e s) ≤ usage_requests s + cost e
  unfolding step choose_tab panel_step
  site_step-requests (streamed feed) s = omega arith
  site_step-requests (tab_chosen value) s = elim (Bool-cases (text_eq value (codes "usage"))) [
    | inl e ↦ elim (Option-cases s.panel) [
      | inl q ↦
          unfold mounted_panel usage_mounted in ground (arith, e, q, tabs value (codes "usage"))
      | inr (p, q) ↦ ground (arith, e, q, tabs value (codes "usage"))
    ]
    | inr e ↦ ground (arith, e, tabs value (codes "usage"))
  ]
  site_step-requests (in_panel e) s = elim (Option-cases s.panel) [
    | inl q ↦ ground (arith, q)
    | inr (p, q) ↦ ground (arith, q, requests-settled (handle e p), step-requests e p)
  ]
  site_step-requests ticked s = omega arith

  pub step-stream :
      (e : Event) (es : List Event) (s : Site)
      → stream_run collation json_parse (feeds (e ∷ es)) s.stream
        ≡ stream_run collation json_parse (feeds es) (step renders collation json_parse e s).stream
  unfolding step stream_run choose_tab
  step-stream (streamed feed) es s = refl
  step-stream (tab_chosen value) es s =
      ap (stream_run collation json_parse (feeds es)) (ground arith)
  step-stream (in_panel e) es s = elim (Option-cases s.panel) [
    | inl q ↦ ap (stream_run collation json_parse (feeds es)) (ground (arith, q))
    | inr (p, q) ↦ ap (stream_run collation json_parse (feeds es)) (ground (arith, q))
  ]
  step-stream ticked es s = refl

  -- However the tabs and the controls are used: the stream is as its own events make it, as if the
  -- tabs were not there, and the statistics are requested at most once for each choice of their tab
  -- and of a window in it, so never before their tab is chosen.
  pub tabs_lem :
      (es : List Event) (s : Site)
      → ((run renders collation json_parse es s).stream
          ≡ stream_run collation json_parse (feeds es) s.stream)
        × (usage_requests (run renders collation json_parse es s) ≤ usage_requests s + costs es)
  unfolding run stream_run
  tabs_lem [] s = (refl, omega arith)
  tabs_lem (e ∷ es) s =
      let (stream, count) = tabs_lem es (step renders collation json_parse e s) in
      (stream ∙ sym (step-stream e es s), omega (arith, count, site_step-requests e s))
