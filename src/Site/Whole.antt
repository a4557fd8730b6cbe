-- ===== src/Site/Whole.antt =====
-- What holds of the public page as a whole, whatever tabs and controls are used and whatever
-- arrives.
use cyberstalk_me.Base.{
  ◌≡◌, refl, sym, subst, ◌∙◌, inl, inr, Bool, true, false, not, ◌&&◌, Bool-cases, Option, none,
  some, Option-cases, List, [], ◌∷◌, Text, codes, text_eq, All, arith,
}
use cyberstalk_me.Wire.Json.{Json}
use cyberstalk_me.Wire.Types.{DeviceState}
use cyberstalk_me.Stream.Order.{Collation}
use cyberstalk_me.Stream.{mounted as stream_mounted}
use cyberstalk_me.Stream.Sorting.{ids, AreDistinct}
use cyberstalk_me.Stream.Step.{IsSnapshot, IsOrdered, run-IsOrdered}
use cyberstalk_me.Usage.{
  selected, earlier_answered, latest_answered, begin_load, mounted as usage_mounted,
}
use cyberstalk_me.Usage.Panel.{select_window}
use cyberstalk_me.Usage.Requests.{IsConsistent, is_loading, step-IsConsistent}
use cyberstalk_me.Site.{
  Panel, PanelEvent, window_reported, device_reported, rows_toggled, earlier_usage, latest_usage,
  settled, handle, panel_step, Site, or_mounted, mounted_panel, mounted, Event, streamed,
  tab_chosen, in_panel, ticked, choose_tab, step, run, view_of_panel, has_list,
}
use cyberstalk_me.Site.Tabs.{IsTabs, feeds, tabs_lem}

-- The panel of the statistics: what it shows is consistent, and the list is folded unless it shows.
abbrev pub IsFolded : Panel → Type 0
IsFolded p = (p.show_all && not (has_list (view_of_panel p))) ≡ false

abbrev pub IsSound : Option Panel → Type 0
IsSound none = Unit
IsSound (some p) = IsConsistent p.usage.shown × IsFolded p

abbrev pub is_open : Option Panel → Bool
is_open none = false
is_open (some p) = true

settled-IsFolded : (p : Panel) → IsFolded (settled p)
unfolding settled
settled-IsFolded p = elim (Bool-cases (has_list (view_of_panel p))) [
  | inl on ↦ ground (arith, on)
  | inr off ↦ ground (arith, off)
]

settled-shown : (p : Panel) → (settled p).usage ≡ p.usage
unfolding settled
settled-shown p = ground arith

handle-IsConsistent :
    (e : PanelEvent) (p : Panel)
    → IsConsistent p.usage.shown
    → IsConsistent (handle e p).usage.shown
handle-IsConsistent (window_reported value) p h = elim (Option-cases (select_window value)) [
  | inl e ↦ rw (handle, e) h
  | inr (w, e) ↦ rw (handle, e) (step-IsConsistent (selected w) p.usage h)
]
handle-IsConsistent (device_reported value) p h = h
handle-IsConsistent rows_toggled p h = h
handle-IsConsistent (earlier_usage i answer) p h =
    step-IsConsistent (earlier_answered i answer) p.usage h
handle-IsConsistent (latest_usage answer) p h = step-IsConsistent (latest_answered answer) p.usage h

panel_step-IsSound :
    (e : PanelEvent) (p : Panel) → IsSound (some p) → IsSound (some (panel_step e p))
unfolding panel_step
panel_step-IsSound e p h = (
  subst (λ u. IsConsistent u.shown) (sym (settled-shown (handle e p)))
      (handle-IsConsistent e p h.0),
  settled-IsFolded (handle e p),
)

mounted_panel-IsSound : IsSound (some mounted_panel)
unfolding mounted_panel usage_mounted begin_load
mounted_panel-IsSound = (is_loading, refl)

or_mounted-IsSound : (o : Option Panel) → IsSound o → IsSound (some (or_mounted o))
or_mounted-IsSound none h = mounted_panel-IsSound
or_mounted-IsSound (some p) h = h

module _ (renders : (value content : Text) → Bool) (tabs : IsTabs renders) (collation : Collation)
    (json_parse : Text → Option Json) where
  -- The panel is there exactly while its tab is chosen, and it is sound.
  abbrev IsWhole : Site → Type 0
  IsWhole s = (is_open s.panel ≡ text_eq s.tab (codes "usage")) × IsSound s.panel

  choose_tab-IsWhole : (value : Text) (s : Site) → IsWhole s → IsWhole (choose_tab renders value s)
  unfolding choose_tab
  choose_tab-IsWhole value s h = elim (Bool-cases (text_eq value (codes "usage"))) [
    | inl e ↦
        let shows = tabs value (codes "usage") ∙ e in
        rw (choose_tab, shows) (sym e, or_mounted-IsSound s.panel h.1)
    | inr e ↦ let hides = tabs value (codes "usage") ∙ e in rw (choose_tab, hides) (sym e, tt)
  ]

  step-IsWhole :
      (e : Event) (s : Site) → IsWhole s → IsWhole (step renders collation json_parse e s)
  unfolding step
  step-IsWhole (streamed feed) s h = h
  step-IsWhole (tab_chosen value) s h = choose_tab-IsWhole value s h
  step-IsWhole (in_panel e) s h = elim (Option-cases s.panel) [
    | inl q ↦ rw (step, q) h
    | inr (p, q) ↦
        rw (step, q) (ground (arith, h.0, q), panel_step-IsSound e p (subst IsSound q h.1))
  ]
  step-IsWhole ticked s h = h

  run-IsWhole :
      (es : List Event) (s : Site) → IsWhole s → IsWhole (run renders collation json_parse es s)
  unfolding run
  run-IsWhole [] s h = h
  run-IsWhole (e ∷ es) s h =
      run-IsWhole es (step renders collation json_parse e s) (step-IsWhole e s h)

  -- As long as no snapshot names a device twice, whatever the tabs, the controls and the answers:
  -- the devices are in the order of their ids, each id once; the panel is there exactly while its
  -- tab is chosen, shows a load, a payload or an error, and has its list folded unless it shows.
  pub run-whole :
      (es : List Event)
      → All (λ e. (ds : List DeviceState) → IsSnapshot e ds → AreDistinct (ids ds)) (feeds es)
      → let s = run renders collation json_parse es mounted in
        IsOrdered collation s.stream.devices
        × (is_open s.panel ≡ text_eq s.tab (codes "usage"))
        × IsSound s.panel
  unfolding text_eq stream_mounted
  run-whole es d =
      let (whole, sound) = run-IsWhole es mounted (refl, tt) in
      (
        subst (λ stream. IsOrdered collation stream.devices)
            (sym (tabs_lem renders tabs collation json_parse es mounted).0)
            (run-IsOrdered collation json_parse (feeds es) stream_mounted d (tt, tt)),
        whole,
        sound,
      )
