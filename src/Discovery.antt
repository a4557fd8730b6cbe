-- ===== src/Discovery.antt =====
-- client-windows/webui/src/components/DiscoveryPanel.tsx, with hooks/useCatalog.ts: the applications
-- that the agent has seen, and what each row offers. Markup and animation are left out.
pub mod Offers
pub mod Patterns
pub mod Followed
use cyberstalk_me.Base.{
  ℕ, Bool, true, false, not, ◌&&◌, ◌||◌, Option, none, some, List, [], ◌∷◌, ◌++◌, Text, codes,
  text_eq, is_empty, any, map, length, show, ◌==◌, if◌then◌else◌,
}
use cyberstalk_me.Numbers.{ℤ}
use cyberstalk_me.Api.{TitleSample, CatalogApp, CatalogSnapshot, Rule, Draft}
use cyberstalk_me.Rules.{normalize_process}
use cyberstalk_me.Recency.{relative_time, is_recent}

-- `useCatalog`. `aborted` is that the cleanup has aborted the controller.
pub record Catalog : Type 0 where
  pub snapshot : Option CatalogSnapshot
  pub error : Option Text
  pub aborted : Bool

abbrev pub mounted : Catalog
mounted = record { snapshot = none; error = none; aborted = false }

-- A frame of the stream; its end without an error; its failure, with the message of the `Error`
-- thrown, or none; the cleanup. An aborted stream delivers no frame.
pub data Event : Type 0 where
  delivered : CatalogSnapshot → Event
  ended : Event
  failed : Option Text → Event
  unmounted : Event

unfoldable pub step : Event → Catalog → Catalog
step (delivered next) c = if c.aborted then c else record c { snapshot = some next; error = none }
step ended c = c
step (failed cause) c =
    if c.aborted
    then c
    else record c { error = some (elim cause [ none ↦ codes "发现列表断开了" | some m ↦ m ]) }
step unmounted c = record c { aborted = true }

-- `configured.has(normalizeProcess(process))`, the set being that of the rules' normal forms.
abbrev pub configured_processes : Draft → List Text
configured_processes draft = map (λ rule. normalize_process rule.process) draft.rules

unfoldable pub is_configured : Draft → Text → Bool
is_configured draft process =
    any (λ p. text_eq p (normalize_process process)) (configured_processes draft)

-- What stands at the end of an application's row.
pub data Offer : Type 0 where
  not_configurable has_rule add_rule_button : Offer

unfoldable pub offer_of : Draft → CatalogApp → Offer
unfolding is_configured
offer_of draft app =
    if not app.configurable
    then not_configurable
    else if is_configured draft app.process
    then has_rule
    else add_rule_button

-- A title sample, and whether it has the button that adds a pattern.
pub record SampleRow : Type 0 where
  pub title : Text
  pub line : Text
  pub offers_pattern : Bool

pub record AppRow : Type 0 where
  pub process : Text
  pub fresh : Bool
  pub toggle_disabled : Bool
  pub toggle_label : Text
  pub sample_count : ℕ
  pub line : Text
  pub offer : Offer
  pub samples : List SampleRow

abbrev pub samples_of : CatalogApp → List TitleSample
samples_of app = elim app.samples [ none ↦ [] | some samples ↦ samples ]

-- The list, or what is said in its place.
pub data PanelList : Type 0 where
  empty_state : Text → PanelList
  rows : List AppRow → PanelList

pub record PanelView : Type 0 where
  pub alert : Option Text
  pub says_locked : Bool
  pub list : PanelList

abbrev pub apps_of : Option CatalogSnapshot → List CatalogApp
apps_of none = []
apps_of (some s) = elim s.apps [ none ↦ [] | some apps ↦ apps ]

-- Which rows are open; `setOpen` of a row.
abbrev pub Opened : Type 0
Opened = Text → Bool

unfoldable pub set_open : Text → Bool → Opened → Opened
set_open process next opened p = if text_eq p process then next else opened p

module _ (date_parse : Text → Option ℤ) (now : ℤ) (opened : Opened) (draft : Draft) where
  unfoldable pub sample_row : CatalogApp → TitleSample → SampleRow
  unfolding is_configured relative_time
  sample_row app sample = record {
    title = sample.title;
    line =
        relative_time date_parse sample.last_seen now
        ++ (codes " · " ++ (show sample.count ++ codes " 次"));
    offers_pattern = is_configured draft app.process && app.configurable;
  }

  unfoldable pub app_row : CatalogApp → AppRow
  unfolding sample_row offer_of relative_time is_recent
  app_row app = record {
    process = app.process;
    fresh = is_recent date_parse app.first_seen now 4000;
    toggle_disabled = length (samples_of app) == 0;
    toggle_label = if opened app.process then codes "收起标题样本" else codes "展开标题样本";
    sample_count = length (samples_of app);
    line =
        relative_time date_parse app.last_seen now
        ++ (codes " · 出现 " ++ (show app.count ++ codes " 次"));
    offer = offer_of draft app;
    samples = map (sample_row app) (samples_of app);
  }

  unfoldable pub panel_list : Option CatalogSnapshot → PanelList
  unfolding app_row
  panel_list snapshot = elim (apps_of snapshot) [
    | [] ↦ empty_state (elim snapshot [ none ↦ codes "正在连接 agent" | some _ ↦ codes "还没看到任何应用" ])
    | app ∷ apps ↦ rows (map app_row (app ∷ apps))
  ]

  unfoldable pub panel_view : Catalog → PanelView
  unfolding panel_list
  panel_view c = record {
    alert = elim c.error [ none ↦ none | some m ↦ if is_empty m then none else some m ];
    says_locked = elim c.snapshot [ none ↦ false | some s ↦ s.locked ];
    list = panel_list c.snapshot;
  }
