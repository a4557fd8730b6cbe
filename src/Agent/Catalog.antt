-- ===== src/Agent/Catalog.antt =====
-- client-windows/internal/setup/catalog.go, and `handleCatalog` of server.go beside it: the
-- applications and titles seen in the foreground, and their stream to the page. The map of
-- applications is the list of its values, its keys their names. Time is counted; `Slices` is
-- `sort.Slice` and `<` of texts.
pub mod Bounded
pub mod Observed
pub mod Streamed
use cyberstalk_me.Base.{
  ℕ, ◌+◌, ◌-◌, Bool, true, false, not, ◌&&◌, ◌||◌, Option, none, some, List, [], ◌∷◌, ◌++◌, Text,
  text_eq, is_empty, any, filter, find, map, take, length, leb, ltb, ◌==◌, if◌then◌else◌,
}
use cyberstalk_me.Numbers.{ℤ, pos, negsuc}
use cyberstalk_me.Api.{TitleSample, CatalogApp, CatalogSnapshot}
use cyberstalk_me.Agent.Texts.{normalize}
use cyberstalk_me.Agent.Setup.{is_configurable}

pub record Sample : Type 0 where
  pub title : Text
  pub first_seen : ℕ
  pub last_seen : ℕ
  pub count : ℕ

pub record App : Type 0 where
  pub process : Text
  pub first_seen : ℕ
  pub last_seen : ℕ
  pub count : ℕ
  pub samples : List Sample
  pub configurable : Bool

pub record Catalog : Type 0 where
  pub apps : List App
  pub max_samples : ℕ
  pub max_apps : ℕ
  pub locked : Bool
  pub locked_seen : ℕ
  pub observations : ℕ

pub record Slices : Type 0 where
  pub sort_slice : (App → App → Bool) → List App → List App
  pub less : Text → Text → Bool

-- A bound of the options, or its default.
abbrev pub or_bound : ℤ → ℕ → ℕ
or_bound (pos n) otherwise = if n == 0 then otherwise else n
or_bound (negsuc n) otherwise = otherwise

-- `NewCatalog`.
unfoldable pub new_catalog : ℤ → ℤ → Catalog
new_catalog max_samples max_apps = record {
  apps = [];
  max_samples = or_bound max_samples 20;
  max_apps = or_bound max_apps 256;
  locked = false;
  locked_seen = 0;
  observations = 0;
}

abbrev pub has_title : Text → Sample → Bool
has_title title s = text_eq s.title title

-- The samples without the first of a title.
abbrev pub without_title : Text → List Sample → List Sample
without_title title [] = []
without_title title (s ∷ ss) = if has_title title s then ss else s ∷ without_title title ss

-- `addSample`, of the samples.
unfoldable pub add_sample : Text → ℕ → ℕ → List Sample → List Sample
add_sample title now max samples = elim (find (has_title title) samples) [
  | some s ↦ record s { last_seen = now; count = s.count + 1 } ∷ without_title title samples
  | none ↦
      take max (record { title = title; first_seen = now; last_seen = now; count = 1 } ∷ samples)
]

abbrev pub is_app : Text → App → Bool
is_app key app = text_eq app.process key

abbrev pub new_app : Text → ℕ → App
new_app key now = record {
  process = key;
  first_seen = now;
  last_seen = now;
  count = 0;
  samples = [];
  configurable = is_configurable key;
}

-- What `Observe` does to the application.
unfoldable pub sight : Text → ℕ → ℕ → App → App
unfolding add_sample
sight title now max app = record app {
  last_seen = now;
  count = app.count + 1;
  samples = if is_empty title then app.samples else add_sample title now max app.samples;
}

-- The application of a key, made if it is missing, and changed.
unfoldable pub put_app : Text → ℕ → (App → App) → List App → List App
put_app key now change [] = change (new_app key now) ∷ []
put_app key now change (app ∷ apps) =
    let later = put_app key now change apps in
    if is_app key app then change app ∷ apps else app ∷ later

-- The snapshot's record of a sample and of an application; `stamp` is a time in JSON.
abbrev pub sample_of : (ℕ → Text) → Sample → TitleSample
sample_of stamp s = record {
  title = s.title;
  first_seen = stamp s.first_seen;
  last_seen = stamp s.last_seen;
  count = s.count;
}

-- A copy of no samples is nil, which is null in JSON.
abbrev pub copied : {A : Type 0} → List A → Option (List A)
copied [] = none
copied (x ∷ xs) = some (x ∷ xs)

abbrev pub app_of : (ℕ → Text) → App → CatalogApp
app_of stamp app = record {
  process = app.process;
  first_seen = stamp app.first_seen;
  last_seen = stamp app.last_seen;
  count = app.count;
  samples = copied (map (sample_of stamp) app.samples);
  configurable = app.configurable;
}

-- `Titles`; none is nil.
unfoldable pub titles : Text → Catalog → Option (List Text)
unfolding normalize
titles process c = elim (find (is_app (normalize process)) c.apps) [
  | none ↦ none
  | some app ↦ some (map Sample.title app.samples)
]

module _ (slices : Slices) where
  abbrev pub seen_before : App → App → Bool
  seen_before a b = ltb a.last_seen b.last_seen

  abbrev pub seen_after : App → App → Bool
  seen_after a b =
      if a.last_seen == b.last_seen
      then slices.less a.process b.process
      else ltb b.last_seen a.last_seen

  -- `evictApps`.
  abbrev pub gone : ℕ → List App → List Text
  gone max apps = take (length apps - max) (map App.process (slices.sort_slice seen_before apps))

  unfoldable pub evict_apps : ℕ → List App → List App
  evict_apps max apps =
      if leb (length apps) max
      then apps
      else filter (λ app. not (any (text_eq app.process) (gone max apps))) apps

  -- `Observe`.
  unfoldable pub observe : Text → Text → ℕ → Catalog → Catalog
  unfolding normalize put_app sight evict_apps
  observe process title now c =
      if is_empty (normalize process)
      then record c {
        observations = c.observations + 1;
        locked = true;
        locked_seen = c.locked_seen + 1;
      }
      else record c {
        observations = c.observations + 1;
        locked = false;
        apps =
            evict_apps c.max_apps
              (put_app (normalize process) now (sight title now c.max_samples) c.apps);
      }

  -- `Snapshot`.
  unfoldable pub snapshot : (ℕ → Text) → Catalog → CatalogSnapshot
  snapshot stamp c = record {
    apps = some (map (app_of stamp) (slices.sort_slice seen_after c.apps));
    locked = c.locked;
    locked_seen = c.locked_seen;
    observations = c.observations;
  }
