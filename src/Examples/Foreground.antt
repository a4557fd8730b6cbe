-- ===== src/Examples/Foreground.antt =====
-- The agent's catalog, its stream, its guard and its test of a pattern, at concrete readings.
use mathlib.Core.List.{flatten}
use cyberstalk_me.Base.{
  ◌≡◌, ◌↔◌, refl, ap, ◌∙◌, Bool, false, ◌||◌, Option, some, none, List, [], ◌∷◌, Text, codes,
  text_eq, any, map, to_lower, ◌==◌, ℕ, if◌then◌else◌, arith, inl, inr, Bool-cases,
}
use cyberstalk_me.Numbers.{pos}
use cyberstalk_me.Api.{CatalogSnapshot, TitlePattern}
use cyberstalk_me.Client.Frames.{read_all}
use cyberstalk_me.Client.Calls.{send, get_state}
use cyberstalk_me.Discovery.{delivered, mounted}
use cyberstalk_me.Discovery.Followed.{after}
use cyberstalk_me.Agent.Texts.{trim_space}
use cyberstalk_me.Agent.Mapping.{CompiledPattern, compile_patterns, first_match, gives}
use cyberstalk_me.Agent.Catalog.{App, Catalog, Slices, new_catalog, observe, snapshot, seen_before}
use cyberstalk_me.Agent.Catalog.Observed.{IsBounded, observed_all, catalog-IsBounded}
use cyberstalk_me.Agent.Catalog.Streamed.{
  Happening, observed, open_feed, run_feed, on_tick, catalog_reaches_page,
}
use cyberstalk_me.Agent.Guard.{Incoming, guard, incoming, loopback_hosts}
use cyberstalk_me.Agent.Guard.Passes.{
  HasToken, IsLoopback, IsOwnOrigin, guard_passes_iff, calls_pass_iff,
}
use cyberstalk_me.Agent.PatternTest.{first_tested, first_match-tested}
use cyberstalk_me.Examples.Setup.{go, lib}

abbrev insert : (App → App → Bool) → App → List App → List App
insert lt x [] = x ∷ []
insert lt x (y ∷ ys) = let later = insert lt x ys in if lt y x then y ∷ later else x ∷ y ∷ ys

abbrev insertion_sort : (App → App → Bool) → List App → List App
insertion_sort lt [] = []
insertion_sort lt (x ∷ xs) = insert lt x (insertion_sort lt xs)

abbrev slices : Slices
slices = record { sort_slice = insertion_sort; less = λ a b. false }

any-insert :
    (lt : App → App → Bool) (x : App) (ys : List App) (p : App → Bool)
    → any p (insert lt x ys) ≡ p x || any p ys
any-insert lt x [] p = refl
any-insert lt x (y ∷ ys) p = elim (Bool-cases (lt y x)) [
  | inl e ↦ rw e (ground (arith, any-insert lt x ys p))
  | inr e ↦ rw e refl
]

sort_permutes :
    (lt : App → App → Bool) (xs : List App) (p : App → Bool)
    → any p (insertion_sort lt xs) ≡ any p xs
sort_permutes lt [] p = refl
sort_permutes lt (x ∷ xs) p =
    any-insert lt x (insertion_sort lt xs) p ∙ ap (p x ||◌) (sort_permutes lt xs p)

abbrev readings : List (Text × Text × ℕ)
readings =
    (codes "Code.exe", codes "a", 1)
    ∷ ([], [], 2)
    ∷ (codes "chrome.exe", codes "b", 3)
    ∷ (codes "code.exe ", codes "c", 4)
    ∷ []

catalog-IsBounded_example : IsBounded (observed_all slices readings (new_catalog (pos 1) (pos 1)))
catalog-IsBounded_example =
    catalog-IsBounded slices (sort_permutes (seen_before slices)) (pos 1) (pos 1) readings

-- With room for one application and one title, the latest are left.
latest_left :
    map App.process (observed_all slices readings (new_catalog (pos 1) (pos 1))).apps
    ≡ codes "code.exe" ∷ []
unfolding observe new_catalog text_eq to_lower
latest_left = refl

abbrev stamp : ℕ → Text
stamp n = codes "t"

abbrev happenings : List Happening
happenings = observed (codes "code.exe") (codes "a") 1 ∷ []

abbrev empty_catalog : Catalog
empty_catalog = record {
  apps = [];
  max_samples = 20;
  max_apps = 256;
  locked = false;
  locked_seen = 0;
  observations = 0;
}

abbrev first_snapshot : CatalogSnapshot
first_snapshot = record { apps = some []; locked = false; locked_seen = 0; observations = 0 }

unfoldable second_snapshot : CatalogSnapshot
unfolding snapshot run_feed open_feed
second_snapshot =
    snapshot slices stamp
      (run_feed slices stamp (open_feed slices stamp empty_catalog) happenings).catalog

abbrev encode : CatalogSnapshot → Text
encode s = if s.observations == 0 then codes "0" else codes "1"

abbrev parse : Text → Option CatalogSnapshot
parse t = if text_eq t (codes "0") then some first_snapshot else some second_snapshot

catalog_reaches_page_example :
    (after
      (map delivered (read_all parse [] (codes "data: 0\n\nda" ∷ codes "ta: 1\n\n" ∷ [])).0)
      mounted).snapshot
    ≡ some (
        snapshot slices stamp
          (run_feed slices stamp (open_feed slices stamp empty_catalog) happenings).catalog)
unfolding on_tick run_feed open_feed observe second_snapshot text_eq to_lower flatten
catalog_reaches_page_example =
    catalog_reaches_page slices stamp encode parse empty_catalog happenings
      (codes "data: 0\n\nda" ∷ codes "ta: 1\n\n" ∷ [])
      ((refl, refl, refl), ((refl, refl, refl), tt)) refl

abbrev patterns : List TitlePattern
patterns =
    record { match = codes "x"; description = codes "one" }
    ∷ record { match = codes "y"; description = codes "two" }
    ∷ []

abbrev compiled : List CompiledPattern
compiled =
    record { matches = text_eq (codes "x"); description = codes "one" }
    ∷ record { matches = text_eq (codes "y"); description = codes "two" }
    ∷ []

patterns_compile : compile_patterns go 0 (codes "code.exe") 0 patterns ≡ gives compiled
unfolding compile_patterns
patterns_compile = refl

first_match-tested_example :
    first_match compiled (codes "y") (codes "other")
    ≡ first_tested go patterns (codes "y") (codes "other")
first_match-tested_example =
    first_match-tested go 0 (codes "code.exe") 0 patterns compiled (codes "y") (codes "other")
      patterns_compile

-- A request of a page that a browser reached by name, and a call of the page.
abbrev by_name : Incoming
by_name = record {
  host = codes "localhost:80";
  origin = codes "http://localhost:80";
  authorization = codes "Bearer secret ";
}

guard_passes_iff_example :
    (guard lib text_eq (loopback_hosts (codes "80")) (codes "secret") by_name ≡ none) ↔ (
      IsLoopback lib text_eq (codes "80") by_name.host
      × IsOwnOrigin lib text_eq (codes "80") by_name.origin
      × HasToken (codes "secret") by_name)
guard_passes_iff_example = guard_passes_iff lib text_eq (codes "80") (codes "secret") by_name

calls_pass_iff_example :
    let r =
      incoming (codes "127.0.0.1:80") [] (send (λ d. []) (λ j. []) (codes "secret") get_state) in
    (guard lib text_eq (loopback_hosts (codes "80")) (codes "secret") r ≡ none) ↔ (
      IsLoopback lib text_eq (codes "80") (codes "127.0.0.1:80")
      × IsOwnOrigin lib text_eq (codes "80") []
      × (trim_space (codes "secret") ≡ codes "secret"))
calls_pass_iff_example =
    calls_pass_iff lib text_eq (codes "80") (λ d. []) (λ j. []) (codes "secret") (codes "secret")
      (codes "127.0.0.1:80") [] get_state

by_name_passes : guard lib text_eq (loopback_hosts (codes "80")) (codes "secret") by_name ≡ none
unfolding guard text_eq
by_name_passes = refl

let_through :
    guard lib text_eq
      (loopback_hosts (codes "80"))
      (codes "secret")
      (incoming (codes "127.0.0.1:80") [] (send (λ d. []) (λ j. []) (codes "secret") get_state))
    ≡ none
unfolding guard send text_eq
let_through = refl
