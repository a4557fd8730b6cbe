-- ===== src/Agent/PatternTest.antt =====
-- client-windows/internal/setup/suggest.go, and `handleRegexTest` and `handleRegexSuggest` of
-- server.go: how a pattern behaves against the titles that were seen.
use mathlib.Core.List.{flatten}
use cyberstalk_me.Base.{
  ℕ, ◌+◌, ◌≡◌, ap, ◌∙◌, inl, inr, Bool, true, false, Bool-cases, Option, none, some, List, [], ◌∷◌,
  ◌++◌, Text, codes, is_empty, map, if◌then◌else◌, ◌==◌, arith,
}
use cyberstalk_me.Api.{TitlePattern, RegexTestResult}
use cyberstalk_me.Agent.Mapping.{Go, CompiledPattern, compile_patterns, first_match, gives}
use cyberstalk_me.Agent.Mapping.Patterns.{compile_patterns-step}
use cyberstalk_me.Agent.Setup.{unless_empty}
use cyberstalk_me.Agent.Catalog.{Sample, Catalog, Slices, seen_after, copied, titles}

pub record PatternTest : Type 0 where
  pub valid : Bool
  pub error : Text
  pub matched : List Bool
  pub match_count : ℕ

-- The loop of `TestPattern`: what is matched, and how often.
unfoldable pub tested : (Text → Bool) → List Text → List Bool × ℕ
tested f [] = ([], 0)
tested f (t ∷ ts) =
    let (matched, n) = tested f ts in if f t then (true ∷ matched, n + 1) else (false ∷ matched, n)

-- `SuggestPattern`; `quote_meta` is `regexp.QuoteMeta`.
unfoldable pub suggest_pattern : (Text → Text) → Text → Text
suggest_pattern quote_meta title = codes "(?i)" ++ quote_meta title

module _ (go : Go) where
  -- `TestPattern`.
  unfoldable pub test_pattern : Text → List Text → PatternTest
  unfolding tested
  test_pattern pat ts = elim (go.compile pat) [
    | none ↦ record {
      valid = false;
      error = go.compile_error pat;
      matched = map (λ t. false) ts;
      match_count = 0;
    }
    | some f ↦ record {
      valid = true;
      error = [];
      matched = (tested f ts).0;
      match_count = (tested f ts).1;
    }
  ]

  abbrev pub or_none_seen : Option (List Text) → List Text
  or_none_seen none = []
  or_none_seen (some ts) = ts

  -- The titles that `handleRegexTest` takes: those of a process, or all.
  unfoldable pub tested_titles : Slices → Text → Catalog → Option (List Text)
  unfolding titles
  tested_titles slices process c =
      if is_empty process
      then copied (
          flatten (
            map (λ app. map Sample.title app.samples)
              (slices.sort_slice (seen_after slices) c.apps)))
      else titles process c

  unfoldable pub handle_regex_test : Slices → Text → Text → Catalog → RegexTestResult
  unfolding test_pattern tested_titles
  handle_regex_test slices pattern process c =
      let ts = tested_titles slices process c in
      let test = test_pattern pattern (or_none_seen ts) in
      record {
        valid = test.valid;
        error = unless_empty test.error;
        matched = test.matched;
        match_count = test.match_count;
        titles = ts;
      }

  -- The first pattern that the test of the one title says to match.
  abbrev pub first_tested : List TitlePattern → Text → Text → Text
  first_tested [] raw otherwise = otherwise
  first_tested (p ∷ ps) raw otherwise =
      if (test_pattern p.match (raw ∷ [])).match_count == 0
      then first_tested ps raw otherwise
      else p.description

  test_pattern-one :
      (pat raw : Text) (f : Text → Bool)
      → go.compile pat ≡ some f
      → ((test_pattern pat (raw ∷ [])).match_count == 0) ≡ (if f raw then false else true)
  unfolding test_pattern
  test_pattern-one pat raw f e = ground (arith, e)

  first_match-one :
      (p : TitlePattern) (ps : List TitlePattern) (f : Text → Bool) (rest : List CompiledPattern)
      (raw otherwise : Text)
      → go.compile p.match ≡ some f
      → first_match rest raw otherwise ≡ first_tested ps raw otherwise
      → first_match (record { matches = f; description = p.description } ∷ rest) raw otherwise
        ≡ first_tested (p ∷ ps) raw otherwise
  unfolding first_match
  first_match-one p ps f rest raw otherwise found ih =
      let one = test_pattern-one p.match raw f found in
      elim (Bool-cases (f raw)) [
        | inl e ↦ ground (arith, one, e)
        | inr e ↦ ground (arith, one, e, ih)
      ]

  -- A rule's patterns decide a description as the test that the page shows says of that title: the
  -- first pattern that is tested to match it gives the description.
  pub first_match-tested :
      (i : ℕ) (process : Text) (j : ℕ) (ps : List TitlePattern) (cs : List CompiledPattern)
      (raw otherwise : Text)
      → compile_patterns go i process j ps ≡ gives cs
      → first_match cs raw otherwise ≡ first_tested ps raw otherwise
  unfolding first_match compile_patterns
  first_match-tested i process j [] cs raw otherwise h =
      let none_left : cs ≡ [] = ground (arith, h) in
      ap (λ ds. first_match ds raw otherwise) none_left
  first_match-tested i process j (p ∷ ps) cs raw otherwise h =
      let (f, rest, found, more, e) = compile_patterns-step go i process j p ps cs h in
      let ih = first_match-tested i process (j + 1) ps rest raw otherwise more in
      ap (λ ds. first_match ds raw otherwise) e ∙ first_match-one p ps f rest raw otherwise found ih
