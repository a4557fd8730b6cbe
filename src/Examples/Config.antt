-- ===== src/Examples/Config.antt =====
-- The rules, the rule editor and the confirmation gate.
use cyberstalk_me.Base.{
  ◌≡◌, refl, codes, trim, get_elem?, erase_idx, text_eq, to_lower, arith, some, none, [], ◌∷◌, map,
}
use cyberstalk_me.Api.{Draft, TitlePattern}
use cyberstalk_me.Numbers.{pos}
use cyberstalk_me.Rules.{
  normalize_process, add, update_rule, same_process, move_pattern, remove_rule, exposes_title,
  set_expose_title, duplicate_processes, patterns_of,
}
use cyberstalk_me.Rules.Move.{patterns_at, move_pattern_lem}
use cyberstalk_me.Rules.Expose.{NoOrphans, has_rule}
use cyberstalk_me.RuleEditor.{apply, delete_rule}
use cyberstalk_me.RuleEditor.Orphans.{apply-NoOrphans}
use cyberstalk_me.Confirm.{confirmation_matches}
use cyberstalk_me.DangerZone.{Zone, Action, confirm, act}
use cyberstalk_me.DangerZone.Gate.{Confirmed, IsSafe, act-Confirmed}
use cyberstalk_me.Examples.Samples.{rule_of, chrome, draft_with, chrome_draft}

moved_up :
    map
      (λ (p : TitlePattern). p.match)
      (patterns_at (move_pattern chrome_draft 0 (pos 2) (pos 0)) 0)
    ≡ codes "mail" ∷ codes "youtube" ∷ codes "github" ∷ []
unfolding move_pattern patterns_at patterns_of update_rule
moved_up = refl

move_pattern_lem_example :
    let after = move_pattern chrome_draft 0 (pos 2) (pos 0) in
    (get_elem? (patterns_at after 0) 0 ≡ get_elem? (patterns_at chrome_draft 0) 2)
    × (erase_idx (patterns_at after 0) 0 ≡ erase_idx (patterns_at chrome_draft 0) 2)
    × (erase_idx after.rules 0 ≡ erase_idx chrome_draft.rules 0)
unfolding patterns_at patterns_of
move_pattern_lem_example = move_pattern_lem chrome_draft 0 2 0 (omega arith) (omega arith)

abbrev two_rules : Draft
two_rules =
    draft_with (rule_of (codes "code.exe") ∷ chrome ∷ [])
      (codes "Chrome.EXE" ∷ codes "code.exe" ∷ [])

two_rules-NoOrphans : NoOrphans two_rules
unfolding has_rule same_process normalize_process trim to_lower text_eq
two_rules-NoOrphans = (refl, (refl, tt))

removed_with_its_entry : (remove_rule two_rules 1).expose_title ≡ codes "code.exe" ∷ []
unfolding remove_rule same_process normalize_process trim to_lower text_eq
removed_with_its_entry = refl

apply-NoOrphans_example : NoOrphans (apply two_rules (delete_rule 1))
apply-NoOrphans_example = apply-NoOrphans two_rules (delete_rule 1) tt two_rules-NoOrphans

abbrev pasted : Draft
pasted =
    draft_with
      (rule_of (codes "code.exe")
        ∷ rule_of (codes "CODE.EXE")
        ∷ rule_of (codes "  code.exe  ")
        ∷ rule_of (codes "chrome.exe")
        ∷ rule_of []
        ∷ rule_of []
        ∷ [])
      []

marked : duplicate_processes pasted ≡ codes "code.exe" ∷ []
unfolding duplicate_processes add normalize_process trim to_lower text_eq
marked = refl

abbrev closed_zone : Zone
closed_zone = record {
  draft = draft_with (chrome ∷ []) [];
  pending = none;
  typed = [];
  titles = none;
}

abbrev typed_zone : Zone
typed_zone = record closed_zone { pending = some (codes "chrome.exe"); typed = codes "chrome.EXE" }

act-Confirmed_example :
    (◌≡◌ {A = Action} confirm confirm) × Confirmed typed_zone (codes "Chrome.exe")
unfolding act exposes_title set_expose_title confirmation_matches same_process normalize_process
    trim to_lower text_eq
act-Confirmed_example = act-Confirmed typed_zone confirm (codes "Chrome.exe") refl refl

closed_zone-IsSafe : IsSafe closed_zone
closed_zone-IsSafe = record { no_orphans = tt; asks_for_rule = λ p e. cc }
