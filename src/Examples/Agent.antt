-- ===== src/Examples/Agent.antt =====
-- The configuration page with its agent: the catalog stream, refusals, a paste, discovery, and the
-- test of a pattern.
use mathlib.Core.List.{flatten}
use cyberstalk_me.Base.{
  length, map, ◌≡◌, refl, ◌||◌, true, false, Option, some, none, List, [], ◌∷◌, Text, codes,
  text_eq, trim, ◌==◌, if◌then◌else◌, arith,
}
use cyberstalk_me.Wire.Json.{Json, str, obj, field, end}
use cyberstalk_me.Api.{CatalogSnapshot, Draft, RegexTestResult}
use cyberstalk_me.Rules.{normalize_process, has, duplicate_processes}
use cyberstalk_me.ConfigPage.View.{discovered_rule}
use cyberstalk_me.Client.Frames.{split_frame, payload_of, deliver, drain, take_in, read_all}
use cyberstalk_me.Client.Reading.{drain_terminates, read_all-flatten}
use cyberstalk_me.Client.Delivery.{snapshots, read_all-sent}
use cyberstalk_me.Client.Answers.{Reply, replied, receive, error_message, api_error}
use cyberstalk_me.Client.Calls.{session_token}
use cyberstalk_me.Snippet.{server_url_key, token_key, nothing}
use cyberstalk_me.Snippet.Printed.{printed, set_all}
use cyberstalk_me.Settings.{closed_form, handle_paste, keys_of}
use cyberstalk_me.Settings.Pasted.{typed, handle_paste-printed}
use cyberstalk_me.Discovery.{is_configured, delivered, mounted as catalog_mounted}
use cyberstalk_me.Discovery.Followed.{after, last_or, last_snapshot_shown}
use cyberstalk_me.Discovery.Offers.{discovered_rule_lem}
use cyberstalk_me.RuleEditor.PatternTest.{
  render, timer_fired, earlier_answered, latest_answered, answer_state, mounted, step, run,
}
use cyberstalk_me.RuleEditor.PatternTest.Answered.{answer_of_rendered}
use cyberstalk_me.Examples.Samples.{rule_of, chrome, chrome_draft, draft_with}
use cyberstalk_me.Examples.Pasting.{url, secret, url-IsPlain, secret-IsPlain}

-- A reader of payloads that drops those that begin with an x.
abbrev parse : Text → Option Text
parse [] = none
parse (c ∷ s) = if c == 120 then none else some (c ∷ s)

abbrev payloads : List Text
payloads = codes "one" ∷ codes "x" ∷ [] ∷ codes "two" ∷ []

-- The stream, cut inside a prefix and between two line breaks.
abbrev chunks : List Text
chunks = codes "data: one\n" ∷ codes "\nda" ∷ codes "ta: x\n\ndata: \n\ndata: two\n\ndata: th" ∷ []

chunks_run : read_all parse [] chunks ≡ (codes "one" ∷ codes "two" ∷ [], codes "data: th")
unfolding read_all take_in drain deliver payload_of split_frame
chunks_run = refl

read_all-sent_example : read_all parse [] chunks ≡ (snapshots parse payloads, codes "data: th")
unfolding split_frame flatten
read_all-sent_example = read_all-sent parse payloads chunks (codes "data: th") refl refl refl

-- Snapshots that are told apart by whether the screen is locked.
abbrev read_snapshot : Text → Option CatalogSnapshot
read_snapshot s = elim (parse s) [
  | none ↦ none
  | some t ↦
      some (record { apps = none; locked = length t == 3; locked_seen = 0; observations = 1 })
]

last_snapshot_shown_example :
    (after (map delivered (read_all read_snapshot [] chunks).0) catalog_mounted).snapshot
    ≡ last_or none (snapshots read_snapshot payloads)
unfolding split_frame flatten
last_snapshot_shown_example =
    last_snapshot_shown read_snapshot payloads chunks (codes "data: th") refl refl refl

read_all-flatten_example :
    read_all parse (codes "da") (codes "ta: one\n" ∷ codes "\n" ∷ [])
    ≡ drain parse 11 (codes "data: one\n\n")
unfolding split_frame flatten
read_all-flatten_example =
    read_all-flatten parse (codes "ta: one\n" ∷ codes "\n" ∷ []) (codes "da") refl

drain_terminates_example :
    (split_frame (drain parse 20 (codes "data: one\n\ndata")).1 ≡ none)
    × (drain parse 27 (codes "data: one\n\ndata") ≡ drain parse 20 (codes "data: one\n\ndata"))
drain_terminates_example = drain_terminates parse 20 7 (codes "data: one\n\ndata") (omega arith)

-- The text of a value that is no text.
abbrev string_of : Json → Text
string_of v = codes "[object Object]"

abbrev refusal : Reply
refusal = replied (record {
  status = 422;
  body = some (obj (field "error" (str (codes "draft is not valid")) end));
})

refusal_is_shown : receive string_of refusal ≡ api_error (codes "draft is not valid") 422
unfolding receive error_message
refusal_is_shown = refl

query_is_ignored : session_token (some (codes "__SETUP_TOKEN__")) false (some (codes "t")) ≡ []
unfolding session_token
query_is_ignored = refl

handle_paste-printed_example :
    (change : Draft → Draft) × (handle_paste
        (printed ((server_url_key, url) ∷ (token_key, secret) ∷ []))
        closed_form
      ≡ (
        some change,
        record closed_form {
          pasted =
              some (keys_of (set_all ((server_url_key, url) ∷ (token_key, secret) ∷ []) nothing));
        },
      ))
    × (change chrome_draft ≡ typed ((server_url_key, url) ∷ (token_key, secret) ∷ []) chrome_draft)
handle_paste-printed_example =
    handle_paste-printed server_url_key url ((token_key, secret) ∷ []) closed_form chrome_draft
      (url-IsPlain, (secret-IsPlain, tt))

discovered_rule_lem_example :
    let after = discovered_rule (codes "code.exe") chrome_draft in
    (is_configured after (codes "CODE.exe")
      ≡ is_configured chrome_draft (codes "CODE.exe")
        || text_eq (normalize_process (codes "code.exe")) (normalize_process (codes "CODE.exe")))
    × (has (duplicate_processes after) (codes "CODE.exe")
        ≡ has (duplicate_processes chrome_draft) (codes "CODE.exe"))
    × (discovered_rule (codes "code.exe") after ≡ after)
discovered_rule_lem_example = discovered_rule_lem (codes "code.exe") (codes "CODE.exe") chrome_draft

abbrev two_rules : Draft
two_rules = draft_with (rule_of (codes "code.exe") ∷ chrome ∷ []) []

abbrev result : RegexTestResult
result = record { valid = true; error = none; matched = true ∷ []; match_count = 1; titles = none }

-- The row shows one pattern, then another before the first is answered.
answer_of_rendered_example :
    (run (earlier_answered 0 none ∷ []) (
      step (latest_answered (some result)) (
        run (earlier_answered 0 none ∷ []) (
          step timer_fired (
            step
              (render (codes "mail") (codes "chrome.exe"))
              (run (timer_fired ∷ []) (mounted (codes "mai") (codes "chrome.exe")))))))).shown
    ≡ answer_state (some result)
unfolding run step mounted text_eq trim
answer_of_rendered_example =
    answer_of_rendered (timer_fired ∷ []) (codes "mai") (codes "chrome.exe") (codes "mail")
      (codes "chrome.exe") (some result) (earlier_answered 0 none ∷ [])
      (earlier_answered 0 none ∷ []) refl refl (refl, tt) (refl, tt)
