-- ===== src/Examples/Sessions.antt =====
-- The page with the agent: a save, a refused one, an address with a space, and a renamed rule.
use cyberstalk_me.Base.{
  trim, ◌≡◌, refl, true, false, some, none, [], ◌∷◌, ◌++◌, Text, codes, text_eq, if◌then◌else◌,
  show, to_lower,
}
use cyberstalk_me.Numbers.{pos}
use cyberstalk_me.Wire.Json.{Json, obj}
use cyberstalk_me.Api.{Draft}
use cyberstalk_me.Rules.{same_process, normalize_process, update_rule, patterns_of, exposes_title}
use cyberstalk_me.Rules.Expose.{has_rule}
use cyberstalk_me.Client.Answers.{api_error, receive}
use cyberstalk_me.ConfigPage.{Page, initial, loaded, edited, put_ok, save_pressed, save_ok, step}
use cyberstalk_me.Agent.Texts.{normalize}
use cyberstalk_me.Agent.Mapping.{seconds_duration}
use cyberstalk_me.Agent.Config.{normalize_config, parse_duration, format_duration}
use cyberstalk_me.Agent.Config.Usable.{is_startable}
use cyberstalk_me.Agent.Setup.{right, config_of, handle_put_config, handle_save}
use cyberstalk_me.Agent.Setup.Saves.{valid_judges_again}
use cyberstalk_me.Agent.Renamed.{rename_is_refused}
use cyberstalk_me.RuleEditor.{apply, set_process}
use cyberstalk_me.Agent.Warnings.{IsPortable}
use cyberstalk_me.Agent.Refused.{save_response, refused_save_unreadable}
use cyberstalk_me.Agent.Pushed.{save_reaches_file}
use cyberstalk_me.Examples.Samples.{chrome, good_state}
use cyberstalk_me.Examples.Setup.{
  lib, session, draft_at, draft, exposing, config, server, startable, shown, config_of-exposing,
}

-- A space before the last slash of the address stays after the first trimming.
abbrev spaced : Draft
spaced = draft_at (codes "http://h /")

config_of-spaced : config_of lib spaced ≡ right (config spaced)
unfolding config_of config
config_of-spaced = refl

read_back :
    (parse_duration lib (format_duration lib (pos 10000000000)) ≡ some (pos 10000000000))
    × (parse_duration lib (format_duration lib (pos 300000000000)) ≡ some (pos 300000000000))
unfolding format_duration parse_duration text_eq show
read_back = (refl, refl)

valid_judges_again_example :
    let (st, s1) = handle_put_config lib session spaced (server draft) in
    let (status, result, s2) = handle_save lib session true none s1 in
    (st.valid ≡ is_startable lib (normalize_config (config spaced)))
    × (result.saved ≡ is_startable lib (config spaced))
    × (s2.saved
        ≡ (if is_startable lib (config spaced) then some (config spaced) else (server draft).saved))
    × (status ≡ (if is_startable lib (config spaced) then 200 else 400))
unfolding config format_duration show
valid_judges_again_example =
    valid_judges_again lib session spaced (config spaced) (server draft) true config_of-spaced
      (read_back.0, refl) (read_back.1, refl)

-- So the page is told that the draft is valid, and its save is refused.
valid_and_refused :
    (is_startable lib (normalize_config (config spaced)) ≡ true)
    × (is_startable lib (config spaced) ≡ false)
unfolding config text_eq normalize to_lower patterns_of
valid_and_refused = (refl, refl)

-- `String` of an object, for the texts of the test.
abbrev string_of : Json → Text
string_of (obj fields) = codes "[object Object]"
string_of _ = []

refused : (handle_save lib session true none (server spaced)).1.saved ≡ false
unfolding handle_save server
refused = refl

refused_save_unreadable_example :
    let (status, result, s2) = handle_save lib session true none (server spaced) in
    receive string_of (save_response status result) ≡ api_error (codes "[object Object]") status
refused_save_unreadable_example =
    refused_save_unreadable lib string_of session true none (server spaced) (λ fields. refl) refused

abbrev stringify : Draft → Text
stringify d = d.server_url ++ (d.token ++ codes "")

abbrev opened : Page
opened = step stringify initial (loaded (good_state draft))

abbrev edited_page : Page
edited_page =
    step stringify opened (edited (λ d. record d { expose_title = codes "CHROME.EXE" ∷ [] }))

save_reaches_file_example :
    let (st, s1) = handle_put_config lib session edited_page.current (server draft) in
    let (status, result, s2) = handle_save lib session true none s1 in
    let pressed = step stringify edited_page save_pressed in
    let after = step stringify (step stringify pressed (put_ok 0 st)) (save_ok result) in
    (pressed.puts ≡ record { sent = edited_page.current; for_save = true } ∷ [])
    × (s2.saved ≡ some (config exposing))
    × (after.current ≡ edited_page.current)
    × (after.dirty ≡ false)
    × (after.saving ≡ false)
unfolding step
save_reaches_file_example =
    save_reaches_file lib session stringify edited_page (server draft) (config exposing) true refl
      refl refl config_of-exposing shown startable

-- A bare count of seconds wraps: more than five hundred years are less than a second.
wrapped : seconds_duration 18446744074 ≡ pos 290448384
unfolding seconds_duration
wrapped = refl

abbrev renamed : Draft
renamed = apply exposing (set_process 0 (codes "edge.exe"))

config_of-renamed : config_of lib renamed ≡ right (config renamed)
unfolding config_of config apply update_rule
config_of-renamed = refl

renamed-IsPortable : IsPortable renamed
unfolding apply update_rule
renamed-IsPortable = ((refl, tt), (refl, tt))

switched_on : exposes_title exposing (codes "chrome.exe") ≡ true
unfolding exposes_title same_process text_eq normalize_process to_lower trim
switched_on = refl

rename_is_refused_example :
    let (st, s1) = handle_put_config lib session renamed (server draft) in
    let (status, result, s2) = handle_save lib session true none s1 in
    (result.saved ≡ false) × (s2.saved ≡ (server draft).saved) × (status ≡ 400)
unfolding has_rule same_process normalize_process trim to_lower text_eq
rename_is_refused_example =
    rename_is_refused lib session exposing 0 (codes "edge.exe") chrome (config renamed)
      (server draft) true refl switched_on refl refl config_of-renamed renamed-IsPortable
