-- ===== src/Confirm.antt =====
-- client-windows/webui/src/lib/confirm.ts: the phrase that has to be typed to expose a process.
use cyberstalk_me.Base.{Bool, false, Text, text_eq, is_empty, trim, to_lower, if◌then◌else◌}

unfoldable pub confirmation_phrase : Text → Text
confirmation_phrase process = trim process

unfoldable pub confirmation_matches : Text → Text → Bool
unfolding confirmation_phrase
confirmation_matches input process =
    let required = confirmation_phrase process in
    if is_empty required then false else text_eq (to_lower (trim input)) (to_lower required)
