-- ===== src/Agent/Refused.antt =====
-- A save that the agent does not make, on the page: `handleSave` of
-- client-windows/internal/setup/server.go, `SaveResult` in JSON, and `request` of
-- client-windows/webui/src/lib/api.ts.
use cyberstalk_me.Base.{ℕ, ◌≡◌, ap, Bool, false, Option, none, some, Text, codes, map, arith}
use cyberstalk_me.Wire.Json.{Json, bool, str, arr, obj, Fields, field, end, items}
use cyberstalk_me.Api.{ValidationIssue, SaveResult}
use cyberstalk_me.Client.Answers.{Reply, replied, api_error, receive}
use cyberstalk_me.Agent.Config.{Library, ValidationError, validate}
use cyberstalk_me.Agent.Setup.{Session, Server, handle_save, save_answer}

-- The keys of a `ValidationIssue` and of a `SaveResult`; `omitempty` leaves out what is none.
abbrev pub unless_none : {A : Type 0} → Option A → (A → Fields → Fields) → Fields → Fields
unless_none none f rest = rest
unless_none (some v) f rest = f v rest

abbrev pub issue_json : ValidationIssue → Json
issue_json issue = obj (
    field "message" (str issue.message)
      (unless_none issue.fields (λ fs rest. field "fields" (arr (items (map str fs))) rest) end))

abbrev pub save_json : SaveResult → Json
save_json result = obj (
    field "saved" (bool result.saved) (
      field "config_path" (str result.config_path) (
        unless_none result.backup_path (λ p rest. field "backup_path" (str p) rest)
          (unless_none result.error (λ e rest. field "error" (issue_json e) rest) end))))

abbrev pub save_response : ℕ → SaveResult → Reply
save_response status result = replied (record { status = status; body = some (save_json result) })

module _ (lib : Library) (string_of : Json → Text) where
  -- The page reads the `error` of an answer as a text, and the agent sends an object: of a save
  -- that fails, in the validation or in the write, the message is the one that JavaScript has for
  -- every object, and the problem and its fields are lost.
  pub refused_save_unreadable :
      (session : Session) (had_file : Bool) (write_error : Option Text) (s : Server)
      → ((fields : Fields) → string_of (obj fields) ≡ codes "[object Object]")
      → (handle_save lib session had_file write_error s).1.saved ≡ false
      → let (status, result, s2) = handle_save lib session had_file write_error s in
        receive string_of (save_response status result) ≡ api_error (codes "[object Object]") status
  unfolding handle_save receive
  refused_save_unreadable session had_file write_error s of_object =
      by_validation (validate lib session.config_path s.draft) write_error
    where
      by_validation :
          (problem : Option ValidationError) (e : Option Text)
          → (save_answer lib session had_file s problem e).1.saved ≡ false
          → let (status, result, s2) = save_answer lib session had_file s problem e in
            receive string_of (save_response status result)
            ≡ api_error (codes "[object Object]") status
      by_validation (some p) e h = ap (λ m. api_error m 400) (of_object _)
      by_validation none (some message) h = ap (λ m. api_error m 500) (of_object _)
      by_validation none none h = absurd (ground (arith, h))
