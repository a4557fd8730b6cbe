-- ===== src/Settings.antt =====
-- client-windows/webui/src/components/ConnectionSettings.tsx and AdvancedSettings.tsx, with the
-- messages of components/ui/field.tsx: the forms over the draft's text keys, and the paste that
-- fills four of them. Markup is left out.
pub mod Pasted
pub mod Fields
use cyberstalk_me.Base.{
  ℕ, Bool, true, false, not, ◌||◌, Option, none, some, List, [], ◌∷◌, ◌++◌, Text, codes, text_eq,
  is_empty, any, map, length, show, if◌then◌else◌,
}
use cyberstalk_me.Api.{Draft}
use cyberstalk_me.Snippet.{
  ParsedConnection, Key, server_url_key, device_id_key, token_key, interval_key, key_text,
  parse_register_snippet,
}

-- `fields.includes(key)`.
abbrev pub flagged : List Text → Text → Bool
flagged fields key = any (λ f. text_eq f key) fields

-- `{ ...d, ...parsed }`: a key that the snippet lacks keeps its value.
abbrev pub over : Text → Option Text → Text
over old none = old
over old (some new) = new

unfoldable pub merge : Draft → ParsedConnection → Draft
merge d parsed = record d {
  server_url = over d.server_url parsed.server_url;
  device_id = over d.device_id parsed.device_id;
  token = over d.token parsed.token;
  interval = over d.interval parsed.interval;
}

-- `Object.keys(parsed)`, whose order shows nowhere.
abbrev key_if : Key → Option Text → List Text
key_if key none = []
key_if key (some _) = key_text key ∷ []

unfoldable pub keys_of : ParsedConnection → List Text
keys_of parsed =
    key_if server_url_key parsed.server_url
    ++ (key_if device_id_key parsed.device_id
        ++ (key_if token_key parsed.token ++ key_if interval_key parsed.interval))

-- The form's own state.
pub record Form : Type 0 where
  pub show_token : Bool
  pub pasted : Option (List Text)

abbrev pub closed_form : Form
closed_form = record { show_token = false; pasted = none }

-- `handlePaste`: the edit it makes, if it takes the paste over, and the form after it.
unfoldable pub handle_paste : Text → Form → Option (Draft → Draft) × Form
unfolding parse_register_snippet merge keys_of
handle_paste text form = elim (parse_register_snippet text) [
  | none ↦ (none, form)
  | some parsed ↦ (some (λ d. merge d parsed), record form { pasted = some (keys_of parsed) })
]

unfoldable pub toggle_token : Form → Form
toggle_token form = record form { show_token = not form.show_token }

-- The text keys that the two forms edit.
pub data TextKey : Type 0 where
  server_url device_id token interval device_name idle_threshold : TextKey
  default_app default_description locked_app locked_description : TextKey

-- `onChange` of a field: `{ ...d, key: value }`.
unfoldable pub set_text : TextKey → Text → Draft → Draft
set_text server_url v d = record d { server_url = v }
set_text device_id v d = record d { device_id = v }
set_text token v d = record d { token = v }
set_text interval v d = record d { interval = v }
set_text device_name v d = record d { device_name = v }
set_text idle_threshold v d = record d { idle_threshold = v }
set_text default_app v d = record d { default_app = v }
set_text default_description v d = record d { default_description = v }
set_text locked_app v d = record d { locked_app = v }
set_text locked_description v d = record d { locked_description = v }

-- One `Field`: its label, hint and error, and its input. `error` stands under the control as an
-- alert, and `invalid` marks the input.
pub record FieldView : Type 0 where
  pub label : Text
  pub hint : Option Text
  pub error : Option Text
  pub value : Text
  pub placeholder : Text
  pub invalid : Bool
  pub masked : Bool

abbrev error_if : Bool → Text → Option Text
error_if bad message = if bad then some message else none

unfoldable pub connection_fields : Draft → Draft → List Text → Form → List FieldView
connection_fields draft defaults fields form =
    record {
      label = codes "服务端地址";
      hint = none;
      error =
          error_if (flagged fields (codes "server_url")) (codes "需要形如 http://host:port 的地址，末尾不带路径");
      value = draft.server_url;
      placeholder = codes "http://localhost:8080";
      invalid = flagged fields (codes "server_url");
      masked = false;
    }
    ∷ record {
      label = codes "设备 ID";
      hint = none;
      error = error_if (flagged fields (codes "device_id")) (codes "设备 ID 不能为空");
      value = draft.device_id;
      placeholder = codes "win-desktop";
      invalid = flagged fields (codes "device_id");
      masked = false;
    }
    ∷ record {
      label = codes "设备令牌";
      hint = some (codes "注册设备时打印的那串，它是密码");
      error = error_if (flagged fields (codes "token")) (codes "令牌不能为空");
      value = draft.token;
      placeholder = [];
      invalid = flagged fields (codes "token");
      masked = not form.show_token;
    }
    ∷ record {
      label = codes "上报间隔";
      hint = some (codes "留空按 " ++ defaults.interval);
      error = error_if (flagged fields (codes "interval")) (codes "写法形如 10s、1m30s，或直接写秒数");
      value = draft.interval;
      placeholder = defaults.interval;
      invalid = flagged fields (codes "interval");
      masked = false;
    }
    ∷ []

-- The line under the form.
unfoldable pub paste_notice : Form → Option Text
paste_notice form = elim form.pasted [
  | none ↦ none
  | some keys ↦ some (codes "已从粘贴内容里认出 " ++ (show (length keys) ++ codes " 个字段"))
]
