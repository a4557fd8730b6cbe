-- ===== src/Client/Answers.antt =====
-- What `request` and `streamCatalog` make of the agent's answer. `string_of` is `String`, for the
-- message of an error that is no text.
use cyberstalk_me.Base.{
  ℕ, zero, Bool, true, false, not, ◌&&◌, Option, none, some, [], ◌++◌, Text, codes, is_empty, leb,
  ltb, ◌==◌, show, if◌then◌else◌,
}
use cyberstalk_me.Numbers.{nan, finite, pos}
use cyberstalk_me.Wire.Json.{Json, null, bool, num, str, arr, obj, get}

-- A response: its status, and its body as `response.json()` gives it, which throws at `none`.
pub record Response : Type 0 where
  pub status : ℕ
  pub body : Option Json

-- `fetch` rejects, or resolves to a response.
pub data Reply : Type 0 where
  rejected : Reply
  replied : Response → Reply

-- The value, an `ApiError`, or the error of a body that is no JSON.
pub data Outcome : Type 0 where
  value : Json → Outcome
  api_error : (message : Text) (status : ℕ) → Outcome
  syntax_error : Outcome

-- `response.ok`.
abbrev pub is_ok : ℕ → Bool
is_ok status = leb 200 status && ltb status 300

-- Whether a value is truthy.
abbrev pub is_truthy : Option Json → Bool
is_truthy none = false
is_truthy (some null) = false
is_truthy (some (bool b)) = b
is_truthy (some (num nan)) = false
is_truthy (some (num (finite (pos zero)))) = false
is_truthy (some (num _)) = true
is_truthy (some (str s)) = not (is_empty s)
is_truthy (some (arr _)) = true
is_truthy (some (obj _)) = true

-- The message by the status alone.
unfoldable pub status_message : ℕ → Text
status_message status =
    if status == 401
    then codes "会话令牌无效，刷新页面试试"
    else if status == 403
    then codes "请求被拒绝：这个页面不是 agent 打开的那个"
    else codes "请求失败（HTTP " ++ show status ++ codes "）"

module _ (string_of : Json → Text) where
  abbrev pub text_or_string : Option Json → Text
  text_or_string (some (str s)) = s
  text_or_string (some v) = string_of v
  text_or_string none = []

  -- A body that is no JSON, or null, throws inside the `try`.
  unfoldable pub error_message : Response → Text
  unfolding status_message
  error_message response =
      if is_truthy (get "error" response.body)
      then text_or_string (get "error" response.body)
      else status_message response.status

  unfoldable pub receive : Reply → Outcome
  unfolding error_message
  receive rejected = api_error (codes "连不上 agent，它可能已经退出了") 0
  receive (replied response) =
      if is_ok response.status
      then elim response.body [ none ↦ syntax_error | some v ↦ value v ]
      else api_error (error_message response) response.status

  -- What `streamCatalog` throws before it reads, if anything.
  unfoldable pub open_stream : Response → (has_body : Bool) → Option Outcome
  unfolding error_message
  open_stream response has_body =
      if not (is_ok response.status)
      then some (api_error (error_message response) response.status)
      else if not has_body
      then some (api_error (codes "这个浏览器不支持流式响应") 0)
      else none
