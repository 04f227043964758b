-- ===== src/Gateway/Fallback.antt =====
-- providerFallbackClient.js: a turn that an OpenAI-compatible provider answers. `fetch`, the time
-- limit and the read of its body are a parameter.
pub mod Address
use Prim.Native.String.{[], ◌∷◌}
use mathlib.Core.List.{[], ◌∷◌}
use ombot.Prelude.{
  ℕ, Char, code, String, Bool, true, false, ◌&&◌, not, Option, none, some, List, eqb, keep,
  if◌then◌else◌, ◌==◌,
}
use ombot.Js.Text.{◌⧺◌, trim, ends_with, take_chars, decimal, join}
use ombot.Js.Value.{
  Number, nonneg, Value, undefined, null, num, str, arr, obj, Items, nil, cons, Fields, end, field,
  member, truthy, is_object,
}
use ombot.Js.Json.{json}
use ombot.Js.Runtime.{Runtime, env_or}
use ombot.Gateway.ErrorClassifier.{Classified, classify_gateway_error}
use ombot.Gateway.Client.Connect.{drop_last}

abbrev without_slash_before : Char → String → String
without_slash_before c rest = if eqb (code c) b'/' && (rest == "") then "" else c ∷ rest

-- `base.replace(/\/+$/, '')`
unfoldable pub without_slashes : String → String
without_slashes [] = []
without_slashes (c ∷ s) = without_slash_before c (without_slashes s)

unfoldable pub normalize_open_ai_base_url : String → String
unfolding without_slashes
normalize_open_ai_base_url raw =
    let base = trim raw in
    if base == ""
    then "https://api.openai.com/v1"
    else if ends_with base "/v1"
    then base
    else if ends_with base "/v1/"
    then drop_last base
    else without_slashes base ⧺ "/v1"

abbrev chunk : Value → String
chunk v = elim (member v "text") [ str s ↦ s | _ ↦ "" ]

unfoldable pub chunks : Items → List String
chunks nil = []
chunks (cons v items) =
    if is_object v && not (chunk v == "") then chunk v ∷ chunks items else chunks items

abbrev joined : List String → Option String
joined [] = none
joined (s ∷ ss) = some (join "\n" (s ∷ ss))

unfoldable pub content_text : Value → Option String
unfolding chunks
content_text (str s) = some s
content_text (arr items) = joined (chunks items)
content_text _ = none

abbrev first_choice : Value → Value
first_choice (arr (cons v items)) = v
first_choice (arr nil) = undefined
first_choice _ = null

unfoldable pub extract_content_from_chat_completion : Value → Option String
unfolding content_text
extract_content_from_chat_completion v =
    let message = member (first_choice (member v "choices")) "message" in
    if truthy message then content_text (member message "content") else none

pub record Response : Type 0 where
  pub ok : Bool
  pub status : ℕ
  pub body : String

-- the errors of `completeUserTurn`, with the class of the provider's answer
pub data Completion : Type 0 where
  completed : String → Completion
  not_configured request_failed unreadable_body empty_response : Completion
  http_error : String → Classified → Completion

module _ (rt : Runtime) where
  unfoldable pub open_ai_api_key : String
  open_ai_api_key = trim (env_or rt "OPENAI_API_KEY" "")

  unfoldable pub is_configured : Bool
  unfolding open_ai_api_key
  is_configured = not (open_ai_api_key == "")

  unfoldable pub open_ai_base_url : String
  unfolding normalize_open_ai_base_url
  open_ai_base_url = normalize_open_ai_base_url (env_or rt "OPENAI_BASE_URL" "")

  unfoldable pub model : String
  model =
      trim (env_or rt "OPENCLAW_FALLBACK_OPENAI_MODEL" (env_or rt "OPENAI_MODEL" "gpt-4.1-mini"))

  abbrev pub first_text : Option String → Completion
  first_text none = empty_response
  first_text (some text) = if text == "" then empty_response else completed text

  abbrev pub completion_of : Option Value → Completion
  completion_of none = unreadable_body
  completion_of (some v) = first_text (extract_content_from_chat_completion v)

  abbrev pub completion : Option Response → Completion
  completion none = request_failed
  completion (some response) =
      if response.ok
      then completion_of (rt.parse_json response.body)
      else http_error
          ("fallback_provider_http_" ⧺ decimal response.status ⧺ ":" ⧺ take_chars 300 response.body)
          (classify_gateway_error (str response.body))

  -- the messages of the request; `String(userText || '')` is the text
  unfoldable pub request_messages : String → Value
  request_messages text = arr (
      cons
        (obj (
          field "role" (str "system") (
            field "content"
              (str
                "You are Ombot fallback mode. Be concise and say fallback mode is active if relevant.")
              end)))
        (cons (obj (field "role" (str "user") (field "content" (str text) end))) nil))

  -- `fetch` gives the answer for the address and the messages, `none` where it throws or is aborted
  unfoldable pub complete_user_turn : (String → Value → Option Response) → String → Completion
  unfolding is_configured open_ai_base_url request_messages extract_content_from_chat_completion
  complete_user_turn fetch text =
      if not is_configured
      then not_configured
      else completion (fetch (open_ai_base_url ⧺ "/chat/completions") (request_messages text))
