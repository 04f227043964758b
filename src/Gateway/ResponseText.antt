-- ===== src/Gateway/ResponseText.antt =====
-- gatewayResponseText.js: the assistant's text in a gateway frame. `null` results are `none`.
-- The functions that call one another recur on the fields of a frame, so they need no fuel.
pub mod Ink
use ombot.Prelude.{
  String, Bool, true, false, ◌&&◌, not, Option, none, some, List, [], ◌∷◌, if◌then◌else◌, ◌==◌,
}
use ombot.Js.Text.{◌⧺◌, trim, to_lower_case, join}
use ombot.Js.Value.{
  Value, str, arr, obj, Items, nil, cons, Fields, end, field, get_field, member, is_object,
  is_nullish, is_text, is_bool, or_else, nullish_else, to_text, is_non_empty_string,
}

-- `if (found) return found;`, or go on
abbrev pub found_or : Option String → Option String → Option String
found_or none rest = rest
found_or (some t) rest = if t == "" then rest else some t

-- `if (isNonEmptyString(v)) return v.trim();`, or go on
abbrev pub trimmed_or : Value → Option String → Option String
trimmed_or v rest = if is_non_empty_string v then some (trim (to_text v)) else rest

-- the loop of `textFromMessageContent`; its second test on a block repeats the first one
unfoldable pub content_parts : Items → List String
content_parts nil = []
content_parts (cons block xs) =
    let parts = content_parts xs in
    if is_object block && is_non_empty_string (member block "text")
    then trim (to_text (member block "text")) ∷ parts
    else parts

unfoldable pub joined_parts : List String → Option String
joined_parts [] = none
joined_parts (p ∷ ps) = some (join "" (p ∷ ps))

unfoldable pub text_from_message_content : Value → Option String
unfolding content_parts joined_parts
text_from_message_content (str s) = trimmed_or (str s) none
text_from_message_content (arr xs) = joined_parts (content_parts xs)
text_from_message_content _ = none

-- the branch on `p.message` of `textFromPayloadObject`
unfoldable pub text_from_message : Value → Option String
unfolding text_from_message_content
text_from_message m = trimmed_or m (
    if is_object m
    then trimmed_or (member m "text")
        (found_or (text_from_message_content (member m "content")) none)
    else none)

unfoldable mutual
  pub text_from_payload_data : Value → Option String
  text_from_payload_data (obj fs) = trimmed_or (get_field "text" fs) (
      if is_non_empty_string (get_field "delta" fs)
      then some (to_text (get_field "delta" fs))
      else found_or (object_at_message fs)
          (found_or (text_from_message_content (get_field "content" fs)) none))
  text_from_payload_data _ = none

  -- `textFromPayloadObject(d.message)`
  pub object_at_message : Fields → Option String
  object_at_message end = none
  object_at_message (field k v fs) =
      if k == "message" then text_from_payload_object v else object_at_message fs

  pub text_from_payload_object : Value → Option String
  text_from_payload_object (str s) = trimmed_or (str s) none
  text_from_payload_object (obj fs) = trimmed_or (get_field "text" fs) (
      found_or (data_at_data fs) (
        found_or (text_from_message (get_field "message" fs))
          (found_or (text_from_message_content (get_field "content" fs)) none)))
  text_from_payload_object _ = none

  -- `textFromPayloadData(p.data)`
  pub data_at_data : Fields → Option String
  data_at_data end = none
  data_at_data (field k v fs) = if k == "data" then text_from_payload_data v else data_at_data fs

abbrev is_none : Option String → Bool
is_none none = true
is_none (some _) = false

unfoldable pub is_gateway_accepted_ack : Value → Bool
is_gateway_accepted_ack msg =
    let p = member msg "payload" in
    if not (is_object msg)
    then false
    else if not (is_object p)
    then to_lower_case (to_text (or_else (member msg "status") (str ""))) == "accepted"
    else to_lower_case
          (to_text (nullish_else (member p "status") (nullish_else (member p "state") (str ""))))
        == "accepted"
      && is_none (text_from_payload_object p)

unfoldable pub error_text : Value → String
error_text msg =
    let e = member msg "error" in
    let err = if is_object e then or_else (member e "message") (member e "code") else e in
    if is_nullish err then "[error]" else "[error] " ⧺ to_text err

unfoldable pub is_failed_res : Value → Bool
is_failed_res msg = is_text (member msg "type") "res" && is_bool (member msg "ok") false

unfoldable pub extract_assistant_text : Value → Option String
extract_assistant_text msg =
    if not (is_object msg)
    then none
    else if is_failed_res msg
    then some (error_text msg)
    else if is_gateway_accepted_ack msg
    then none
    else found_or (text_from_payload_object (member msg "payload"))
        (trimmed_or (member msg "payload") (trimmed_or (member msg "text") none))
