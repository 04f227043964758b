-- ===== src/Gateway/ResponseText/Ink.antt =====
-- The text that is found in a frame is never blank.
use ombot.Prelude.{
  String, ◌≡◌, refl, ◌∙◌, Bool, true, false, not, ◌&&◌, Option, none, some, List, [], ◌∷◌, arith,
  All, Bool-cases, inl, inr, if◌then◌else◌, ◌==◌,
}
use ombot.Js.Text.{◌⧺◌, is_space, trim, join}
use ombot.Js.Text.Trim.{has_ink, trim_empty, has_ink-trim, has_ink-append}
use ombot.Js.Value.{
  Value, str, arr, obj, Items, nil, cons, Fields, end, field, get_field, to_text, member, is_object,
  is_non_empty_string,
}
use ombot.Gateway.ResponseText.{
  found_or, trimmed_or, content_parts, joined_parts, text_from_message_content, text_from_message,
  text_from_payload_data, object_at_message, text_from_payload_object, data_at_data, error_text,
  extract_assistant_text, is_failed_res, is_gateway_accepted_ack,
}

-- what is found is not blank
abbrev pub IsInked : Option String → Type 0
IsInked none = Unit
IsInked (some t) = has_ink t ≡ true

pub is_non_empty-ink : (v : Value) → is_non_empty_string v ≡ true → has_ink (to_text v) ≡ true
unfolding is_non_empty_string to_text
is_non_empty-ink (str s) h = ground (arith, trim_empty s)
is_non_empty-ink _ h = cc

trim-ink : (v : Value) → is_non_empty_string v ≡ true → has_ink (trim (to_text v)) ≡ true
trim-ink v h = has_ink-trim (to_text v) ∙ is_non_empty-ink v h

if-IsInked :
    (b : Bool) (o p : Option String)
    → (b ≡ true → IsInked o)
    → IsInked p
    → IsInked (if b then o else p)
if-IsInked true o p h k = h refl
if-IsInked false o p h k = k

trimmed_or-IsInked : (v : Value) (o : Option String) → IsInked o → IsInked (trimmed_or v o)
trimmed_or-IsInked v o h = if-IsInked (is_non_empty_string v) _ o (trim-ink v) h

found_or-IsInked : (o p : Option String) → IsInked o → IsInked p → IsInked (found_or o p)
found_or-IsInked none p h k = k
found_or-IsInked (some t) p h k = if-IsInked (t == "") p (some t) (λ _. k) h

content_parts-ink : (xs : Items) → All (λ p. has_ink p ≡ true) (content_parts xs)
unfolding content_parts
content_parts-ink nil = tt
content_parts-ink (cons block xs) =
    elim (Bool-cases (is_object block && is_non_empty_string (member block "text"))) [
      | inl full ↦ rw full (trim-ink (member block "text") (ground arith), content_parts-ink xs)
      | inr blank ↦ rw blank (content_parts-ink xs)
    ]

join-ink : (p : String) (ps : List String) → has_ink p ≡ true → has_ink (join "" (p ∷ ps)) ≡ true
unfolding join
join-ink p [] h = h
join-ink p (q ∷ ps) h = rw (has_ink-append, h)

joined_parts-IsInked :
    (ps : List String) → All (λ p. has_ink p ≡ true) ps → IsInked (joined_parts ps)
unfolding joined_parts
joined_parts-IsInked [] h = tt
joined_parts-IsInked (p ∷ ps) h = join-ink p ps h.0

content-IsInked : (v : Value) → IsInked (text_from_message_content v)
unfolding text_from_message_content
content-IsInked (str s) = trimmed_or-IsInked (str s) none tt
content-IsInked (arr xs) = joined_parts-IsInked (content_parts xs) (content_parts-ink xs)
content-IsInked _ = tt

message-IsInked : (v : Value) → IsInked (text_from_message v)
unfolding text_from_message
message-IsInked v = trimmed_or-IsInked v _ (
    if-IsInked (is_object v) _ none
      (λ _.
        trimmed_or-IsInked (member v "text") _
          (found_or-IsInked _ none (content-IsInked (member v "content")) tt))
      tt)

mutual
  unfolding text_from_payload_data

  data-IsInked : (v : Value) → IsInked (text_from_payload_data v)
  data-IsInked (obj fs) = trimmed_or-IsInked (get_field "text" fs) _ (
      if-IsInked (is_non_empty_string (get_field "delta" fs)) _ _
        (is_non_empty-ink (get_field "delta" fs))
        (found_or-IsInked (object_at_message fs) _ (at_message-IsInked fs)
          (found_or-IsInked _ none (content-IsInked (get_field "content" fs)) tt)))
  data-IsInked _ = tt

  at_message-IsInked : (fs : Fields) → IsInked (object_at_message fs)
  at_message-IsInked end = tt
  at_message-IsInked (field k v fs) = elim (Bool-cases (k == "message")) [
    | inl here ↦ rw here (object-IsInked v)
    | inr later ↦ rw later (at_message-IsInked fs)
  ]

  object-IsInked : (v : Value) → IsInked (text_from_payload_object v)
  object-IsInked (str s) = trimmed_or-IsInked (str s) none tt
  object-IsInked (obj fs) = trimmed_or-IsInked (get_field "text" fs) _ (
      found_or-IsInked (data_at_data fs) _ (at_data-IsInked fs) (
        found_or-IsInked _ _ (message-IsInked (get_field "message" fs))
          (found_or-IsInked _ none (content-IsInked (get_field "content" fs)) tt)))
  object-IsInked _ = tt

  at_data-IsInked : (fs : Fields) → IsInked (data_at_data fs)
  at_data-IsInked end = tt
  at_data-IsInked (field k v fs) = elim (Bool-cases (k == "data")) [
    | inl here ↦ rw here (data-IsInked v)
    | inr later ↦ rw later (at_data-IsInked fs)
  ]

error_ink : (b : Bool) (s : String) → has_ink (if b then "[error]" else "[error] " ⧺ s) ≡ true
unfolding has_ink is_space
error_ink true s = refl
error_ink false s = rw (has_ink-append "[error] " s)

error_text-ink : (msg : Value) → has_ink (error_text msg) ≡ true
unfolding error_text
error_text-ink msg = error_ink _ _

found : (o : Option String) {t : String} → IsInked o → o ≡ some t → has_ink t ≡ true
found o {t} h e = rw e at h

-- Whatever the frame, the text that is found in it is not blank.
pub extract_assistant_text-ink :
    (msg : Value) (t : String) → extract_assistant_text msg ≡ some t → has_ink t ≡ true
unfolding extract_assistant_text
extract_assistant_text-ink msg t e =
    found (extract_assistant_text msg)
      (if-IsInked (not (is_object msg)) none _ (λ _. tt)
        (if-IsInked (is_failed_res msg) (some (error_text msg)) _ (λ _. error_text-ink msg)
          (if-IsInked (is_gateway_accepted_ack msg) none _ (λ _. tt)
            (found_or-IsInked _ _ (object-IsInked (member msg "payload")) (
              trimmed_or-IsInked (member msg "payload") _
                (trimmed_or-IsInked (member msg "text") none tt))))))
      e
