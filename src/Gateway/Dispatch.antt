-- ===== src/Gateway/Dispatch.antt =====
-- gatewayAssistantDispatch.js: which gateway frames reach the phone, each turn once.
pub mod Once
use ombot.Prelude.{
  String, Bool, true, false, ◌&&◌, ◌||◌, not, Option, none, some, some_or, List, [], ◌∷◌,
  if◌then◌else◌, ◌==◌,
}
use ombot.Js.Text.{trim, to_lower_case}
use ombot.Js.Value.{
  Value, null, bool, str, obj, end, field, member, is_object, is_text, nullish_else, to_text,
  is_non_empty_string,
}
use ombot.Gateway.ResponseText.{extract_assistant_text, is_gateway_accepted_ack}
use ombot.Gateway.Deduper.{Deduper, should_deliver}

-- the loop over the candidates of `extractGatewayRunId`
unfoldable pub first_non_empty : List Value → Option String
first_non_empty [] = none
first_non_empty (c ∷ cs) =
    if is_non_empty_string c then some (trim (to_text c)) else first_non_empty cs

abbrev pub run_id_candidates : Value → List Value
run_id_candidates msg =
    let p = member msg "payload" in
    member msg "runId"
    ∷ member msg "idempotencyKey"
    ∷ member p "runId"
    ∷ member p "idempotencyKey"
    ∷ member (member p "data") "runId"
    ∷ member (member p "data") "idempotencyKey"
    ∷ []

unfoldable pub extract_gateway_run_id : Value → Option String
extract_gateway_run_id msg =
    if not (is_object msg)
    then none
    else some_or (first_non_empty (run_id_candidates msg))
        (if is_text (member msg "type") "res" then first_non_empty (member msg "id" ∷ []) else none)

abbrev pub is_event : Value → String → Bool
is_event msg name = is_text (member msg "type") "event" && is_text (member msg "event") name

unfoldable pub is_chat_final_event : Value → Bool
is_chat_final_event msg =
    let p = member msg "payload" in
    let state = if is_object p then member p "state" else null in
    is_event msg "chat"
    && to_lower_case (to_text (nullish_else state (nullish_else (member msg "state") (str ""))))
      == "final"

unfoldable pub is_agent_lifecycle_end_event : Value → Bool
is_agent_lifecycle_end_event msg =
    let p = member msg "payload" in
    let data' = if is_object (member p "data") then member p "data" else obj end in
    let phase = to_lower_case (
      to_text (
        nullish_else (member p "phase") (
          nullish_else (member p "lifecycle") (
            nullish_else (member data' "phase")
              (nullish_else (member data' "lifecycle") (str "")))))) in
    let stream = to_lower_case (
      to_text (nullish_else (member p "stream") (nullish_else (member data' "stream") (str "")))) in
    is_event msg "agent"
    && is_object p
    && (phase == "end"
        || phase == "done"
        || phase == "complete"
        || stream == "lifecycle" && (phase == "end" || is_text (member data' "status") "end"))

pub data Reason : Type 0 where
  invalid connect_challenge chat_final agent_lifecycle_end agent_stream other_event : Reason
  accepted_ack res ignored : Reason

pub record Delivery : Type 0 where
  pub deliver : Bool
  pub text : Option String
  pub run_id : Option String
  pub reason : Reason

-- `Boolean(text)`
abbrev pub has_text : Option String → Bool
has_text none = false
has_text (some t) = not (t == "")

abbrev pub silent : Option String → Reason → Delivery
silent id why = record { deliver = false; text = none; run_id = id; reason = why }

abbrev pub spoken : Option String → Option String → Reason → Delivery
spoken t id why = record { deliver = has_text t; text = t; run_id = id; reason = why }

-- `{ type: 'res', ok: true, payload: msg.payload }`
abbrev pub as_res : Value → Value
as_res msg =
    obj (
      field "type" (str "res")
        (field "ok" (bool true) (field "payload" (member msg "payload") end)))

unfoldable pub evaluate_event : Value → Delivery
evaluate_event msg =
    let id = extract_gateway_run_id msg in
    let t = extract_assistant_text (as_res msg) in
    if is_text (member msg "event") "connect.challenge"
    then silent none connect_challenge
    else if is_chat_final_event msg
    then spoken t id chat_final
    else if is_text (member msg "event") "agent"
    then (if is_agent_lifecycle_end_event msg
        then spoken t id agent_lifecycle_end
        else silent id agent_stream)
    else silent id other_event

unfoldable pub evaluate_gateway_assistant_delivery : Value → Delivery
unfolding evaluate_event
evaluate_gateway_assistant_delivery msg =
    let id = extract_gateway_run_id msg in
    if not (is_object msg)
    then silent none invalid
    else if is_text (member msg "type") "event"
    then evaluate_event msg
    else if is_text (member msg "type") "res"
    then (if is_gateway_accepted_ack msg
        then silent id accepted_ack
        else spoken (extract_assistant_text msg) id res)
    else silent none ignored

-- the text to deliver, and the deduper afterwards
unfoldable pub assistant_text_for_consumer : Value → Deduper → Option String × Deduper
assistant_text_for_consumer msg d =
    let decision = evaluate_gateway_assistant_delivery msg in
    if not decision.deliver || not (has_text decision.text)
    then (none, d)
    else let (fresh, d') = should_deliver decision.run_id decision.text d in
      (if fresh then decision.text else none, d')
