-- ===== src/Examples/Replies.antt =====
-- The gateway's side at two frames of one run, and the errors that it reports.
use ombot.Prelude.{
  String, ◌≡◌, refl, ◌↔◌, true, false, some, none, [], ◌∷◌, arith, ◌<◌, length, Bool, ◌==◌,
}
use ombot.Js.Text.{trim, to_lower_case}
use ombot.Js.Value.{Value, str, num, bool, nonneg, obj, end, field}
use ombot.Gateway.ResponseText.{extract_assistant_text}
use ombot.Gateway.Deduper.{Deduper, new, should_deliver}
use ombot.Gateway.Deduper.Refinement.{
  Refines, new-Refines, is_fresh, extended, should_deliver_iff, deliver_all, run_delivered_once,
}
use ombot.Gateway.Dispatch.{
  extract_gateway_run_id, evaluate_gateway_assistant_delivery, assistant_text_for_consumer,
}
use ombot.Gateway.Dispatch.Once.{IsSpoken, evaluate-IsSpoken, one_bubble_per_run}
use ombot.Gateway.ErrorClassifier.{
  to_flat_error_string, includes_any, network_needles, pairing_needles, scope_needles,
  provider_needles, schedules_repair_on_transport_error,
}
use ombot.Gateway.ErrorClassifier.Order.{repair_iff}

abbrev chat_final : Value
chat_final = obj (
    field "type" (str "event") (
      field "event" (str "chat") (
        field "payload"
          (obj (
            field "runId" (str "r1")
              (field "state" (str "final") (field "text" (str "hello") end))))
          end)))

abbrev lifecycle_end : Value
lifecycle_end = obj (
    field "type" (str "event") (
      field "event" (str "agent") (
        field "payload"
          (obj (
            field "runId" (str "r1")
              (field "phase" (str "end") (field "text" (str "hello again") end))))
          end)))

chat_final-run : extract_gateway_run_id chat_final ≡ some "r1"
unfolding extract_gateway_run_id ombot.Js.Value.is_object ombot.Gateway.Dispatch.first_non_empty
    ombot.Js.Value.is_non_empty_string ombot.Js.Value.member trim ombot.Js.Value.to_text
chat_final-run = refl

lifecycle_end-run : extract_gateway_run_id lifecycle_end ≡ some "r1"
unfolding extract_gateway_run_id ombot.Js.Value.is_object ombot.Gateway.Dispatch.first_non_empty
    ombot.Js.Value.is_non_empty_string ombot.Js.Value.member trim ombot.Js.Value.to_text
lifecycle_end-run = refl

chat_final-text : extract_assistant_text chat_final ≡ some "hello"
unfolding extract_assistant_text ombot.Js.Value.is_object ombot.Gateway.ResponseText.is_failed_res
    ombot.Js.Value.is_text ombot.Js.Value.member ombot.Gateway.ResponseText.is_gateway_accepted_ack
    to_lower_case ombot.Js.Value.to_text ombot.Js.Value.nullish_else
    ombot.Gateway.ResponseText.text_from_payload_object ombot.Js.Value.is_non_empty_string trim
chat_final-text = refl

chat_final-delivers : (evaluate_gateway_assistant_delivery chat_final).deliver ≡ true
unfolding evaluate_gateway_assistant_delivery ombot.Js.Value.is_object ombot.Js.Value.is_text
    ombot.Js.Value.member ombot.Gateway.Dispatch.is_chat_final_event to_lower_case
    ombot.Js.Value.to_text ombot.Js.Value.nullish_else extract_assistant_text
    ombot.Gateway.ResponseText.is_failed_res ombot.Js.Value.is_bool
    ombot.Gateway.ResponseText.is_gateway_accepted_ack
    ombot.Gateway.ResponseText.text_from_payload_object ombot.Js.Value.is_non_empty_string trim
chat_final-delivers = refl

chat_final-handed_on : (assistant_text_for_consumer chat_final (new 2)).0 ≡ some "hello"
unfolding evaluate_gateway_assistant_delivery ombot.Js.Value.is_object ombot.Js.Value.is_text
    ombot.Js.Value.member ombot.Gateway.Dispatch.is_chat_final_event to_lower_case
    ombot.Js.Value.to_text ombot.Js.Value.nullish_else extract_assistant_text
    ombot.Gateway.ResponseText.is_failed_res ombot.Js.Value.is_bool
    ombot.Gateway.ResponseText.is_gateway_accepted_ack
    ombot.Gateway.ResponseText.text_from_payload_object ombot.Js.Value.is_non_empty_string trim
    assistant_text_for_consumer should_deliver ombot.Gateway.Deduper.reply_key
    ombot.Gateway.Deduper.remember ombot.Gateway.Deduper.evict ombot.Gateway.Deduper.delete
chat_final-handed_on = refl

evaluate-IsSpoken_example : IsSpoken chat_final (evaluate_gateway_assistant_delivery chat_final)
evaluate-IsSpoken_example = evaluate-IsSpoken chat_final chat_final-delivers

one_bubble_per_run_example :
    (assistant_text_for_consumer lifecycle_end (assistant_text_for_consumer chat_final (new 2)).1).0
    ≡ none
one_bubble_per_run_example =
    one_bubble_per_run 2 (new 2) [] chat_final lifecycle_end "r1" "hello" (new-Refines 2)
      (omega arith) chat_final-run lifecycle_end-run chat_final-handed_on

should_deliver_iff_example :
    ((should_deliver (some "r1") (some "hello") (new 2)).0 ≡ is_fresh 2 [] (some "r1") "hello")
    × Refines 2
        (should_deliver (some "r1") (some "hello") (new 2)).1
        (extended 2 [] (some "r1") "hello")
should_deliver_iff_example = should_deliver_iff 2 (new 2) [] (some "r1") "hello" (new-Refines 2)

r1-delivers : (should_deliver (some "r1") (some "a") (new 2)).0 ≡ true
unfolding should_deliver trim ombot.Gateway.Deduper.remember
r1-delivers = refl

r1-named : (trim "r1" == "") ≡ false
unfolding trim
r1-named = refl

one_other :
    length (deliver_all ((none, "c") ∷ []) (should_deliver (some "r1") (some "a") (new 2)).1).0 < 2
unfolding deliver_all should_deliver trim ombot.Gateway.Deduper.remember
    ombot.Gateway.Deduper.reply_key
one_other = omega arith

run_delivered_once_example :
    (should_deliver
      (some "r1")
      (some "b")
      (deliver_all ((none, "c") ∷ []) (should_deliver (some "r1") (some "a") (new 2)).1).1).0
    ≡ false
run_delivered_once_example =
    run_delivered_once 2 (new 2) [] "r1" "a" "b" ((none, "c") ∷ []) (new-Refines 2) r1-named
      r1-delivers one_other

abbrev refused : String
refused = to_lower_case (to_flat_error_string (str "connect ECONNREFUSED"))

repair_iff_example :
    (schedules_repair_on_transport_error true (str "connect ECONNREFUSED") ≡ true) ↔ (
      (◌≡◌ {A = Bool} true true)
      × (includes_any refused network_needles ≡ true)
      × (includes_any refused pairing_needles ≡ false)
      × (includes_any refused scope_needles ≡ false)
      × (includes_any refused provider_needles ≡ false))
repair_iff_example = repair_iff true (str "connect ECONNREFUSED")
