-- ===== src/Examples/Bridges.antt =====
-- The bridge: a stopped one, the answer to a turn, and the address of the fallback's provider.
use mathlib.Core.List.{[], ◌∷◌}
use ombot.Prelude.{◌≡◌, refl, true, false, none, some}
use ombot.Js.Text.{ends_with}
use ombot.Js.Value.{Value, bool, str, obj, Fields, end, field}
use ombot.Session.{open_}
use ombot.Gateway.Deduper
use ombot.Gateway.Fallback.{normalize_open_ai_base_url}
use ombot.Bridge.{
  Item, gate_unknown, GateStatus, agent_frame, Bridge, not_configured, Attempt,
  assistant_text_to_phone_res, message_ack_to_phone_event, on_phone_plaintext,
}
use ombot.Bridge.Gateway.{on_turn_response}
use ombot.Bridge.Replies.{told, turn_response-told}
use ombot.Examples.World
use ombot.Examples.Devices.{generated}

abbrev attempt : Attempt
attempt = record {
  connect_id = "c1";
  turn_id = "t1";
  now = 9;
  generated = generated;
  sends = true;
  fallback = not_configured;
}

abbrev running : Bridge
running = record {
  gateway_ws = some open_;
  has_session = true;
  gateway_connected = true;
  is_connecting = false;
  destroyed = false;
  reconnect_timer = false;
  pending = [];
  in_flight = false;
  queue = [];
  gates = record {
    pairing_gate = gate_unknown;
    scope_gate = gate_unknown;
    provider_gate = gate_unknown;
  };
  auto_fallback_enabled = false;
  connect_nonce = none;
  connect_sent = true;
  connect_challenge_timer = false;
  gateway_ping_timer = true;
  gateway_pong_timeout = false;
  last_gateway_pong_at = 0;
  gateway_identity = none;
  device_file = none;
  reply_deduper = Deduper.new 256;
  effects = [];
}

-- a request of the phone
abbrev request : Value
request = obj (
    field "type" (str "req") (
      field "method" (str "agent") (
        field "params"
          (obj (field "message" (str "hello") (field "clientMessageId" (str " m1 ") end))) end)))

-- It becomes a turn at once.
turn_starts :
    (on_phone_plaintext World.rt attempt (some request) running).effects
    ≡ agent_frame "t1" (record { text = "hello"; client_message_id = some "m1" }) ∷ []
unfolding on_phone_plaintext ombot.Js.Value.is_nullish ombot.Js.Value.is_text ombot.Js.Value.member
    ombot.Bridge.phone_payload_to_user_text ombot.Js.Value.is_object ombot.Js.Value.to_text
    ombot.Js.Text.trim ombot.Js.Runtime.env_or ombot.Bridge.enqueue_user_message
    ombot.Bridge.drain_queue ombot.Bridge.send_agent_turn
turn_starts = refl

-- an answer that accepts the turn
abbrev accepted : Value
accepted = obj (
    field "type" (str "res")
      (field "ok" (bool true) (field "payload" (obj (field "status" (str "accepted") end)) end)))

turn_response-told_example :
    told
      (on_turn_response attempt accepted
        (record { text = "hello"; client_message_id = some "m1" })
        running).effects
    ≡ message_ack_to_phone_event "m1" ∷ []
unfolding ombot.Js.Value.is_bool ombot.Js.Value.member
    ombot.Gateway.ResponseText.is_gateway_accepted_ack ombot.Js.Value.is_object
    ombot.Js.Text.to_lower_case ombot.Js.Value.to_text ombot.Js.Value.nullish_else
    ombot.Gateway.ResponseText.text_from_payload_object ombot.Js.Value.is_non_empty_string
    ombot.Gateway.ResponseText.text_from_message ombot.Gateway.Dispatch.assistant_text_for_consumer
    ombot.Gateway.Dispatch.evaluate_gateway_assistant_delivery ombot.Js.Value.is_text
turn_response-told_example =
    turn_response-told attempt accepted (record { text = "hello"; client_message_id = some "m1" })
      running refl refl

address : normalize_open_ai_base_url " http://localhost:8000// " ≡ "http://localhost:8000/v1"
unfolding normalize_open_ai_base_url ombot.Js.Text.trim ends_with
address = refl
