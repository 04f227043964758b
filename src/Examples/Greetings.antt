-- ===== src/Examples/Greetings.antt =====
-- The handshake with the gateway: a challenge, its answer, and the greeting.
use mathlib.Core.List.{[], ◌∷◌}
use ombot.Prelude.{◌≤◌, ◌≡◌, refl, true, false, none, some}
use ombot.Js.Value.{
  Value, is_text, member, bool, str, arr, obj, Items, nil, cons, Fields, end, field,
}
use ombot.Session.{open_}
use ombot.Js.Text.{trim, to_lower_case}
use ombot.Js.Runtime.{env_or}
use ombot.Gateway.Client
use ombot.Gateway.Client.{on_gateway_open}
use ombot.Gateway.Client.Connect.{compose_connect_params}
use ombot.Gateway.Device.Payload.{
  build_connect_device_block, sign_device_payload, public_key_raw_base64_url_from_pem, base64_url,
}
use ombot.Gateway.Device.State.{
  device_auth_insecure_skip, gateway_legacy_blind_connect, load_or_create_device_identity,
}
use ombot.Gateway.Client.Handshake.{
  Link, Attempt, on_gateway_message, begin_handshake_after_open, handle_connect_challenge_event,
  arm_connect_challenge_timer, send_connect_handshake,
}
use ombot.Gateway.Client.Handshake.Connected.{is_connected, message-connected}
use ombot.Gateway.Client.Handshake.Requests.{requests}
use ombot.Gateway.Client.Handshake.Once.{message, run, one_request_per_connection}
use ombot.Examples.World
use ombot.Examples.Devices.{keys, generated}

abbrev attempt : Attempt
attempt = record {
  connect_id = "c1";
  turn_id = "t1";
  now = 9;
  generated = generated;
  sends = true;
  fallback = none;
}

abbrev opening : Link
opening = record {
  client = record (Client.new false) { gateway_ws = some open_ };
  connects = [];
  gateway_identity = none;
  device_file = none;
  did = [];
}

abbrev pub challenge : Value
challenge = obj (
    field "type" (str "event") (
      field "event" (str "connect.challenge")
        (field "payload" (obj (field "nonce" (str " n1 ") end)) end)))

abbrev greeting : Value
greeting = obj (
    field "type" (str "res") (
      field "id" (str "c1") (
        field "ok" (bool true) (
          field "payload" (obj (field "grantedScopes" (arr (cons (str "Operator.Write ") nil)) end))
            end))))

abbrev asked : Link
asked =
    on_gateway_message World.rt keys "linux" "token" attempt challenge
      (begin_handshake_after_open World.rt keys "linux" "token" attempt opening)

-- The first challenge is answered by one connect request, which waits for its response.
asked_once : (requests asked.did ≡ 1) × (asked.connects ≡ ("c1", false) ∷ [])
unfolding on_gateway_message is_text member handle_connect_challenge_event trim
    begin_handshake_after_open device_auth_insecure_skip to_lower_case env_or
    gateway_legacy_blind_connect arm_connect_challenge_timer on_gateway_open send_connect_handshake
    compose_connect_params build_connect_device_block sign_device_payload
    public_key_raw_base64_url_from_pem load_or_create_device_identity base64_url
asked_once = (refl, refl)

-- the client that waits for the answer
abbrev waiting : Link
waiting = record opening { connects = ("c1", false) ∷ [] }

message-connected_example :
    is_connected (on_gateway_message World.rt keys "linux" "token" attempt greeting waiting) ≡ true
unfolding is_text member ombot.Js.Value.truthy ombot.Gateway.Client.Handshake.omit_device_of
    ombot.Js.Value.is_bool ombot.Gateway.Client.Handshake.is_hello_ok_authorized to_lower_case trim
    ombot.Gateway.Client.Handshake.persist_hello_ok ombot.Js.Value.is_object
message-connected_example = message-connected World.rt keys "linux" "token" attempt greeting waiting

one_request_per_connection_example :
    (requests (begin_handshake_after_open World.rt keys "linux" "token" attempt opening).did ≡ 0)
    × (requests
          (run World.rt keys "linux" "token"
            (message attempt challenge ∷ message attempt challenge ∷ message attempt greeting ∷ [])
            (begin_handshake_after_open World.rt keys "linux" "token" attempt opening)).did
        ≤ 1)
unfolding ombot.Gateway.Device.State.device_auth_insecure_skip ombot.Js.Text.to_lower_case
    ombot.Js.Text.trim ombot.Js.Runtime.env_or
    ombot.Gateway.Device.State.gateway_legacy_blind_connect
one_request_per_connection_example =
    one_request_per_connection World.rt keys "linux" "token" refl refl attempt
      (message attempt challenge ∷ message attempt challenge ∷ message attempt greeting ∷ [])
      opening tt
