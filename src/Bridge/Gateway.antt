-- ===== src/Bridge/Gateway.antt =====
-- openclawGatewayBridge.js: the connection of the bridge to the gateway, its handshake, its messages
-- and its keepalive. What the connect request holds is in `Gateway.Client.Connect`: the source has
-- the same functions twice.
use mathlib.Core.List.{[], ◌∷◌}
use ombot.Prelude.{
  ℕ, ◌-◌, String, Bool, true, false, ◌&&◌, ◌||◌, not, Option, none, some, List, ltb, if◌then◌else◌,
  ◌==◌,
}
use ombot.Js.Value.{Value, str, obj, end, field, member, truthy, is_text, is_bool, nullish_else}
use ombot.Js.Runtime.{Runtime}
use ombot.Session.{ReadyState, connecting, open_, is_open, is_live}
use ombot.Gateway.ResponseText.{is_gateway_accepted_ack}
use ombot.Gateway.Deduper.{Deduper}
use ombot.Gateway.Dispatch.{assistant_text_for_consumer}
use ombot.Gateway.Device.Payload.{DeviceKeys}
use ombot.Gateway.Device.State.{
  after_write, device_auth_insecure_skip, gateway_legacy_blind_connect,
}
use ombot.Gateway.Client.{is_none}
use ombot.Gateway.Client.Connect.{Composed, compose_connect_params}
use ombot.Gateway.Client.Handshake.{
  challenge_nonce, extract_connect_challenge, is_hello_ok_authorized, persist_hello_ok,
}
use ombot.Bridge.{
  Item, Waiting, connect_request, turn_request, gate_pass, gate_fail, connect_frame, close_with,
  close_socket, terminate_socket, ping_socket, open_gateway, start_session, destroy_session, threw,
  set_reconnect_timer, Bridge, Attempt, act, set_pairing, set_scope, set_provider,
  record_gateway_reject, assistant_text_to_phone_res, message_ack_to_phone_event, tell_phone,
  use_fallback, drain_queue, turn_settled,
}

abbrev pub clear_connect_challenge_timer : Bridge → Bridge
clear_connect_challenge_timer b = record b { connect_challenge_timer = false }

unfoldable pub arm_connect_challenge_timer : Bridge → Bridge
arm_connect_challenge_timer b =
    if b.destroyed || b.connect_sent then b else record b { connect_challenge_timer = true }

-- the socket of the bridge, if it still has one, once that is open
abbrev pub opened_socket : Option ReadyState → Option ReadyState
opened_socket none = none
opened_socket (some _) = some open_

abbrev pub set_nonce : String → Bridge → Bridge
set_nonce nonce b = record b { connect_nonce = some nonce }

unfoldable pub stop_gateway_keepalive : Bridge → Bridge
stop_gateway_keepalive b = record b { gateway_ping_timer = false; gateway_pong_timeout = false }

unfoldable pub start_gateway_keepalive : ℕ → Bridge → Bridge
unfolding stop_gateway_keepalive
start_gateway_keepalive now b =
    let stopped = stop_gateway_keepalive b in
    if is_none b.gateway_ws
    then stopped
    else record stopped { last_gateway_pong_at = now; gateway_ping_timer = true }

-- the handler of `pong`
unfoldable pub on_gateway_pong : ℕ → Bridge → Bridge
on_gateway_pong now b = record b { last_gateway_pong_at = now; gateway_pong_timeout = false }

-- every 30 seconds; `pings` is whether `ping()` goes through
unfoldable pub on_ping_timer : Bool → Bridge → Bridge
on_ping_timer pings b =
    if not (is_open b.gateway_ws)
    then b
    else if pings
    then act ping_socket (record b { gateway_pong_timeout = true })
    else act terminate_socket b

-- ten seconds after a ping
unfoldable pub on_pong_timeout : ℕ → Bridge → Bridge
on_pong_timeout now b =
    if ltb 10000 (now - b.last_gateway_pong_at) && not (is_none b.gateway_ws)
    then act terminate_socket b
    else b

unfoldable pub schedule_gateway_reconnect : Bool → Bridge → Bridge
schedule_gateway_reconnect port_down b =
    if b.destroyed || b.reconnect_timer
    then b
    else act (set_reconnect_timer port_down) (record b { reconnect_timer = true })

unfoldable pub connect_gateway : Bridge → Bridge
connect_gateway b =
    if b.destroyed || b.is_connecting
    then b
    else act open_gateway (record b { is_connecting = true })

-- the timer that `_scheduleGatewayReconnect` sets
unfoldable pub on_reconnect_timer : Bridge → Bridge
unfolding connect_gateway
on_reconnect_timer b =
    let due = record b { reconnect_timer = false } in
    if b.destroyed || not (is_none b.gateway_ws) then due else connect_gateway due

-- `_connectGatewayWithWait` where the port answers: the socket is being opened
unfoldable pub on_port_up : Bridge → Bridge
on_port_up b =
    if b.destroyed
    then record b { is_connecting = false }
    else record b { gateway_ws = some connecting }

-- and where it does not. Whether a repair starts is for `schedules_repair_on_transport_error` to say.
unfoldable pub on_port_down : Bridge → Bridge
unfolding schedule_gateway_reconnect
on_port_down b = schedule_gateway_reconnect true (record b { is_connecting = false })

-- the handler of `close`
unfoldable pub on_gateway_close : Bridge → Bridge
unfolding schedule_gateway_reconnect stop_gateway_keepalive
on_gateway_close b =
    let lost = record (stop_gateway_keepalive b) {
      is_connecting = false;
      gateway_connected = false;
      connect_challenge_timer = false;
      connect_nonce = none;
      connect_sent = false;
      gateway_ws = none;
    } in
    schedule_gateway_reconnect false lost

-- `start`, for a bridge that was made just now
unfoldable pub start : Bridge → Bridge
unfolding connect_gateway
start b = connect_gateway (act start_session (record b { has_session = true }))

abbrev pub close_if_live : Bridge → Bridge
close_if_live b = if is_live b.gateway_ws then act close_socket b else b

abbrev pub end_session : Bridge → Bridge
end_session b = if b.has_session then act destroy_session b else b

unfoldable pub stop : Bridge → Bridge
unfolding stop_gateway_keepalive
stop b = record (end_session (close_if_live (stop_gateway_keepalive b))) {
  destroyed = true;
  connect_challenge_timer = false;
  connect_nonce = none;
  connect_sent = false;
  reconnect_timer = false;
  gateway_ws = none;
  has_session = false;
  gateway_connected = false;
}

-- `Map.get` and `Map.delete` of the requests that wait
unfoldable pub waiting_under : Value → List (String × Waiting) → Option Waiting
waiting_under id [] = none
waiting_under id ((k, w) ∷ rest) = if is_text id k then some w else waiting_under id rest

unfoldable pub without : Value → List (String × Waiting) → List (String × Waiting)
without id [] = []
without id ((k, w) ∷ rest) = if is_text id k then without id rest else (k, w) ∷ without id rest

abbrev pub spoken : Option String × Deduper → Bridge → Bridge
spoken (none, d) b = record b { reply_deduper = d }
spoken (some text, d) b =
    tell_phone (assistant_text_to_phone_res text) (record b { reply_deduper = d })

unfoldable pub hand_on : Value → Bridge → Bridge
hand_on msg b = spoken (assistant_text_for_consumer msg b.reply_deduper) b

abbrev pub acknowledged : Value → Option String → Bridge → Bridge
acknowledged msg none b = b
acknowledged msg (some id) b =
    if is_gateway_accepted_ack msg then tell_phone (message_ack_to_phone_event id) b else b

unfoldable pub answered : Attempt → Value → Item → Bridge → Bridge
unfolding hand_on
answered at msg item b = turn_settled at (hand_on msg (acknowledged msg item.client_message_id b))

abbrev pub answered_or_fallback : Attempt → Value → Item → Bridge × Bool → Bridge
answered_or_fallback at msg item (b, true) = turn_settled at b
answered_or_fallback at msg item (b, false) = answered at msg item b

unfoldable pub on_turn_response : Attempt → Value → Item → Bridge → Bridge
on_turn_response at msg item b =
    if is_bool (member msg "ok") false
    then answered_or_fallback at msg item
        (use_fallback at.fallback (record_gateway_reject (nullish_else (member msg "error") msg) b))
    else answered at msg item (set_provider gate_pass b)

-- the timer of a turn
unfoldable pub on_turn_timeout : Attempt → String → Bridge → Bridge
unfolding without
on_turn_timeout at id b = turn_settled at (record b { pending = without (str id) b.pending })

module _ (rt : Runtime) (keys : DeviceKeys) (platform gateway_token : String) where
  abbrev pub send_composed : Attempt → Bool → Composed → Bridge → Bridge
  send_composed at omit_device composed b =
      let after = record b {
        gateway_identity = composed.gateway_identity;
        device_file = composed.file;
      } in
      elim composed.params [
        | none ↦ act threw after
        | some params ↦
            let waits = record after {
              pending = (at.connect_id, connect_request omit_device) ∷ b.pending;
            } in
            if at.sends
            then act (connect_frame at.connect_id params) (record waits { connect_sent = true })
            else record waits { connect_sent = false }
      ]

  unfoldable pub send_connect_handshake : Attempt → Bool → String → Bridge → Bridge
  send_connect_handshake at omit_device nonce b =
      if not (is_open b.gateway_ws)
      then b
      else send_composed at omit_device
          (compose_connect_params rt keys platform gateway_token omit_device nonce at.now
            at.generated b.gateway_identity b.device_file)
          b

  unfoldable pub send_legacy_blind_connect : Attempt → Bridge → Bridge
  send_legacy_blind_connect at b =
      if not (is_open b.gateway_ws)
      then b
      else send_connect_handshake at true "" (clear_connect_challenge_timer b)

  -- the handler of `open`
  unfoldable pub begin_handshake_after_open : Attempt → Bridge → Bridge
  begin_handshake_after_open at b =
      let opened = record b {
        gateway_ws = opened_socket b.gateway_ws;
        is_connecting = false;
        connect_nonce = none;
        connect_sent = false;
      } in
      if device_auth_insecure_skip rt
      then send_connect_handshake at true "" (clear_connect_challenge_timer opened)
      else if gateway_legacy_blind_connect rt
      then send_legacy_blind_connect at opened
      else arm_connect_challenge_timer opened

  -- the timer that waits for a challenge
  unfoldable pub on_challenge_timeout : Attempt → Bridge → Bridge
  on_challenge_timeout at b =
      if b.destroyed || b.connect_sent || is_none b.gateway_ws
      then b
      else if gateway_legacy_blind_connect rt
      then send_legacy_blind_connect at b
      else act (close_with "connect challenge timeout") b

  unfoldable pub handle_connect_challenge_event : Attempt → Value → Bridge → Bridge
  handle_connect_challenge_event at msg b =
      let nonce = challenge_nonce (member (member msg "payload") "nonce") in
      let noted = set_nonce nonce (clear_connect_challenge_timer b) in
      if nonce == ""
      then (if is_none b.gateway_ws
          then b
          else act (close_with "connect challenge missing nonce") b)
      else if b.connect_sent
      then noted
      else send_connect_handshake at (device_auth_insecure_skip rt) nonce noted

  abbrev pub scope_denied : Value
  scope_denied =
      obj
        (field "code" (str "SCOPE_DENIED") (field "message" (str "operator.write not granted") end))

  -- `this.gatewayWs?.close()`
  abbrev pub close_gateway : Bridge → Bridge
  close_gateway b = if is_none b.gateway_ws then b else act close_socket b

  abbrev pub connected_after : Attempt → Option (Option Value) → Bridge → Bridge
  connected_after at none b = act threw b
  connected_after at (some written) b =
      let connected = record b {
        device_file = after_write written b.device_file;
        gateway_connected = true;
      } in
      drain_queue at
        (start_gateway_keepalive at.now (set_scope gate_pass (set_pairing gate_pass connected)))

  unfoldable pub finish_connect_success : Attempt → Value → Bridge → Bridge
  finish_connect_success at msg b =
      if not (is_hello_ok_authorized msg)
      then close_gateway (set_scope gate_fail (record_gateway_reject scope_denied b))
      else connected_after at (persist_hello_ok rt msg b.device_file) b

  abbrev pub refused_connect : Attempt → Value → Bool → Option String → Bridge → Bridge
  refused_connect at msg true (some nonce) b =
      send_connect_handshake at (device_auth_insecure_skip rt) nonce
        (set_nonce nonce (record b { connect_sent = false }))
  refused_connect at msg _ _ b =
      schedule_gateway_reconnect false
        (close_gateway (record_gateway_reject (nullish_else (member msg "error") msg) b))

  unfoldable pub on_connect_response : Attempt → Value → Bool → Bridge → Bridge
  on_connect_response at msg omit_device b =
      if is_bool (member msg "ok") true
      then finish_connect_success at msg b
      else refused_connect at msg omit_device (extract_connect_challenge msg) b

  abbrev pub on_response : Attempt → Value → Option Waiting → Bridge → Bridge
  on_response at msg (some (connect_request omit_device)) b =
      on_connect_response at msg omit_device
        (record b { pending = without (member msg "id") b.pending })
  on_response at msg (some (turn_request item)) b =
      on_turn_response at msg item (record b { pending = without (member msg "id") b.pending })
  on_response at msg none b = hand_on msg b

  -- what `JSON.parse` made of the message; an exception is caught, and logged
  unfoldable pub on_gateway_message : Attempt → Value → Bridge → Bridge
  on_gateway_message at msg b =
      if is_text (member msg "type") "event" && is_text (member msg "event") "connect.challenge"
      then handle_connect_challenge_event at msg b
      else if is_text (member msg "type") "res" && truthy (member msg "id")
      then on_response at msg (waiting_under (member msg "id") b.pending) b
      else hand_on msg b
