-- ===== src/Bridge/Silent/Frames.antt =====
-- The handlers of the bridge keep a stopped one silent.
use ombot.Prelude.{
  ℕ, String, ◌≡◌, refl, ap, ◌∙◌, sym, Bool, true, false, ◌&&◌, ◌||◌, not, Option, none, some, List,
  arith, if◌then◌else◌, ◌==◌,
}
use ombot.Js.Value.{Value, member, truthy, is_text, is_bool, nullish_else, is_nullish}
use ombot.Js.Runtime.{Runtime}
use ombot.Session.{is_open}
use ombot.Gateway.Client.{is_none}
use ombot.Gateway.Client.Handshake.{
  challenge_nonce, extract_connect_challenge, is_hello_ok_authorized, persist_hello_ok,
}
use ombot.Gateway.Device.State.{device_auth_insecure_skip, gateway_legacy_blind_connect}
use ombot.Gateway.Device.Payload.{DeviceKeys}
use ombot.Bridge.{
  set_scope, gate_fail, enqueue_text, answer_ping, is_gateway_open, phone_payload_to_user_text,
  Waiting, connect_request, turn_request, BridgeEffect, Bridge, Attempt, act, record_gateway_reject,
  is_gateway_open, enqueue_user_message, on_phone_plaintext,
}
use ombot.Bridge.Silent.{
  IsSilent, like-IsSilent, if-IsSilent, drain-IsSilent, hand_on-IsSilent, turn_response-IsSilent,
  reject-IsSilent,
}
use ombot.Bridge.Gateway.{
  scope_denied, opened_socket, clear_connect_challenge_timer, arm_connect_challenge_timer,
  set_nonce, schedule_gateway_reconnect, close_gateway, start_gateway_keepalive, waiting_under,
  begin_handshake_after_open, on_challenge_timeout, handle_connect_challenge_event,
  finish_connect_success, connected_after, refused_connect, on_connect_response, on_response,
  on_gateway_message, send_connect_handshake, send_legacy_blind_connect,
}

module _ (rt : Runtime) (keys : DeviceKeys) (platform gateway_token : String)
    {before : List BridgeEffect} where
  pub no_open : (b : Bridge) → IsSilent before b → not (is_open b.gateway_ws) ≡ true
  no_open b h = ground (arith, h.no_socket)

  -- a step that is taken, since its condition holds
  pub taken-IsSilent :
      (t : Bool) (b c : Bridge)
      → t ≡ true
      → IsSilent before b
      → IsSilent before (if t then b else c)
  taken-IsSilent true b c e h = h
  taken-IsSilent false b c e h = cc

  send-IsSilent :
      (at : Attempt) (omit_device : Bool) (nonce : String) (b : Bridge)
      → IsSilent before b
      → IsSilent before
          (send_connect_handshake rt keys platform gateway_token at omit_device nonce b)
  unfolding send_connect_handshake
  send-IsSilent at omit_device nonce b h =
      taken-IsSilent (not (is_open b.gateway_ws)) b _ (no_open b h) h

  legacy-IsSilent :
      (at : Attempt) (b : Bridge)
      → IsSilent before b
      → IsSilent before (send_legacy_blind_connect rt keys platform gateway_token at b)
  unfolding send_legacy_blind_connect
  legacy-IsSilent at b h = taken-IsSilent (not (is_open b.gateway_ws)) b _ (no_open b h) h

  pub timeout-IsSilent :
      (at : Attempt) (b : Bridge)
      → IsSilent before b
      → IsSilent before (on_challenge_timeout rt keys platform gateway_token at b)
  unfolding on_challenge_timeout
  timeout-IsSilent at b h =
      taken-IsSilent (b.destroyed || b.connect_sent || is_none b.gateway_ws) b _
        (ground (arith, h.destroyed)) h

  -- the answers to an `open` that comes late
  pub open-IsSilent :
      (at : Attempt) (b : Bridge)
      → IsSilent before b
      → IsSilent before (begin_handshake_after_open rt keys platform gateway_token at b)
  unfolding begin_handshake_after_open arm_connect_challenge_timer
  open-IsSilent at b h =
      let opened = record b {
        gateway_ws = opened_socket b.gateway_ws;
        is_connecting = false;
        connect_nonce = none;
        connect_sent = false;
      } in
      let late : IsSilent before opened =
        like-IsSilent b opened refl (ap opened_socket h.no_socket ∙ sym h.no_socket) refl refl h in
      let cleared : IsSilent before (clear_connect_challenge_timer opened) =
        like-IsSilent opened _ refl refl refl refl late in
      if-IsSilent (device_auth_insecure_skip rt) _ _
        (send-IsSilent at true "" (clear_connect_challenge_timer opened) cleared)
        (if-IsSilent (gateway_legacy_blind_connect rt) _ _ (legacy-IsSilent at opened late) (
          if-IsSilent (b.destroyed || false) opened _ late
            (like-IsSilent opened _ refl refl refl refl late)))

  challenge-IsSilent :
      (at : Attempt) (msg : Value) (b : Bridge)
      → IsSilent before b
      → IsSilent before (handle_connect_challenge_event rt keys platform gateway_token at msg b)
  unfolding handle_connect_challenge_event
  challenge-IsSilent at msg b h =
      let nonce = challenge_nonce (member (member msg "payload") "nonce") in
      let noted = set_nonce nonce (clear_connect_challenge_timer b) in
      let h' : IsSilent before noted = like-IsSilent b noted refl refl refl refl h in
      if-IsSilent (nonce == "") _ _
        (if-IsSilent (is_none b.gateway_ws) b _ h (like-IsSilent b _ refl refl refl refl h))
        (if-IsSilent b.connect_sent noted _ h'
          (send-IsSilent at (device_auth_insecure_skip rt) nonce noted h'))

  pub reconnect-IsSilent :
      (port_down : Bool) (b : Bridge)
      → IsSilent before b
      → IsSilent before (schedule_gateway_reconnect port_down b)
  unfolding schedule_gateway_reconnect
  reconnect-IsSilent port_down b h =
      if-IsSilent (b.destroyed || b.reconnect_timer) b _ h (like-IsSilent b _ refl refl refl refl h)

  close-IsSilent :
      (b : Bridge)
      → IsSilent before b
      → IsSilent before (close_gateway rt keys platform gateway_token b)
  close-IsSilent b h =
      if-IsSilent (is_none b.gateway_ws) b _ h (like-IsSilent b _ refl refl refl refl h)

  keepalive-IsSilent :
      (now : ℕ) (b : Bridge) → IsSilent before b → IsSilent before (start_gateway_keepalive now b)
  unfolding start_gateway_keepalive
  keepalive-IsSilent now b h =
      if-IsSilent (is_none b.gateway_ws) _ _ (like-IsSilent b _ refl refl refl refl h)
        (like-IsSilent b _ refl refl refl refl h)

  connected_after-IsSilent :
      (at : Attempt) (file : Option (Option Value)) (b : Bridge)
      → IsSilent before b
      → IsSilent before (connected_after rt keys platform gateway_token at file b)
  connected_after-IsSilent at none b h = like-IsSilent b _ refl refl refl refl h
  connected_after-IsSilent at (some written) b h =
      drain-IsSilent at _ (keepalive-IsSilent at.now _ (like-IsSilent b _ refl refl refl refl h))

  finish-IsSilent :
      (at : Attempt) (msg : Value) (b : Bridge)
      → IsSilent before b
      → IsSilent before (finish_connect_success rt keys platform gateway_token at msg b)
  unfolding finish_connect_success
  finish-IsSilent at msg b h =
      let denied = record_gateway_reject (scope_denied rt keys platform gateway_token) b in
      let h' : IsSilent before denied =
        reject-IsSilent (scope_denied rt keys platform gateway_token) b h in
      if-IsSilent (not (is_hello_ok_authorized msg)) _ _
        (close-IsSilent (set_scope gate_fail denied)
          (like-IsSilent denied _ refl refl refl refl h'))
        (connected_after-IsSilent at (persist_hello_ok rt msg b.device_file) b h)

  refused-IsSilent :
      (at : Attempt) (msg : Value) (omit_device : Bool) (challenge : Option String) (b : Bridge)
      → IsSilent before b
      → IsSilent before
          (refused_connect rt keys platform gateway_token at msg omit_device challenge b)
  refused-IsSilent at msg true (some nonce) b h =
      send-IsSilent at (device_auth_insecure_skip rt) nonce
        (set_nonce nonce (record b { connect_sent = false }))
        (like-IsSilent b _ refl refl refl refl h)
  refused-IsSilent at msg true none b h =
      reconnect-IsSilent false _
        (close-IsSilent _ (reject-IsSilent (nullish_else (member msg "error") msg) b h))
  refused-IsSilent at msg false challenge b h =
      reconnect-IsSilent false _
        (close-IsSilent _ (reject-IsSilent (nullish_else (member msg "error") msg) b h))

  connect_response-IsSilent :
      (at : Attempt) (msg : Value) (omit_device : Bool) (b : Bridge)
      → IsSilent before b
      → IsSilent before (on_connect_response rt keys platform gateway_token at msg omit_device b)
  unfolding on_connect_response
  connect_response-IsSilent at msg omit_device b h =
      if-IsSilent (is_bool (member msg "ok") true) _ _ (finish-IsSilent at msg b h)
        (refused-IsSilent at msg omit_device (extract_connect_challenge msg) b h)

  response-IsSilent :
      (at : Attempt) (msg : Value) (w : Option Waiting) (b : Bridge)
      → IsSilent before b
      → IsSilent before (on_response rt keys platform gateway_token at msg w b)
  response-IsSilent at msg none b h = hand_on-IsSilent msg b h
  response-IsSilent at msg (some (connect_request omit_device)) b h =
      connect_response-IsSilent at msg omit_device _ (like-IsSilent b _ refl refl refl refl h)
  response-IsSilent at msg (some (turn_request item)) b h =
      turn_response-IsSilent at msg item _ (like-IsSilent b _ refl refl refl refl h)

  pub message-IsSilent :
      (at : Attempt) (msg : Value) (b : Bridge)
      → IsSilent before b
      → IsSilent before (on_gateway_message rt keys platform gateway_token at msg b)
  unfolding on_gateway_message
  message-IsSilent at msg b h =
      if-IsSilent
        (is_text (member msg "type") "event" && is_text (member msg "event") "connect.challenge") _
        _ (challenge-IsSilent at msg b h)
        (if-IsSilent (is_text (member msg "type") "res" && truthy (member msg "id")) _ _
          (response-IsSilent at msg (waiting_under (member msg "id") b.pending) b h)
          (hand_on-IsSilent msg b h))

  enqueue-IsSilent :
      (at : Attempt) (j : Value) (text : Option String) (b : Bridge)
      → IsSilent before b
      → IsSilent before (enqueue_text rt at j text b)
  unfolding enqueue_user_message
  enqueue-IsSilent at j none b h = h
  enqueue-IsSilent at j (some text) b h =
      drain-IsSilent at _ (like-IsSilent b _ refl refl refl refl h)

  pub phone-IsSilent :
      (at : Attempt) (plain : Option Value) (b : Bridge)
      → IsSilent before b
      → IsSilent before (on_phone_plaintext rt at plain b)
  unfolding on_phone_plaintext
  phone-IsSilent at none b h = h
  phone-IsSilent at (some j) b h =
      if-IsSilent (is_nullish j) _ _ (like-IsSilent b _ refl refl refl refl h) (
        if-IsSilent (is_text (member j "type") "ping") _ _
          (if-IsSilent b.has_session (act (answer_ping j (is_gateway_open b)) b) b
            (like-IsSilent b _ refl refl refl refl h) h)
          (enqueue-IsSilent at j (phone_payload_to_user_text rt j) b h))
