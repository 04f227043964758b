-- ===== src/Session/Relay.antt =====
-- machineRelaySession.js: frames to and from a paired client.
pub mod Forward
pub mod Guarding
pub mod BadKey
use ombot.Prelude.{
  ℕ, String, Bool, true, false, not, ◌&&◌, ◌||◌, Option, none, some, List, [], ◌∷◌, any,
  if◌then◌else◌, ◌==◌,
}
use ombot.Js.Text.{trim, to_lower_case}
use ombot.Js.Value.{
  Value, undefined, bool, num, str, obj, end, field, nonneg, member, truthy, is_nullish, is_object,
  is_text, or_else, to_text,
}
use ombot.Js.Json.{json}
use ombot.Js.Runtime.{Runtime, env_or}
use ombot.BoxCrypto.{encrypted_frame, decrypt}
use ombot.SessionKey.{id_text, resolve_gateway_turn_agent_id}
use ombot.Guards.Request
use ombot.Guards.Request.{Reason, Verdict, ok, rejected, Nonces, validate_req_signature}
use ombot.Session.{
  is_open, is_ready_for_agent_req, ChatroomKeys, Effect, audit, send_client, send_middleware,
  register_active, ensure_connected, self_heal, enqueue_agent_turn, Config, Session, emit,
  notify_client_json, notify_error,
}
use ombot.Session.Moment.{Moment}

-- `phonePayloadToUserTextFromReq`, and `phonePayloadToUserText` of openclawGatewayBridge.js
unfoldable pub phone_payload_to_user_text : Runtime → Value → Option String
phone_payload_to_user_text rt j =
    let method = trim (env_or rt "OPENCLAW_BRIDGE_PHONE_METHOD" "agent") in
    let p = member j "params" in
    if not (is_object j)
      || not (is_text (member j "type") "req")
      || not (to_text (member j "method") == method)
      || not (is_object p)
    then none
    else if not (is_nullish (member p "message"))
    then some (to_text (member p "message"))
    else if not (is_nullish (member p "text"))
    then some (to_text (member p "text"))
    else none

-- what the peer's and the own key are, where both are there
abbrev pub peer_of : Option ChatroomKeys → Option (List ℕ)
peer_of none = none
peer_of (some keys) = keys.peer_public_key

abbrev pub secret_of : Option ChatroomKeys → List ℕ
secret_of none = []
secret_of (some keys) = keys.secret_key

-- A send that does not happen for want of a connection or a key is `not_sent`. One that throws, as
-- `nacl.box` does at a key of a wrong length, is `threw`, and the caller's handler ends there.
pub data Sent : Type 0 where
  sent not_sent threw : Sent

abbrev pub is_sent : Sent → Bool
is_sent sent = true
is_sent _ = false

abbrev pub post : (Value → Effect) → Option Value → Session → Sent × Session
post effect none s = (threw, s)
post effect (some frame) s = (sent, emit (effect frame) s)

abbrev no_peer : Session → Sent × Session
no_peer s = (not_sent, s)

pub data FrameAction : Type 0 where
  relay : String → Value → FrameAction
  heartbeat ignore close : FrameAction

-- what a request comes to: whether it was handled, or that the handler threw
pub data Handled : Type 0 where
  handled not_handled failed : Handled

abbrev pub is_one_of : String → List String → Bool
is_one_of t names = any (λ n. n == t) names

-- `CLIENT_HEARTBEAT_INNER_TYPES`
abbrev heartbeat_types : List String
heartbeat_types = "ping" ∷ "heartbeat" ∷ "keepalive" ∷ []

abbrev pub guard_text : Reason → String
guard_text Reason.signature_key_missing = "signature_key_missing"
guard_text Reason.signature_timestamp_invalid = "signature_timestamp_invalid"
guard_text Reason.signature_expired = "signature_expired"
guard_text Reason.signature_nonce_missing = "signature_nonce_missing"
guard_text Reason.replay = "replay"
guard_text Reason.signature_missing = "signature_missing"
guard_text Reason.signature_invalid = "signature_invalid"

abbrev own_agent_id : Option String → Value
own_agent_id none = undefined
own_agent_id (some a) = if a == "" then undefined else str a

abbrev turn_message_id : Value → Option String
turn_message_id req =
    let id = id_text (member (member req "params") "clientMessageId") in
    if id == "" then none else some id

abbrev pub has_peer : Session → Bool
has_peer s = elim (peer_of s.chatroom_box_keys) [ none ↦ false | some _ ↦ true ]

abbrev pub after_send : Sent × Session → Handled × Session
after_send (threw, s) = (failed, s)
after_send (_, s) = (handled, s)

module _ (rt : Runtime) (cfg : Config) (at : Moment) where
  abbrev pub encrypt_and_post :
      (Value → Effect) → Option (List ℕ) → String → Session → Sent × Session
  encrypt_and_post effect none plain s = no_peer s
  encrypt_and_post effect (some peer) plain s =
      post effect (encrypted_frame rt at.box_nonce plain peer (secret_of s.chatroom_box_keys)) s

  unfoldable pub send_encrypted_to_client_ws : String → Session → Sent × Session
  send_encrypted_to_client_ws plain s =
      if not (is_open s.client_ws)
      then (not_sent, s)
      else encrypt_and_post send_client (peer_of s.chatroom_box_keys) plain s

  -- `sendPlaintextToPhone` outside single-client mode, and the sending of a relayed request
  unfoldable pub send_encrypted_to_middleware : String → Session → Sent × Session
  send_encrypted_to_middleware plain s =
      if not (is_open s.middleware_ws)
      then (not_sent, s)
      else encrypt_and_post send_middleware (peer_of s.chatroom_box_keys) plain s

  unfoldable pub send_plaintext_to_phone : String → Session → Sent × Session
  unfolding send_encrypted_to_client_ws send_encrypted_to_middleware
  send_plaintext_to_phone plain s =
      if cfg.single_client_mode
      then send_encrypted_to_client_ws plain s
      else send_encrypted_to_middleware plain s

  abbrev pub pong_frame : Value → Bool → Value
  pong_frame ping bridge_connected = obj (
      field "type" (str "pong") (
        field "id" (member ping "id")
          (field "ts" (num (nonneg at.now)) (field "bridgeConnected" (bool bridge_connected) end))))

  unfoldable pub handle_application_ping : Value → Bool → Session → Sent × Session
  handle_application_ping ping bridge_connected s =
      send_plaintext_to_phone (json (pong_frame ping bridge_connected)) s

  unfoldable pub handle_plaintext_application_ping : Value → Bool → Session → Session
  handle_plaintext_application_ping ping bridge_connected s =
      notify_client_json (pong_frame ping bridge_connected) s

  abbrev parsed : Option (Option String) → Option (String × Value)
  parsed (some (some plain)) =
      if plain == ""
      then none
      else elim (rt.parse_json plain) [ none ↦ none | some j ↦ some (plain, j) ]
  parsed _ = none

  unfoldable pub try_decrypt_client_box : Value → Session → Option (String × Value)
  try_decrypt_client_box frame s =
      if not (is_text (member frame "type") "encrypted")
        || not (truthy (member frame "nonce"))
        || not (truthy (member frame "payload"))
      then none
      else elim (peer_of s.chatroom_box_keys) [
        | none ↦ none
        | some peer ↦ parsed (
            decrypt rt (member frame "nonce") (member frame "payload") peer
              (secret_of s.chatroom_box_keys))
      ]

  abbrev wants_heartbeat_reply : Bool
  wants_heartbeat_reply = elim (rt.env "OPENCLAW_ENCRYPTED_HEARTBEAT_REPLY") [
    | none ↦ true
    | some v ↦ not (v == "0")
  ]

  unfoldable pub inner_frame : String → Value → Bool → Session → FrameAction × Sent × Session
  inner_frame plain inner bridge_connected s =
      let inner_type = to_lower_case (trim (to_text (or_else (member inner "type") (str "")))) in
      let (done, s') = handle_application_ping inner bridge_connected s in
      if not (is_object inner)
      then (close, not_sent, s)
      else if is_text (member inner "type") "req"
      then (relay plain inner, not_sent, s)
      else if is_one_of inner_type heartbeat_types
      then (if wants_heartbeat_reply then (heartbeat, done, s') else (heartbeat, not_sent, s))
      else (ignore, not_sent, s)

  abbrev pub opened_frame : Option (String × Value) → Bool → Session → FrameAction × Sent × Session
  opened_frame none bridge_connected s = (close, not_sent, s)
  opened_frame (some (plain, inner)) bridge_connected s = inner_frame plain inner bridge_connected s

  -- The types of `CLIENT_HEARTBEAT_IGNORE_TYPES` and all others are ignored; only the log differs.
  unfoldable pub handle_single_client_encrypted_frame :
      Value → Bool → Session → FrameAction × Sent × Session
  unfolding inner_frame
  handle_single_client_encrypted_frame frame bridge_connected s =
      opened_frame (try_decrypt_client_box frame s) bridge_connected s

  abbrev pub pairing_not_ready : Session → Handled × Session
  pairing_not_ready s =
      (handled, if cfg.strict_pairing_profile then notify_error "pairing_not_ready" s else s)

  abbrev pub req_rejected : Reason → Session → Handled × Session
  req_rejected why s = (handled, notify_error (guard_text why) (emit (audit "req_rejected") s))

  abbrev pub guard_verdict : Value → Session → Verdict × Nonces
  guard_verdict req s =
      validate_req_signature rt cfg.policy req s.client_verify_public_key s.seen_nonces at.now

  unfoldable pub ensure_single_client_gateway : Session → Session
  ensure_single_client_gateway s =
      if not cfg.single_client_mode then s else emit ensure_connected (emit register_active s)

  abbrev turn_agent_id : Value → Session → String
  turn_agent_id req s =
      let asked = id_text (member (member req "params") "agentId") in
      let own = own_agent_id s.single_client_agent_id in
      resolve_gateway_turn_agent_id rt (if asked == "" then own else str asked)

  -- from the shared gateway on; in single-client mode `getSharedGatewayClient` is never null
  unfoldable pub enqueue_turn : String → Value → Session → Session
  unfolding ensure_single_client_gateway
  enqueue_turn text req s =
      let ensured = emit ensure_connected (emit register_active (ensure_single_client_gateway s)) in
      let healed =
        if at.gateway_ready
        then ensured
        else emit (self_heal "user_turn_gateway_not_ready") ensured in
      emit (enqueue_agent_turn text (turn_agent_id req s) (turn_message_id req)) healed

  abbrev pub turn_or_error : Option String → Value → Session → Session
  turn_or_error none req s = notify_error "unsupported_req_method" s
  turn_or_error (some text) req s = enqueue_turn text req s

  abbrev pub guarded_turn : Value → Verdict × Nonces → Session → Handled × Session
  guarded_turn req (rejected why, nonces) s = req_rejected why (record s { seen_nonces = nonces })
  guarded_turn req (ok, nonces) s = (
    handled,
    turn_or_error (phone_payload_to_user_text rt req) req (record s { seen_nonces = nonces }),
  )

  unfoldable pub relay_signed_req_single_client : Value → Session → Handled × Session
  relay_signed_req_single_client req s =
      if not (is_ready_for_agent_req s.handshake_state)
      then pairing_not_ready s
      else if not (has_peer s)
      then (not_handled, s)
      else guarded_turn req (guard_verdict req s) s

  abbrev pub guarded_relay : String → Verdict × Nonces → Session → Handled × Session
  guarded_relay raw (rejected why, nonces) s = req_rejected why (record s { seen_nonces = nonces })
  guarded_relay raw (ok, nonces) s =
      after_send (send_encrypted_to_middleware raw (record s { seen_nonces = nonces }))

  unfoldable pub relay_signed_req_to_middleware : String → Value → Session → Handled × Session
  unfolding relay_signed_req_single_client
  relay_signed_req_to_middleware raw req s =
      if not (is_text (member req "type") "req")
      then (not_handled, s)
      else if not (is_ready_for_agent_req s.handshake_state)
      then pairing_not_ready s
      else if cfg.single_client_mode
      then relay_signed_req_single_client req s
      else if not (is_open s.middleware_ws) || not (has_peer s)
      then (not_handled, s)
      else guarded_relay raw (guard_verdict req s) s
