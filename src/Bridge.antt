-- ===== src/Bridge.antt =====
-- openclawGatewayBridge.js: the bridge between the phone, reached through a relay session, and an
-- OpenClaw gateway. Here are its state, the gates, and the queue of the phone's messages.
pub mod Gateway
pub mod Active
pub mod Replies
pub mod Silent
pub mod Stopped
use mathlib.Core.List.{[], ◌∷◌, ◌++◌}
use ombot.Prelude.{
  ℕ, String, Bool, true, false, ◌&&◌, ◌||◌, not, Option, none, some, List, if◌then◌else◌, ◌==◌,
}
use ombot.Js.Text.{trim}
use ombot.Js.Value.{
  Number, nonneg, neg, Value, str, obj, end, field, member, is_object, is_nullish, is_text, to_text,
}
use ombot.Js.Json.{json}
use ombot.Js.Runtime.{Runtime, env_or}
use ombot.Session.{ReadyState, is_open}
use ombot.Gateway.ErrorClassifier.{
  Category, pairing, scope, provider, network, unknown, classify_gateway_error,
}
use ombot.Gateway.Deduper.{Deduper, has, reset}
use ombot.Gateway.Deduper
use ombot.Gateway.Device.Payload.{Identity}
use ombot.Gateway.Device.State.{Generated}
use ombot.Gateway.Client.Connect.{default_gateway_scopes}

-- a message of the phone, and the id by which the phone knows it
pub record Item : Type 0 where
  pub text : String
  pub client_message_id : Option String

-- a request that waits for its response: for the connection, with `omitDevice`, or a turn
pub data Waiting : Type 0 where
  connect_request : Bool → Waiting
  turn_request : Item → Waiting

pub data Gate : Type 0 where
  gate_pass gate_fail gate_unknown : Gate

pub record GateStatus : Type 0 where
  pub pairing_gate : Gate
  pub scope_gate : Gate
  pub provider_gate : Gate

-- What the bridge does. A turn is started by `agent_frame` under an id, `lost_turn` (where `send`
-- throws) or `try_fallback`. `threw` is an exception that leaves a handler.
pub data BridgeEffect : Type 0 where
  connect_frame : String → Value → BridgeEffect
  agent_frame : String → Item → BridgeEffect
  lost_turn try_fallback : Item → BridgeEffect
  to_phone : String → BridgeEffect
  answer_ping : Value → Bool → BridgeEffect
  close_with : String → BridgeEffect
  close_socket terminate_socket ping_socket open_gateway start_session destroy_session threw :
      BridgeEffect
  set_reconnect_timer : Bool → BridgeEffect

pub record Bridge : Type 0 where
  pub gateway_ws : Option ReadyState
  pub has_session : Bool
  pub gateway_connected : Bool
  pub is_connecting : Bool
  pub destroyed : Bool
  pub reconnect_timer : Bool
  pub pending : List (String × Waiting)
  pub in_flight : Bool
  pub queue : List Item
  pub gates : GateStatus
  pub auto_fallback_enabled : Bool
  pub connect_nonce : Option String
  pub connect_sent : Bool
  pub connect_challenge_timer : Bool
  pub gateway_ping_timer : Bool
  pub gateway_pong_timeout : Bool
  pub last_gateway_pong_at : ℕ
  pub gateway_identity : Option Identity
  -- the file of gatewayDeviceIdentity.js
  pub device_file : Option String
  pub reply_deduper : Deduper
  -- the last one first
  pub effects : List BridgeEffect

-- what `completeUserTurn` gives: nothing where it is not configured, an error, or a text
pub data Fallback : Type 0 where
  not_configured : Fallback
  failed : String → Fallback
  reply : String → Fallback

-- What a handler reads: the ids of the requests that it may send, the time, new keys, whether `send`
-- goes through, and the fallback.
pub record Attempt : Type 0 where
  pub connect_id : String
  pub turn_id : String
  pub now : ℕ
  pub generated : Generated
  pub sends : Bool
  pub fallback : Fallback

abbrev pub act : BridgeEffect → Bridge → Bridge
act e b = record b { effects = e ∷ b.effects }

abbrev pub is_gateway_open : Bridge → Bool
is_gateway_open b = b.gateway_connected && is_open b.gateway_ws

-- `_gateValue`
unfoldable pub gate_value : Gate → Number
gate_value gate_pass = nonneg 1
gate_value gate_fail = nonneg 0
gate_value gate_unknown = neg 0

abbrev pub set_pairing : Gate → Bridge → Bridge
set_pairing g b = record b { gates = record b.gates { pairing_gate = g } }

abbrev pub set_scope : Gate → Bridge → Bridge
set_scope g b = record b { gates = record b.gates { scope_gate = g } }

abbrev pub set_provider : Gate → Bridge → Bridge
set_provider g b = record b { gates = record b.gates { provider_gate = g } }

abbrev pub fail_gate : Category → Bridge → Bridge
fail_gate pairing b = set_pairing gate_fail b
fail_gate scope b = set_scope gate_fail b
fail_gate provider b = set_provider gate_fail b
fail_gate network b = b
fail_gate unknown b = b

unfoldable pub record_gateway_reject : Value → Bridge → Bridge
record_gateway_reject error b = fail_gate (classify_gateway_error error).category b

-- a fallback that failed closes the provider's gate, if the provider is to blame
abbrev pub fail_provider : Category → Bridge → Bridge
fail_provider provider b = set_provider gate_fail b
fail_provider _ b = b

-- `assistantTextToPhoneRes`
unfoldable pub assistant_text_to_phone_res : String → String
assistant_text_to_phone_res text =
    json (obj (field "type" (str "res") (field "payload" (obj (field "text" (str text) end)) end)))

-- `messageAckToPhoneEvent`
unfoldable pub message_ack_to_phone_event : String → String
message_ack_to_phone_event id = json (
    obj (
      field "type" (str "event") (
        field "event" (str "message_ack")
          (field "payload" (obj (field "clientMessageId" (str id) end)) end))))

-- `this.session.sendPlaintextToPhone(…)` where there is a session
abbrev pub tell_phone : String → Bridge → Bridge
tell_phone text b = if b.has_session then act (to_phone text) b else b

abbrev pub use_reply : Bool → String → Bridge → Bridge × Bool
use_reply false text b = (b, false)
use_reply true text b =
    (set_provider gate_pass (act (to_phone (assistant_text_to_phone_res text)) b), true)

-- `_tryFallback` once the fallback has answered, and whether its text was used
unfoldable pub use_fallback : Fallback → Bridge → Bridge × Bool
use_fallback not_configured b = (b, false)
use_fallback (failed error) b =
    (fail_provider (classify_gateway_error (str error)).category b, false)
use_fallback (reply text) b = use_reply (not (text == "") && b.has_session) text b

-- `_sendAgentTurn` up to where it waits
unfoldable pub send_agent_turn : Attempt → Item → Bridge → Bridge
send_agent_turn at item b =
    let fresh = record b { reply_deduper = reset b.reply_deduper } in
    if not (is_open b.gateway_ws)
    then b
    else if at.sends
    then act (agent_frame at.turn_id item)
        (record fresh { pending = (at.turn_id, turn_request item) ∷ b.pending })
    else act (lost_turn item) fresh

abbrev pub start_first : Attempt → List Item → Bridge → Bridge
start_first at [] b = b
start_first at (item ∷ rest) b =
    let taken = record b { in_flight = true; queue = rest } in
    if is_gateway_open b then send_agent_turn at item taken else act (try_fallback item) taken

-- `_drainQueue` up to where it waits for the turn
unfoldable pub drain_queue : Attempt → Bridge → Bridge
drain_queue at b =
    if b.in_flight
    then b
    else if not (is_gateway_open b) && not b.auto_fallback_enabled
    then b
    else start_first at b.queue b

-- the end of `_drainQueue`
unfoldable pub turn_settled : Attempt → Bridge → Bridge
turn_settled at b = drain_queue at (record b { in_flight = false })

-- the end of a turn that the fallback took
unfoldable pub on_fallback_done : Attempt → Bridge → Bridge
on_fallback_done at b = turn_settled at (use_fallback at.fallback b).0

abbrev pub id_or_none : String → Option String
id_or_none id = if trim id == "" then none else some (trim id)

unfoldable pub enqueue_user_message : Attempt → String → String → Bridge → Bridge
enqueue_user_message at text id b =
    drain_queue at (record b {
      queue = b.queue ++ record { text = text; client_message_id = id_or_none id } ∷ [];
    })

-- the id in a request of the phone, or ''
abbrev pub client_message_id_of : Value → String
client_message_id_of j =
    let id = member (member j "params") "clientMessageId" in
    if is_object (member j "params") && not (is_nullish id) then trim (to_text id) else ""

module _ (rt : Runtime) where
  unfoldable pub phone_payload_to_user_text : Value → Option String
  phone_payload_to_user_text j =
      let p = member j "params" in
      if not (is_object j) || not (is_text (member j "type") "req")
      then none
      else if not
          (to_text (member j "method") == trim (env_or rt "OPENCLAW_BRIDGE_PHONE_METHOD" "agent"))
      then none
      else if not (is_object p)
      then none
      else if not (is_nullish (member p "message"))
      then some (to_text (member p "message"))
      else if not (is_nullish (member p "text"))
      then some (to_text (member p "text"))
      else none

  abbrev pub enqueue_text : Attempt → Value → Option String → Bridge → Bridge
  enqueue_text at j none b = b
  enqueue_text at j (some text) b = enqueue_user_message at text (client_message_id_of j) b

  -- `none` for a text that does not parse; reading `type` of null throws
  unfoldable pub on_phone_plaintext : Attempt → Option Value → Bridge → Bridge
  on_phone_plaintext at none b = b
  on_phone_plaintext at (some j) b =
      if is_nullish j
      then act threw b
      else if is_text (member j "type") "ping"
      then (if b.has_session then act (answer_ping j (is_gateway_open b)) b else b)
      else enqueue_text at j (phone_payload_to_user_text j) b

  -- `_initGateStatus`
  unfoldable pub init_gate_status : GateStatus
  init_gate_status = record {
    pairing_gate = gate_unknown;
    scope_gate =
        if has "operator.read" (default_gateway_scopes rt)
          && has "operator.write" (default_gateway_scopes rt)
        then gate_pass
        else gate_fail;
    provider_gate =
        if trim (env_or rt "OPENAI_API_KEY" "") == ""
          && trim (env_or rt "ANTHROPIC_API_KEY" "") == ""
          && trim (env_or rt "GOOGLE_API_KEY" "") == ""
        then gate_unknown
        else gate_pass;
  }
