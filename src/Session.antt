-- ===== src/Session.antt =====
-- machineRelaySession.js: the state of a relay session, what it does to the outside, and its simple
-- methods. Logger calls and the counters of metrics.js do not change what a session does, and are
-- left out.
pub mod Moment
pub mod Register
pub mod Relay
pub mod Middleware
pub mod Keeps
pub mod Pairing
use ombot.Prelude.{
  ℕ, ◌+◌, ◌-◌, ◌≤◌, String, Bool, true, false, not, ◌&&◌, ◌||◌, Option, none, some, List, [], ◌∷◌,
  eqb, if◌then◌else◌, ◌==◌,
}
use ombot.Js.Text.{trim, to_lower_case}
use ombot.Js.Value.{
  Number, nan, nonneg, Value, undefined, null, bool, num, str, arr, obj, end, field,
}
use ombot.Guards.Request.{Nonces, Policy}
use ombot.Guards.Register.{Challenge}

pub data ReadyState : Type 0 where
  connecting open_ closing closed : ReadyState

abbrev pub is_open : Option ReadyState → Bool
is_open (some open_) = true
is_open _ = false

-- `readyState <= 1`
abbrev pub is_live : Option ReadyState → Bool
is_live (some connecting) = true
is_live (some open_) = true
is_live _ = false

pub data Handshake : Type 0 where
  unregistered challenge_issued paired ready_for_agent_req rejected : Handshake

abbrev pub is_ready_for_agent_req : Handshake → Bool
is_ready_for_agent_req ready_for_agent_req = true
is_ready_for_agent_req _ = false

abbrev pub is_challenge_issued : Handshake → Bool
is_challenge_issued challenge_issued = true
is_challenge_issued _ = false

pub record ChatroomKeys : Type 0 where
  pub public_key : List ℕ
  pub secret_key : List ℕ
  pub peer_public_key : Option (List ℕ)
  pub peer_public_keys : List (String × String)

-- What a session does to the outside, in the order of the calls.
pub data Effect : Type 0 where
  notify_client : Value → Effect
  send_client : Value → Effect
  close_client : ℕ → String → Effect
  send_plaintext : String → Effect
  deliver_plaintext : String → Effect
  send_middleware : Value → Effect
  close_middleware ping_middleware terminate_middleware middleware_disconnected : Effect
  connect_middleware : String → Option String → Effect
  schedule_reconnect : ℕ → Effect
  audit : String → Effect
  save_chatroom :
      String → Value → String → String → Option Value → String → List (String × String) → Effect
  register_active unregister_active ensure_connected destroy_gateway : Effect
  self_heal : String → Effect
  enqueue_agent_turn : String → String → Option String → Effect

-- what index.js reads from the environment for every session
pub record Config : Type 0 where
  pub middleware_ws_url : String
  pub middleware_auth_token : String
  pub max_message_bytes : ℕ
  pub policy : Policy
  pub server_protocol_version : ℕ
  pub min_protocol_version : ℕ
  pub allow_legacy_protocol : Bool
  pub required_capabilities : List String
  pub single_client_mode : Bool
  -- `OPENCLAW_REGISTER_CHALLENGE_TTL_MS`
  pub register_challenge_ttl_ms : ℕ
  pub strict_pairing_profile : Bool

pub record Session : Type 0 where
  pub client_ws : Option ReadyState
  pub bridge_mode : Bool
  pub has_consumer : Bool
  pub has_gateway_client : Bool
  pub middleware_ws : Option ReadyState
  pub chatroom_box_keys : Option ChatroomKeys
  pub middleware_session_key : Option String
  pub reconnect_attempt : ℕ
  pub auth_retry_with_query : Bool
  pub participant_id : String
  pub trace_id : String
  pub client_verify_public_key : Option (List ℕ)
  pub client_protocol_version : Number
  pub client_capabilities : List String
  pub seen_nonces : Nonces
  pub reconnect_timer : Bool
  pub destroyed : Bool
  pub middleware_ping_timer : Bool
  pub middleware_pong_timeout : Bool
  pub last_middleware_pong_at : Option ℕ
  pub single_client_agent_id : Option String
  pub handshake_state : Handshake
  pub pending_register : Option Value
  pub register_challenge : Option Challenge
  pub effective_require_attestation : Bool
  -- the effects so far, the last one first
  pub effects : List Effect

-- `new MachineRelaySession(opts)`
abbrev pub new : Option ReadyState → Bool → Bool → Session
new client_ws bridge_mode has_consumer = record {
  client_ws = client_ws;
  bridge_mode = bridge_mode;
  has_consumer = has_consumer;
  has_gateway_client = false;
  middleware_ws = none;
  chatroom_box_keys = none;
  middleware_session_key = none;
  reconnect_attempt = 0;
  auth_retry_with_query = false;
  participant_id = "default";
  trace_id = "unknown";
  client_verify_public_key = none;
  client_protocol_version = nonneg 1;
  client_capabilities = [];
  seen_nonces = [];
  reconnect_timer = false;
  destroyed = false;
  middleware_ping_timer = false;
  middleware_pong_timeout = false;
  last_middleware_pong_at = none;
  single_client_agent_id = none;
  handshake_state = unregistered;
  pending_register = none;
  register_challenge = none;
  effective_require_attestation = false;
  effects = [];
}

abbrev pub emit : Effect → Session → Session
emit e s = record s { effects = e ∷ s.effects }

unfoldable pub parse_boolean : Value → Bool
parse_boolean (bool b) = b
parse_boolean (num (nonneg n)) = not (eqb n 0)
parse_boolean (num _) = true
parse_boolean (str v) =
    let normalized = to_lower_case (trim v) in
    normalized == "1" || normalized == "true" || normalized == "yes" || normalized == "on"
parse_boolean _ = false

unfoldable pub stop_middleware_keepalive : Session → Session
stop_middleware_keepalive s = record s {
  middleware_ping_timer = false;
  middleware_pong_timeout = false;
}

unfoldable pub is_client_connected : Session → Bool
is_client_connected s = if s.bridge_mode then not s.destroyed else is_open s.client_ws

unfoldable pub notify_client_json : Value → Session → Session
notify_client_json v s = if is_open s.client_ws then emit (notify_client v) s else s

-- `{ type: 'error', message, traceId: this.traceId }`
abbrev pub error_frame : String → Session → Value
error_frame message s = obj (
    field "type" (str "error")
      (field "message" (str message) (field "traceId" (str s.trace_id) end)))

abbrev pub notify_error : String → Session → Session
notify_error message s = notify_client_json (error_frame message s) s

abbrev pub close_client_ws : ℕ → String → Session → Session
close_client_ws code reason s =
    if not s.bridge_mode && is_open s.client_ws
    then record s { client_ws = some closing; effects = close_client code reason ∷ s.effects }
    else s

unfoldable pub fail_close : String → ℕ → Session → Session
unfolding notify_client_json
fail_close reason code s =
    let audited = emit (audit "pairing_fail_close") s in
    let closed = close_client_ws code reason (notify_error reason audited) in
    record closed { handshake_state = rejected }

unfoldable pub deliver_plaintext_to_consumer : String → Session → Session
deliver_plaintext_to_consumer plain s =
    if is_open s.client_ws
    then emit (send_plaintext plain) s
    else if s.has_consumer
    then emit (deliver_plaintext plain) s
    else s

abbrev leave_gateway : Config → Session → Session
leave_gateway cfg s =
    if cfg.single_client_mode
    then emit unregister_active s
    else if s.has_gateway_client
    then record s { has_gateway_client = false; effects = destroy_gateway ∷ s.effects }
    else s

unfoldable pub destroy : Config → Session → Session
unfolding stop_middleware_keepalive
destroy cfg s =
    let stopped = leave_gateway cfg (stop_middleware_keepalive (record s { destroyed = true })) in
    let quiet = record stopped { reconnect_timer = false } in
    let closed = if is_live quiet.middleware_ws then emit close_middleware quiet else quiet in
    record closed { middleware_ws = none; chatroom_box_keys = none }
