-- ===== src/Examples/World.antt =====
-- A world outside the program, a configuration, a paired session and a signed request.
use ombot.Prelude.{ℕ, String, true, false, none, some, List, [], ◌∷◌, if◌then◌else◌, ◌==◌}
use ombot.Js.Text.{◌⧺◌}
use ombot.Js.Value.{nan, nonneg, Value, null, num, str, obj, Fields, end, field}
use ombot.Js.Runtime.{Runtime}
use ombot.Guards.Request.{Policy}
use ombot.Guards.Register.{Challenge}
use ombot.Session.{
  ReadyState, open_, Handshake, ready_for_agent_req, challenge_issued, ChatroomKeys, Config,
  Session,
}
use ombot.Session
use ombot.Session.Moment.{Moment}
use ombot.Server.{Server}

-- It verifies every signature, knows no number but in JSON, and has an empty environment.
abbrev pub rt : Runtime
rt = record {
  number_of_text = λ s. nan;
  detached_verify = λ message signature key. some true;
  sha256_hex = λ s. s;
  sha256_base64 = λ s. s;
  box = λ message nonce peer secret. some [];
  box_open = λ boxed nonce peer secret. none;
  buffer_from = λ v. some [];
  base64 = λ bytes. "key";
  parse_json = λ s. if s == "null" then some null else if s == "{}" then some (obj end) else none;
  env = λ name. none;
}

-- the defaults of index.js: five minutes, and ten
abbrev pub policy : Policy
policy = record { require_signature = true; signature_max_age_ms = 300000; nonce_ttl_ms = 600000 }

abbrev pub cfg : Config
cfg = record {
  middleware_ws_url = "wss://127.0.0.1:8081/ws";
  middleware_auth_token = "token";
  max_message_bytes = 16384;
  policy = policy;
  server_protocol_version = 2;
  min_protocol_version = 2;
  allow_legacy_protocol = false;
  required_capabilities = "signature" ∷ [];
  single_client_mode = true;
  register_challenge_ttl_ms = 60000;
  strict_pairing_profile = true;
}

abbrev pub at : ℕ → Moment
at now = record {
  now = now;
  random_text = "abc";
  load_chatroom_keys = λ agent room participant. none;
  new_public_key = [];
  new_secret_key = [];
  box_nonce = [];
  gateway_ready = true;
}

abbrev pub key : List ℕ
key = 7 ∷ []

abbrev pub keys : ChatroomKeys
keys = record {
  public_key = [];
  secret_key = [];
  peer_public_key = some key;
  peer_public_keys = [];
}

-- a client that is connected, and one that is paired as well
abbrev pub fresh_session : Session
fresh_session = Session.new (some open_) false false

abbrev pub ready_session : Session
ready_session = record (Session.new (some open_) false false) {
  handshake_state = ready_for_agent_req;
  client_verify_public_key = some key;
  chatroom_box_keys = some keys;
}

-- a text of 64 bytes in hexadecimal
abbrev pub signature : String
signature =
    "0000000000000000000000000000000000000000000000000000000000000000"
    ⧺ "0000000000000000000000000000000000000000000000000000000000000000"

-- a request of the method `agent`
abbrev pub request_fields : Fields
request_fields = field "type" (str "req") (
    field "method" (str "agent") (
      field "params" (obj (field "message" (str "hello") end)) (
        field "timestamp" (num (nonneg 1000))
          (field "nonce" (str "n1") (field "signature" (str signature) end)))))

abbrev pub request : Value
request = obj request_fields

abbrev pub server : Server
server = record { accepting_new_connections = true; rate_window = [] }

abbrev pub challenge : Challenge
challenge = record {
  nonce = "reg-1";
  issued_at = 500;
  expires_at = 60500;
  trace_id = "t";
  participant_id = "default";
  conversation_id = "default";
  public_key = "00";
  protocol_version = nonneg 2;
}

abbrev pub response : Value
response = obj (
    field "nonce" (str "reg-1")
      (field "timestamp" (num (nonneg 1000)) (field "signature" (str signature) end)))

abbrev pub challenged_session : Session
challenged_session = record (Session.new (some open_) false false) {
  handshake_state = challenge_issued;
  client_verify_public_key = some key;
  pending_register = some (obj end);
  register_challenge = some challenge;
}
