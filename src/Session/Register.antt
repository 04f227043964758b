-- ===== src/Session/Register.antt =====
-- machineRelaySession.js: the box keys of a client, and what completes its registration.
pub mod Compatibility
pub mod Challenge
pub mod Refused
use ombot.Prelude.{
  ℕ, ◌+◌, max, String, Bool, true, false, not, ◌&&◌, ◌||◌, Option, none, some, List, [], ◌∷◌, ltb,
  eqb, any, keep, length, if◌then◌else◌, ◌==◌,
}
use ombot.Js.Text.{◌⧺◌, trim, decimal}
use ombot.Js.Value.{
  Number, nan, infinity, neg_infinity, nonneg, neg, Value, undefined, null, bool, num, str, arr,
  obj, Items, nil, cons, Fields, end, field, has_own, member, truthy, is_nullish, or_else, to_text,
}
use ombot.Js.Runtime.{Runtime, to_number}
use ombot.Ed25519.{hex_to_bytes}
use ombot.SessionKey.{id_text, or_default, compute_session_key, resolve_gateway_turn_agent_id}
use ombot.Session.{
  Handshake, challenge_issued, paired, ready_for_agent_req, rejected, is_challenge_issued,
  ChatroomKeys, Effect, audit, save_chatroom, register_active, Config, Session, emit, parse_boolean,
  notify_client_json, error_frame, notify_error,
}
use ombot.Session.Moment.{LoadedKeys, Moment}

abbrev pub decoded_peer : Runtime → Option String → Option (List ℕ)
decoded_peer rt none = none
decoded_peer rt (some b64) = if b64 == "" then none else rt.buffer_from (str b64)

abbrev pub loaded_or_new :
    Runtime
    → Moment
    → String
    → Value
    → String
    → Option LoadedKeys
    → Session
    → ChatroomKeys × Session
loaded_or_new rt at aid room pid (some loaded) s = (
  record {
    public_key = loaded.public_key;
    secret_key = loaded.secret_key;
    peer_public_key = decoded_peer rt loaded.peer_public_key_base64;
    peer_public_keys = loaded.peer_public_keys;
  },
  s,
)
loaded_or_new rt at aid room pid none s = (
  record {
    public_key = at.new_public_key;
    secret_key = at.new_secret_key;
    peer_public_key = none;
    peer_public_keys = [];
  },
  emit (audit "chatroom_key_created") (
      emit
        (save_chatroom aid room (rt.base64 at.new_public_key) (rt.base64 at.new_secret_key) none pid
          [])
        s),
)

-- the keys, and the session after the writes
unfoldable pub get_or_create_chatroom_keys :
    Runtime → Moment → String → Value → String → Session → ChatroomKeys × Session
get_or_create_chatroom_keys rt at aid room pid s =
    loaded_or_new rt at aid room pid (at.load_chatroom_keys aid room pid) s

abbrev pub room_or_default : Value → Value
room_or_default json =
    or_else (member json "conversationId") (or_else (member json "chatroomId") (str "default"))

abbrev pub agent_of : Runtime → Value → String
agent_of rt json =
    let asked =
      trim (to_text (or_else (member json "agentId") (or_else (member json "appId") (str "")))) in
    resolve_gateway_turn_agent_id rt (if asked == "" then undefined else str asked)

abbrev pub box_key_of : Value → Value
box_key_of json = or_else (member json "boxPublicKey") (member json "publicKey")

abbrev pub own_key_frame : Runtime → ChatroomKeys → Value
own_key_frame rt keys =
    obj (
      field "type" (str "peer_public_key")
        (field "publicKey" (str (rt.base64 keys.public_key)) end))

abbrev pub strings : List String → Items
strings [] = nil
strings (c ∷ cs) = cons (str c) (strings cs)

module _ (rt : Runtime) (cfg : Config) (at : Moment) where
  -- from the exchange of the keys on: `peer` is what the client's key decodes to
  unfoldable pub exchange_box_keys :
      Value → String → String → String → ChatroomKeys → Option (List ℕ) → Session → Session
  exchange_box_keys box_key aid room pid keys none s =
      notify_error "invalid_box_public_key" (record s { chatroom_box_keys = some keys })
  exchange_box_keys box_key aid room pid keys (some peer) s =
      let keys' = record keys { peer_public_key = some peer } in
      let saved = emit (audit "single_client_peer_ready") (
        emit
          (save_chatroom aid (str room) (rt.base64 keys'.public_key) (rt.base64 keys'.secret_key)
            (some (str (trim (to_text box_key)))) pid keys'.peer_public_keys)
          (record s { chatroom_box_keys = some keys' })) in
      let told = notify_client_json (own_key_frame rt keys') saved in
      if cfg.single_client_mode then emit register_active told else told

  unfoldable pub complete_single_client_register : Value → Session → Session
  unfolding exchange_box_keys get_or_create_chatroom_keys
  complete_single_client_register json s =
      let box_key = box_key_of json in
      let aid = agent_of rt json in
      let room = trim (to_text (room_or_default json)) in
      let pid = or_default (id_text (member json "participantId")) in
      let (keys, s') =
        get_or_create_chatroom_keys rt at aid (str room) pid
          (record s { single_client_agent_id = some aid }) in
      if not (truthy box_key) || trim (to_text box_key) == ""
      then notify_error "box_public_key_required" s
      else exchange_box_keys box_key aid room pid keys (rt.buffer_from box_key) s'

  -- up to where the mode decides
  unfoldable pub become_ready : String → Value → Session → Session
  become_ready server_public_key json s =
      let cid = or_else (member json "conversationId") (member json "chatroomId") in
      let agent = or_else (member json "agentId") (or_else (member json "appId") null) in
      let key =
        if id_text cid == ""
        then none
        else some (compute_session_key rt agent (str (id_text cid)) (str s.participant_id)) in
      let registered = obj (
        field "type" (str "registered") (
          field "serverPublicKey" (str server_public_key) (
            field "protocolVersion" (num (nonneg cfg.server_protocol_version))
              (field "capabilities" (arr (strings cfg.required_capabilities)) end)))) in
      let told = notify_client_json registered (record s { middleware_session_key = key }) in
      emit (audit "client_registered") (record told { handshake_state = ready_for_agent_req })

  -- `connect` is `connectToMiddleware`, of Session/Middleware.antt
  unfoldable pub complete_register_and_connect_middleware :
      (Session → Session) → String → Value → Session → Session
  unfolding become_ready
  complete_register_and_connect_middleware connect server_public_key json s =
      let ready = become_ready server_public_key json s in
      if cfg.single_client_mode then complete_single_client_register json ready else connect ready
