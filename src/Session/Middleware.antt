-- ===== src/Session/Middleware.antt =====
-- machineRelaySession.js: the connection of a session to the middleware, its handlers and its timers.
pub mod Reconnect
pub mod PeerKey
use ombot.Prelude.{
  ℕ, ◌+◌, ◌-◌, ◌*◌, ◌^◌, min, String, Bool, true, false, not, ◌&&◌, ◌||◌, Option, none, some, List,
  ◌∷◌, ltb, if◌then◌else◌, ◌==◌,
}
use ombot.Js.Text.{◌⧺◌, trim, includes}
use ombot.Js.Value.{
  Value, null, str, obj, end, field, member, truthy, is_nullish, is_text, or_else, to_text,
}
use ombot.Js.Runtime.{Runtime}
use ombot.BoxCrypto.{decrypt}
use ombot.SessionKey.{
  id_text, or_default, compute_session_key, encode_uri_component, middleware_ws_url_for_session,
}
use ombot.Session.{
  connecting, open_, is_open, ChatroomKeys, Effect, audit, save_chatroom, send_middleware,
  ping_middleware, terminate_middleware, middleware_disconnected, connect_middleware,
  schedule_reconnect, Config, Session, emit, stop_middleware_keepalive, is_client_connected,
  notify_error, deliver_plaintext_to_consumer,
}
use ombot.Session.Moment.{Moment}
use ombot.Session.Register.{
  get_or_create_chatroom_keys, room_or_default, agent_of, box_key_of, own_key_frame,
}
use ombot.Session.Relay.{handle_application_ping, peer_of, secret_of}

-- The delay before an attempt, in milliseconds, by the number of attempts so far.
unfoldable pub reconnect_delay : ℕ → ℕ
reconnect_delay attempt = min 30000 (1000 * 2 ^ min attempt 5)

abbrev pub is_some {ℓ} : {A : Type ℓ} → Option A → Bool
is_some none = false
is_some (some _) = true

abbrev or_zero : Option ℕ → ℕ
or_zero none = 0
or_zero (some t) = t

module _ (rt : Runtime) (cfg : Config) where
  unfoldable pub middleware_url_with_optional_query : Session → String
  middleware_url_with_optional_query s =
      let url = middleware_ws_url_for_session cfg.middleware_ws_url s.middleware_session_key in
      if not s.auth_retry_with_query || cfg.middleware_auth_token == ""
      then url
      else url
        ⧺ (if includes url "?" then "&" else "?")
        ⧺ "token="
        ⧺ encode_uri_component cfg.middleware_auth_token

  -- the Authorization header, where there is one
  abbrev auth_header : Session → Option String
  auth_header s =
      if not (cfg.middleware_auth_token == "") && not s.auth_retry_with_query
      then some ("Bearer " ⧺ cfg.middleware_auth_token)
      else none

  unfoldable pub connect_to_middleware : Session → Session
  connect_to_middleware s =
      if s.destroyed
      then s
      else if is_some s.middleware_ws || not (is_client_connected s)
      then s
      else emit (connect_middleware (middleware_url_with_optional_query s) (auth_header s))
          (record s { middleware_ws = some connecting })

  unfoldable pub start_bridge_session : Value → Value → Value → Session → Session
  unfolding connect_to_middleware
  start_bridge_session agent conversation participant s =
      let pid = to_text (or_else participant (str "default")) in
      let aid = if id_text agent == "" then null else str (id_text agent) in
      let cid = trim (to_text (or_else conversation (str "default"))) in
      connect_to_middleware (record s {
        trace_id = "ombot-bridge";
        participant_id = pid;
        middleware_session_key = some (compute_session_key rt aid (str cid) (str pid));
      })

  unfoldable pub start_middleware_keepalive : ℕ → Session → Session
  unfolding stop_middleware_keepalive
  start_middleware_keepalive now s =
      let stopped = stop_middleware_keepalive s in
      if is_some stopped.middleware_ws
      then record stopped { last_middleware_pong_at = some now; middleware_ping_timer = true }
      else stopped

  -- the handler of `open`
  unfoldable pub on_middleware_open : ℕ → Session → Session
  on_middleware_open now s =
      start_middleware_keepalive now
        (record s { middleware_ws = some open_; reconnect_attempt = 0 })

  -- the handler of `pong`
  unfoldable pub on_middleware_pong : ℕ → Session → Session
  on_middleware_pong now s = record s {
    last_middleware_pong_at = some now;
    middleware_pong_timeout = false;
  }

  -- the interval of 30 s; `throws` is whether `ping()` does
  unfoldable pub on_ping_timer : Bool → Session → Session
  on_ping_timer throws s =
      if not (is_open s.middleware_ws)
      then s
      else if throws
      then emit terminate_middleware s
      else record s { middleware_pong_timeout = true; effects = ping_middleware ∷ s.effects }

  -- the timeout of 10 s after a ping
  unfoldable pub on_pong_timeout : ℕ → Session → Session
  on_pong_timeout now s =
      if ltb 10000 (now - or_zero s.last_middleware_pong_at) && is_some s.middleware_ws
      then emit terminate_middleware s
      else s

  -- `this.middlewareWs.send`; where there is no open connection nothing leaves
  abbrev send_on_middleware : Value → Session → Session
  send_on_middleware v s = if is_open s.middleware_ws then emit (send_middleware v) s else s

  module _ (at : Moment) where
    -- `peer` is what the key of the frame decodes to; where decoding throws the handler ends
    abbrev pub adopt_peer :
        Value → String → Value → String → ChatroomKeys → Option (List ℕ) → Session → Session
    adopt_peer box_key aid room pid keys none s = record s { chatroom_box_keys = some keys }
    adopt_peer box_key aid room pid keys (some peer) s =
        let keys' = record keys { peer_public_key = some peer } in
        send_on_middleware (own_key_frame rt keys') (
          emit (audit "peer_key_updated") (
            emit
              (save_chatroom aid room (rt.base64 keys'.public_key) (rt.base64 keys'.secret_key)
                (some box_key) pid keys'.peer_public_keys)
              (record s { chatroom_box_keys = some keys' })))

    unfoldable pub on_peer_key : Value → Session → Session
    on_peer_key json s =
        let aid = agent_of rt json in
        let room = room_or_default json in
        let pid = or_default (id_text (member json "participantId")) in
        let (keys, s') = get_or_create_chatroom_keys rt at aid room pid s in
        adopt_peer (box_key_of json) aid room pid keys (rt.buffer_from (box_key_of json)) s'

    abbrev pub pong_or_deliver : Bool → String → Option Value → Session → Session
    pong_or_deliver bridge_connected plain none s = deliver_plaintext_to_consumer plain s
    pong_or_deliver bridge_connected plain (some parsed) s =
        if is_text (member parsed "type") "ping"
        then (handle_application_ping rt cfg at parsed bridge_connected s).1
        else deliver_plaintext_to_consumer plain s

    -- a decrypted text: `bridge_connected` is what `getBridgeConnected` returns
    unfoldable pub on_middleware_plaintext : Bool → String → Session → Session
    on_middleware_plaintext bridge_connected plain s =
        pong_or_deliver bridge_connected plain (rt.parse_json plain) s

    -- What `decrypt` gives: `none` where it throws, `some none` where it returns null.
    abbrev pub on_decrypted : Bool → Option (Option String) → Session → Session
    on_decrypted bridge_connected (some (some plain)) s =
        if plain == "" then s else on_middleware_plaintext bridge_connected plain s
    on_decrypted bridge_connected _ s = s

    abbrev pub on_encrypted : Bool → Value → Option (List ℕ) → Session → Session
    on_encrypted bridge_connected json none s = s
    on_encrypted bridge_connected json (some peer) s =
        on_decrypted bridge_connected
          (decrypt rt (member json "nonce") (member json "payload") peer
            (secret_of s.chatroom_box_keys))
          s

    unfoldable pub on_middleware_json : Bool → Value → Session → Session
    on_middleware_json bridge_connected json s =
        if is_text (member json "type") "register_public_key" && truthy (box_key_of json)
        then on_peer_key json s
        else if is_text (member json "type") "encrypted"
            && truthy (member json "nonce")
            && truthy (member json "payload")
        then on_encrypted bridge_connected json (peer_of s.chatroom_box_keys) s
        else s

    abbrev pub if_parsed : Bool → Option Value → Session → Session
    if_parsed bridge_connected none s = s
    if_parsed bridge_connected (some json) s = on_middleware_json bridge_connected json s

    -- the handler of `message`, of a frame of `bytes` bytes
    unfoldable pub on_middleware_message : Bool → ℕ → String → Session → Session
    on_middleware_message bridge_connected bytes raw s =
        if ltb cfg.max_message_bytes bytes
        then s
        else if_parsed bridge_connected (rt.parse_json raw) s

  -- what the client is told when the connection is lost for good
  abbrev lost_reason : Session → String
  lost_reason s =
      if s.auth_retry_with_query && not (cfg.middleware_auth_token == "")
      then "auth_failed"
      else "middleware_disconnected"

  unfoldable pub retry_later : Session → Session
  unfolding reconnect_delay
  retry_later s =
      let told = notify_error (lost_reason s) s in
      record told {
        reconnect_attempt = told.reconnect_attempt + 1;
        reconnect_timer = true;
        effects = schedule_reconnect (reconnect_delay (told.reconnect_attempt + 1)) ∷ told.effects;
      }

  -- up to where the handler of `close` looks at the client
  unfoldable pub forget_middleware : Session → Session
  unfolding stop_middleware_keepalive
  forget_middleware s =
      emit middleware_disconnected
        (record (stop_middleware_keepalive s) { middleware_ws = none; chatroom_box_keys = none })

  -- the handler of `close`
  unfoldable pub on_middleware_close : Session → Session
  unfolding forget_middleware connect_to_middleware retry_later
  on_middleware_close s =
      let lost = forget_middleware s in
      if not (is_client_connected lost)
      then lost
      else if not lost.auth_retry_with_query && not (cfg.middleware_auth_token == "")
      then connect_to_middleware (record lost { auth_retry_with_query = true })
      else retry_later lost

  -- the timer that `retry_later` sets
  unfoldable pub on_reconnect_timer : Session → Session
  unfolding connect_to_middleware
  on_reconnect_timer s = connect_to_middleware (record s { reconnect_timer = false })
