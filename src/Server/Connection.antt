-- ===== src/Server/Connection.antt =====
-- index.js: the handlers of one client's connection.
use ombot.Prelude.{ℕ, String, Bool, true, false, ◌&&◌, Option, none, some, ltb, if◌then◌else◌}
use ombot.Js.Value.{Value, null, str, obj, Fields, end, field, member, truthy, is_text}
use ombot.Js.Runtime.{Runtime}
use ombot.Session.{
  ReadyState, open_, closed, audit, Config, Session, emit, notify_client_json, close_client_ws,
  destroy,
}
use ombot.Session
use ombot.Session.Moment.{Moment}
use ombot.Session.Register.Challenge.{
  validate_and_prepare_register, handle_register_challenge_response,
}
use ombot.Session.Middleware.{connect_to_middleware}
use ombot.Session.Relay.{
  Sent, threw, FrameAction, relay, close, Handled, failed, handle_plaintext_application_ping,
  handle_single_client_encrypted_frame, relay_signed_req_to_middleware,
}
use ombot.Server.{Server, RateWindow, allow_message, delete_times}

-- What a handler comes to: the server and the session afterwards, or an exception that nothing
-- catches, which ends the process.
pub data Outcome : Type 0 where
  running : Server → Session → Outcome
  crashed : Outcome

-- `{ type: 'error', message }`
abbrev pub bare_error : String → Value
bare_error message = obj (field "type" (str "error") (field "message" (str message) end))

abbrev pub fields_of : Value → Fields
fields_of (obj fs) = fs
fields_of _ = end

-- none where the connection is refused
unfoldable pub on_connection : Server → Option Session
on_connection server =
    if server.accepting_new_connections
    then some (emit (audit "client_connected") (Session.new (some open_) false false))
    else none

unfoldable pub on_client_close : Config → String → Server → Session → Outcome
unfolding destroy
on_client_close cfg client server s =
    running (record server { rate_window = delete_times client server.rate_window })
      (emit (audit "client_disconnected") (destroy cfg (record s { client_ws = some closed })))

module _ (rt : Runtime) (cfg : Config) (max_per_minute : ℕ) (server_public_key client : String)
    (at : Moment) (bridge_connected : Bool) where
  abbrev pub complain : String → Session → Session
  complain message s =
      let told = notify_client_json (bare_error message) s in
      if cfg.strict_pairing_profile then close_client_ws 1008 message told else told

  -- `notifyClientJson(prep.response)`
  abbrev pub respond : Value × Session → Session
  respond (response, s) = notify_client_json response s

  abbrev pub after_response : Option Value × Session → Session
  after_response (none, s) = s
  after_response (some response, s) =
      let told = notify_client_json response s in
      if cfg.strict_pairing_profile then close_client_ws 1008 "challenge_failed" told else told

  abbrev pub after_relay : Server → Handled × Session → Outcome
  after_relay server (failed, s) = crashed
  after_relay server (_, s) = running server s

  abbrev pub after_frame : Server → FrameAction × Sent × Session → Outcome
  after_frame server (relay plain inner, _, s) =
      after_relay server (relay_signed_req_to_middleware rt cfg at plain inner s)
  after_frame server (close, _, s) =
      running server
        (if cfg.strict_pairing_profile then complain "encrypted_frame_invalid" s else s)
  after_frame server (_, threw, s) = crashed
  after_frame server (_, _, s) = running server s

  -- a message that parses to anything but null
  unfoldable pub on_client_json : String → Value → Server → Session → Outcome
  on_client_json raw json server s =
      if is_text (member json "type") "register_public_key" && truthy (member json "publicKey")
      then running server (respond (validate_and_prepare_register rt cfg at (fields_of json) s))
      else if is_text (member json "type") "register_challenge_response"
      then running server (
          after_response (
            handle_register_challenge_response rt cfg at (connect_to_middleware rt cfg)
              server_public_key json s))
      else if cfg.single_client_mode && is_text (member json "type") "encrypted"
      then after_frame server
          (handle_single_client_encrypted_frame rt cfg at json bridge_connected s)
      else if is_text (member json "type") "ping"
      then running server (handle_plaintext_application_ping rt cfg at json bridge_connected s)
      else if is_text (member json "type") "req"
      then after_relay server (relay_signed_req_to_middleware rt cfg at raw json s)
      else running server (complain "unsupported_message_type" s)

  -- Reading a property of null throws.
  abbrev pub on_parsed : String → Value → Server → Session → Outcome
  on_parsed raw null server s = crashed
  on_parsed raw json server s = on_client_json raw json server s

  abbrev pub if_parsed : String → Option Value → Server → Session → Outcome
  if_parsed raw none server s = running server s
  if_parsed raw (some json) server s = on_parsed raw json server s

  -- `parseClientMessage`, and what follows it
  abbrev pub read_message : ℕ → String → Server → Session → Outcome
  read_message bytes raw server s =
      if ltb cfg.max_message_bytes bytes
      then running server (emit (audit "client_payload_too_large") s)
      else if_parsed raw (rt.parse_json raw) server s

  abbrev pub after_limit : ℕ → String → Server → Session → Bool × RateWindow → Outcome
  after_limit bytes raw server s (true, w) =
      read_message bytes raw (record server { rate_window = w }) s
  after_limit bytes raw server s (false, w) =
      running (record server { rate_window = w })
        (notify_client_json (bare_error "rate_limited") (emit (audit "client_rate_limited") s))

  -- the handler of `message`, of a text of `bytes` bytes
  unfoldable pub on_client_message : ℕ → String → Server → Session → Outcome
  on_client_message bytes raw server s =
      after_limit bytes raw server s (allow_message max_per_minute client at.now server.rate_window)
