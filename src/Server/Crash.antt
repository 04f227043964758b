-- ===== src/Server/Crash.antt =====
-- Messages that end the process.
use ombot.Prelude.{
  ℕ, ◌≤◌, String, ◌≡◌, refl, ap, ◌∙◌, ◌≢◌, length, ltb, Bool, true, false, none, some, List, arith,
  eq_iff, ◌==◌,
}
use ombot.Js.Value.{Value, undefined, null, bool, num, str, obj, arr, member, is_text, truthy}
use ombot.Js.Runtime.{Runtime}
use ombot.Guards.Request.{ok}
use ombot.Session.{Config, Session, is_open, is_ready_for_agent_req}
use ombot.Session.Register.{box_key_of}
use ombot.Session.Middleware.{on_middleware_message}
use ombot.Session.Middleware.PeerKey.{Delivered, peer_key-Delivered}
use ombot.Session.Relay.BadKey.{bad_key_fails}
use ombot.Session.Moment.{Moment}
use ombot.Server.{Server, allow_message, RateWindow}
use ombot.Server.Connection.{crashed, on_client_message, after_limit, on_parsed, on_client_json}
use ombot.Session.Relay.{failed, secret_of, guard_verdict, relay_signed_req_to_middleware}

module _ (rt : Runtime) (cfg : Config) (max_per_minute : ℕ) (server_public_key client : String)
    (at : Moment) (bridge : Bool) where
  limited-crashed :
      (bytes : ℕ) (raw : String) (r : Bool × RateWindow) (server : Server) (s : Session)
      → r.0 ≡ true
      → bytes ≤ cfg.max_message_bytes
      → rt.parse_json raw ≡ some null
      → after_limit rt cfg max_per_minute server_public_key client at bridge bytes raw server s r
        ≡ crashed
  limited-crashed bytes raw (false, w) server s h k e = ground arith
  limited-crashed bytes raw (true, w) server s h k e = ground arith

  -- A message that the rate limit lets through, that is not too long, and that parses to null ends
  -- the process, in any state of the session.
  pub null_message_crashes :
      (bytes : ℕ) (raw : String) (server : Server) (s : Session)
      → (allow_message max_per_minute client at.now server.rate_window).0 ≡ true
      → bytes ≤ cfg.max_message_bytes
      → rt.parse_json raw ≡ some null
      → on_client_message rt cfg max_per_minute server_public_key client at bridge bytes raw server
          s
        ≡ crashed
  unfolding on_client_message
  null_message_crashes bytes raw server s h k e =
      limited-crashed bytes raw (allow_message max_per_minute client at.now server.rate_window)
        server s h k e

  parsed-json :
      (raw : String) (req : Value) (server : Server) (s : Session)
      → is_text (member req "type") "req" ≡ true
      → on_parsed rt cfg max_per_minute server_public_key client at bridge raw req server s
        ≡ on_client_json rt cfg max_per_minute server_public_key client at bridge raw req server s
  unfolding member is_text
  parsed-json raw null server s h = cc
  parsed-json raw undefined server s h = refl
  parsed-json raw (bool b) server s h = refl
  parsed-json raw (num n) server s h = refl
  parsed-json raw (str t) server s h = refl
  parsed-json raw (obj fs) server s h = refl
  parsed-json raw (arr xs) server s h = refl

  -- a request is no other message
  only_req :
      (type : Value) (other : String)
      → is_text type "req" ≡ true
      → (other == "req") ≡ false
      → is_text type other ≡ false
  unfolding is_text
  only_req (str s) other h d = ground (arith, eq_iff s other, eq_iff s "req", eq_iff other "req")
  only_req _ other h d = cc

  req-crashed :
      (raw : String) (req : Value) (server : Server) (s : Session)
      → cfg.single_client_mode ≡ false
      → is_text (member req "type") "req" ≡ true
      → (relay_signed_req_to_middleware rt cfg at raw req s).0 ≡ failed
      → on_client_json rt cfg max_per_minute server_public_key client at bridge raw req server s
        ≡ crashed
  unfolding on_client_json
  req-crashed raw req server s relaying is_req fails = ground (
    arith,
    only_req (member req "type") "register_public_key" is_req refl,
    only_req (member req "type") "register_challenge_response" is_req refl,
    only_req (member req "type") "ping" is_req refl,
  )

  parsed-crashed :
      (bytes : ℕ) (raw : String) (req : Value) (r : Bool × RateWindow) (server : Server)
      (s : Session)
      → r.0 ≡ true
      → bytes ≤ cfg.max_message_bytes
      → rt.parse_json raw ≡ some req
      → cfg.single_client_mode ≡ false
      → is_text (member req "type") "req" ≡ true
      → (relay_signed_req_to_middleware rt cfg at raw req s).0 ≡ failed
      → after_limit rt cfg max_per_minute server_public_key client at bridge bytes raw server s r
        ≡ crashed
  parsed-crashed bytes raw req (false, w) server s h k e relaying is_req fails = ground arith
  parsed-crashed bytes raw req (true, w) server s h k e relaying is_req fails =
      let server' = record server { rate_window = w } in
      let short : ltb cfg.max_message_bytes bytes ≡ false = ground arith in
      rw (short, e)
        (parsed-json raw req server' s is_req ∙ req-crashed raw req server' s relaying is_req fails)

  module _ (earlier : Moment) (key_bytes : ℕ) (key_raw : String) (key : Value) (peer : List ℕ)
      (s : Session) where
    -- the session after a frame of the middleware
    abbrev pub with_key : Session
    with_key = on_middleware_message rt cfg earlier bridge key_bytes key_raw s

    with_key-Delivered :
        key_bytes ≤ cfg.max_message_bytes
        → rt.parse_json key_raw ≡ some key
        → is_text (member key "type") "register_public_key" ≡ true
        → truthy (box_key_of key) ≡ true
        → rt.buffer_from (box_key_of key) ≡ some peer
        → Delivered peer s with_key
    unfolding on_middleware_message
    with_key-Delivered fits parses is_key given decoded =
        let short : ltb cfg.max_message_bytes key_bytes ≡ false = ground arith in
        rw (short, parses)
          (peer_key-Delivered rt cfg earlier key peer bridge s is_key given decoded)

    -- In the relaying mode, where `nacl.box` throws at a key that has not 32 bytes: after the
    -- middleware has handed on such a key to a ready session, any request that the rate limit lets
    -- through, that is not too long and that the guard accepts ends the process.
    pub bad_key_crashes :
        (bytes : ℕ) (raw : String) (req : Value) (server : Server)
        → ((text : String) (nonce public_key secret_key : List ℕ)
            → length public_key ≢ 32
            → rt.box text nonce public_key secret_key ≡ none)
        → cfg.single_client_mode ≡ false
        → is_ready_for_agent_req s.handshake_state ≡ true
        → is_open s.middleware_ws ≡ true
        → key_bytes ≤ cfg.max_message_bytes
        → rt.parse_json key_raw ≡ some key
        → is_text (member key "type") "register_public_key" ≡ true
        → truthy (box_key_of key) ≡ true
        → rt.buffer_from (box_key_of key) ≡ some peer
        → length peer ≢ 32
        → (allow_message max_per_minute client at.now server.rate_window).0 ≡ true
        → bytes ≤ cfg.max_message_bytes
        → rt.parse_json raw ≡ some req
        → is_text (member req "type") "req" ≡ true
        → (guard_verdict rt cfg at req with_key).0 ≡ ok
        → on_client_message rt cfg max_per_minute server_public_key client at bridge bytes raw
            server with_key
          ≡ crashed
    unfolding on_client_message
    bad_key_crashes bytes raw req server throws relaying ready linked key_fits key_parses is_key
          given decoded bad passes fits parses is_req accepted =
        let d = with_key-Delivered key_fits key_parses is_key given decoded in
        parsed-crashed bytes raw req (allow_message max_per_minute client at.now server.rate_window)
          server with_key passes fits parses relaying is_req
          (bad_key_fails rt cfg at raw req with_key peer relaying is_req
            (ap is_ready_for_agent_req d.ready ∙ ready) (ap is_open d.linked ∙ linked) d.known
            accepted (throws raw at.box_nonce peer (secret_of with_key.chatroom_box_keys) bad))
