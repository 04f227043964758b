-- ===== src/Server/Life/Progress.antt =====
-- What one event does to the nonces seen, and when it makes a client ready.
use ombot.Prelude.{
  ℕ, String, ◌≡◌, refl, sym, ap, ◌∙◌, ◌⊎◌, Bool, true, false, ◌&&◌, false≢true, Option, none, some,
  List, arith, inl, inr, ltb, if◌then◌else◌,
}
use ombot.Js.Value.{Value, null, undefined, bool, num, str, arr, obj, member, truthy, is_text}
use ombot.Js.Runtime.{Runtime}
use ombot.Guards.Request.{validate_req_signature}
use ombot.Session.{
  closed, audit, is_ready_for_agent_req, Config, Session, emit, notify_client_json,
  stop_middleware_keepalive,
}
use ombot.Session.Moment.{Moment}
use ombot.Session.Keeps.{
  Keeps, notify-Keeps, close-Keeps, destroy-Keeps, plaintext_ping-Keeps, frame-Keeps, connect-Keeps,
  message-Keeps, middleware_close-Keeps,
}
use ombot.Session.Pairing.{Prepares, prepare-Prepares, IsCompleted, ready_needs_challenge}
use ombot.Session.Register.Challenge.{
  validate_and_prepare_register, handle_register_challenge_response,
}
use ombot.Session.Relay.{
  Sent, sent, not_sent, threw, FrameAction, relay, heartbeat, ignore, close, Handled, handled,
  not_handled, failed, handle_plaintext_application_ping, handle_single_client_encrypted_frame,
  relay_signed_req_to_middleware,
}
use ombot.Session.Relay.Guarding.{Guards, unguarded, guarded, relay-Guards}
use ombot.Session.Middleware.{
  connect_to_middleware, start_middleware_keepalive, on_middleware_open, on_middleware_pong,
  on_ping_timer, on_pong_timeout, on_reconnect_timer,
}
use ombot.Server.{Server, RateWindow, allow_message}
use ombot.Server.Connection.{
  Outcome, running, crashed, bare_error, fields_of, complain, respond, after_response, after_relay,
  after_frame, on_client_json, if_parsed, read_message, after_limit, on_client_message,
  on_client_close,
}
use ombot.Server.Life.{
  Event, client_message, client_close, middleware_open, middleware_pong, middleware_close,
  middleware_message, reconnect_timer, pong_timeout, ping_timer, handle,
}

-- a property of the session that goes on, where one does
abbrev pub Allows : (Session → Type 0) → Outcome → Type 0
Allows P (running server s) = P s
Allows P crashed = Unit

if-Allows :
    (P : Session → Type 0) (b : Bool) (x y : Outcome)
    → Allows P x
    → Allows P y
    → Allows P (if b then x else y)
if-Allows P true x y h k = h
if-Allows P false x y h k = k

-- what the message of an event parses to
abbrev pub received_of : Runtime → Event → Option Value
received_of rt (client_message bytes raw) = rt.parse_json raw
received_of rt _ = none

module _ (rt : Runtime) (cfg : Config) (server_public_key : String) (at : Moment)
    (received : Option Value) where
  -- The nonces are as they were or as the guard leaves them; a client that becomes ready has
  -- completed a challenge by what it sent.
  pub record Goes (s s' : Session) : Type 0 where
    pub nonces :
        (s'.seen_nonces ≡ s.seen_nonces)
        ⊎ ((req : Value) × (key : Option (List ℕ)) × (s'.seen_nonces
              ≡ (validate_req_signature rt cfg.policy req key s.seen_nonces at.now).1))
    pub ready :
        is_ready_for_agent_req s'.handshake_state ≡ true
        → (is_ready_for_agent_req s.handshake_state ≡ true)
          ⊎ ((response : Value) × (received ≡ some response)
              × IsCompleted rt cfg at server_public_key response s)

  Keeps-Goes : (s s' : Session) → Keeps s s' → Goes s s'
  Keeps-Goes s s' k = record {
    nonces = inl k.0;
    ready = λ h. inl (ap is_ready_for_agent_req (sym k.1) ∙ h);
  }

  Guards-Goes : (s s0 s' : Session) → Keeps s s0 → Guards rt cfg at s0 s' → Goes s s'
  Guards-Goes s s0 s' k (unguarded h) = Keeps-Goes s s' (h.0 ∙ k.0, h.1 ∙ k.1)
  Guards-Goes s s0 s' k (guarded req key n h) = record {
    nonces =
        inr (req, key, n ∙ ap (λ m. (validate_req_signature rt cfg.policy req key m at.now).1) k.0);
    ready = λ r. inl (ap is_ready_for_agent_req (sym (h ∙ k.1)) ∙ r);
  }

  -- what follows a step without touching either
  Goes-Keeps : (s s0 s' : Session) → Goes s s0 → Keeps s0 s' → Goes s s'
  Goes-Keeps s s0 s' g k = record {
    nonces = elim g.nonces [ inl e ↦ inl (k.0 ∙ e) | inr (req, key, e) ↦ inr (req, key, k.0 ∙ e) ];
    ready = λ h. g.ready (ap is_ready_for_agent_req (sym k.1) ∙ h);
  }

  Prepares-Goes : (s s' : Session) → Prepares s s' → Goes s s'
  Prepares-Goes s s' (e, inl same) = Keeps-Goes s s' (e, same)
  Prepares-Goes s s' (e, inr issued) = record {
    nonces = inl e;
    ready = λ h. absurd (false≢true (ap is_ready_for_agent_req (sym issued) ∙ h));
  }

  answered-Goes :
      (v : Value) (s : Session)
      → received ≡ some v
      → Goes s
          (handle_register_challenge_response rt cfg at
            (connect_to_middleware rt cfg)
            server_public_key
            v
            s).1
  answered-Goes v s heard =
      let r = ready_needs_challenge rt cfg at server_public_key v s in
      record {
        nonces = inl r.0;
        ready = λ h. elim (r.1 h) [ inl was ↦ inl was | inr done ↦ inr (v, heard, done) ];
      }

  module _ (max_per_minute : ℕ) (client : String) (bridge : Bool) where
    complain-Keeps :
        (message : String) (s : Session)
        → Keeps s (complain rt cfg max_per_minute server_public_key client at bridge message s)
    complain-Keeps message s =
        let told = notify_client_json (bare_error message) s in
        ground (arith, notify-Keeps (bare_error message) s, close-Keeps 1008 message told)

    after_response-Keeps :
        (r : Option Value × Session)
        → Keeps r.1 (after_response rt cfg max_per_minute server_public_key client at bridge r)
    after_response-Keeps (none, s) = (refl, refl)
    after_response-Keeps (some v, s) =
        let told = notify_client_json v s in
        ground (arith, notify-Keeps v s, close-Keeps 1008 "challenge_failed" told)

    respond-Keeps :
        (r : Value × Session)
        → Keeps r.1 (respond rt cfg max_per_minute server_public_key client at bridge r)
    respond-Keeps (v, s) = notify-Keeps v s

    after_relay-Goes :
        (server : Server) (s : Session) (r : Handled × Session)
        → Goes s r.1
        → Allows
            (Goes s)
            (after_relay rt cfg max_per_minute server_public_key client at bridge server r)
    after_relay-Goes server s (failed, s') g = tt
    after_relay-Goes server s (handled, s') g = g
    after_relay-Goes server s (not_handled, s') g = g

    after_frame-Goes :
        (server : Server) (s : Session) (r : FrameAction × Sent × Session)
        → Keeps s r.2
        → Allows
            (Goes s)
            (after_frame rt cfg max_per_minute server_public_key client at bridge server r)
    after_frame-Goes server s (relay plain v, t, s') k =
        after_relay-Goes server s (relay_signed_req_to_middleware rt cfg at plain v s')
          (Guards-Goes s s' _ k (relay-Guards rt cfg at plain v s'))
    after_frame-Goes server s (close, t, s') k =
        Keeps-Goes s
          (if cfg.strict_pairing_profile
            then complain rt cfg max_per_minute server_public_key client at bridge
                "encrypted_frame_invalid" s'
            else s')
          (ground (arith, complain-Keeps "encrypted_frame_invalid" s'))
    after_frame-Goes server s (heartbeat, threw, s') k = tt
    after_frame-Goes server s (heartbeat, sent, s') k = Keeps-Goes s s' k
    after_frame-Goes server s (heartbeat, not_sent, s') k = Keeps-Goes s s' k
    after_frame-Goes server s (ignore, threw, s') k = tt
    after_frame-Goes server s (ignore, sent, s') k = Keeps-Goes s s' k
    after_frame-Goes server s (ignore, not_sent, s') k = Keeps-Goes s s' k

    json-Goes :
        (raw : String) (v : Value) (server : Server) (s : Session)
        → received ≡ some v
        → Allows
            (Goes s)
            (on_client_json rt cfg max_per_minute server_public_key client at bridge raw v server s)
    unfolding on_client_json
    json-Goes raw v server s heard =
        let prepared = validate_and_prepare_register rt cfg at (fields_of v) s in
        let answered =
          handle_register_challenge_response rt cfg at (connect_to_middleware rt cfg)
            server_public_key v s in
        let framed = handle_single_client_encrypted_frame rt cfg at v bridge s in
        let relayed = relay_signed_req_to_middleware rt cfg at raw v s in
        let outcome5 = running server (
          complain rt cfg max_per_minute server_public_key client at bridge
            "unsupported_message_type" s) in
        let outcome4 =
          if is_text (member v "type") "req"
          then after_relay rt cfg max_per_minute server_public_key client at bridge server relayed
          else outcome5 in
        let outcome3 =
          if is_text (member v "type") "ping"
          then running server (handle_plaintext_application_ping rt cfg at v bridge s)
          else outcome4 in
        let outcome2 =
          if cfg.single_client_mode && is_text (member v "type") "encrypted"
          then after_frame rt cfg max_per_minute server_public_key client at bridge server framed
          else outcome3 in
        let outcome1 =
          if is_text (member v "type") "register_challenge_response"
          then running server
              (after_response rt cfg max_per_minute server_public_key client at bridge answered)
          else outcome2 in
        if-Allows (Goes s)
          (is_text (member v "type") "register_public_key" && truthy (member v "publicKey"))
          (running server
            (respond rt cfg max_per_minute server_public_key client at bridge prepared))
          outcome1
          (Goes-Keeps s prepared.1 _
            (Prepares-Goes s prepared.1 (prepare-Prepares rt cfg at (fields_of v) s))
            (respond-Keeps prepared))
          (if-Allows (Goes s) (is_text (member v "type") "register_challenge_response")
            (running server
              (after_response rt cfg max_per_minute server_public_key client at bridge answered))
            outcome2
            (Goes-Keeps s answered.1 _ (answered-Goes v s heard) (after_response-Keeps answered))
            (if-Allows (Goes s) (cfg.single_client_mode && is_text (member v "type") "encrypted")
              (after_frame rt cfg max_per_minute server_public_key client at bridge server framed)
              outcome3 (after_frame-Goes server s framed (frame-Keeps rt cfg at v bridge s))
              (if-Allows (Goes s) (is_text (member v "type") "ping")
                (running server (handle_plaintext_application_ping rt cfg at v bridge s)) outcome4
                (Keeps-Goes s _ (plaintext_ping-Keeps rt cfg at v bridge s))
                (if-Allows (Goes s) (is_text (member v "type") "req")
                  (after_relay rt cfg max_per_minute server_public_key client at bridge server
                    relayed)
                  outcome5
                  (after_relay-Goes server s relayed
                    (Guards-Goes s s relayed.1 (refl, refl) (relay-Guards rt cfg at raw v s)))
                  (Keeps-Goes s _ (complain-Keeps "unsupported_message_type" s))))))

    parsed-Goes :
        (raw : String) (o : Option Value) (server : Server) (s : Session)
        → received ≡ o
        → Allows
            (Goes s)
            (if_parsed rt cfg max_per_minute server_public_key client at bridge raw o server s)
    parsed-Goes raw none server s heard = Keeps-Goes s s (refl, refl)
    parsed-Goes raw (some null) server s heard = tt
    parsed-Goes raw (some undefined) server s heard = json-Goes raw undefined server s heard
    parsed-Goes raw (some (bool b)) server s heard = json-Goes raw (bool b) server s heard
    parsed-Goes raw (some (num n)) server s heard = json-Goes raw (num n) server s heard
    parsed-Goes raw (some (str t)) server s heard = json-Goes raw (str t) server s heard
    parsed-Goes raw (some (arr xs)) server s heard = json-Goes raw (arr xs) server s heard
    parsed-Goes raw (some (obj fs)) server s heard = json-Goes raw (obj fs) server s heard

    read-Goes :
        (bytes : ℕ) (raw : String) (server : Server) (s : Session)
        → received ≡ rt.parse_json raw
        → Allows (Goes s) (
            read_message rt cfg max_per_minute server_public_key client at bridge bytes raw server
              s)
    read-Goes bytes raw server s heard =
        if-Allows (Goes s) (ltb cfg.max_message_bytes bytes)
          (running server (emit (audit "client_payload_too_large") s))
          (if_parsed rt cfg max_per_minute server_public_key client at bridge raw
            (rt.parse_json raw) server s)
          (Keeps-Goes s _ (refl, refl)) (parsed-Goes raw (rt.parse_json raw) server s heard)

    limited-Goes :
        (bytes : ℕ) (raw : String) (r : Bool × RateWindow) (server : Server) (s : Session)
        → received ≡ rt.parse_json raw
        → Allows (Goes s) (
            after_limit rt cfg max_per_minute server_public_key client at bridge bytes raw server s
              r)
    limited-Goes bytes raw (true, w) server s heard =
        read-Goes bytes raw (record server { rate_window = w }) s heard
    limited-Goes bytes raw (false, w) server s heard =
        Keeps-Goes s _
          (notify-Keeps (bare_error "rate_limited") (emit (audit "client_rate_limited") s))

module _ (rt : Runtime) (cfg : Config) (server_public_key : String) (at : Moment)
    (max_per_minute : ℕ) (client : String) (bridge : Bool) where
  keeps :
      (e : Event) (s s' : Session)
      → Keeps s s'
      → Goes rt cfg server_public_key at (received_of rt e) s s'
  keeps e s s' k = Keeps-Goes rt cfg server_public_key at (received_of rt e) s s' k

  -- After any event of a connection whose handler does not end the process, the nonces seen are as
  -- they were or as the guard leaves them for some request and key; and a client that was not
  -- ready is ready only where the event was a message that answered the challenge that was issued
  -- to it and passed every check.
  pub handle-Goes :
      (e : Event) (server : Server) (s : Session)
      → Allows
          (Goes rt cfg server_public_key at (received_of rt e) s)
          (handle rt cfg max_per_minute server_public_key client at bridge e server s)
  unfolding handle on_client_message on_client_close on_middleware_open on_middleware_pong
      on_ping_timer on_pong_timeout start_middleware_keepalive stop_middleware_keepalive
      on_reconnect_timer
  handle-Goes (client_message bytes raw) server s =
      limited-Goes rt cfg server_public_key at (rt.parse_json raw) max_per_minute client bridge
        bytes raw (allow_message max_per_minute client at.now server.rate_window) server s refl
  handle-Goes client_close server s =
      keeps client_close s _ (destroy-Keeps cfg (record s { client_ws = some closed }))
  handle-Goes middleware_open server s = keeps middleware_open s _ (refl, refl)
  handle-Goes middleware_pong server s = keeps middleware_pong s _ (refl, refl)
  handle-Goes middleware_close server s =
      keeps middleware_close s _ (middleware_close-Keeps rt cfg at s)
  handle-Goes (middleware_message bytes raw) server s =
      keeps (middleware_message bytes raw) s _ (message-Keeps rt cfg at bridge bytes raw s)
  handle-Goes reconnect_timer server s = keeps reconnect_timer s _ (connect-Keeps rt cfg at _)
  handle-Goes pong_timeout server s = keeps pong_timeout s _ (ground arith)
  handle-Goes (ping_timer throws) server s = keeps (ping_timer throws) s _ (ground arith)
