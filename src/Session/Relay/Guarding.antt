-- ===== src/Session/Relay/Guarding.antt =====
-- What relaying a request does to the nonces seen and to the state of the handshake.
use ombot.Prelude.{
  ℕ, String, ◌≡◌, refl, Bool, true, false, not, ◌||◌, Option, none, some, List, arith,
  if◌then◌else◌,
}
use ombot.Js.Value.{Value, member, is_text}
use ombot.Js.Runtime.{Runtime}
use ombot.Guards.Request.{Verdict, ok, rejected, Nonces, validate_req_signature}
use ombot.Session.{is_open, is_ready_for_agent_req, Config, Session, send_middleware, error_frame}
use ombot.Session.Moment.{Moment}
use ombot.Session.Keeps.{Keeps, notify-Keeps, encrypt-Keeps}
use ombot.Session.Relay.{
  phone_payload_to_user_text, Sent, sent, not_sent, threw, Handled, not_handled, peer_of, has_peer,
  ensure_single_client_gateway, enqueue_turn, turn_or_error, guarded_turn, guarded_relay,
  guard_verdict, after_send, pairing_not_ready, send_encrypted_to_middleware,
  relay_signed_req_single_client, relay_signed_req_to_middleware,
}

module _ (rt : Runtime) (cfg : Config) (at : Moment) where
  -- The handshake is as it was, and the nonces are as they were or as the guard leaves them.
  pub data Guards (s s' : Session) : Type 0 where
    unguarded : Keeps s s' → Guards s s'
    guarded :
        (req : Value) (key : Option (List ℕ))
        → s'.seen_nonces ≡ (validate_req_signature rt cfg.policy req key s.seen_nonces at.now).1
        → s'.handshake_state ≡ s.handshake_state
        → Guards s s'

  turn-Keeps :
      (o : Option String) (req : Value) (s : Session) → Keeps s (turn_or_error rt cfg at o req s)
  unfolding enqueue_turn ensure_single_client_gateway
  turn-Keeps none req s = notify-Keeps _ s
  turn-Keeps (some text) req s = ground arith

  abbrev pub Aims : Session → Nonces → Session → Type 0
  Aims s n s' = (s'.seen_nonces ≡ n) × (s'.handshake_state ≡ s.handshake_state)

  pub guarded_turn-Aims :
      (req : Value) (v : Verdict × Nonces) (s : Session)
      → Aims s v.1 (guarded_turn rt cfg at req v s).1
  guarded_turn-Aims req (rejected why, n) s = notify-Keeps _ _
  guarded_turn-Aims req (ok, n) s = turn-Keeps (phone_payload_to_user_text rt req) req _

  after_send-1 : (r : Sent × Session) → (after_send r).1 ≡ r.1
  after_send-1 (sent, s) = refl
  after_send-1 (not_sent, s) = refl
  after_send-1 (threw, s) = refl

  send-Keeps :
      (raw : String) (s : Session) → Keeps s (send_encrypted_to_middleware rt cfg at raw s).1
  unfolding send_encrypted_to_middleware
  send-Keeps raw s =
      ground (arith, encrypt-Keeps rt cfg at send_middleware (peer_of s.chatroom_box_keys) raw s)

  guarded_relay-Aims :
      (raw : String) (v : Verdict × Nonces) (s : Session)
      → Aims s v.1 (guarded_relay rt cfg at raw v s).1
  guarded_relay-Aims raw (rejected why, n) s = notify-Keeps _ _
  guarded_relay-Aims raw (ok, n) s =
      let s' = record s { seen_nonces = n } in
      ground
        (arith, after_send-1 (send_encrypted_to_middleware rt cfg at raw s'), send-Keeps raw s')

  pairing_not_ready-Keeps : (s : Session) → Keeps s (pairing_not_ready rt cfg at s).1
  pairing_not_ready-Keeps s = ground (arith, notify-Keeps (error_frame "pairing_not_ready" s) s)

  if-Guards :
      (b : Bool) (s : Session) (x y : Handled × Session)
      → Guards s x.1
      → Guards s y.1
      → Guards s (if b then x else y).1
  if-Guards true s x y h k = h
  if-Guards false s x y h k = k

  Aims-Guards :
      (req : Value) (s s' : Session) → Aims s (guard_verdict rt cfg at req s).1 s' → Guards s s'
  Aims-Guards req s s' h = guarded req s.client_verify_public_key h.0 h.1

  unready-or :
      (s : Session) (x : Handled × Session)
      → Guards s x.1
      → Guards s
          (if not (is_ready_for_agent_req s.handshake_state)
            then pairing_not_ready rt cfg at s
            else x).1
  unready-or s x h =
      if-Guards (not (is_ready_for_agent_req s.handshake_state)) s (pairing_not_ready rt cfg at s) x
        (unguarded (pairing_not_ready-Keeps s)) h

  unhandled-or :
      (b : Bool) (s : Session) (x : Handled × Session)
      → Guards s x.1
      → Guards s (if b then (not_handled, s) else x).1
  unhandled-or b s x h = if-Guards b s (not_handled, s) x (unguarded (refl, refl)) h

  single-Guards :
      (req : Value) (s : Session) → Guards s (relay_signed_req_single_client rt cfg at req s).1
  unfolding relay_signed_req_single_client
  single-Guards req s =
      let v = guard_verdict rt cfg at req s in
      let turn = guarded_turn rt cfg at req v s in
      unready-or s (if not (has_peer s) then (not_handled, s) else turn) (
        unhandled-or (not (has_peer s)) s turn
          (Aims-Guards req s turn.1 (guarded_turn-Aims req v s)))

  pub relay-Guards :
      (raw : String) (req : Value) (s : Session)
      → Guards s (relay_signed_req_to_middleware rt cfg at raw req s).1
  unfolding relay_signed_req_to_middleware
  relay-Guards raw req s =
      let v = guard_verdict rt cfg at req s in
      let relayed = guarded_relay rt cfg at raw v s in
      let absent = not (is_open s.middleware_ws) || not (has_peer s) in
      let sent = if absent then (not_handled, s) else relayed in
      let single = relay_signed_req_single_client rt cfg at req s in
      let chosen = if cfg.single_client_mode then single else sent in
      let ready =
        if not (is_ready_for_agent_req s.handshake_state)
        then pairing_not_ready rt cfg at s
        else chosen in
      unhandled-or (not (is_text (member req "type") "req")) s ready (
        unready-or s chosen (
          if-Guards cfg.single_client_mode s single sent (single-Guards req s) (
            unhandled-or absent s relayed
              (Aims-Guards req s relayed.1 (guarded_relay-Aims raw v s)))))
