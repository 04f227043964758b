-- ===== src/Gateway/Client/Handshake/Connected.antt =====
-- What makes the client take the gateway for connected.
use mathlib.Core.List.{[], ◌∷◌}
use ombot.Prelude.{
  String, ◌≡◌, refl, ◌∙◌, Bool, true, false, ◌&&◌, ◌||◌, not, Option, none, some, List, arith,
  Option-cases, inl, inr, eq_iff,
}
use ombot.Js.Value.{Value, str, to_text, member, truthy, is_text, is_bool}
use ombot.Js.Runtime.{Runtime}
use ombot.Gateway.Deduper.{Deduper}
use ombot.Gateway.Dispatch.{assistant_text_for_consumer}
use ombot.Gateway.Device.Payload.{DeviceKeys}
use ombot.Gateway.Device.State.{device_auth_insecure_skip}
use ombot.Gateway.Client.{
  Turn, Client, drain_queue, start_first, send_agent_turn, turn_settled, finish_connect, is_none,
}
use ombot.Gateway.Client.Connect.{Composed, compose_connect_params}
use ombot.Gateway.Client.Handshake.{
  Link, Attempt, act, assistant_text, set_nonce, clear_connect_challenge_timer, hand_on, spoken,
  acknowledged, answered, answered_or_fallback, on_turn_response, omit_device_of, send_composed,
  send_connect_handshake, handle_connect_challenge_event, is_hello_ok_authorized, persist_hello_ok,
  finish_connect_success, connected_after, refused_connect, extract_connect_challenge,
  on_connect_response, on_response, on_gateway_message, settle, without_connect, with_client,
  set_connect_sent, challenge_nonce, message_id_sent, without_pending,
}

not_both : (v : Value) → (is_text v "event" && is_text v "res") ≡ false
unfolding is_text
not_both (str s) = ground (arith, eq_iff s "event", eq_iff s "res", eq_iff "event" "res")
not_both _ = refl

abbrev pub is_connected : Link → Bool
is_connected l = l.client.gateway_connected

start-connected :
    (id : String) (queue : List Turn) (c : Client)
    → (start_first id queue c).gateway_connected ≡ c.gateway_connected
unfolding send_agent_turn
start-connected id [] c = refl
start-connected id (turn ∷ rest) c = ground arith

drain-connected :
    (id : String) (c : Client) → (drain_queue id c).gateway_connected ≡ c.gateway_connected
unfolding drain_queue
drain-connected id c = ground (arith, start-connected id c.queue c)

settle-connected : (at : Attempt) (l : Link) → is_connected (settle at l) ≡ is_connected l
unfolding turn_settled
settle-connected at l = drain-connected at.turn_id (record l.client { in_flight = false })

spoken-connected :
    (r : Option String × Deduper) (l : Link) → is_connected (spoken r l) ≡ is_connected l
spoken-connected (none, d) l = refl
spoken-connected (some text, d) l = refl

hand_on-connected : (msg : Value) (l : Link) → is_connected (hand_on msg l) ≡ is_connected l
unfolding hand_on
hand_on-connected msg l =
    spoken-connected (assistant_text_for_consumer msg l.client.reply_deduper) l

acknowledged-connected :
    (msg : Value) (id : Option String) (l : Link)
    → is_connected (acknowledged msg id l) ≡ is_connected l
acknowledged-connected msg none l = refl
acknowledged-connected msg (some id) l = ground arith

answered-connected :
    (at : Attempt) (msg : Value) (id : Option String) (l : Link)
    → is_connected (answered at msg id l) ≡ is_connected l
unfolding answered
answered-connected at msg id l =
    settle-connected at (hand_on msg (acknowledged msg id l))
    ∙ hand_on-connected msg (acknowledged msg id l)
    ∙ acknowledged-connected msg id l

answered_or_fallback-connected :
    (at : Attempt) (msg : Value) (id : Option String) (reply : Option String) (l : Link)
    → is_connected (answered_or_fallback at msg id reply l) ≡ is_connected l
answered_or_fallback-connected at msg id none l = answered-connected at msg id l
answered_or_fallback-connected at msg id (some text) l =
    settle-connected at (act (assistant_text text) l)

on_turn_response-connected :
    (at : Attempt) (msg : Value) (id : Option String) (l : Link)
    → is_connected (on_turn_response at msg id l) ≡ is_connected l
unfolding on_turn_response
on_turn_response-connected at msg id l =
    ground (
      arith,
      answered-connected at msg id l,
      answered_or_fallback-connected at msg id at.fallback l,
    )

module _ (rt : Runtime) (keys : DeviceKeys) (platform gateway_token : String) where
  send_composed-connected :
      (at : Attempt) (omit_device : Bool) (composed : Composed) (l : Link)
      → is_connected (send_composed rt keys platform gateway_token at omit_device composed l)
        ≡ is_connected l
  send_composed-connected at omit_device composed l = elim (Option-cases composed.params) [
    | inl nothing ↦ rw nothing
    | inr (params, e) ↦ rw e (ground arith)
  ]

  send-connected :
      (at : Attempt) (omit_device : Bool) (nonce : String) (l : Link)
      → is_connected (send_connect_handshake rt keys platform gateway_token at omit_device nonce l)
        ≡ is_connected l
  unfolding send_connect_handshake
  send-connected at omit_device nonce l = ground (
    arith,
    send_composed-connected at omit_device
        (compose_connect_params rt keys platform gateway_token omit_device nonce at.now at.generated
          l.gateway_identity l.device_file)
        l,
  )

  challenge-connected :
      (at : Attempt) (msg : Value) (l : Link)
      → is_connected (handle_connect_challenge_event rt keys platform gateway_token at msg l)
        ≡ is_connected l
  unfolding handle_connect_challenge_event
  challenge-connected at msg l =
      let nonce = challenge_nonce (member (member msg "payload") "nonce") in
      ground (
        arith,
        send-connected at (device_auth_insecure_skip rt) nonce
            (with_client (λ c. set_nonce nonce (clear_connect_challenge_timer c)) l),
      )

  refused-connected :
      (at : Attempt) (msg : Value) (omit_device : Bool) (challenge : Option String) (l : Link)
      → is_connected (refused_connect rt keys platform gateway_token at msg omit_device challenge l)
        ≡ is_connected l
  refused-connected at msg true (some nonce) l =
      send-connected at (device_auth_insecure_skip rt) nonce
        (with_client (λ c. set_nonce nonce (set_connect_sent false c)) l)
  refused-connected at msg true none l = refl
  refused-connected at msg false challenge l = refl

  -- a positive answer that the client takes
  abbrev pub is_greeting : Value → Link → Bool
  is_greeting msg l =
      is_bool (member msg "ok") true
      && is_hello_ok_authorized msg
      && not (is_none (persist_hello_ok rt msg l.device_file))

  connected_after-connected :
      (at : Attempt) (file : Option (Option Value)) (l : Link)
      → is_connected (connected_after rt keys platform gateway_token at file l)
        ≡ (not (is_none file) || is_connected l)
  unfolding finish_connect
  connected_after-connected at none l = refl
  connected_after-connected at (some written) l =
      drain-connected at.turn_id (record l.client { gateway_connected = true })

  connect_response-connected :
      (at : Attempt) (msg : Value) (omit_device : Bool) (l : Link)
      → is_connected (on_connect_response rt keys platform gateway_token at msg omit_device l)
        ≡ (is_greeting msg l || is_connected l)
  unfolding on_connect_response finish_connect_success
  connect_response-connected at msg omit_device l = ground (
    arith,
    refused-connected at msg omit_device (extract_connect_challenge msg) l,
    connected_after-connected at (persist_hello_ok rt msg l.device_file) l,
  )

  response-connected :
      (at : Attempt) (msg : Value) (request : Option Bool) (l : Link)
      → is_connected (on_response rt keys platform gateway_token at msg request l)
        ≡ (not (is_none request) && is_greeting msg l || is_connected l)
  response-connected at msg (some omit_device) l =
      connect_response-connected at msg omit_device
        (record l { connects = without_connect (member msg "id") l.connects })
  response-connected at msg none l = ground (
    arith,
    hand_on-connected msg l,
    on_turn_response-connected at msg (message_id_sent (to_text (member msg "id")) l.client.effects)
        (with_client (without_pending (member msg "id")) l),
  )

  -- A message makes the gateway connected exactly when it answers a connect request that waits, says
  -- that it is well, does not list scopes without the one to write, and brings a token that can be
  -- kept, if any; a list that is missing or empty will do. Nothing else does, and no message ends a
  -- connection.
  pub message-connected :
      (at : Attempt) (msg : Value) (l : Link)
      → is_connected (on_gateway_message rt keys platform gateway_token at msg l) ≡ (
          is_text (member msg "type") "res"
            && truthy (member msg "id")
            && not (is_none (omit_device_of (member msg "id") l.connects))
            && is_greeting msg l
          || is_connected l)
  unfolding on_gateway_message
  message-connected at msg l = ground (
    arith,
    not_both (member msg "type"),
    challenge-connected at msg l,
    hand_on-connected msg l,
    response-connected at msg (omit_device_of (member msg "id") l.connects) l,
  )
