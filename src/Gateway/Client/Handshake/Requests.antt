-- ===== src/Gateway/Client/Handshake/Requests.antt =====
-- The connect requests that are sent with a device: what each handler adds to them.
use mathlib.Core.List.{[], ◌∷◌}
use ombot.Prelude.{
  ℕ, suc, ◌+◌, ◌≤◌, String, ◌≡◌, refl, Bool, true, false, ◌&&◌, Option, none, some, List, All,
  arith, Bool-cases, Option-cases, inl, inr, if◌then◌else◌, ◌==◌,
}
use ombot.Js.Value.{Value, member, truthy, is_text, is_bool, to_text}
use ombot.Js.Runtime.{Runtime}
use ombot.Session.{is_open}
use ombot.Gateway.Deduper.{Deduper}
use ombot.Gateway.Dispatch.{assistant_text_for_consumer}
use ombot.Gateway.Device.Payload.{DeviceKeys}
use ombot.Gateway.Device.State.{device_auth_insecure_skip, gateway_legacy_blind_connect}
use ombot.Gateway.Client.{
  Turn, Client, drain_queue, start_first, send_agent_turn, turn_settled, finish_connect,
}
use ombot.Gateway.Client.Connect.{Composed}
use ombot.Gateway.Client.Handshake.{
  no_longer_waits, Link, LinkEffect, connect_frame, Attempt, act, assistant_text, hand_on, spoken,
  acknowledged, answered, answered_or_fallback, on_turn_response, omit_device_of, send_composed,
  send_connect_handshake, handle_connect_challenge_event, persist_hello_ok, finish_connect_success,
  connected_after, refused_connect, extract_connect_challenge, on_connect_response, on_response,
  on_gateway_message, settle, without_connect, with_client, challenge_nonce, message_id_sent,
  without_pending, is_pending, is_hello_ok_authorized, set_nonce, clear_connect_challenge_timer,
  on_challenge_timeout,
}

-- the connect requests that were sent
abbrev pub requests : List LinkEffect → ℕ
requests [] = 0
requests (connect_frame id params ∷ effects) = suc (requests effects)
requests (_ ∷ effects) = requests effects

abbrev pub sent_now : Client → ℕ
sent_now c = if c.connect_sent then 1 else 0

-- Since a time with `n` requests at most one was sent, and it has a device; so have those that wait.
pub record AtMostOne (n : ℕ) (l : Link) : Type 0 where
  pub bounded : requests l.did ≤ n + sent_now l.client
  pub with_device : All (λ (_, omit_device). omit_device ≡ false) l.connects

start-sent :
    (id : String) (queue : List Turn) (c : Client)
    → (start_first id queue c).connect_sent ≡ c.connect_sent
unfolding send_agent_turn
start-sent id [] c = refl
start-sent id (turn ∷ rest) c = ground arith

drain-sent : (id : String) (c : Client) → (drain_queue id c).connect_sent ≡ c.connect_sent
unfolding drain_queue
drain-sent id c = ground (arith, start-sent id c.queue c)

module _ {n : ℕ} where
  if-AtMostOne :
      (b : Bool) (l m : Link)
      → AtMostOne n l
      → (b ≡ false → AtMostOne n m)
      → AtMostOne n (if b then l else m)
  if-AtMostOne true l m h k = h
  if-AtMostOne false l m h k = k refl

  -- a change of the client that keeps `connect_sent`
  keeps-AtMostOne :
      (l : Link) (c : Client)
      → c.connect_sent ≡ l.client.connect_sent
      → AtMostOne n l
      → AtMostOne n (record l { client = c })
  keeps-AtMostOne l c e h = record { bounded = ground arith; with_device = h.with_device }

  settle-AtMostOne : (at : Attempt) (l : Link) → AtMostOne n l → AtMostOne n (settle at l)
  unfolding turn_settled
  settle-AtMostOne at l h =
      keeps-AtMostOne l (turn_settled at.turn_id l.client)
        (drain-sent at.turn_id (record l.client { in_flight = false })) h

  spoken-AtMostOne :
      (r : Option String × Deduper) (l : Link) → AtMostOne n l → AtMostOne n (spoken r l)
  spoken-AtMostOne (none, d) l h = record { bounded = h.bounded; with_device = h.with_device }
  spoken-AtMostOne (some text, d) l h = record { bounded = h.bounded; with_device = h.with_device }

  hand_on-AtMostOne : (msg : Value) (l : Link) → AtMostOne n l → AtMostOne n (hand_on msg l)
  unfolding hand_on
  hand_on-AtMostOne msg l h =
      spoken-AtMostOne (assistant_text_for_consumer msg l.client.reply_deduper) l h

  acknowledged-AtMostOne :
      (msg : Value) (id : Option String) (l : Link)
      → AtMostOne n l
      → AtMostOne n (acknowledged msg id l)
  acknowledged-AtMostOne msg none l h = h
  acknowledged-AtMostOne msg (some id) l h = record {
    bounded = ground (arith, h.bounded);
    with_device = ground (arith, h.with_device);
  }

  answered-AtMostOne :
      (at : Attempt) (msg : Value) (id : Option String) (l : Link)
      → AtMostOne n l
      → AtMostOne n (answered at msg id l)
  unfolding answered
  answered-AtMostOne at msg id l h =
      settle-AtMostOne at (hand_on msg (acknowledged msg id l))
        (hand_on-AtMostOne msg (acknowledged msg id l) (acknowledged-AtMostOne msg id l h))

  answered_or_fallback-AtMostOne :
      (at : Attempt) (msg : Value) (id reply : Option String) (l : Link)
      → AtMostOne n l
      → AtMostOne n (answered_or_fallback at msg id reply l)
  answered_or_fallback-AtMostOne at msg id none l h = answered-AtMostOne at msg id l h
  answered_or_fallback-AtMostOne at msg id (some text) l h =
      settle-AtMostOne at (act (assistant_text text) l)
        (record { bounded = h.bounded; with_device = h.with_device })

  turn_response-AtMostOne :
      (at : Attempt) (msg : Value) (id : Option String) (l : Link)
      → AtMostOne n l
      → AtMostOne n (on_turn_response at msg id l)
  unfolding on_turn_response
  turn_response-AtMostOne at msg id l h = elim (Bool-cases (is_bool (member msg "ok") false)) [
    | inl refused ↦ rw refused (answered_or_fallback-AtMostOne at msg id at.fallback l h)
    | inr given ↦ rw given (answered-AtMostOne at msg id l h)
  ]

without_connect-All :
    (id : Value) (connects : List (String × Bool))
    → All (λ (_, omit_device). omit_device ≡ false) connects
    → All (λ (_, omit_device). omit_device ≡ false) (without_connect id connects)
unfolding without_connect
without_connect-All id [] h = tt
without_connect-All id ((k, omit_device) ∷ rest) h = elim (Bool-cases (is_text id k)) [
  | inl same ↦ rw same (without_connect-All id rest h.1)
  | inr other ↦ rw other (h.0, without_connect-All id rest h.1)
]

omit_device-false :
    (id : Value) (connects : List (String × Bool)) (omit_device : Bool)
    → All (λ (_, omit_device). omit_device ≡ false) connects
    → omit_device_of id connects ≡ some omit_device
    → omit_device ≡ false
unfolding omit_device_of
omit_device-false id [] omit_device h e = cc
omit_device-false id ((k, o) ∷ rest) omit_device h e = elim (Bool-cases (is_text id k)) [
  | inl same ↦ let e' : some o ≡ some omit_device = (rw same at e) in cc (e', h.0)
  | inr other ↦ omit_device-false id rest omit_device h.1 (rw other at e)
]

module _ (rt : Runtime) (keys : DeviceKeys) (platform gateway_token : String) {n : ℕ} where
  send_composed-AtMostOne :
      (at : Attempt) (composed : Composed) (l : Link)
      → l.client.connect_sent ≡ false
      → AtMostOne n l
      → AtMostOne n (send_composed rt keys platform gateway_token at false composed l)
  send_composed-AtMostOne at composed l unsent h = elim (Option-cases composed.params) [
    | inl nothing ↦ rw nothing record { bounded = h.bounded; with_device = h.with_device }
    | inr (params, e) ↦ rw e (elim (Bool-cases at.sends) [
      | inl sends ↦ rw sends record { bounded = ground arith; with_device = (refl, h.with_device) }
      | inr fails ↦ rw fails record { bounded = ground arith; with_device = (refl, h.with_device) }
    ])
  ]

  send-AtMostOne :
      (at : Attempt) (nonce : String) (l : Link)
      → l.client.connect_sent ≡ false
      → AtMostOne n l
      → AtMostOne n (send_connect_handshake rt keys platform gateway_token at false nonce l)
  unfolding send_connect_handshake
  send-AtMostOne at nonce l unsent h = elim (Bool-cases (is_open l.client.gateway_ws)) [
    | inl opened ↦ rw opened (send_composed-AtMostOne at _ l unsent h)
    | inr closed ↦ rw closed h
  ]

  refused-AtMostOne :
      (at : Attempt) (msg : Value) (challenge : Option String) (l : Link)
      → AtMostOne n l
      → AtMostOne n (refused_connect rt keys platform gateway_token at msg false challenge l)
  refused-AtMostOne at msg challenge l h = record {
    bounded = h.bounded;
    with_device = h.with_device;
  }

  connected_after-AtMostOne :
      (at : Attempt) (file : Option (Option Value)) (l : Link)
      → AtMostOne n l
      → AtMostOne n (connected_after rt keys platform gateway_token at file l)
  unfolding finish_connect
  connected_after-AtMostOne at none l h = record {
    bounded = h.bounded;
    with_device = h.with_device;
  }
  connected_after-AtMostOne at (some written) l h = record {
    bounded = rw (drain-sent at.turn_id (record l.client { gateway_connected = true })) h.bounded;
    with_device = h.with_device;
  }

  connect_response-AtMostOne :
      (at : Attempt) (msg : Value) (l : Link)
      → AtMostOne n l
      → AtMostOne n (on_connect_response rt keys platform gateway_token at msg false l)
  unfolding on_connect_response finish_connect_success
  connect_response-AtMostOne at msg l h = elim (Bool-cases (is_bool (member msg "ok") true)) [
    | inr refused ↦ rw refused (refused-AtMostOne at msg (extract_connect_challenge msg) l h)
    | inl well ↦ rw well (elim (Bool-cases (is_hello_ok_authorized msg)) [
      | inl granted ↦
          rw granted (connected_after-AtMostOne at (persist_hello_ok rt msg l.device_file) l h)
      | inr denied ↦ rw denied record { bounded = h.bounded; with_device = h.with_device }
    ])
  ]

  response-AtMostOne :
      (at : Attempt) (msg : Value) (request : Option Bool) (l : Link)
      → ((omit_device : Bool) → request ≡ some omit_device → omit_device ≡ false)
      → AtMostOne n l
      → AtMostOne n (on_response rt keys platform gateway_token at msg request l)
  response-AtMostOne at msg (some omit_device) l known h = rw (known omit_device refl) (
      connect_response-AtMostOne at msg
        (record l { connects = without_connect (member msg "id") l.connects })
        (record {
          bounded = h.bounded;
          with_device = without_connect-All (member msg "id") l.connects h.with_device;
        }))
  response-AtMostOne at msg none l known h =
      elim (Bool-cases (is_pending (member msg "id") l.client)) [
        | inl waits ↦ rw waits (
            turn_response-AtMostOne at msg
              (message_id_sent (to_text (member msg "id")) l.client.effects)
              (with_client (without_pending (member msg "id")) l)
              (record { bounded = h.bounded; with_device = h.with_device }))
        | inr unknown ↦ rw unknown (hand_on-AtMostOne msg l h)
      ]

  module _ (no_skip : device_auth_insecure_skip rt ≡ false)
      (no_legacy : gateway_legacy_blind_connect rt ≡ false) where
    challenge-AtMostOne :
        (at : Attempt) (msg : Value) (l : Link)
        → AtMostOne n l
        → AtMostOne n (handle_connect_challenge_event rt keys platform gateway_token at msg l)
    unfolding handle_connect_challenge_event
    challenge-AtMostOne at msg l h =
        let nonce = challenge_nonce (member (member msg "payload") "nonce") in
        let noted = with_client (λ c. set_nonce nonce (clear_connect_challenge_timer c)) l in
        let kept : AtMostOne n noted = record {
          bounded = h.bounded;
          with_device = h.with_device;
        } in
        if-AtMostOne (nonce == "") _ _ (record { bounded = h.bounded; with_device = h.with_device })
          (λ _.
            if-AtMostOne l.client.connect_sent _ _ kept
              (λ unsent. rw no_skip (send-AtMostOne at nonce noted unsent kept)))

    pub message-AtMostOne :
        (at : Attempt) (msg : Value) (l : Link)
        → AtMostOne n l
        → AtMostOne n (on_gateway_message rt keys platform gateway_token at msg l)
    unfolding on_gateway_message
    message-AtMostOne at msg l h =
        elim (Bool-cases (
          is_text (member msg "type") "event"
          && is_text (member msg "event") "connect.challenge")) [
            | inl challenge ↦ rw challenge (challenge-AtMostOne at msg l h)
            | inr other ↦
                rw other
                  (elim (Bool-cases
                    (is_text (member msg "type") "res" && truthy (member msg "id"))) [
                      | inl response ↦ rw response (
                          response-AtMostOne at msg (omit_device_of (member msg "id") l.connects) l
                            (λ omit_device e.
                              omit_device-false (member msg "id") l.connects omit_device
                                h.with_device e)
                            h)
                      | inr else_ ↦ rw else_ (hand_on-AtMostOne msg l h)
                    ])
          ]

    pub timeout-AtMostOne :
        (at : Attempt) (elapsed : String) (l : Link)
        → AtMostOne n l
        → AtMostOne n (on_challenge_timeout rt keys platform gateway_token at elapsed l)
    unfolding on_challenge_timeout
    timeout-AtMostOne at elapsed l h = rw no_legacy (elim (Bool-cases (no_longer_waits l.client)) [
      | inl over ↦ rw over h
      | inr waits ↦ rw waits record { bounded = h.bounded; with_device = h.with_device }
    ])
