-- ===== src/Session/Relay/Forward.antt =====
-- When a relayed request reaches the gateway or the middleware.
use ombot.Prelude.{
  ℕ, suc, String, ◌≡◌, refl, ap, ◌∙◌, ◌⊎◌, ◌↔◌, true, false, Option, none, some, List, [], ◌∷◌,
  arith, Bool-cases, Option-cases, inl, inr,
}
use ombot.Js.Value.{Value, member, is_text}
use ombot.Js.Runtime.{Runtime}
use ombot.Guards.Request.{Verdict, ok, rejected, Nonces}
use ombot.Guards.Request.Accept.{IsAccepted, accept_sound, accept_complete}
use ombot.Session.{
  is_ready_for_agent_req, Effect, enqueue_agent_turn, Config, Session, error_frame,
  notify_client_json,
}
use ombot.Session.Moment.{Moment}
use ombot.Session.Relay.Guarding.{guarded_turn-Aims}
use ombot.Session.Relay.{
  phone_payload_to_user_text, peer_of, ensure_single_client_gateway, enqueue_turn,
  relay_signed_req_single_client, relay_signed_req_to_middleware, guarded_turn, guard_verdict,
  turn_or_error,
}

-- the turns handed to the gateway
abbrev pub turns : List Effect → ℕ
turns [] = 0
turns (enqueue_agent_turn _ _ _ ∷ es) = suc (turns es)
turns (_ ∷ es) = turns es

-- What a request that becomes a turn needs.
pub record IsForwarded (rt : Runtime) (cfg : Config) (at : Moment) (req : Value) (s : Session)
    : Type 0 where
  pub is_req : is_text (member req "type") "req" ≡ true
  pub ready : is_ready_for_agent_req s.handshake_state ≡ true
  pub peer : List ℕ
  pub peer_is : peer_of s.chatroom_box_keys ≡ some peer
  pub accepted : IsAccepted rt cfg.policy req s.client_verify_public_key s.seen_nonces at.now
  pub text : String
  pub text_is : phone_payload_to_user_text rt req ≡ some text

turns-notify : (v : Value) (s : Session) → turns (notify_client_json v s).effects ≡ turns s.effects
unfolding notify_client_json
turns-notify v s = ground arith

module _ (rt : Runtime) (cfg : Config) (at : Moment) where
  turns-enqueue_turn :
      (text : String) (req : Value) (s : Session)
      → turns (enqueue_turn rt cfg at text req s).effects ≡ suc (turns s.effects)
  unfolding enqueue_turn ensure_single_client_gateway
  turns-enqueue_turn text req s = ground arith

  turn_or_error-outcome :
      (o : Option String) (req : Value) (s : Session)
      → (turns (turn_or_error rt cfg at o req s).effects ≡ turns s.effects)
        ⊎ ((text : String) × (o ≡ some text))
  turn_or_error-outcome none req s = inl (turns-notify _ s)
  turn_or_error-outcome (some text) req s = inr (text, refl)

  guarded_turn-outcome :
      (req : Value) (v : Verdict × Nonces) (s : Session)
      → (turns (guarded_turn rt cfg at req v s).1.effects ≡ turns s.effects)
        ⊎ ((v.0 ≡ ok) × (text : String) × (phone_payload_to_user_text rt req ≡ some text))
  guarded_turn-outcome req (rejected why, n) s = inl (turns-notify _ _)
  guarded_turn-outcome req (ok, n) s =
      elim (turn_or_error-outcome (phone_payload_to_user_text rt req) req
        (record s { seen_nonces = n })) [
          | inl same ↦ inl same
          | inr (text, worded) ↦ inr (refl, text, worded)
        ]

  guarded_turn-turns :
      (req : Value) (v : Verdict × Nonces) (s : Session) (text : String)
      → v.0 ≡ ok
      → phone_payload_to_user_text rt req ≡ some text
      → turns (guarded_turn rt cfg at req v s).1.effects ≡ suc (turns s.effects)
  guarded_turn-turns req (rejected why, n) s text h worded = ground arith
  guarded_turn-turns req (ok, n) s text h worded =
      ap (λ o. turns (turn_or_error rt cfg at o req (record s { seen_nonces = n })).effects) worded
      ∙ turns-enqueue_turn text req _

  unready-relay :
      (raw : String) (req : Value) (s : Session)
      → cfg.single_client_mode ≡ true
      → is_ready_for_agent_req s.handshake_state ≡ false
      → turns (relay_signed_req_to_middleware rt cfg at raw req s).1.effects ≡ turns s.effects
  unfolding relay_signed_req_to_middleware relay_signed_req_single_client
  unready-relay raw req s single unready =
      ground (arith, turns-notify (error_frame "pairing_not_ready" s) s)

  lone-relay :
      (raw : String) (req : Value) (s : Session)
      → cfg.single_client_mode ≡ true
      → peer_of s.chatroom_box_keys ≡ none
      → turns (relay_signed_req_to_middleware rt cfg at raw req s).1.effects ≡ turns s.effects
  unfolding relay_signed_req_to_middleware relay_signed_req_single_client
  lone-relay raw req s single alone =
      ground (arith, turns-notify (error_frame "pairing_not_ready" s) s)

  other-relay :
      (raw : String) (req : Value) (s : Session)
      → is_text (member req "type") "req" ≡ false
      → turns (relay_signed_req_to_middleware rt cfg at raw req s).1.effects ≡ turns s.effects
  unfolding relay_signed_req_to_middleware
  other-relay raw req s other = ground arith

  ready-relay :
      (raw : String) (req : Value) (s : Session) (peer : List ℕ)
      → cfg.single_client_mode ≡ true
      → is_text (member req "type") "req" ≡ true
      → is_ready_for_agent_req s.handshake_state ≡ true
      → peer_of s.chatroom_box_keys ≡ some peer
      → relay_signed_req_to_middleware rt cfg at raw req s
        ≡ guarded_turn rt cfg at req (guard_verdict rt cfg at req s) s
  unfolding relay_signed_req_to_middleware relay_signed_req_single_client
  ready-relay raw req s peer single is_req ready peer_is = ground arith

  relay-outcome :
      (raw : String) (req : Value) (s : Session)
      → cfg.single_client_mode ≡ true
      → cfg.policy.require_signature ≡ true
      → (turns (relay_signed_req_to_middleware rt cfg at raw req s).1.effects ≡ turns s.effects)
        ⊎ IsForwarded rt cfg at req s
  relay-outcome raw req s single on = elim (Bool-cases (is_text (member req "type") "req")) [
    | inr other ↦ inl (other-relay raw req s other)
    | inl is_req ↦ elim (Bool-cases (is_ready_for_agent_req s.handshake_state)) [
      | inr unready ↦ inl (unready-relay raw req s single unready)
      | inl ready ↦ elim (Option-cases (peer_of s.chatroom_box_keys)) [
        | inl alone ↦ inl (lone-relay raw req s single alone)
        | inr (peer, peer_is) ↦ elim (guarded_turn-outcome req (guard_verdict rt cfg at req s) s) [
          | inl same ↦ inl (
              ap (λ r. turns r.1.effects) (ready-relay raw req s peer single is_req ready peer_is)
              ∙ same)
          | inr (accepted, text, text_is) ↦ inr (record {
            is_req = is_req;
            ready = ready;
            peer = peer;
            peer_is = peer_is;
            accepted =
                accept_sound rt cfg.policy req s.seen_nonces at.now s.client_verify_public_key on
                  accepted;
            text = text;
            text_is = text_is;
          })
        ]
      ]
    ]
  ]

  forwarded-turns :
      (raw : String) (req : Value) (s : Session)
      → cfg.single_client_mode ≡ true
      → cfg.policy.require_signature ≡ true
      → IsForwarded rt cfg at req s
      → turns (relay_signed_req_to_middleware rt cfg at raw req s).1.effects ≡ suc (turns s.effects)
  forwarded-turns raw req s single on f =
      ap (λ r. turns r.1.effects) (ready-relay raw req s f.peer single f.is_req f.ready f.peer_is)
      ∙ guarded_turn-turns req (guard_verdict rt cfg at req s) s f.text
          (ap (λ v. v.0)
            (accept_complete rt cfg.policy req s.seen_nonces at.now s.client_verify_public_key on
              f.accepted))
          f.text_is

  -- In single-client mode, where signatures are required, a request from the client hands one turn
  -- to the gateway exactly when the client is paired and ready, its box key is known, the request is
  -- accepted by the signature guard, and it carries a text in the expected method.
  pub IsForwarded-iff :
      (raw : String) (req : Value) (s : Session)
      → cfg.single_client_mode ≡ true
      → cfg.policy.require_signature ≡ true
      → (turns (relay_signed_req_to_middleware rt cfg at raw req s).1.effects
          ≡ suc (turns s.effects))
        ↔ IsForwarded rt cfg at req s
  IsForwarded-iff raw req s single on = (
    (λ one. elim (relay-outcome raw req s single on) [
      | inl same ↦ absurd (omega (arith, one, same))
      | inr f ↦ f
    ]),
    forwarded-turns raw req s single on,
  )

  pub relay-nonces :
      (raw : String) (req : Value) (s : Session)
      → cfg.single_client_mode ≡ true
      → IsForwarded rt cfg at req s
      → (relay_signed_req_to_middleware rt cfg at raw req s).1.seen_nonces
        ≡ (guard_verdict rt cfg at req s).1
  relay-nonces raw req s single f =
      ap (λ r. r.1.seen_nonces) (ready-relay raw req s f.peer single f.is_req f.ready f.peer_is)
      ∙ (guarded_turn-Aims rt cfg at req (guard_verdict rt cfg at req s) s).0
