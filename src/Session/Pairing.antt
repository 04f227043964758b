-- ===== src/Session/Pairing.antt =====
-- What registering does to the nonces seen and to the state of the handshake.
use ombot.Prelude.{
  ℕ, String, ◌≡◌, refl, ◌⊎◌, Bool, true, false, Option, none, some, List, arith, false≢true,
  Bool-cases, inl, inr, if◌then◌else◌,
}
use ombot.Js.Value.{Value, Fields}
use ombot.Js.Runtime.{Runtime}
use ombot.Guards.Register.{Challenge, Reason}
use ombot.Session.{
  Config, Session, challenge_issued, is_challenge_issued, is_ready_for_agent_req,
  notify_client_json,
}
use ombot.Session.Moment.{Moment}
use ombot.Session.Register.{become_ready, complete_register_and_connect_middleware}
use ombot.Session.Register.Challenge.{
  validate_and_prepare_register, load_key_and_check, check_compatibility, refuse_or_check,
  refuse_or_issue, issue_challenge, answer_challenge, paired_or_refused, with_pending,
  handle_register_challenge_response,
}
use ombot.Session.Middleware.{connect_to_middleware}
use ombot.Guards.Register.Accept.{IsPaired, IsPaired-sound}
use ombot.Session.Keeps.{complete-Keeps, connect-Keeps}

-- The nonces are the same, and the handshake is where it was or at a fresh challenge.
abbrev pub Prepares : Session → Session → Type 0
Prepares s s' =
    (s'.seen_nonces ≡ s.seen_nonces)
    × ((s'.handshake_state ≡ s.handshake_state) ⊎ (s'.handshake_state ≡ challenge_issued))

module _ (rt : Runtime) (cfg : Config) (at : Moment) where
  issue-Prepares :
      (o : Option String) (v : Value) (s : Session) → Prepares s (refuse_or_issue rt cfg at o v s).1
  unfolding issue_challenge
  issue-Prepares none v s = (refl, inr refl)
  issue-Prepares (some reason) v s = (refl, inl refl)

  check-Prepares :
      (o : Option (List ℕ)) (v : Value) (s : Session)
      → Prepares s (refuse_or_check rt cfg at o v s).1
  unfolding check_compatibility
  check-Prepares none v s = (refl, inl refl)
  check-Prepares (some key) v s = issue-Prepares _ v s

  if-Prepares :
      (b : Bool) (s : Session) (x y : Value × Session)
      → Prepares s x.1
      → Prepares s y.1
      → Prepares s (if b then x else y).1
  if-Prepares true s x y h k = h
  if-Prepares false s x y h k = k

  pub prepare-Prepares :
      (fs : Fields) (s : Session) → Prepares s (validate_and_prepare_register rt cfg at fs s).1
  unfolding validate_and_prepare_register load_key_and_check
  prepare-Prepares fs s = if-Prepares _ s _ _ (refl, inl refl) (check-Prepares _ _ _)

  module _ (server_public_key : String) where
    ready-nonces :
        (body : Value) (s : Session)
        → (become_ready rt cfg at server_public_key body s).seen_nonces ≡ s.seen_nonces
    unfolding become_ready notify_client_json
    ready-nonces body s = ground arith

    registered-nonces :
        (body : Value) (s : Session)
        → (complete_register_and_connect_middleware rt cfg at
            (connect_to_middleware rt cfg)
            server_public_key
            body
            s).seen_nonces
          ≡ s.seen_nonces
    unfolding complete_register_and_connect_middleware
    registered-nonces body s =
        let ready = become_ready rt cfg at server_public_key body s in
        ground (
          arith,
          ready-nonces body s,
          complete-Keeps rt cfg at body ready,
          connect-Keeps rt cfg at ready,
        )

    -- What pairs a client that was not ready.
    pub record IsCompleted (response : Value) (s : Session) : Type 0 where
      pub issued : is_challenge_issued s.handshake_state ≡ true
      pub body : Value
      pub body_is : s.pending_register ≡ some body
      pub challenge : Challenge
      pub challenge_is : s.register_challenge ≡ some challenge
      pub paired :
          IsPaired rt response challenge s.client_verify_public_key s.effective_require_attestation
            at.now

    paired_or_refused-nonces :
        (body : Value) (o : Option Reason) (s : Session)
        → (paired_or_refused rt cfg at
            (connect_to_middleware rt cfg)
            server_public_key
            body
            o
            s).1.seen_nonces
          ≡ s.seen_nonces
    paired_or_refused-nonces body none s = registered-nonces body _
    paired_or_refused-nonces body (some r) s = refl

    paired_or_refused-ready :
        (body : Value) (o : Option Reason) (s : Session)
        → is_ready_for_agent_req
            (paired_or_refused rt cfg at
              (connect_to_middleware rt cfg)
              server_public_key
              body
              o
              s).1.handshake_state
          ≡ true
        → o ≡ none
    paired_or_refused-ready body none s h = refl
    paired_or_refused-ready body (some r) s h = absurd (false≢true h)

    with_pending-outcome :
        (response : Value) (b : Option Value) (c : Option Challenge) (s : Session)
        → s.pending_register ≡ b
        → s.register_challenge ≡ c
        → is_challenge_issued s.handshake_state ≡ true
        → ((with_pending rt cfg at
              (connect_to_middleware rt cfg)
              server_public_key
              response
              b
              c
              s).1.seen_nonces
            ≡ s.seen_nonces)
          × (is_ready_for_agent_req
                  (with_pending rt cfg at
                    (connect_to_middleware rt cfg)
                    server_public_key
                    response
                    b
                    c
                    s).1.handshake_state
                ≡ true
              → is_ready_for_agent_req s.handshake_state ≡ true ⊎ IsCompleted response s)
    unfolding answer_challenge
    with_pending-outcome response none c s b_is c_is issued = (refl, inl)
    with_pending-outcome response (some body) none s b_is c_is issued = (refl, inl)
    with_pending-outcome response (some body) (some c) s b_is c_is issued = (
      paired_or_refused-nonces body _ s,
      λ ready. inr (record {
        issued = issued;
        body = body;
        body_is = b_is;
        challenge = c;
        challenge_is = c_is;
        paired =
            IsPaired-sound rt response c s.effective_require_attestation at.now
              s.client_verify_public_key (paired_or_refused-ready body _ s ready);
      }),
    )

    -- A register response leaves the nonces seen as they are, and makes ready a client that was not
    -- only where a challenge is issued, the register message it was issued for is at hand, and the
    -- response passes every check of it.
    pub ready_needs_challenge :
        (response : Value) (s : Session)
        → ((handle_register_challenge_response rt cfg at
              (connect_to_middleware rt cfg)
              server_public_key
              response
              s).1.seen_nonces
            ≡ s.seen_nonces)
          × (is_ready_for_agent_req
                  (handle_register_challenge_response rt cfg at
                    (connect_to_middleware rt cfg)
                    server_public_key
                    response
                    s).1.handshake_state
                ≡ true
              → is_ready_for_agent_req s.handshake_state ≡ true ⊎ IsCompleted response s)
    unfolding handle_register_challenge_response
    ready_needs_challenge response s = elim (Bool-cases (is_challenge_issued s.handshake_state)) [
      | inl issued ↦
          rw issued (
            with_pending-outcome response s.pending_register s.register_challenge s refl refl
              issued)
      | inr unissued ↦ rw unissued (refl, inl)
    ]
