-- ===== src/Session/Register/Challenge.antt =====
-- machineRelaySession.js: the register message, the challenge that it is answered with, and the
-- answer to it.
use ombot.Prelude.{
  ℕ, ◌+◌, max, String, Bool, true, not, ◌||◌, Option, none, some, List, if◌then◌else◌, ◌==◌,
}
use ombot.Js.Text.{◌⧺◌, trim, decimal}
use ombot.Js.Value.{
  nonneg, Value, bool, num, str, obj, Fields, end, field, has_own, member, or_else, to_text,
}
use ombot.Js.Runtime.{Runtime, to_number}
use ombot.SessionKey.{id_text, or_default}
use ombot.Guards.Register.{
  Challenge, Reason, register_challenge_signing_payload, validate_register_challenge_response,
}
use ombot.Session.{
  challenge_issued, paired, rejected, is_challenge_issued, audit, Config, Session, emit,
  parse_boolean, error_frame,
}
use ombot.Session.Moment.{Moment}
use ombot.Session.Register.{room_or_default, complete_register_and_connect_middleware}
use ombot.Session.Register.Compatibility.{
  safe_load_client_public_key, parse_capabilities, validate_client_compatibility,
}

abbrev pub challenge_frame : Challenge → Bool → Value
challenge_frame c attest = obj (
    field "type" (str "challenge") (
      field "challengeType" (str "register") (
        field "traceId" (str c.trace_id) (
          field "nonce" (str c.nonce) (
            field "issuedAt" (num (nonneg c.issued_at)) (
              field "expiresAt" (num (nonneg c.expires_at)) (
                field "conversationId" (str c.conversation_id) (
                  field "participantId" (str c.participant_id) (
                    field "publicKey" (str c.public_key) (
                      field "protocolVersion" (num c.protocol_version) (
                        field "strictPairing" (bool true) (
                          field "requireAttestation" (bool attest) (
                            field "payload" (str (register_challenge_signing_payload c))
                              end)))))))))))))

-- `result.reason` as the text that the client gets
abbrev pub reason_text : Reason → String
reason_text Reason.challenge_nonce_mismatch = "challenge_nonce_mismatch"
reason_text Reason.challenge_timestamp_invalid = "challenge_timestamp_invalid"
reason_text Reason.challenge_timestamp_from_future = "challenge_timestamp_from_future"
reason_text Reason.challenge_expired = "challenge_expired"
reason_text Reason.signature_key_missing = "signature_key_missing"
reason_text Reason.challenge_signature_missing = "challenge_signature_missing"
reason_text Reason.challenge_signature_invalid = "challenge_signature_invalid"
reason_text Reason.attestation_missing = "attestation_missing"
reason_text Reason.attestation_fields_missing = "attestation_fields_missing"
reason_text Reason.attestation_client_data_hash_mismatch = "attestation_client_data_hash_mismatch"
reason_text Reason.attestation_verdict_missing_or_not_ok = "attestation_verdict_missing_or_not_ok"

abbrev challenge_not_issued : Session → Option Value × Session
challenge_not_issued s = (some (error_frame "challenge_not_issued" s), s)

module _ (rt : Runtime) (cfg : Config) (at : Moment) where
  -- `{ ok: false, response }`
  abbrev pub refuse : String → Session → Value × Session
  refuse reason s = (error_frame reason s, emit (audit "register_rejected") s)

  unfoldable pub new_challenge : Value → Session → Challenge
  new_challenge json s = record {
    nonce = "reg-" ⧺ decimal at.now ⧺ "-" ⧺ at.random_text;
    issued_at = at.now;
    expires_at = at.now + max 1000 cfg.register_challenge_ttl_ms;
    trace_id = s.trace_id;
    participant_id = s.participant_id;
    conversation_id = trim (to_text (room_or_default json));
    public_key = trim (to_text (or_else (member json "publicKey") (str "")));
    protocol_version = s.client_protocol_version;
  }

  unfoldable pub issue_challenge : Value → Session → Value × Session
  unfolding new_challenge
  issue_challenge json s =
      let attest = parse_boolean (member json "appAttestationEnabled") in
      let c = new_challenge json s in
      (
        challenge_frame c attest,
        emit (audit "register_challenge_issued") (record s {
          effective_require_attestation = attest;
          pending_register = some json;
          register_challenge = some c;
          handshake_state = challenge_issued;
        }),
      )

  abbrev pub refuse_or_issue : Option String → Value → Session → Value × Session
  refuse_or_issue (some reason) json s = refuse reason s
  refuse_or_issue none json s = issue_challenge json s

  unfoldable pub check_compatibility : Value → Session → Value × Session
  check_compatibility json s =
      refuse_or_issue
        (validate_client_compatibility cfg s.client_protocol_version s.client_capabilities) json s

  abbrev pub refuse_or_check : Option (List ℕ) → Value → Session → Value × Session
  refuse_or_check none json s = refuse "client_public_key_invalid" s
  refuse_or_check (some key) json s = check_compatibility json s

  unfoldable pub load_key_and_check : Value → Session → Value × Session
  load_key_and_check json s =
      let key = safe_load_client_public_key (member json "publicKey") in
      refuse_or_check key json (record s {
        client_protocol_version = to_number rt (member json "protocolVersion");
        client_capabilities = parse_capabilities (member json "capabilities");
        client_verify_public_key = key;
      })

  -- The response, and the session afterwards. The function never returns `{ ok: true }`.
  unfoldable pub validate_and_prepare_register : Fields → Session → Value × Session
  validate_and_prepare_register fs s =
      let json = obj fs in
      let trace = id_text (member json "traceId") in
      let s' = record s {
        trace_id = if trace == "" then "trace-" ⧺ decimal at.now else trace;
        participant_id = or_default (id_text (member json "participantId"));
      } in
      if not (has_own fs "protocolVersion") || not (has_own fs "capabilities")
      then refuse "protocol_fields_missing" s'
      else load_key_and_check json s'

  -- `none` for `{ ok: true }`
  abbrev pub paired_or_refused :
      (Session → Session) → String → Value → Option Reason → Session → Option Value × Session
  paired_or_refused connect server_public_key body (some reason) s = (
    some (error_frame (reason_text reason) s),
    record (emit (audit "register_challenge_rejected") s) { handshake_state = rejected },
  )
  paired_or_refused connect server_public_key body none s = (
    none,
    complete_register_and_connect_middleware rt cfg at connect server_public_key body
        (record s { handshake_state = paired; pending_register = none; register_challenge = none }),
  )

  -- once a challenge is at hand
  unfoldable pub answer_challenge :
      (Session → Session) → String → Value → Value → Challenge → Session → Option Value × Session
  answer_challenge connect server_public_key json body c s =
      paired_or_refused connect server_public_key body
        (validate_register_challenge_response rt json c s.client_verify_public_key
          s.effective_require_attestation at.now)
        s

  abbrev pub with_pending :
      (Session → Session)
      → String
      → Value
      → Option Value
      → Option Challenge
      → Session
      → Option Value × Session
  with_pending connect server_public_key json (some body) (some c) s =
      answer_challenge connect server_public_key json body c s
  with_pending connect server_public_key json _ _ s = challenge_not_issued s

  unfoldable pub handle_register_challenge_response :
      (Session → Session) → String → Value → Session → Option Value × Session
  handle_register_challenge_response connect server_public_key json s =
      if is_challenge_issued s.handshake_state
      then with_pending connect server_public_key json s.pending_register s.register_challenge s
      else challenge_not_issued s
