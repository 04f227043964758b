-- ===== src/Guards/Register.antt =====
-- `validateRegisterChallengeResponse`.
pub mod Accept
use ombot.Prelude.{
  ℕ, ◌+◌, String, Bool, true, false, not, ◌&&◌, ◌||◌, Option, none, some, List, [], ◌∷◌, ltb, leb,
  eqb, if◌then◌else◌, ◌==◌,
}
use ombot.Js.Text.{◌⧺◌, trim, to_lower_case}
use ombot.Js.Value.{
  Number, nan, nonneg, Value, str, num, obj, end, field, member, is_object, or_else, to_text,
  number_text,
}
use ombot.Js.Json.{json}
use ombot.Js.Runtime.{Runtime, to_number}
use ombot.Ed25519.{verify}
use ombot.Guards.Payload.{sort_keys_deep}
use ombot.Guards.Request.{positive, caught}

-- the challenge that a session holds, whose fields the session made
pub record Challenge : Type 0 where
  pub nonce : String
  pub issued_at : ℕ
  pub expires_at : ℕ
  pub trace_id : String
  pub participant_id : String
  pub conversation_id : String
  pub public_key : String
  pub protocol_version : Number

pub data Reason : Type 0 where
  challenge_nonce_mismatch challenge_timestamp_invalid challenge_timestamp_from_future : Reason
  challenge_expired signature_key_missing challenge_signature_missing : Reason
  challenge_signature_invalid attestation_missing attestation_fields_missing : Reason
  attestation_client_data_hash_mismatch attestation_verdict_missing_or_not_ok : Reason

-- `{ ok: true }` is `none`
abbrev pub Verdict : Type 0
Verdict = Option Reason

-- `Number(v || 0)` of a number: NaN counts as false
abbrev pub counted : Number → Number
counted nan = nonneg 0
counted n = n

unfoldable pub register_challenge_signing_payload : Challenge → String
register_challenge_signing_payload c = json (
    sort_keys_deep (
      obj (
        field "challengeType" (str "register") (
          field "nonce" (str c.nonce) (
            field "issuedAt" (num (nonneg c.issued_at)) (
              field "expiresAt" (num (nonneg c.expires_at)) (
                field "traceId" (str c.trace_id) (
                  field "participantId" (str c.participant_id) (
                    field "conversationId" (str c.conversation_id) (
                      field "publicKey" (str c.public_key)
                        (field "protocolVersion" (num (counted c.protocol_version)) end)))))))))))

-- `String(v || '').trim()`
abbrev pub trimmed_field : Value → String → String
trimmed_field v k = trim (to_text (or_else (member v k) (str "")))

module _ (rt : Runtime) where
  unfoldable pub register_challenge_client_data_hash_base64 : Challenge → String
  register_challenge_client_data_hash_base64 c =
      rt.sha256_base64 (register_challenge_signing_payload c)

  abbrev pub allow_unverified : Bool
  allow_unverified = elim (rt.env "OPENCLAW_ALLOW_UNVERIFIED_ATTESTATION") [
    | none ↦ false
    | some v ↦ v == "1"
  ]

  unfoldable pub check_attestation : Value → Challenge → Verdict
  check_attestation att c =
      if not (is_object att)
      then some attestation_missing
      else if trimmed_field att "provider" == ""
          || trimmed_field att "keyId" == ""
          || trimmed_field att "assertion" == ""
          || trimmed_field att "clientDataHash" == ""
      then some attestation_fields_missing
      else if not
          (trimmed_field att "clientDataHash" == register_challenge_client_data_hash_base64 c)
      then some attestation_client_data_hash_mismatch
      else if not allow_unverified && not (to_lower_case (trimmed_field att "verdict") == "ok")
      then some attestation_verdict_missing_or_not_ok
      else none

  unfoldable pub challenge_verified : List ℕ → Value → Challenge → ℕ → Bool
  challenge_verified key response c ts = caught (
      verify rt key (register_challenge_signing_payload c ⧺ "|" ⧺ number_text (nonneg ts))
        (trimmed_field response "signature"))

  unfoldable pub check_response : Value → Challenge → Option (List ℕ) → Bool → ℕ → ℕ → Verdict
  check_response response c key require_attestation now ts =
      if ltb (now + 60000) ts
      then some challenge_timestamp_from_future
      else if eqb c.expires_at 0 || ltb c.expires_at now
      then some challenge_expired
      else elim key [
        | none ↦ some signature_key_missing
        | some k ↦
            if trimmed_field response "signature" == ""
            then some challenge_signature_missing
            else if not (challenge_verified k response c ts)
            then some challenge_signature_invalid
            else if require_attestation
            then check_attestation (member response "attestation") c
            else none
      ]

  unfoldable pub validate_register_challenge_response :
      Value → Challenge → Option (List ℕ) → Bool → ℕ → Verdict
  validate_register_challenge_response response c key require_attestation now =
      if trimmed_field response "nonce" == "" || not (trimmed_field response "nonce" == c.nonce)
      then some challenge_nonce_mismatch
      else elim (positive (to_number rt (or_else (member response "timestamp") (num (nonneg 0))))) [
        | none ↦ some challenge_timestamp_invalid
        | some ts ↦ check_response response c key require_attestation now ts
      ]
