-- ===== src/Examples/Guarding.antt =====
-- securityGuards.js at a signed request, at that request again, and at a challenge.
use ombot.Prelude.{◌≡◌, refl, ◌≢◌, ◌↔◌, false, some, none, [], ◌∷◌, arith}
use ombot.Js.Value.{Value, str, num, nonneg, obj, end, field, Fields}
use ombot.Js.Json.{utf16}
use ombot.Examples.World.{rt, policy, key, request, signature, challenge, response}
use ombot.Guards.Payload.{req_signing_payload}
use ombot.Guards.Payload.Order.{in_obj, swap, req_signing_payload-Same}
use ombot.Guards.Request.{
  validate_req_signature, ok, rejected, replay, signature_key_missing, prune_seen_nonces, req_nonce,
}
use ombot.Guards.Request.Accept.{IsAccepted, accept_iff}
use ombot.Guards.Request.Replay.{idle, never_accepted_twice}
use ombot.Guards.Register.{validate_register_challenge_response}
use ombot.Guards.Register.Accept.{IsPaired, IsPaired-iff}

pub request-ok : (validate_req_signature rt policy request (some key) [] 1000).0 ≡ ok
unfolding validate_req_signature ombot.Guards.Request.req_timestamp ombot.Js.Runtime.to_number
    ombot.Js.Value.or_else ombot.Js.Value.member ombot.Guards.Request.check_timestamp
    ombot.Guards.Request.abs_diff req_nonce ombot.Js.Text.trim ombot.Js.Value.to_text
    ombot.Guards.Request.check_nonce_and_signature prune_seen_nonces
    ombot.Guards.Request.req_signature ombot.Guards.Request.signature_verified ombot.Ed25519.verify
request-ok = refl

nonce-known :
    (validate_req_signature rt policy request (some key) (("n1", 1000) ∷ []) 2000).0
    ≡ rejected replay
unfolding validate_req_signature ombot.Guards.Request.req_timestamp ombot.Js.Runtime.to_number
    ombot.Js.Value.or_else ombot.Js.Value.member ombot.Guards.Request.check_timestamp
    ombot.Guards.Request.abs_diff req_nonce ombot.Js.Text.trim ombot.Js.Value.to_text
    ombot.Guards.Request.check_nonce_and_signature prune_seen_nonces
nonce-known = refl

accept_iff_example :
    (validate_req_signature rt policy request (some key) [] 1000 ≡ (ok, ("n1", 1000) ∷ []))
    ↔ IsAccepted rt policy request (some key) [] 1000
unfolding prune_seen_nonces req_nonce ombot.Js.Text.trim ombot.Js.Value.to_text
    ombot.Js.Value.or_else ombot.Js.Value.member
accept_iff_example = accept_iff rt policy request [] 1000 (some key) refl

never_accepted_twice_example :
    (validate_req_signature rt policy request
      (some key)
      (validate_req_signature rt policy request (some key) [] 1000).1
      2000).0
    ≢ ok
never_accepted_twice_example =
    never_accepted_twice rt policy [] 1000 request request (some key) (some key) 2000 refl
      (omega arith) request-ok idle (omega arith) refl refl

response-ok :
    validate_register_challenge_response rt response challenge (some key) false 1000 ≡ none
unfolding validate_register_challenge_response ombot.Js.Text.trim ombot.Js.Value.to_text
    ombot.Js.Value.or_else ombot.Js.Value.member ombot.Js.Runtime.to_number
    ombot.Guards.Register.check_response ombot.Guards.Register.challenge_verified
    ombot.Ed25519.verify
response-ok = refl

IsPaired-iff_example :
    (validate_register_challenge_response rt response challenge (some key) false 1000 ≡ none)
    ↔ IsPaired rt response challenge (some key) false 1000
IsPaired-iff_example = IsPaired-iff rt response challenge false 1000 (some key)

type_method : ◌≢◌ (utf16 "type") (utf16 "method")
unfolding utf16
type_method e = ground (arith, e)

-- the request with its type and its method in the other order
abbrev swapped_request : Value
swapped_request = obj (
    field "method" (str "agent") (
      field "type" (str "req") (
        field "params" (obj (field "message" (str "hello") end)) (
          field "timestamp" (num (nonneg 1000))
            (field "nonce" (str "n1") (field "signature" (str signature) end))))))

req_signing_payload-Same_example :
    req_signing_payload rt request ≡ req_signing_payload rt swapped_request
req_signing_payload-Same_example =
    req_signing_payload-Same rt
      (in_obj (swap "type" "method" (str "req") (str "agent") _ type_method))
