-- ===== src/Guards/Request.antt =====
-- `validateReqSignature`, with the Map of seen nonces as a list of entries in the order of insertion.
pub mod Accept
pub mod Replay
use ombot.Prelude.{
  ℕ, ◌-◌, String, Bool, true, false, not, ◌&&◌, ◌||◌, Option, none, some, List, [], ◌∷◌, ◌++◌, keep,
  any, leb, ltb, eqb, if◌then◌else◌, ◌==◌,
}
use ombot.Js.Text.{trim}
use ombot.Js.Value.{
  Number, nan, infinity, neg_infinity, nonneg, neg, Value, str, num, member, or_else, to_text,
}
use ombot.Js.Runtime.{Runtime, to_number}
use ombot.Ed25519.{verify}
use ombot.Guards.Payload.{
  req_signing_payload_legacy, req_signing_payload, req_signing_payload_stable,
}

abbrev pub Nonces : Type 0
Nonces = List (String × ℕ)

unfoldable pub prune_seen_nonces : Nonces → ℕ → ℕ → Nonces
prune_seen_nonces nonces now ttl = keep (λ e. not (ltb ttl (now - e.1))) nonces

abbrev pub has_nonce : String → Nonces → Bool
has_nonce nonce nonces = any (λ e. e.0 == nonce) nonces

pub data Reason : Type 0 where
  signature_key_missing signature_timestamp_invalid signature_expired : Reason
  signature_nonce_missing replay signature_missing signature_invalid : Reason

pub data Verdict : Type 0 where
  ok : Verdict
  rejected : Reason → Verdict

-- the options of a session that do not change from one request to the next
pub record Policy : Type 0 where
  pub require_signature : Bool
  pub signature_max_age_ms : ℕ
  pub nonce_ttl_ms : ℕ

-- the finite positive number that `ts` must be
abbrev pub positive : Number → Option ℕ
positive (nonneg n) = if eqb n 0 then none else some n
positive _ = none

-- `Math.abs(a - b)`
unfoldable pub abs_diff : ℕ → ℕ → ℕ
abs_diff a b = if leb a b then b - a else a - b

-- `verify(a) || verify(b)` inside the `try`: a throw is `none`
abbrev pub verified_or : Option Bool → Option Bool → Option Bool
verified_or none rest = none
verified_or (some true) rest = some true
verified_or (some false) rest = rest

abbrev pub caught : Option Bool → Bool
caught none = false
caught (some b) = b

module _ (rt : Runtime) where
  unfoldable pub req_timestamp : Value → Option ℕ
  req_timestamp req = positive (to_number rt (or_else (member req "timestamp") (num (nonneg 0))))

  unfoldable pub req_nonce : Value → String
  req_nonce req = trim (to_text (or_else (member req "nonce") (str "")))

  unfoldable pub req_signature : Value → String
  req_signature req = trim (to_text (or_else (member req "signature") (str "")))

  unfoldable pub signature_verified : List ℕ → Value → Bool
  signature_verified key req =
      let signature = req_signature req in
      caught (
        verified_or (verify rt key (req_signing_payload_stable rt req) signature) (
          verified_or (verify rt key (req_signing_payload rt req) signature)
            (verify rt key (req_signing_payload_legacy rt req) signature)))

  -- from the pruning of the nonces on
  unfoldable pub check_nonce_and_signature : Value → List ℕ → Nonces → ℕ → Verdict × Nonces
  check_nonce_and_signature req key nonces now =
      if has_nonce (req_nonce req) nonces
      then (rejected replay, nonces)
      else if req_signature req == ""
      then (rejected signature_missing, nonces)
      else if not (signature_verified key req)
      then (rejected signature_invalid, nonces)
      else (ok, nonces ++ (req_nonce req, now) ∷ [])

  unfoldable pub check_timestamp : Policy → Value → List ℕ → Nonces → ℕ → ℕ → Verdict × Nonces
  check_timestamp p req key nonces now ts =
      if ltb p.signature_max_age_ms (abs_diff now ts)
      then (rejected signature_expired, nonces)
      else if req_nonce req == ""
      then (rejected signature_nonce_missing, nonces)
      else check_nonce_and_signature req key (prune_seen_nonces nonces now p.nonce_ttl_ms) now

  -- the verdict, and the Map afterwards
  unfoldable pub validate_req_signature :
      Policy → Value → Option (List ℕ) → Nonces → ℕ → Verdict × Nonces
  validate_req_signature p req none nonces now =
      if not p.require_signature then (ok, nonces) else (rejected signature_key_missing, nonces)
  validate_req_signature p req (some key) nonces now =
      if not p.require_signature then (ok, nonces) else elim (req_timestamp req) [
        | none ↦ (rejected signature_timestamp_invalid, nonces)
        | some ts ↦ check_timestamp p req key nonces now ts
      ]
