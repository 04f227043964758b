-- ===== src/Guards/Request/Accept.antt =====
-- When a request is accepted, and what each verdict does to the nonces.
use ombot.Prelude.{
  ℕ, ◌≤◌, ◌≡◌, refl, ap, ◌⊎◌, ◌↔◌, true, false, Option, none, some, List, [], ◌∷◌, ◌++◌, arith,
  Option-cases, inl, inr, ◌==◌,
}
use ombot.Js.Value.{Value}
use ombot.Js.Runtime.{Runtime}
use ombot.Guards.Request.{
  Nonces, prune_seen_nonces, has_nonce, ok, rejected, Reason, Policy, abs_diff, req_timestamp,
  req_nonce, req_signature, signature_verified, check_nonce_and_signature, check_timestamp,
  validate_req_signature,
}

-- What an accepted request has, where signatures are required.
pub record IsAccepted (rt : Runtime) (p : Policy) (req : Value) (key : Option (List ℕ))
    (nonces : Nonces) (now : ℕ) : Type 0 where
  pub public_key : List ℕ
  pub key_is : key ≡ some public_key
  pub ts : ℕ
  pub ts_is : req_timestamp rt req ≡ some ts
  pub in_time : abs_diff now ts ≤ p.signature_max_age_ms
  pub named : (req_nonce rt req == "") ≡ false
  pub unseen : has_nonce (req_nonce rt req) (prune_seen_nonces nonces now p.nonce_ttl_ms) ≡ false
  pub signed : (req_signature rt req == "") ≡ false
  pub verified : signature_verified rt public_key req ≡ true

module _ (rt : Runtime) (p : Policy) (req : Value) (nonces : Nonces) (now : ℕ) where
  pub accept_sound :
      (key : Option (List ℕ))
      → p.require_signature ≡ true
      → (validate_req_signature rt p req key nonces now).0 ≡ ok
      → IsAccepted rt p req key nonces now
  unfolding validate_req_signature check_timestamp check_nonce_and_signature
  accept_sound none on h = ground arith
  accept_sound (some k) on h = elim (Option-cases (req_timestamp rt req)) [
    | inl untimed ↦ ground arith
    | inr (ts, timed) ↦ record {
      public_key = k;
      key_is = refl;
      ts = ts;
      ts_is = timed;
      in_time = ground arith;
      named = ground arith;
      unseen = ground arith;
      signed = ground arith;
      verified = ground arith;
    }
  ]

  pub accept_complete :
      (key : Option (List ℕ))
      → p.require_signature ≡ true
      → IsAccepted rt p req key nonces now
      → validate_req_signature rt p req key nonces now
        ≡ (ok, prune_seen_nonces nonces now p.nonce_ttl_ms ++ (req_nonce rt req, now) ∷ [])
  unfolding validate_req_signature check_timestamp check_nonce_and_signature
  accept_complete none on a = ground arith
  accept_complete (some k) on a = ground arith

  -- Where signatures are required, a request is accepted exactly when it has a key, a positive
  -- timestamp within the age limit, a nonce that is not among those still remembered, and a
  -- signature over one of the three texts; then its nonce is remembered at the time of the call.
  pub accept_iff :
      (key : Option (List ℕ))
      → p.require_signature ≡ true
      → (validate_req_signature rt p req key nonces now
          ≡ (ok, prune_seen_nonces nonces now p.nonce_ttl_ms ++ (req_nonce rt req, now) ∷ []))
        ↔ IsAccepted rt p req key nonces now
  accept_iff key on = (λ e. accept_sound key on (ap (λ r. r.0) e), accept_complete key on)

  -- A request that is not accepted leaves the nonces as they were, or without those that are old.
  rejected_remembers_nothing :
      (key : Option (List ℕ)) (why : Reason)
      → (validate_req_signature rt p req key nonces now).0 ≡ rejected why
      → ((validate_req_signature rt p req key nonces now).1 ≡ nonces)
        ⊎ ((validate_req_signature rt p req key nonces now).1
            ≡ prune_seen_nonces nonces now p.nonce_ttl_ms)
  unfolding validate_req_signature check_timestamp check_nonce_and_signature
  rejected_remembers_nothing none why h = inl (ground arith)
  rejected_remembers_nothing (some k) why h = ground arith
