-- ===== src/Guards/Register/Accept.antt =====
-- When a register response completes the pairing.
use ombot.Prelude.{
  ℕ, ◌+◌, ◌≤◌, ◌<◌, ◌≡◌, refl, ◌↔◌, Bool, true, false, ◌||◌, Option, none, some, List, arith,
  Option-cases, Bool-cases, inl, inr, ◌==◌,
}
use ombot.Js.Text.{to_lower_case}
use ombot.Js.Value.{Value, member, num, nonneg, or_else, is_object}
use ombot.Js.Runtime.{Runtime, to_number}
use ombot.Guards.Request.{positive}
use ombot.Guards.Register.{
  Challenge, trimmed_field, allow_unverified, register_challenge_client_data_hash_base64,
  check_attestation, challenge_verified, check_response, validate_register_challenge_response,
}

-- what the attestation of an accepted response has, where one is required
pub record IsAttested (rt : Runtime) (att : Value) (c : Challenge) : Type 0 where
  pub present : is_object att ≡ true
  pub provider : (trimmed_field att "provider" == "") ≡ false
  pub key_id : (trimmed_field att "keyId" == "") ≡ false
  pub assertion : (trimmed_field att "assertion" == "") ≡ false
  pub hashed : (trimmed_field att "clientDataHash" == "") ≡ false
  pub bound :
      (trimmed_field att "clientDataHash" == register_challenge_client_data_hash_base64 rt c) ≡ true
  pub cleared : (allow_unverified rt || to_lower_case (trimmed_field att "verdict") == "ok") ≡ true

-- what an accepted response has: it answers this challenge, in time, signed with the client's key
pub record IsPaired (rt : Runtime) (response : Value) (c : Challenge) (key : Option (List ℕ))
    (attest : Bool) (now : ℕ) : Type 0 where
  pub named : (trimmed_field response "nonce" == "") ≡ false
  pub answers : (trimmed_field response "nonce" == c.nonce) ≡ true
  pub ts : ℕ
  pub ts_is :
      positive (to_number rt (or_else (member response "timestamp") (num (nonneg 0)))) ≡ some ts
  pub not_future : ts ≤ now + 60000
  pub not_expired : now ≤ c.expires_at
  pub expires : 0 < c.expires_at
  pub public_key : List ℕ
  pub key_is : key ≡ some public_key
  pub signed : (trimmed_field response "signature" == "") ≡ false
  pub verified : challenge_verified rt public_key response c ts ≡ true
  pub attested : attest ≡ true → IsAttested rt (member response "attestation") c

module _ (rt : Runtime) (att : Value) (c : Challenge) where
  attestation_sound : check_attestation rt att c ≡ none → IsAttested rt att c
  unfolding check_attestation
  attestation_sound h = ground arith

  attestation_complete : IsAttested rt att c → check_attestation rt att c ≡ none
  unfolding check_attestation
  attestation_complete a = ground arith

module _ (rt : Runtime) (response : Value) (c : Challenge) (attest : Bool) (now : ℕ) where
  pub IsPaired-sound :
      (key : Option (List ℕ))
      → validate_register_challenge_response rt response c key attest now ≡ none
      → IsPaired rt response c key attest now
  unfolding validate_register_challenge_response check_response
  IsPaired-sound none h = ground arith
  IsPaired-sound (some k) h =
      elim (Option-cases
        (positive (to_number rt (or_else (member response "timestamp") (num (nonneg 0)))))) [
          | inl untimed ↦ ground arith
          | inr (ts, timed) ↦ record {
            named = ground arith;
            answers = ground arith;
            ts = ts;
            ts_is = timed;
            not_future = ground arith;
            not_expired = ground arith;
            expires = ground arith;
            public_key = k;
            key_is = refl;
            signed = ground arith;
            verified = ground arith;
            attested = λ on. attestation_sound rt (member response "attestation") c (ground arith);
          }
        ]

  IsPaired-complete :
      (key : Option (List ℕ))
      → IsPaired rt response c key attest now
      → validate_register_challenge_response rt response c key attest now ≡ none
  unfolding validate_register_challenge_response check_response
  IsPaired-complete none a = ground arith
  IsPaired-complete (some k) a = elim (Bool-cases attest) [
    | inl on ↦
        ground (arith, attestation_complete rt (member response "attestation") c (a.attested on))
    | inr off ↦ ground arith
  ]

  -- A response pairs the client exactly when it has all of this.
  pub IsPaired-iff :
      (key : Option (List ℕ))
      → (validate_register_challenge_response rt response c key attest now ≡ none)
        ↔ IsPaired rt response c key attest now
  IsPaired-iff key = (IsPaired-sound key, IsPaired-complete key)
