-- ===== src/Guards/Request/Replay.antt =====
-- A request that was accepted is not accepted again.
use ombot.Prelude.{
  ℕ, ◌+◌, ◌-◌, ◌*◌, ◌≤◌, String, ◌≡◌, sym, ◌∙◌, some_inj, ◌≢◌, Bool, true, ◌&&◌, Option, none, some,
  List, [], ◌∷◌, ◌++◌, arith, any, eqb, eq_refl, ◌==◌,
}
use ombot.Js.Value.{Value}
use ombot.Js.Runtime.{Runtime}
use ombot.Guards.Request.{
  Nonces, prune_seen_nonces, has_nonce, ok, Policy, abs_diff, req_timestamp, req_nonce,
  check_nonce_and_signature, check_timestamp, validate_req_signature,
}
use ombot.Guards.Request.Accept.{accept_sound, accept_complete}

-- the Map holds the nonce, as seen at time `t`
abbrev pub holds : String → ℕ → Nonces → Bool
holds nonce t nonces = any (λ e. e.0 == nonce && eqb e.1 t) nonces

holds-has_nonce :
    (nonce : String) (t : ℕ) (m : Nonces) → holds nonce t m ≡ true → has_nonce nonce m ≡ true
holds-has_nonce nonce t [] h = h
holds-has_nonce nonce t (e ∷ m) h = ground (arith, holds-has_nonce nonce t m)

holds-append :
    (nonce : String) (t : ℕ) (m n : Nonces) → holds nonce t m ≡ true → holds nonce t (m ++ n) ≡ true
holds-append nonce t [] n h = cc
holds-append nonce t (e ∷ m) n h = ground (arith, holds-append nonce t m n)

holds-append_self :
    (nonce : String) (t : ℕ) (m : Nonces) → holds nonce t (m ++ (nonce, t) ∷ []) ≡ true
holds-append_self nonce t [] = ground (arith, eq_refl nonce)
holds-append_self nonce t (e ∷ m) = ground (arith, holds-append_self nonce t m)

-- An entry that is at most `ttl` old is kept.
holds-prune :
    (nonce : String) (t now ttl : ℕ) (m : Nonces)
    → now - t ≤ ttl
    → holds nonce t m ≡ true
    → holds nonce t (prune_seen_nonces m now ttl) ≡ true
unfolding prune_seen_nonces
holds-prune nonce t now ttl [] h k = k
holds-prune nonce t now ttl (e ∷ m) h k = ground (arith, holds-prune nonce t now ttl m h)

abs_diff_le : (a b : ℕ) {n : ℕ} → abs_diff a b ≤ n → (a ≤ b + n) × (b ≤ a + n)
unfolding abs_diff
abs_diff_le a b h = ground arith

module _ (rt : Runtime) (p : Policy) where
  -- Whatever the request and the verdict, an entry that is at most `ttl` old is kept.
  holds-validate :
      (nonce : String) (t now : ℕ) (req : Value) (key : Option (List ℕ)) (m : Nonces)
      → now - t ≤ p.nonce_ttl_ms
      → holds nonce t m ≡ true
      → holds nonce t (validate_req_signature rt p req key m now).1 ≡ true
  unfolding validate_req_signature check_timestamp check_nonce_and_signature
  holds-validate nonce t now req none m h k = ground arith
  holds-validate nonce t now req (some key) m h k = ground (
    arith,
    holds-prune nonce t now p.nonce_ttl_ms m h k,
    holds-append nonce t (prune_seen_nonces m now p.nonce_ttl_ms) ((req_nonce rt req, now) ∷ []),
  )

  -- The Map and the clock after any requests, each validated at a time not before the last.
  pub data Run (m : Nonces) (t : ℕ) : Nonces → ℕ → Type 0 where
    idle : Run m t m t
    next :
        {m' : Nonces} {t' : ℕ} (req : Value) (key : Option (List ℕ)) (now : ℕ)
        → Run m t m' t'
        → t' ≤ now
        → Run m t (validate_req_signature rt p req key m' now).1 now

  Run-le : {m : Nonces} {t : ℕ} {m' : Nonces} {t' : ℕ} → Run m t m' t' → t ≤ t'
  Run-le idle = omega arith
  Run-le (next req key now r h) = omega (arith, Run-le r)

  Run-holds :
      {m : Nonces} {t : ℕ} (nonce : String) {m' : Nonces} {t' : ℕ}
      → Run m t m' t'
      → t' - t ≤ p.nonce_ttl_ms
      → holds nonce t m ≡ true
      → holds nonce t m' ≡ true
  Run-holds nonce idle h k = k
  Run-holds {t} nonce (next {m'} {t'} req key now r later) h k =
      holds-validate nonce t now req key m' h (Run-holds nonce r (omega arith) k)

  -- Where signatures are required and nonces are remembered for twice the age limit, a request that
  -- was accepted is not accepted again: not later in the same session, whatever requests come
  -- between, with any key, and whatever else of the request is changed but its nonce and its
  -- timestamp. The clock does not run backwards.
  pub never_accepted_twice :
      (m : Nonces) (t : ℕ) {m' : Nonces} {t' : ℕ} (req again : Value) (key key' : Option (List ℕ))
      (now : ℕ)
      → p.require_signature ≡ true
      → 2 * p.signature_max_age_ms ≤ p.nonce_ttl_ms
      → (validate_req_signature rt p req key m t).0 ≡ ok
      → Run (validate_req_signature rt p req key m t).1 t m' t'
      → t' ≤ now
      → req_nonce rt again ≡ req_nonce rt req
      → req_timestamp rt again ≡ req_timestamp rt req
      → (validate_req_signature rt p again key' m' now).0 ≢ ok
  never_accepted_twice m t {m'} req again key key' now on room first r later nonce ts second =
      let a = accept_sound rt p req m t key on first in
      let b = accept_sound rt p again m' now key' on second in
      let same : a.ts ≡ b.ts = some_inj (sym a.ts_is ∙ sym ts ∙ b.ts_is) in
      let close : now - t ≤ p.nonce_ttl_ms =
        omega (arith, abs_diff_le now b.ts b.in_time, abs_diff_le t a.ts a.in_time) in
      let held = holds-append_self (req_nonce rt req) t (prune_seen_nonces m t p.nonce_ttl_ms) in
      let kept =
        Run-holds (req_nonce rt req) r (omega (arith, Run-le r))
          (rw (accept_complete rt p req m t key on a) held) in
      let known =
        holds-has_nonce (req_nonce rt req) t (prune_seen_nonces m' now p.nonce_ttl_ms)
          (holds-prune (req_nonce rt req) t now p.nonce_ttl_ms m' close kept) in
      cc (b.unseen, known)
