-- ===== src/Server/Life/Replay.antt =====
-- A request that became a turn of the agent does not become one again on the same connection.
use ombot.Prelude.{
  ℕ, suc, ◌*◌, ◌≤◌, String, ◌≡◌, sym, ap, subst, ◌≢◌, true, Option, arith, inl, inr,
}
use ombot.Js.Value.{Value}
use ombot.Js.Runtime.{Runtime}
use ombot.Guards.Request.{Nonces, req_nonce, req_timestamp}
use ombot.Guards.Request.Accept.{accept_complete}
use ombot.Guards.Request.Replay.{Run, idle, next, never_accepted_twice}
use ombot.Session.{Config, Session}
use ombot.Session.Moment.{Moment}
use ombot.Session.Relay.{relay_signed_req_to_middleware}
use ombot.Session.Relay.Forward.{turns, IsForwarded-iff, relay-nonces}
use ombot.Server.Life.{Later, still, event}
use ombot.Server.Life.Progress.{Allows, Goes, received_of, handle-Goes}

module _ (rt : Runtime) (cfg : Config) (max_per_minute : ℕ)
    (server_public_key client : String) where
  -- the guard's run behind the events
  abbrev Ran : Nonces → ℕ → Nonces → ℕ → Type 0
  Ran m t m' t' = (u : ℕ) × Run rt cfg.policy m t m' u × (u ≤ t')

  Goes-Ran :
      (m : Nonces) (t t' : ℕ) (at : Moment) (o : Option Value) (s' s'' : Session)
      → Ran m t s'.seen_nonces t'
      → t' ≤ at.now
      → Goes rt cfg server_public_key at o s' s''
      → Ran m t s''.seen_nonces at.now
  Goes-Ran m t t' at o s' s'' (u, run, le) later g = elim g.nonces [
    | inl same ↦ (u, subst (λ n. Run rt cfg.policy m t n u) (sym same) run, omega arith)
    | inr (req, key, e) ↦ (
      at.now,
      subst (λ n. Run rt cfg.policy m t n at.now) (sym e) (next req key at.now run (omega arith)),
      omega arith,
    )
  ]

  Later-Ran :
      (s : Session) (t : ℕ) {s' : Session} {t' : ℕ}
      → Later rt cfg max_per_minute server_public_key client s t s' t'
      → Ran s.seen_nonces t s'.seen_nonces t'
  Later-Ran s t still = (t, idle, omega arith)
  Later-Ran s t (event {s'} {t'} at bridge e server server' s'' before le runs) =
      Goes-Ran s.seen_nonces t t' at (received_of rt e) s' s'' (Later-Ran s t before) le (
        subst (Allows (Goes rt cfg server_public_key at (received_of rt e) s')) runs
          (handle-Goes rt cfg server_public_key at max_per_minute client bridge e server s'))

  -- In single-client mode, where signatures are required and nonces are remembered for at least
  -- twice the age limit, with a clock that does not run backwards: once a request has become a turn,
  -- then after any events of the connection, more messages, registrations and reconnections
  -- included, a request with the same nonce and timestamp does not become one.
  pub no_turn_twice :
      (s : Session) (at at' : Moment) {s' : Session} {t' : ℕ} (raw raw' : String)
      (req again : Value)
      → cfg.single_client_mode ≡ true
      → cfg.policy.require_signature ≡ true
      → 2 * cfg.policy.signature_max_age_ms ≤ cfg.policy.nonce_ttl_ms
      → turns (relay_signed_req_to_middleware rt cfg at raw req s).1.effects ≡ suc (turns s.effects)
      → Later rt cfg max_per_minute server_public_key client
          (relay_signed_req_to_middleware rt cfg at raw req s).1
          at.now
          s'
          t'
      → t' ≤ at'.now
      → req_nonce rt again ≡ req_nonce rt req
      → req_timestamp rt again ≡ req_timestamp rt req
      → turns (relay_signed_req_to_middleware rt cfg at' raw' again s').1.effects
        ≢ suc (turns s'.effects)
  no_turn_twice s at at' {s'} {t'} raw raw' req again single on room first later le nonce ts
        second =
      let f = (IsForwarded-iff rt cfg at raw req s single on).0 first in
      let f' = (IsForwarded-iff rt cfg at' raw' again s' single on).0 second in
      let took =
        accept_complete rt cfg.policy req s.seen_nonces at.now s.client_verify_public_key on
          f.accepted in
      let took' =
        accept_complete rt cfg.policy again s'.seen_nonces at'.now s'.client_verify_public_key on
          f'.accepted in
      let (u, run, before) = Later-Ran _ at.now later in
      never_accepted_twice rt cfg.policy s.seen_nonces at.now req again s.client_verify_public_key
        s'.client_verify_public_key at'.now on room (ap (λ v. v.0) took)
        (subst (λ n. Run rt cfg.policy n at.now s'.seen_nonces u)
          (relay-nonces rt cfg at raw req s single f) run)
        (omega arith) nonce ts (ap (λ v. v.0) took')
