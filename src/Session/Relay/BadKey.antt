-- ===== src/Session/Relay/BadKey.antt =====
-- A box key of the peer that the cipher does not take.
use ombot.Prelude.{ℕ, String, ◌≡◌, true, false, none, some, List, arith}
use ombot.Js.Value.{Value, member, is_text}
use ombot.Js.Runtime.{Runtime}
use ombot.BoxCrypto.{encrypted_frame}
use ombot.Guards.Request.{Verdict, ok, rejected, Nonces}
use ombot.Session.{Config, Session, is_open, is_ready_for_agent_req}
use ombot.Session.Moment.{Moment}
use ombot.Session.Relay.{
  threw, failed, peer_of, secret_of, guard_verdict, guarded_relay, send_encrypted_to_middleware,
  relay_signed_req_to_middleware,
}

module _ (rt : Runtime) (cfg : Config) (at : Moment) where
  unsendable :
      (raw : String) (s : Session) (peer : List ℕ)
      → is_open s.middleware_ws ≡ true
      → peer_of s.chatroom_box_keys ≡ some peer
      → rt.box raw at.box_nonce peer (secret_of s.chatroom_box_keys) ≡ none
      → (send_encrypted_to_middleware rt cfg at raw s).0 ≡ threw
  unfolding send_encrypted_to_middleware encrypted_frame
  unsendable raw s peer linked known throws = ground arith

  accepted-fails :
      (raw : String) (v : Verdict × Nonces) (s : Session) (peer : List ℕ)
      → v.0 ≡ ok
      → is_open s.middleware_ws ≡ true
      → peer_of s.chatroom_box_keys ≡ some peer
      → rt.box raw at.box_nonce peer (secret_of s.chatroom_box_keys) ≡ none
      → (guarded_relay rt cfg at raw v s).0 ≡ failed
  accepted-fails raw (rejected why, n) s peer h linked known throws = ground arith
  accepted-fails raw (ok, n) s peer h linked known throws =
      ground (arith, unsendable raw (record s { seen_nonces = n }) peer linked known throws)

  -- In the relaying mode, where `nacl.box` throws at the peer's key, an accepted request of a ready
  -- client whose middleware is connected ends in an exception, which the handler of the client's
  -- message does not catch.
  pub bad_key_fails :
      (raw : String) (req : Value) (s : Session) (peer : List ℕ)
      → cfg.single_client_mode ≡ false
      → is_text (member req "type") "req" ≡ true
      → is_ready_for_agent_req s.handshake_state ≡ true
      → is_open s.middleware_ws ≡ true
      → peer_of s.chatroom_box_keys ≡ some peer
      → (guard_verdict rt cfg at req s).0 ≡ ok
      → rt.box raw at.box_nonce peer (secret_of s.chatroom_box_keys) ≡ none
      → (relay_signed_req_to_middleware rt cfg at raw req s).0 ≡ failed
  unfolding relay_signed_req_to_middleware
  bad_key_fails raw req s peer relaying is_req ready linked known accepted throws = ground (
    arith,
    accepted-fails raw (guard_verdict rt cfg at req s) s peer accepted linked known throws,
  )
