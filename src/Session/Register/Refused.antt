-- ===== src/Session/Register/Refused.antt =====
-- What a register message that is refused leaves behind.
use ombot.Prelude.{ℕ, String, ◌≡◌, true, some, List, arith}
use ombot.Js.Value.{Value, Fields, obj, member, has_own}
use ombot.Js.Runtime.{Runtime, to_number}
use ombot.Session.{Config, Session}
use ombot.Session.Moment.{Moment}
use ombot.Session.Register.Compatibility.{
  safe_load_client_public_key, parse_capabilities, validate_client_compatibility,
}
use ombot.Session.Register.Challenge.{
  refuse_or_check, check_compatibility, load_key_and_check, validate_and_prepare_register,
}

module _ (rt : Runtime) (cfg : Config) (at : Moment) where
  refused-key :
      (key : List ℕ) (reason : String) (v : Value) (s : Session)
      → validate_client_compatibility cfg s.client_protocol_version s.client_capabilities
        ≡ some reason
      → let s' = (refuse_or_check rt cfg at (some key) v s).1 in
        (s'.client_verify_public_key ≡ s.client_verify_public_key)
        × (s'.handshake_state ≡ s.handshake_state)
  unfolding check_compatibility
  refused-key key reason v s bad = ground arith

  -- A register message with a well-formed public key that is refused for its protocol version or
  -- its capabilities still replaces the key that requests are verified with, and leaves the state of
  -- the handshake as it was, also where the session is ready.
  pub refused_register_replaces_key :
      (fs : Fields) (s : Session) (key : List ℕ) (reason : String)
      → has_own fs "protocolVersion" ≡ true
      → has_own fs "capabilities" ≡ true
      → safe_load_client_public_key (member (obj fs) "publicKey") ≡ some key
      → validate_client_compatibility cfg
          (to_number rt (member (obj fs) "protocolVersion"))
          (parse_capabilities (member (obj fs) "capabilities"))
        ≡ some reason
      → let s' = (validate_and_prepare_register rt cfg at fs s).1 in
        (s'.client_verify_public_key ≡ some key) × (s'.handshake_state ≡ s.handshake_state)
  unfolding validate_and_prepare_register load_key_and_check check_compatibility
  refused_register_replaces_key fs s key reason version capabilities loads bad = ground arith
