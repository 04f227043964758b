-- ===== src/Session/Moment.antt =====
-- What a handler of a session reads from outside while it runs: the clock, random texts and bytes,
-- the key files of chatroomStorage.js, and whether the shared gateway is ready.
use ombot.Prelude.{ℕ, String, Bool, Option, List}
use ombot.Js.Value.{Value}

-- `loadChatroomKeysSync`
pub record LoadedKeys : Type 0 where
  pub public_key : List ℕ
  pub secret_key : List ℕ
  pub peer_public_key_base64 : Option String
  pub peer_public_keys : List (String × String)

pub record Moment : Type 0 where
  pub now : ℕ
  pub random_text : String
  pub load_chatroom_keys : String → Value → String → Option LoadedKeys
  pub new_public_key : List ℕ
  pub new_secret_key : List ℕ
  pub box_nonce : List ℕ
  pub gateway_ready : Bool
