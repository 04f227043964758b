-- ===== src/Gateway/Shared/Delivery.antt =====
-- When a text of the gateway reaches the phone of single-client mode.
use ombot.Prelude.{ℕ, String, ◌≡◌, true, false, Option, none, some, List, [], ◌==◌}
use ombot.Js.Text.{trim}
use ombot.Js.Value.{Value}
use ombot.Js.Runtime.{Runtime}
use ombot.BoxCrypto.{encrypted_frame}
use ombot.Session.{Config, Session, Effect, is_open, is_client_connected}
use ombot.Session.Moment.{Moment}
use ombot.Session.Relay.{peer_of, secret_of}
use ombot.Gateway.Shared.{assistant_text_to_phone_res, deliver_assistant_text_to_active_session}

-- what a text that reaches the phone needs
pub record IsDeliverable (rt : Runtime) (at : Moment) (text : String) (s : Session) : Type 0 where
  pub spoken : (trim text == "") ≡ false
  pub alive : s.destroyed ≡ false
  pub connected : is_client_connected s ≡ true
  pub linked : is_open s.client_ws ≡ true
  pub peer : List ℕ
  pub peer_is : peer_of s.chatroom_box_keys ≡ some peer
  pub frame : Value
  pub frame_is :
      encrypted_frame rt at.box_nonce
        (assistant_text_to_phone_res (trim text))
        peer
        (secret_of s.chatroom_box_keys)
      ≡ some frame

-- the effects of a session that may be there
abbrev pub effects_of : Option Session → List Effect
effects_of none = []
effects_of (some s) = s.effects

module _ (rt : Runtime) (cfg : Config) (at : Moment) (text : String) (s : Session) where
  abbrev delivered : Option Session
  delivered = deliver_assistant_text_to_active_session rt cfg at text (some s)

  abbrev boxed : List ℕ → Option Value
  boxed peer =
      encrypted_frame rt at.box_nonce (assistant_text_to_phone_res (trim text)) peer
        (secret_of s.chatroom_box_keys)
