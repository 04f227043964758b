-- ===== src/Session/Middleware/PeerKey.antt =====
-- The key of a peer that the middleware hands on: what it leaves of a session.
use ombot.Prelude.{ℕ, String, ◌≡◌, refl, ◌∙◌, Bool, true, Option, none, some, List, arith}
use ombot.Js.Value.{Value, member, truthy, is_text}
use ombot.Js.Runtime.{Runtime}
use ombot.SessionKey.{id_text, or_default}
use ombot.Session.{ChatroomKeys, Config, Session}
use ombot.Session.Moment.{Moment, LoadedKeys}
use ombot.Session.Register.{
  get_or_create_chatroom_keys, loaded_or_new, agent_of, room_or_default, box_key_of,
}
use ombot.Session.Relay.{peer_of}
use ombot.Session.Middleware.{adopt_peer, on_peer_key, on_middleware_json}

-- the connection and the handshake as they were, and the key of the peer
pub record Delivered (peer : List ℕ) (s s' : Session) : Type 0 where
  pub linked : s'.middleware_ws ≡ s.middleware_ws
  pub ready : s'.handshake_state ≡ s.handshake_state
  pub known : peer_of s'.chatroom_box_keys ≡ some peer

module _ (rt : Runtime) (cfg : Config) (at : Moment) where
  made-linked :
      (aid : String) (room : Value) (pid : String) (found : Option LoadedKeys) (s : Session)
      → ((loaded_or_new rt at aid room pid found s).1.middleware_ws ≡ s.middleware_ws)
        × ((loaded_or_new rt at aid room pid found s).1.handshake_state ≡ s.handshake_state)
  made-linked aid room pid none s = (refl, refl)
  made-linked aid room pid (some keys) s = (refl, refl)

  adopt-Delivered :
      (box_key : Value) (aid : String) (room : Value) (pid : String) (keys : ChatroomKeys)
      (peer : List ℕ) (s : Session)
      → Delivered peer s (adopt_peer rt cfg at box_key aid room pid keys (some peer) s)
  adopt-Delivered box_key aid room pid keys peer s = record {
    linked = ground arith;
    ready = ground arith;
    known = ground arith;
  }

  -- Whatever bytes the key decodes to, they become the peer's key; nothing looks at their number.
  pub peer_key-Delivered :
      (json : Value) (peer : List ℕ) (bridge : Bool) (s : Session)
      → is_text (member json "type") "register_public_key" ≡ true
      → truthy (box_key_of json) ≡ true
      → rt.buffer_from (box_key_of json) ≡ some peer
      → Delivered peer s (on_middleware_json rt cfg at bridge json s)
  unfolding on_middleware_json on_peer_key get_or_create_chatroom_keys
  peer_key-Delivered json peer bridge s is_key given decoded =
      let aid = agent_of rt json in
      let room = room_or_default json in
      let pid = or_default (id_text (member json "participantId")) in
      let found = at.load_chatroom_keys aid room pid in
      let made = loaded_or_new rt at aid room pid found s in
      let kept = made-linked aid room pid found s in
      let adopted = adopt-Delivered (box_key_of json) aid room pid made.0 peer made.1 in
      rw (is_key, given, decoded)
        (record {
          linked = adopted.linked ∙ kept.0;
          ready = adopted.ready ∙ kept.1;
          known = adopted.known;
        })
