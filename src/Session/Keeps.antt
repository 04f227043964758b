-- ===== src/Session/Keeps.antt =====
-- What most of a session's methods leave as it is: the nonces seen, and the state of the handshake.
use ombot.Prelude.{
  ℕ, String, ◌≡◌, refl, ◌∙◌, Bool, true, false, not, ◌&&◌, Option, none, some, List, arith,
  if◌then◌else◌, ◌==◌,
}
use ombot.Js.Text.{trim}
use ombot.Js.Value.{Value, str, member, to_text}
use ombot.SessionKey.{id_text, or_default}
use ombot.Js.Runtime.{Runtime}
use ombot.BoxCrypto.{decrypt}
use ombot.Session.{
  Config, Session, ChatroomKeys, Effect, is_client_connected, notify_client_json,
  stop_middleware_keepalive, deliver_plaintext_to_consumer, close_client_ws, destroy, error_frame,
  send_middleware, send_client,
}
use ombot.Session.Moment.{LoadedKeys, Moment}
use ombot.Session.Register.{
  get_or_create_chatroom_keys, loaded_or_new, exchange_box_keys, complete_single_client_register,
  agent_of, box_key_of, room_or_default,
}
use ombot.Session.Relay.{
  post, encrypt_and_post, peer_of, secret_of, send_encrypted_to_client_ws,
  send_encrypted_to_middleware, send_plaintext_to_phone, handle_application_ping,
  handle_plaintext_application_ping, opened_frame, inner_frame, try_decrypt_client_box,
  handle_single_client_encrypted_frame,
}
use ombot.Session.Middleware.{
  connect_to_middleware, adopt_peer, on_peer_key, on_middleware_plaintext, pong_or_deliver,
  on_encrypted, if_parsed, on_decrypted, on_middleware_json, on_middleware_message, retry_later,
  forget_middleware, on_middleware_close,
}

abbrev pub Keeps : Session → Session → Type 0
Keeps s s' = (s'.seen_nonces ≡ s.seen_nonces) × (s'.handshake_state ≡ s.handshake_state)

pub notify-Keeps : (v : Value) (s : Session) → Keeps s (notify_client_json v s)
unfolding notify_client_json
notify-Keeps v s = ground arith

pub close-Keeps :
    (code : ℕ) (reason : String) (s : Session) → Keeps s (close_client_ws code reason s)
close-Keeps code reason s = ground arith

deliver-Keeps : (plain : String) (s : Session) → Keeps s (deliver_plaintext_to_consumer plain s)
unfolding deliver_plaintext_to_consumer
deliver-Keeps plain s = ground arith

pub destroy-Keeps : (cfg : Config) (s : Session) → Keeps s (destroy cfg s)
unfolding destroy stop_middleware_keepalive
destroy-Keeps cfg s = ground arith

post-Keeps :
    (effect : Value → Effect) (o : Option Value) (s : Session) → Keeps s (post effect o s).1
post-Keeps effect none s = (refl, refl)
post-Keeps effect (some v) s = (refl, refl)

module _ (rt : Runtime) (cfg : Config) (at : Moment) where
  pub encrypt-Keeps :
      (effect : Value → Effect) (o : Option (List ℕ)) (plain : String) (s : Session)
      → Keeps s (encrypt_and_post rt cfg at effect o plain s).1
  encrypt-Keeps effect none plain s = (refl, refl)
  encrypt-Keeps effect (some peer) plain s = post-Keeps effect _ s

  send-Keeps :
      (plain : String) (s : Session) → Keeps s (send_plaintext_to_phone rt cfg at plain s).1
  unfolding send_plaintext_to_phone send_encrypted_to_client_ws send_encrypted_to_middleware
  send-Keeps plain s = ground (
    arith,
    encrypt-Keeps send_client (peer_of s.chatroom_box_keys) plain s,
    encrypt-Keeps send_middleware (peer_of s.chatroom_box_keys) plain s,
  )

  ping-Keeps :
      (v : Value) (b : Bool) (s : Session) → Keeps s (handle_application_ping rt cfg at v b s).1
  unfolding handle_application_ping
  ping-Keeps v b s = send-Keeps _ s

  pub plaintext_ping-Keeps :
      (v : Value) (b : Bool) (s : Session)
      → Keeps s (handle_plaintext_application_ping rt cfg at v b s)
  unfolding handle_plaintext_application_ping
  plaintext_ping-Keeps v b s = notify-Keeps _ s

  pub connect-Keeps : (s : Session) → Keeps s (connect_to_middleware rt cfg s)
  unfolding connect_to_middleware
  connect-Keeps s = ground arith

  inner-Keeps :
      (plain : String) (v : Value) (b : Bool) (s : Session)
      → Keeps s (inner_frame rt cfg at plain v b s).2
  unfolding inner_frame
  inner-Keeps plain v b s = ground (arith, ping-Keeps v b s)

  opened-Keeps :
      (o : Option (String × Value)) (b : Bool) (s : Session)
      → Keeps s (opened_frame rt cfg at o b s).2
  opened-Keeps none b s = (refl, refl)
  opened-Keeps (some (plain, v)) b s = inner-Keeps plain v b s

  pub frame-Keeps :
      (v : Value) (b : Bool) (s : Session)
      → Keeps s (handle_single_client_encrypted_frame rt cfg at v b s).2
  unfolding handle_single_client_encrypted_frame
  frame-Keeps v b s = opened-Keeps (try_decrypt_client_box rt cfg at v s) b s

  loaded-Keeps :
      (aid : String) (room : Value) (pid : String) (o : Option LoadedKeys) (s : Session)
      → Keeps s (loaded_or_new rt at aid room pid o s).1
  loaded-Keeps aid room pid none s = (refl, refl)
  loaded-Keeps aid room pid (some k) s = (refl, refl)

  get_or_create-Keeps :
      (aid : String) (room : Value) (pid : String) (s : Session)
      → Keeps s (get_or_create_chatroom_keys rt at aid room pid s).1
  unfolding get_or_create_chatroom_keys
  get_or_create-Keeps aid room pid s =
      loaded-Keeps aid room pid (at.load_chatroom_keys aid room pid) s

  exchange-Keeps :
      (box_key : Value) (aid room pid : String) (keys : ChatroomKeys) (peer : Option (List ℕ))
      (s : Session)
      → Keeps s (exchange_box_keys rt cfg at box_key aid room pid keys peer s)
  unfolding exchange_box_keys notify_client_json
  exchange-Keeps box_key aid room pid keys none s = ground arith
  exchange-Keeps box_key aid room pid keys (some p) s = ground arith

  pub complete-Keeps :
      (v : Value) (s : Session) → Keeps s (complete_single_client_register rt cfg at v s)
  unfolding complete_single_client_register
  complete-Keeps v s =
      let aid = agent_of rt v in
      let room = trim (to_text (room_or_default v)) in
      let pid = or_default (id_text (member v "participantId")) in
      let s' = record s { single_client_agent_id = some aid } in
      let made = get_or_create_chatroom_keys rt at aid (str room) pid s' in
      let peer = rt.buffer_from (box_key_of v) in
      ground (
        arith,
        notify-Keeps (error_frame "box_public_key_required" s) s,
        get_or_create-Keeps aid (str room) pid s',
        exchange-Keeps (box_key_of v) aid room pid made.0 peer made.1,
      )

  adopt-Keeps :
      (box_key : Value) (aid : String) (room : Value) (pid : String) (keys : ChatroomKeys)
      (peer : Option (List ℕ)) (s : Session)
      → Keeps s (adopt_peer rt cfg at box_key aid room pid keys peer s)
  adopt-Keeps box_key aid room pid keys none s = (refl, refl)
  adopt-Keeps box_key aid room pid keys (some p) s = ground arith

  peer_key-Keeps : (v : Value) (s : Session) → Keeps s (on_peer_key rt cfg at v s)
  unfolding on_peer_key
  peer_key-Keeps v s =
      let aid = agent_of rt v in
      let room = room_or_default v in
      let pid = or_default (id_text (member v "participantId")) in
      let made = get_or_create_chatroom_keys rt at aid room pid s in
      ground (
        arith,
        get_or_create-Keeps aid room pid s,
        adopt-Keeps (box_key_of v) aid room pid made.0 (rt.buffer_from (box_key_of v)) made.1,
      )

  pong_or_deliver-Keeps :
      (b : Bool) (plain : String) (o : Option Value) (s : Session)
      → Keeps s (pong_or_deliver rt cfg at b plain o s)
  pong_or_deliver-Keeps b plain none s = deliver-Keeps plain s
  pong_or_deliver-Keeps b plain (some v) s = ground (arith, ping-Keeps v b s, deliver-Keeps plain s)

  decrypted-Keeps :
      (b : Bool) (o : Option (Option String)) (s : Session) → Keeps s (on_decrypted rt cfg at b o s)
  unfolding on_middleware_plaintext
  decrypted-Keeps b none s = (refl, refl)
  decrypted-Keeps b (some none) s = (refl, refl)
  decrypted-Keeps b (some (some plain)) s =
      ground (arith, pong_or_deliver-Keeps b plain (rt.parse_json plain) s)

  encrypted-Keeps :
      (b : Bool) (v : Value) (o : Option (List ℕ)) (s : Session)
      → Keeps s (on_encrypted rt cfg at b v o s)
  encrypted-Keeps b v none s = (refl, refl)
  encrypted-Keeps b v (some peer) s =
      decrypted-Keeps b
        (decrypt rt (member v "nonce") (member v "payload") peer (secret_of s.chatroom_box_keys)) s

  json-Keeps : (b : Bool) (v : Value) (s : Session) → Keeps s (on_middleware_json rt cfg at b v s)
  unfolding on_middleware_json
  json-Keeps b v s =
      ground (arith, peer_key-Keeps v s, encrypted-Keeps b v (peer_of s.chatroom_box_keys) s)

  parsed-Keeps : (b : Bool) (o : Option Value) (s : Session) → Keeps s (if_parsed rt cfg at b o s)
  parsed-Keeps b none s = (refl, refl)
  parsed-Keeps b (some v) s = json-Keeps b v s

  pub message-Keeps :
      (b : Bool) (bytes : ℕ) (raw : String) (s : Session)
      → Keeps s (on_middleware_message rt cfg at b bytes raw s)
  unfolding on_middleware_message
  message-Keeps b bytes raw s = ground (arith, parsed-Keeps b (rt.parse_json raw) s)

  retry-Keeps : (s : Session) → Keeps s (retry_later rt cfg s)
  unfolding retry_later notify_client_json
  retry-Keeps s = ground arith

  forget-Keeps : (s : Session) → Keeps s (forget_middleware rt cfg s)
  unfolding forget_middleware stop_middleware_keepalive
  forget-Keeps s = (refl, refl)

  if-Keeps : (b : Bool) (s x y : Session) → Keeps s x → Keeps s y → Keeps s (if b then x else y)
  if-Keeps true s x y h k = h
  if-Keeps false s x y h k = k

  pub middleware_close-Keeps : (s : Session) → Keeps s (on_middleware_close rt cfg s)
  unfolding on_middleware_close
  middleware_close-Keeps s =
      let lost = forget_middleware rt cfg s in
      let again = record lost { auth_retry_with_query = true } in
      let (n, h) = forget-Keeps s in
      let (n', h') = connect-Keeps again in
      let (n'', h'') = retry-Keeps lost in
      if-Keeps (not (is_client_connected lost)) s lost
        (if not lost.auth_retry_with_query && not (cfg.middleware_auth_token == "")
          then connect_to_middleware rt cfg again
          else retry_later rt cfg lost)
        (n, h)
        (if-Keeps (not lost.auth_retry_with_query && not (cfg.middleware_auth_token == "")) s
          (connect_to_middleware rt cfg again) (retry_later rt cfg lost) (n' ∙ n, h' ∙ h)
          (n'' ∙ n, h'' ∙ h))
