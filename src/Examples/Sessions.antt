-- ===== src/Examples/Sessions.antt =====
-- A paired session, its connection to the middleware, and the server it runs in.
use ombot.Prelude.{
  ℕ, suc, String, eqb, if◌then◌else◌, ◌≡◌, refl, ◌≢◌, ◌↔◌, true, false, some, none, List, [], ◌∷◌,
  ◌++◌, ◌≤◌, arith, length, ◌==◌,
}
use ombot.Js.Value.{
  Value, Items, nil, arr, null, str, num, nonneg, obj, Fields, is_text, end, field, has_own, member,
}
use ombot.Js.Text.{◌⧺◌}
use ombot.Js.Text.Trim.{IsTrimmed}
use ombot.Js.Runtime.{Runtime, to_number}
use ombot.SessionKey.{id_text, normalize_id, session_key_input}
use ombot.SessionKey.Names.{OneLine, session_key_input-injective, session_key_input-collision}
use ombot.Guards.Request.Accept.{accept_sound}
use ombot.Session.{open_, connecting, is_client_connected, Session}
use ombot.Session
use ombot.Session.Register.Compatibility.{
  safe_load_client_public_key, parse_capabilities, validate_client_compatibility,
}
use ombot.Session.Register.Challenge.{validate_and_prepare_register}
use ombot.Session.Register.Refused.{refused_register_replaces_key}
use ombot.Session.Relay.{relay_signed_req_to_middleware, phone_payload_to_user_text}
use ombot.Session.Middleware.{on_middleware_message}
use ombot.Guards.Request.{ok}
use ombot.Session.{Config, ready_for_agent_req}
use ombot.Session.Relay.{guard_verdict}
use ombot.Session.Relay.Forward.{turns, IsForwarded, IsForwarded-iff}
use ombot.Session.Middleware.{on_reconnect_timer, on_middleware_close}
use ombot.Session.Middleware.Reconnect.{close-reconnects}
use ombot.Server.{RateWindow, allow_message, times_of, fresh}
use ombot.Server.RateLimit.{idle, passed, refused, at_most_limit_per_minute}
use ombot.Server.Connection.{crashed, on_client_message}
use ombot.Server.Crash.{null_message_crashes, bad_key_crashes}
use ombot.Server.Life.{client_message, handle, still}
use ombot.Server.Life.Progress.{Allows, Goes, handle-Goes}
use ombot.Server.Life.Replay.{no_turn_twice}
use ombot.Examples.World.{rt, policy, cfg, at, key, request, ready_session, fresh_session, server}
use ombot.Examples.Guarding.{request-ok}

request-is_req : is_text (member request "type") "req" ≡ true
unfolding is_text member
request-is_req = refl

request-text : phone_payload_to_user_text rt request ≡ some "hello"
unfolding phone_payload_to_user_text ombot.Js.Value.is_object is_text member ombot.Js.Value.to_text
    ombot.Js.Text.trim ombot.Js.Runtime.env_or ombot.Js.Value.is_nullish
request-text = refl

request-IsForwarded : IsForwarded rt cfg (at 1000) request ready_session
request-IsForwarded = record {
  is_req = request-is_req;
  ready = refl;
  peer = key;
  peer_is = refl;
  accepted = accept_sound rt policy request [] 1000 (some key) refl request-ok;
  text = "hello";
  text_is = request-text;
}

IsForwarded-iff_example :
    (turns (relay_signed_req_to_middleware rt cfg (at 1000) "" request ready_session).1.effects ≡ 1)
    ↔ IsForwarded rt cfg (at 1000) request ready_session
unfolding relay_signed_req_to_middleware
IsForwarded-iff_example = IsForwarded-iff rt cfg (at 1000) "" request ready_session refl refl

request-turn :
    turns (relay_signed_req_to_middleware rt cfg (at 1000) "" request ready_session).1.effects ≡ 1
unfolding relay_signed_req_to_middleware
request-turn =
    (IsForwarded-iff rt cfg (at 1000) "" request ready_session refl refl).1 request-IsForwarded

abbrev after : Session
after = (relay_signed_req_to_middleware rt cfg (at 1000) "" request ready_session).1

no_turn_twice_example :
    turns (relay_signed_req_to_middleware rt cfg (at 2000) "" request after).1.effects
    ≢ suc (turns after.effects)
unfolding relay_signed_req_to_middleware
no_turn_twice_example =
    no_turn_twice rt cfg 120 "server" "client" ready_session (at 1000) (at 2000) "" "" request
      request refl refl (omega arith) request-turn still (omega arith) refl refl

handle-Goes_example : Allows (Goes rt cfg "server" (at 1000) (some (obj end)) fresh_session) (
    handle rt cfg 120 "server" "client"
      (at 1000)
      false
      (client_message 2 "{}")
      server
      fresh_session)
handle-Goes_example =
    handle-Goes rt cfg "server" (at 1000) 120 "client" false (client_message 2 "{}") server
      fresh_session

first-passes : (allow_message 1 "client" 1000 []).0 ≡ true
unfolding allow_message times_of
first-passes = refl

second-refused : (allow_message 1 "client" 2000 (allow_message 1 "client" 1000 []).1).0 ≡ false
unfolding allow_message times_of ombot.Server.set_times
second-refused = refl

client-unknown : ◌≡◌ {A = List ℕ} (times_of "client" []) []
unfolding times_of
client-unknown = refl

at_most_limit_per_minute_example : length (fresh 3000 (1000 ∷ [])) ≤ 1
at_most_limit_per_minute_example =
    at_most_limit_per_minute 1 "client" 3000
      (refused 2000 (passed 1000 (idle [] 1000 client-unknown) (omega arith) first-passes)
        (omega arith) second-refused)
      (omega arith)

abbrev linked_session : Session
linked_session = record (Session.new (some open_) false false) { middleware_ws = some open_ }

linked-connected : is_client_connected linked_session ≡ true
unfolding is_client_connected
linked-connected = refl

abbrev back : Session
back = on_reconnect_timer rt cfg (on_middleware_close rt cfg linked_session)

close-reconnects_example :
    (back.middleware_ws ≡ some connecting)
    × (back.chatroom_box_keys ≡ none)
    × (back.middleware_ping_timer ≡ false)
    × (back.middleware_pong_timeout ≡ false)
    × (back.reconnect_timer ≡ false)
close-reconnects_example = close-reconnects rt cfg linked_session refl linked-connected

null-passes : (allow_message 120 "client" 1000 server.rate_window).0 ≡ true
unfolding allow_message times_of
null-passes = refl

null_message_crashes_example :
    on_client_message rt cfg 120 "server" "client" (at 1000) false 4 "null" server ready_session
    ≡ crashed
null_message_crashes_example =
    null_message_crashes rt cfg 120 "server" "client" (at 1000) false 4 "null" server ready_session
      null-passes (omega arith) refl

-- a register message of an old protocol version, with another key
abbrev old_register : Fields
old_register = field "type" (str "register_public_key") (
    field "protocolVersion" (num (nonneg 1)) (
      field "capabilities" (arr nil) (
        field "publicKey"
          (str ("ffffffffffffffffffffffffffffffff" ⧺ "ffffffffffffffffffffffffffffffff")) end)))

abbrev ff8 : List ℕ
ff8 = 255 ∷ 255 ∷ 255 ∷ 255 ∷ 255 ∷ 255 ∷ 255 ∷ 255 ∷ []

abbrev other_key : List ℕ
other_key = ff8 ++ ff8 ++ ff8 ++ ff8

old-versioned : has_own old_register "protocolVersion" ≡ true
unfolding has_own
old-versioned = refl

old-capable : has_own old_register "capabilities" ≡ true
unfolding has_own
old-capable = refl

old-loads : safe_load_client_public_key (member (obj old_register) "publicKey") ≡ some other_key
unfolding safe_load_client_public_key ombot.Ed25519.hex_to_bytes ombot.Js.Text.trim
    ombot.Js.Value.to_text ombot.Js.Value.or_else member
old-loads = refl

old-refused :
    validate_client_compatibility cfg
      (to_number rt (member (obj old_register) "protocolVersion"))
      (parse_capabilities (member (obj old_register) "capabilities"))
    ≡ some "protocol_too_old"
unfolding validate_client_compatibility ombot.Session.Register.Compatibility.is_below to_number
    member
old-refused = refl

abbrev taken_over : Session
taken_over = (validate_and_prepare_register rt cfg (at 1000) old_register ready_session).1

refused_register_replaces_key_example :
    (taken_over.client_verify_public_key ≡ some other_key)
    × (taken_over.handshake_state ≡ ready_session.handshake_state)
refused_register_replaces_key_example =
    refused_register_replaces_key rt cfg (at 1000) old_register ready_session other_key
      "protocol_too_old" old-versioned old-capable old-loads old-refused

p-named : (id_text (str "p") == "") ≡ false
unfolding id_text ombot.Js.Value.is_nullish ombot.Js.Text.trim ombot.Js.Value.to_text
p-named = refl

a-OneLine : OneLine (normalize_id (str "a"))
unfolding normalize_id id_text ombot.Js.Value.is_nullish ombot.Js.Text.trim ombot.Js.Value.to_text
a-OneLine = (λ e. omega (arith, e), tt)

c-OneLine : OneLine (normalize_id (str "c"))
unfolding normalize_id id_text ombot.Js.Value.is_nullish ombot.Js.Text.trim ombot.Js.Value.to_text
c-OneLine = (λ e. omega (arith, e), tt)

session_key_input-injective_example :
    (normalize_id (str "a") ≡ normalize_id (str "a"))
    × (normalize_id (str "c") ≡ normalize_id (str "c"))
    × (normalize_id (str "p") ≡ normalize_id (str "p"))
session_key_input-injective_example =
    session_key_input-injective (str "a") (str "c") (str "p") (str "a") (str "c") (str "p") p-named
      p-named a-OneLine c-OneLine a-OneLine c-OneLine refl

c-IsTrimmed : IsTrimmed "c"
unfolding ombot.Js.Text.is_space ombot.Js.Text.trim_end
c-IsTrimmed = record { starts = refl; ends = refl }

p-IsTrimmed : IsTrimmed "p"
unfolding ombot.Js.Text.is_space ombot.Js.Text.trim_end
p-IsTrimmed = record { starts = refl; ends = refl }

session_key_input-collision_example :
    session_key_input (str "a") (str "c\np") null ≡ session_key_input (str "a") (str "c") (str "p")
session_key_input-collision_example =
    session_key_input-collision (str "a") "c" "p" c-IsTrimmed p-IsTrimmed

-- the middleware hands on a key of two bytes
abbrev short_key : Value
short_key = obj (field "type" (str "register_public_key") (field "boxPublicKey" (str "AQI=") end))

-- the world where `nacl.box` wants 32 bytes, and a session that relays to the middleware
abbrev strict_box : Runtime
strict_box = record rt {
  box = λ message nonce peer secret. if eqb (length peer) 32 then some [] else none;
  buffer_from = λ v. some (1 ∷ 2 ∷ []);
  parse_json = λ s. some (if s == "key" then short_key else request);
}

abbrev relaying_cfg : Config
relaying_cfg = record cfg { single_client_mode = false }

abbrev relaying_session : Session
relaying_session = record (Session.new (some open_) false false) {
  handshake_state = ready_for_agent_req;
  client_verify_public_key = some key;
  middleware_ws = some open_;
}

abbrev session_with_key : Session
session_with_key =
    on_middleware_message strict_box relaying_cfg (at 900) false 60 "key" relaying_session

strict_box-ok : (guard_verdict strict_box relaying_cfg (at 1000) request session_with_key).0 ≡ ok
unfolding on_middleware_message ombot.Session.Middleware.on_middleware_json is_text
    ombot.Js.Value.truthy ombot.Session.Middleware.on_peer_key
    ombot.Session.Register.get_or_create_chatroom_keys ombot.Guards.Request.validate_req_signature
    ombot.Guards.Request.req_timestamp to_number ombot.Js.Value.or_else member
    ombot.Guards.Request.check_timestamp ombot.Guards.Request.abs_diff
    ombot.Guards.Request.req_nonce ombot.Js.Text.trim ombot.Js.Value.to_text
    ombot.Guards.Request.check_nonce_and_signature ombot.Guards.Request.prune_seen_nonces
    ombot.Guards.Request.req_signature ombot.Guards.Request.signature_verified ombot.Ed25519.verify
strict_box-ok = refl

strict_box-throws :
    (text : String) (nonce public_key secret_key : List ℕ)
    → length public_key ≢ 32
    → strict_box.box text nonce public_key secret_key ≡ none
strict_box-throws text nonce public_key secret_key h = ground arith

bad_key_crashes_example :
    on_client_message strict_box relaying_cfg 120 "server" "client"
      (at 1000)
      false
      200
      "req"
      server
      session_with_key
    ≡ crashed
unfolding is_text member ombot.Js.Value.truthy ombot.Js.Value.or_else
bad_key_crashes_example =
    bad_key_crashes strict_box relaying_cfg 120 "server" "client" (at 1000) false (at 900) 60 "key"
      short_key (1 ∷ 2 ∷ []) relaying_session 200 "req" request server strict_box-throws refl refl
      refl (omega arith) refl refl refl refl (λ e. omega (arith, e)) null-passes (omega arith) refl
      request-is_req strict_box-ok
