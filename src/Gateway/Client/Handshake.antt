-- ===== src/Gateway/Client/Handshake.antt =====
-- gatewayAgentClient.js: the frames between the client and the gateway. The handshake (a challenge,
-- the connect request, its answer), the answers to turns, and the texts for the phone.
pub mod Connected
pub mod Requests
pub mod Once
use mathlib.Core.List.{[], ◌∷◌, ◌++◌}
use ombot.Prelude.{
  ℕ, String, Bool, true, false, ◌&&◌, ◌||◌, not, Option, none, some, List, any, keep, if◌then◌else◌,
  ◌==◌,
}
use ombot.Js.Text.{◌⧺◌, trim, to_lower_case}
use ombot.Js.Value.{
  Value, undefined, null, bool, num, str, arr, obj, Items, nil, cons, Fields, end, field, member,
  truthy, is_object, is_text, is_bool, or_else, nullish_else, to_text,
}
use ombot.Js.Json.{json}
use ombot.Js.Runtime.{Runtime}
use ombot.Session.{is_open}
use ombot.Gateway.ResponseText.{is_gateway_accepted_ack}
use ombot.Gateway.Deduper.{Deduper}
use ombot.Gateway.Dispatch.{assistant_text_for_consumer}
use ombot.Gateway.Device.Payload.{DeviceKeys, Identity}
use ombot.Gateway.Device.State.{
  Generated, after_write, persist_hello_ok_device_auth, device_auth_insecure_skip,
  gateway_legacy_blind_connect,
}
use ombot.Gateway.Client.{
  Turn, ClientEffect, send_turn, Client, finish_connect, turn_settled, on_gateway_open, is_none,
}
use ombot.Gateway.Client.Connect.{Composed, compose_connect_params}

-- What the client does: it sends a connect request under an id, reports an error, closes the
-- socket (with a reason under code 1008), or hands a text or an acknowledged id to its owner. An
-- exception that leaves a handler is the last thing that the handler does.
pub data LinkEffect : Type 0 where
  connect_frame : String → Value → LinkEffect
  report_error : String → LinkEffect
  close_with : String → LinkEffect
  close_socket : LinkEffect
  assistant_text : String → LinkEffect
  message_ack : String → LinkEffect
  threw : LinkEffect

pub record Link : Type 0 where
  pub client : Client
  -- the connect requests that wait for their response, with `omitDevice`
  pub connects : List (String × Bool)
  pub gateway_identity : Option Identity
  -- the file of gatewayDeviceIdentity.js
  pub device_file : Option String
  -- the last one first
  pub did : List LinkEffect

-- What a handler reads: the ids of a connect request and of a turn that it may send, the time, new
-- keys, whether `send` goes through, and what the fallback answers, if it does.
pub record Attempt : Type 0 where
  pub connect_id : String
  pub turn_id : String
  pub now : ℕ
  pub generated : Generated
  pub sends : Bool
  pub fallback : Option String

abbrev pub act : LinkEffect → Link → Link
act e l = record l { did = e ∷ l.did }

abbrev pub with_client : (Client → Client) → Link → Link
with_client f l = record l { client = f l.client }

abbrev pub set_connect_sent : Bool → Client → Client
set_connect_sent sent c = record c { connect_sent = sent }

abbrev pub clear_connect_challenge_timer : Client → Client
clear_connect_challenge_timer c = record c { connect_challenge_timer = false }

abbrev pub set_nonce : String → Client → Client
set_nonce nonce c = record c { connect_nonce = some nonce }

-- `this._destroyed || this._connectSent || !this.gatewayWs`
abbrev pub no_longer_waits : Client → Bool
no_longer_waits c = c.destroyed || c.connect_sent || is_none c.gateway_ws

unfoldable pub arm_connect_challenge_timer : Client → Client
arm_connect_challenge_timer c =
    if c.destroyed || c.connect_sent then c else record c { connect_challenge_timer = true }

-- `String(v.nonce || '').trim()` of an object, if it is not empty
abbrev pub nonce_in : Value → Option String
nonce_in v =
    let nonce = trim (to_text (or_else (member v "nonce") (str ""))) in
    if not (is_object v) || (nonce == "") then none else some nonce

abbrev pub first_nonce : Option String → Option String → Option String
first_nonce none other = other
first_nonce (some nonce) other = some nonce

-- the nonce of `_extractConnectChallenge`
unfoldable pub extract_connect_challenge : Value → Option String
extract_connect_challenge msg =
    first_nonce (nonce_in (member (member msg "payload") "challenge"))
      (nonce_in (member (member (member msg "error") "details") "challenge"))

-- the nonce of a `connect.challenge` event, or ''
abbrev pub challenge_nonce : Value → String
challenge_nonce (str nonce) = trim nonce
challenge_nonce _ = ""

abbrev pub array_or : Value → Value → Value
array_or (arr items) other = arr items
array_or _ other = other

unfoldable pub names_write : Items → Bool
names_write nil = false
names_write (cons (str s) scopes) = to_lower_case (trim s) == "operator.write" || names_write scopes
names_write (cons v scopes) = names_write scopes

abbrev pub allows_write : Value → Bool
allows_write (arr (cons scope scopes)) = names_write (cons scope scopes)
allows_write _ = true

unfoldable pub is_hello_ok_authorized : Value → Bool
unfolding names_write
is_hello_ok_authorized msg = allows_write (
    array_or (member (member msg "payload") "grantedScopes")
      (array_or (member (member (member msg "payload") "auth") "scopes") null))

-- the argument of `persistHelloOkDeviceAuth`
abbrev pub device_auth : Value → Value
device_auth auth = obj (
    field "deviceToken" (member auth "deviceToken")
      (field "scopes" (array_or (member auth "scopes") undefined) end))

-- a response for a turn ends it: the next one may start
abbrev pub settle : Attempt → Link → Link
settle at = with_client (turn_settled at.turn_id)

abbrev pub spoken : Option String × Deduper → Link → Link
spoken (none, d) l = with_client (λ c. record c { reply_deduper = d }) l
spoken (some text, d) l =
    act (assistant_text text) (with_client (λ c. record c { reply_deduper = d }) l)

-- `const t = assistantTextForConsumer(msg, …); if (t) this.onAssistantText(t)`
unfoldable pub hand_on : Value → Link → Link
hand_on msg l = spoken (assistant_text_for_consumer msg l.client.reply_deduper) l

abbrev pub acknowledged : Value → Option String → Link → Link
acknowledged msg none l = l
acknowledged msg (some id) l = if is_gateway_accepted_ack msg then act (message_ack id) l else l

-- the answer to a turn: `clientMessageId` is that of the turn
unfoldable pub answered : Attempt → Value → Option String → Link → Link
unfolding hand_on
answered at msg client_message_id l = settle at (hand_on msg (acknowledged msg client_message_id l))

abbrev pub answered_or_fallback : Attempt → Value → Option String → Option String → Link → Link
answered_or_fallback at msg client_message_id none l = answered at msg client_message_id l
answered_or_fallback at msg client_message_id (some text) l =
    settle at (act (assistant_text text) l)

unfoldable pub on_turn_response : Attempt → Value → Option String → Link → Link
unfolding answered
on_turn_response at msg client_message_id l =
    if is_bool (member msg "ok") false
    then answered_or_fallback at msg client_message_id at.fallback l
    else answered at msg client_message_id l

-- the message id of the turn that was sent under an id
unfoldable pub message_id_sent : String → List ClientEffect → Option String
message_id_sent id [] = none
message_id_sent id (send_turn other turn ∷ effects) =
    if other == id then turn.client_message_id else message_id_sent id effects
message_id_sent id (_ ∷ effects) = message_id_sent id effects

-- `Map.get` and `Map.delete` of the requests that wait
unfoldable pub omit_device_of : Value → List (String × Bool) → Option Bool
omit_device_of id [] = none
omit_device_of id ((k, omit_device) ∷ rest) =
    if is_text id k then some omit_device else omit_device_of id rest

unfoldable pub without_connect : Value → List (String × Bool) → List (String × Bool)
without_connect id [] = []
without_connect id ((k, omit_device) ∷ rest) =
    if is_text id k then without_connect id rest else (k, omit_device) ∷ without_connect id rest

abbrev pub is_pending : Value → Client → Bool
is_pending id c = any (λ k. is_text id k) c.pending

abbrev pub without_pending : Value → Client → Client
without_pending id c = record c { pending = keep (λ k. not (is_text id k)) c.pending }

-- the timer of a turn
unfoldable pub on_turn_timeout : Attempt → String → Link → Link
on_turn_timeout at id l = settle at (with_client (without_pending (str id)) l)

module _ (rt : Runtime) where
  -- `_persistHelloOk`
  unfoldable pub persist_hello_ok : Value → Option String → Option (Option Value)
  persist_hello_ok msg file =
      let auth = member (member msg "payload") "auth" in
      if is_object auth && truthy (member auth "deviceToken")
      then persist_hello_ok_device_auth rt (device_auth auth) file
      else some none

module _ (rt : Runtime) (keys : DeviceKeys) (platform gateway_token : String) where
  -- A request that `send` refuses keeps its place among those that wait.
  abbrev pub send_composed : Attempt → Bool → Composed → Link → Link
  send_composed at omit_device composed l =
      let after = record l {
        gateway_identity = composed.gateway_identity;
        device_file = composed.file;
      } in
      elim composed.params [
        | none ↦ act threw after
        | some params ↦
            let waiting = record after { connects = (at.connect_id, omit_device) ∷ l.connects } in
            if at.sends
            then act (connect_frame at.connect_id params)
                (with_client (set_connect_sent true) waiting)
            else with_client (set_connect_sent false) waiting
      ]

  unfoldable pub send_connect_handshake : Attempt → Bool → String → Link → Link
  send_connect_handshake at omit_device nonce l =
      if not (is_open l.client.gateway_ws)
      then l
      else send_composed at omit_device
          (compose_connect_params rt keys platform gateway_token omit_device nonce at.now
            at.generated l.gateway_identity l.device_file)
          l

  unfoldable pub send_legacy_blind_connect : Attempt → Link → Link
  send_legacy_blind_connect at l =
      if not (is_open l.client.gateway_ws)
      then l
      else send_connect_handshake at true "" (with_client clear_connect_challenge_timer l)

  -- the handler of `open`
  unfoldable pub begin_handshake_after_open : Attempt → Link → Link
  begin_handshake_after_open at l =
      let opened = with_client on_gateway_open l in
      if device_auth_insecure_skip rt
      then send_connect_handshake at true "" (with_client clear_connect_challenge_timer opened)
      else if gateway_legacy_blind_connect rt
      then send_legacy_blind_connect at opened
      else with_client arm_connect_challenge_timer opened

  -- the timer that waits for a challenge; `elapsed` is the time since it was set, as text
  unfoldable pub on_challenge_timeout : Attempt → String → Link → Link
  on_challenge_timeout at elapsed l =
      if no_longer_waits l.client
      then l
      else if gateway_legacy_blind_connect rt
      then send_legacy_blind_connect at l
      else act (close_with "connect challenge timeout")
          (act (report_error ("gateway_connect_challenge_timeout:" ⧺ elapsed ⧺ "ms")) l)

  unfoldable pub handle_connect_challenge_event : Attempt → Value → Link → Link
  handle_connect_challenge_event at msg l =
      let nonce = challenge_nonce (member (member msg "payload") "nonce") in
      let noted = with_client (λ c. set_nonce nonce (clear_connect_challenge_timer c)) l in
      if nonce == ""
      then act (close_with "connect challenge missing nonce")
          (act (report_error "gateway_connect_challenge_missing_nonce") l)
      else if l.client.connect_sent
      then noted
      else send_connect_handshake at (device_auth_insecure_skip rt) nonce noted

  abbrev pub connected_after : Attempt → Option (Option Value) → Link → Link
  connected_after at none l = act threw l
  connected_after at (some written) l =
      with_client (finish_connect at.turn_id)
        (record l { device_file = after_write written l.device_file })

  unfoldable pub finish_connect_success : Attempt → Value → Link → Link
  unfolding is_hello_ok_authorized persist_hello_ok
  finish_connect_success at msg l =
      if not (is_hello_ok_authorized msg)
      then act close_socket l
      else connected_after at (persist_hello_ok rt msg l.device_file) l

  -- an answer that refuses: a challenge in it is answered, if the request was one without a device
  abbrev pub refused_connect : Attempt → Value → Bool → Option String → Link → Link
  refused_connect at msg true (some nonce) l =
      send_connect_handshake at (device_auth_insecure_skip rt) nonce
        (with_client (λ c. set_nonce nonce (set_connect_sent false c)) l)
  refused_connect at msg _ _ l = act close_socket (
      act
        (report_error ("gateway_connect_rejected:" ⧺ json (nullish_else (member msg "error") msg)))
        l)

  unfoldable pub on_connect_response : Attempt → Value → Bool → Link → Link
  on_connect_response at msg omit_device l =
      if is_bool (member msg "ok") true
      then finish_connect_success at msg l
      else refused_connect at msg omit_device (extract_connect_challenge msg) l

  -- a response under an id
  abbrev pub on_response : Attempt → Value → Option Bool → Link → Link
  on_response at msg (some omit_device) l =
      on_connect_response at msg omit_device
        (record l { connects = without_connect (member msg "id") l.connects })
  on_response at msg none l =
      if is_pending (member msg "id") l.client
      then on_turn_response at msg (message_id_sent (to_text (member msg "id")) l.client.effects)
          (with_client (without_pending (member msg "id")) l)
      else hand_on msg l

  -- what `JSON.parse` made of the message; an exception is caught, and logged
  unfoldable pub on_gateway_message : Attempt → Value → Link → Link
  on_gateway_message at msg l =
      if is_text (member msg "type") "event" && is_text (member msg "event") "connect.challenge"
      then handle_connect_challenge_event at msg l
      else if is_text (member msg "type") "res" && truthy (member msg "id")
      then on_response at msg (omit_device_of (member msg "id") l.connects) l
      else hand_on msg l
