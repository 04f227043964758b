-- ===== src/Gateway/Shared.antt =====
-- singleClientGateway.js: the one gateway client of single-client mode, and the delivery of its
-- texts to the session that is active.
pub mod Delivery
use ombot.Prelude.{
  ℕ, String, Bool, true, false, not, ◌||◌, Option, none, some, eqb, if◌then◌else◌, ◌==◌,
}
use ombot.Js.Text.{◌⧺◌, trim, starts_with}
use ombot.Js.Value.{Value, str, obj, end, field}
use ombot.Js.Json.{json}
use ombot.Js.Runtime.{Runtime}
use ombot.Session.{Config, Session, is_client_connected, notify_error}
use ombot.Session.Moment.{Moment}
use ombot.Session.Relay.{send_encrypted_to_client_ws}
use ombot.Bridge.{message_ack_to_phone_event}

-- The session that is active, by a number for each session; whether the client exists, and whether
-- it was started when the server began to listen.
pub record Shared : Type 0 where
  pub active_session : Option ℕ
  pub has_client : Bool
  pub started : Bool

unfoldable pub register_single_client_active_session : ℕ → Shared → Shared
register_single_client_active_session session sh = record sh { active_session = some session }

abbrev pub is_session : ℕ → Option ℕ → Bool
is_session session none = false
is_session session (some active) = eqb active session

unfoldable pub unregister_single_client_active_session : ℕ → Shared → Shared
unregister_single_client_active_session session sh =
    if is_session session sh.active_session then record sh { active_session = none } else sh

unfoldable pub start_single_client_gateway : Bool → Shared → Shared
start_single_client_gateway enabled sh =
    if not enabled then sh else record sh { has_client = true; started = true }

unfoldable pub stop_single_client_gateway : Shared → Shared
stop_single_client_gateway sh = record {
  active_session = none;
  has_client = false;
  started = false;
}

-- `assistantTextToPhoneRes`
abbrev pub assistant_text_to_phone_res : String → String
assistant_text_to_phone_res text =
    json (obj (field "type" (str "res") (field "payload" (obj (field "text" (str text) end)) end)))

module _ (rt : Runtime) (cfg : Config) (at : Moment) where
  -- What becomes of the active session. Where the sending throws, it stays as it is; what the
  -- exception does in the client, which calls this, is not followed.
  unfoldable pub deliver_assistant_text_to_active_session : String → Option Session → Option Session
  deliver_assistant_text_to_active_session text none = none
  deliver_assistant_text_to_active_session text (some s) =
      if trim text == ""
      then some s
      else if s.destroyed || not (is_client_connected s)
      then some s
      else some
          (send_encrypted_to_client_ws rt cfg at (assistant_text_to_phone_res (trim text)) s).1

  -- What becomes of the active session; the id is the client's.
  unfoldable pub deliver_message_ack_to_active_session : String → Option Session → Option Session
  deliver_message_ack_to_active_session id none = none
  deliver_message_ack_to_active_session id (some s) =
      if trim id == ""
      then some s
      else if s.destroyed || not (is_client_connected s)
      then some s
      else some (send_encrypted_to_client_ws rt cfg at (message_ack_to_phone_event (trim id)) s).1

  -- the handler of the client's errors
  unfoldable pub on_shared_error : String → Option Session → Option Session
  on_shared_error message none = none
  on_shared_error message (some s) =
      if s.destroyed
      then some s
      else some (
          notify_error
            (if starts_with message "gateway_" then message else "gateway_error:" ⧺ message) s)
