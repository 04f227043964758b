-- ===== src/Gateway/Client.antt =====
-- gatewayAgentClient.js: the queue of turns of the shared gateway client, and its connection. The
-- handshake's frames are not here: `finish_connect` is where it has succeeded.
pub mod Scopes
pub mod Connect
pub mod Handshake
pub mod Queue
use ombot.Prelude.{
  ℕ, String, Bool, true, false, not, ◌&&◌, ◌||◌, Option, none, some, List, [], ◌∷◌, ◌++◌, keep, any,
  if◌then◌else◌, ◌==◌,
}
use ombot.Js.Text.{trim}
use ombot.Js.Value.{Value, str}
use ombot.Js.Runtime.{Runtime}
use ombot.SessionKey.{resolve_gateway_turn_agent_id}
use ombot.Session.{ReadyState, connecting, open_, closed, is_open, is_live}
use ombot.Gateway.Deduper
use ombot.Gateway.Deduper.{Deduper, reset}

pub record Turn : Type 0 where
  pub text : String
  pub agent_id : String
  pub client_message_id : Option String

-- What the client does to the outside. A turn is started by `send_turn`, with the id of its
-- request, or by `try_fallback`.
pub data ClientEffect : Type 0 where
  send_turn : String → Turn → ClientEffect
  try_fallback : Turn → ClientEffect
  close_gateway connect_gateway repair_gateway : ClientEffect
  set_reconnect_timer : Bool → ClientEffect

pub record Client : Type 0 where
  pub gateway_ws : Option ReadyState
  pub is_connecting : Bool
  pub destroyed : Bool
  pub gateway_connected : Bool
  pub reconnect_timer : Bool
  -- the ids of the requests that wait for their response
  pub pending : List String
  pub in_flight : Bool
  pub queue : List Turn
  pub auto_fallback_enabled : Bool
  pub connect_nonce : Option String
  pub connect_sent : Bool
  pub connect_challenge_timer : Bool
  pub reply_deduper : Deduper
  -- the last one first
  pub effects : List ClientEffect

abbrev pub new : Bool → Client
new auto_fallback_enabled = record {
  gateway_ws = none;
  is_connecting = false;
  destroyed = false;
  gateway_connected = false;
  reconnect_timer = false;
  pending = [];
  in_flight = false;
  queue = [];
  auto_fallback_enabled = auto_fallback_enabled;
  connect_nonce = none;
  connect_sent = false;
  connect_challenge_timer = false;
  reply_deduper = Deduper.new 256;
  effects = [];
}

abbrev emit : ClientEffect → Client → Client
emit e c = record c { effects = e ∷ c.effects }

abbrev pub can_send : Client → Bool
can_send c = c.gateway_connected && is_open c.gateway_ws

-- `isReady`
unfoldable pub is_ready : Client → Bool
is_ready c = is_open c.gateway_ws && c.gateway_connected

-- `_sendAgentTurn` up to where it waits; where no connection is open nothing is sent
unfoldable pub send_agent_turn : String → Turn → Client → Client
send_agent_turn id turn c = if not (is_open c.gateway_ws) then c else record c {
  reply_deduper = reset c.reply_deduper;
  pending = id ∷ c.pending;
  effects = send_turn id turn ∷ c.effects;
}

-- the start of the first turn of the queue
abbrev pub start_first : String → List Turn → Client → Client
start_first id [] c = c
start_first id (turn ∷ rest) c =
    let taken = record c { in_flight = true; queue = rest } in
    if can_send c then send_agent_turn id turn taken else emit (try_fallback turn) taken

-- `_drainQueue` up to where it waits for the turn; `id` is a new request id
unfoldable pub drain_queue : String → Client → Client
unfolding send_agent_turn
drain_queue id c =
    if c.in_flight
    then c
    else if not (can_send c) && not c.auto_fallback_enabled
    then c
    else start_first id c.queue c

-- the end of `_drainQueue`, once the turn has been answered, has timed out or has failed
unfoldable pub turn_settled : String → Client → Client
unfolding drain_queue
turn_settled id c = drain_queue id (record c { in_flight = false })

abbrev pub message_id : Option String → Option String
message_id none = none
message_id (some v) = if trim v == "" then none else some (trim v)

abbrev pub queued : Runtime → String → Value → Option String → Turn
queued rt text agent client_message_id = record {
  text = text;
  agent_id = resolve_gateway_turn_agent_id rt agent;
  client_message_id = message_id client_message_id;
}

unfoldable pub enqueue_agent_turn :
    Runtime → String → String → Value → Option String → Client → Client
unfolding drain_queue
enqueue_agent_turn rt id text agent client_message_id c =
    drain_queue id (record c { queue = c.queue ++ queued rt text agent client_message_id ∷ [] })

-- the end of `_finishConnectSuccess`, for a gateway that grants the scopes
unfoldable pub finish_connect : String → Client → Client
unfolding drain_queue
finish_connect id c = drain_queue id (record c { gateway_connected = true })

abbrev pub is_none {ℓ} : {A : Type ℓ} → Option A → Bool
is_none none = true
is_none (some _) = false

unfoldable pub connect : Client → Client
connect c =
    if c.destroyed || c.is_connecting || not (is_none c.gateway_ws)
    then c
    else emit connect_gateway (record c { is_connecting = true })

-- the handler of `open`, up to the handshake
unfoldable pub on_gateway_open : Client → Client
on_gateway_open c = record c {
  gateway_ws = some open_;
  is_connecting = false;
  connect_nonce = none;
  connect_sent = false;
}

abbrev is_closed : Option ReadyState → Bool
is_closed none = true
is_closed (some closed) = true
is_closed (some _) = false

unfoldable pub ensure_connected : Client → Client
unfolding connect
ensure_connected c = if c.destroyed then c else if is_closed c.gateway_ws then connect c else c

unfoldable pub schedule_reconnect : Bool → Client → Client
schedule_reconnect port_down c =
    if c.destroyed || c.reconnect_timer
    then c
    else emit (set_reconnect_timer port_down) (record c { reconnect_timer = true })

-- the timer that it sets
unfoldable pub on_reconnect_timer : Client → Client
unfolding connect
on_reconnect_timer c =
    let c' = record c { reconnect_timer = false } in if c.destroyed then c' else connect c'

-- `_connectWithWait` where the wait for the port succeeds: the connection is being opened.
unfoldable pub on_port_up : Client → Client
on_port_up c =
    if c.destroyed
    then record c { is_connecting = false }
    else record c { gateway_ws = some connecting }

-- `_connectWithWait` where it fails. Whether it starts a repair is for
-- `schedules_repair_on_transport_error` to say, and changes no field of the client.
unfoldable pub on_port_down : Client → Client
unfolding schedule_reconnect
on_port_down c = schedule_reconnect true (record c { is_connecting = false })

abbrev repair_unless : Bool → Client → Client
repair_unless was_connected c = if was_connected then c else emit repair_gateway c

-- the handler of `close`
unfoldable pub on_gateway_close : Client → Client
unfolding schedule_reconnect
on_gateway_close c =
    let lost = record c {
      is_connecting = false;
      gateway_connected = false;
      connect_challenge_timer = false;
      connect_nonce = none;
      connect_sent = false;
      gateway_ws = none;
    } in
    if c.destroyed then lost else schedule_reconnect false (repair_unless c.gateway_connected lost)

unfoldable pub destroy : Client → Client
destroy c =
    let quiet = record c {
      destroyed = true;
      connect_challenge_timer = false;
      reconnect_timer = false;
    } in
    let closing = if is_live c.gateway_ws then emit close_gateway quiet else quiet in
    record closing { gateway_ws = none; gateway_connected = false; pending = []; queue = [] }
