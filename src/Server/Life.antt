-- ===== src/Server/Life.antt =====
-- index.js and machineRelaySession.js: what one client's connection can go through.
pub mod Progress
pub mod Replay
use ombot.Prelude.{
  ℕ, ◌≤◌, String, ◌≡◌, refl, sym, ap, ◌∙◌, ◌⊎◌, Bool, true, false, not, ◌&&◌, ◌||◌, Option, none,
  some, List, arith, Bool-cases, inl, inr, ltb, if◌then◌else◌,
}
use ombot.Js.Value.{Value, Fields, member, truthy, is_text}
use ombot.Js.Runtime.{Runtime}
use ombot.Guards.Request.{validate_req_signature}
use ombot.Session.{is_open, is_ready_for_agent_req, Config, Session, emit, destroy}
use ombot.Session.Moment.{Moment}
use ombot.Session.Middleware.{
  on_middleware_open, on_middleware_pong, on_ping_timer, on_pong_timeout, on_middleware_message,
  on_middleware_close, on_reconnect_timer,
}
use ombot.Server.{Server}
use ombot.Server.Connection.{Outcome, running, crashed, on_client_message, on_client_close}

-- an event of the connection or of its session, with what its handler reads from outside
pub data Event : Type 0 where
  client_message : ℕ → String → Event
  client_close : Event
  middleware_open middleware_pong middleware_close : Event
  middleware_message : ℕ → String → Event
  reconnect_timer pong_timeout : Event
  ping_timer : Bool → Event

module _ (rt : Runtime) (cfg : Config) (max_per_minute : ℕ)
    (server_public_key client : String) where
  -- the handler of an event, at a moment
  unfoldable pub handle : Moment → Bool → Event → Server → Session → Outcome
  handle at bridge (client_message bytes raw) server s =
      on_client_message rt cfg max_per_minute server_public_key client at bridge bytes raw server s
  handle at bridge client_close server s = on_client_close cfg client server s
  handle at bridge middleware_open server s = running server (on_middleware_open rt cfg at.now s)
  handle at bridge middleware_pong server s = running server (on_middleware_pong rt cfg at.now s)
  handle at bridge middleware_close server s = running server (on_middleware_close rt cfg s)
  handle at bridge (middleware_message bytes raw) server s =
      running server (on_middleware_message rt cfg at bridge bytes raw s)
  handle at bridge reconnect_timer server s = running server (on_reconnect_timer rt cfg s)
  handle at bridge pong_timeout server s = running server (on_pong_timeout rt cfg at.now s)
  handle at bridge (ping_timer throws) server s = running server (on_ping_timer rt cfg throws s)

  -- The session and the clock after any events, at moments that do not run backwards. Between two
  -- events the server may change by what other clients do.
  pub data Later (s : Session) (t : ℕ) : Session → ℕ → Type 0 where
    still : Later s t s t
    event :
        {s' : Session} {t' : ℕ} (at : Moment) (bridge : Bool) (e : Event) (server server' : Server)
        (s'' : Session)
        → Later s t s' t'
        → t' ≤ at.now
        → handle at bridge e server s' ≡ running server' s''
        → Later s t s'' at.now
