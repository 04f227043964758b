-- ===== src/Bridge/Stopped.antt =====
-- A bridge that was stopped opens no connection and sends nothing, whatever happens afterwards.
use mathlib.Core.List.{[], ◌∷◌}
use ombot.Prelude.{ℕ, String, Bool, Option, List}
use ombot.Js.Value.{Value}
use ombot.Js.Runtime.{Runtime}
use ombot.Gateway.Device.Payload.{DeviceKeys}
use ombot.Bridge.{Bridge, Attempt, on_phone_plaintext, on_fallback_done}
use ombot.Bridge.Gateway.{
  on_turn_timeout, begin_handshake_after_open, on_challenge_timeout, on_gateway_message,
  on_gateway_close, on_port_up, on_port_down, on_reconnect_timer, on_ping_timer, on_pong_timeout,
  on_gateway_pong,
}

-- What can happen to a bridge: the handlers of its socket, of the phone, and of its timers.
pub data Happening : Type 0 where
  opens : Attempt → Happening
  message : Attempt → Value → Happening
  closes port_up port_down reconnect_due : Happening
  from_phone : Attempt → Option Value → Happening
  turn_times_out : Attempt → String → Happening
  fallback_done challenge_times_out : Attempt → Happening
  ping_due : Bool → Happening
  pong pong_times_out : ℕ → Happening

module _ (rt : Runtime) (keys : DeviceKeys) (platform gateway_token : String) where
  abbrev pub happen : Happening → Bridge → Bridge
  happen (opens at) b = begin_handshake_after_open rt keys platform gateway_token at b
  happen (message at msg) b = on_gateway_message rt keys platform gateway_token at msg b
  happen closes b = on_gateway_close b
  happen port_up b = on_port_up b
  happen port_down b = on_port_down b
  happen reconnect_due b = on_reconnect_timer b
  happen (from_phone at plain) b = on_phone_plaintext rt at plain b
  happen (turn_times_out at id) b = on_turn_timeout at id b
  happen (fallback_done at) b = on_fallback_done at b
  happen (challenge_times_out at) b = on_challenge_timeout rt keys platform gateway_token at b
  happen (ping_due pings) b = on_ping_timer pings b
  happen (pong now) b = on_gateway_pong now b
  happen (pong_times_out now) b = on_pong_timeout now b

  -- the first one first
  abbrev pub run : List Happening → Bridge → Bridge
  run [] b = b
  run (e ∷ es) b = run es (happen e b)
