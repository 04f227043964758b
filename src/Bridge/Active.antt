-- ===== src/Bridge/Active.antt =====
-- openclawGatewayBridge.js: making a bridge, and the one that runs.
use mathlib.Core.List.{[]}
use ombot.Prelude.{String, Bool, true, false, ◌&&◌, ◌||◌, not, Option, none, some, ◌==◌}
use ombot.Js.Text.{trim, to_lower_case}
use ombot.Js.Runtime.{Runtime, env_or}
use ombot.Gateway.Deduper
use ombot.Bridge.{Bridge, is_gateway_open, init_gate_status}
use ombot.Bridge.Gateway.{start, stop}

abbrev is_yes : String → Bool
is_yes v = v == "1" || v == "true" || v == "yes"

abbrev is_other_than_zero : Option String → Bool
is_other_than_zero none = true
is_other_than_zero (some v) = not (v == "0")

module _ (rt : Runtime) where
  unfoldable pub strict_pairing_profile : Bool
  strict_pairing_profile = is_other_than_zero (rt.env "OPENCLAW_STRICT_PAIRING_PROFILE")

  unfoldable pub auto_fallback_enabled : Bool
  unfolding strict_pairing_profile
  auto_fallback_enabled =
      is_yes (to_lower_case (trim (env_or rt "OPENCLAW_BRIDGE_AUTO_FALLBACK" "")))
      && not strict_pairing_profile

  -- the constructor; `device_file` is what the file of the device's identity holds
  unfoldable pub new : Option String → Bridge
  unfolding auto_fallback_enabled
  new device_file = record {
    gateway_ws = none;
    has_session = false;
    gateway_connected = false;
    is_connecting = false;
    destroyed = false;
    reconnect_timer = false;
    pending = [];
    in_flight = false;
    queue = [];
    gates = init_gate_status rt;
    auto_fallback_enabled = auto_fallback_enabled;
    connect_nonce = none;
    connect_sent = false;
    connect_challenge_timer = false;
    gateway_ping_timer = false;
    gateway_pong_timeout = false;
    last_gateway_pong_at = 0;
    gateway_identity = none;
    device_file = device_file;
    reply_deduper = Deduper.new 256;
    effects = [];
  }

  unfoldable pub should_start_gateway_bridge : Bool
  should_start_gateway_bridge =
      is_yes (to_lower_case (trim (env_or rt "OPENCLAW_GATEWAY_BRIDGE" "")))

  unfoldable pub start_openclaw_gateway_bridge : Option String → Option Bridge → Option Bridge
  unfolding new
  start_openclaw_gateway_bridge device_file none = some (start (new device_file))
  start_openclaw_gateway_bridge device_file (some running) = some running

unfoldable pub get_gateway_bridge_connected : Option Bridge → Bool
get_gateway_bridge_connected none = false
get_gateway_bridge_connected (some b) = is_gateway_open b

-- what becomes of the bridge that ran; none runs afterwards
unfoldable pub stop_openclaw_gateway_bridge : Option Bridge → Option Bridge
stop_openclaw_gateway_bridge none = none
stop_openclaw_gateway_bridge (some b) = some (stop b)
