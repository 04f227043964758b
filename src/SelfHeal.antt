-- ===== src/SelfHeal.antt =====
-- openclawConfigSelfHeal.js: the settings that the repair reads from the environment.
pub mod Wait
pub mod Assess
pub mod Restart
pub mod Repair
use ombot.Prelude.{
  ℕ, max, String, Bool, true, false, ◌||◌, Option, none, some, leb, eqb, if◌then◌else◌, ◌==◌,
}
use ombot.Js.Text.{trim, to_lower_case}
use ombot.Js.Value.{Number, nonneg, num, str, Value}
use ombot.Js.Runtime.{Runtime, env_or, to_number}

abbrev is_yes : String → Bool
is_yes v = v == "1" || v == "true" || v == "yes"

abbrev is_set : Option String → Bool
is_set none = false
is_set (some v) = true

abbrev truthy_or : Bool → Option String → Bool
truthy_or default none = default
truthy_or default (some raw) = if trim raw == "" then default else is_yes (to_lower_case (trim raw))

-- `process.env[name] ?? n`
abbrev pub number_or : ℕ → Option String → Value
number_or n none = num (nonneg n)
number_or n (some v) = str v

abbrev pub cooldown_of : Number → ℕ
cooldown_of (nonneg n) = if leb 10000 n then n else 120000
cooldown_of _ = 120000

abbrev interval_of : ℕ → Number → ℕ
interval_of least (nonneg n) = if eqb n 0 then 0 else max least n
interval_of least _ = 0

abbrev wait_of : Number → ℕ
wait_of (nonneg n) = n
wait_of _ = 45000

module _ (rt : Runtime) where
  unfoldable pub env_truthy : String → Bool → Bool
  env_truthy name default = truthy_or default (rt.env name)

  unfoldable pub env_gateway_bridge_enabled : Bool
  env_gateway_bridge_enabled =
      is_yes (to_lower_case (trim (env_or rt "OPENCLAW_GATEWAY_BRIDGE" "")))

  unfoldable pub is_gateway_watchdog_enabled : Bool
  unfolding env_truthy env_gateway_bridge_enabled
  is_gateway_watchdog_enabled =
      if is_set (rt.env "OPENCLAW_SELF_HEAL")
      then env_truthy "OPENCLAW_SELF_HEAL" false
      else env_truthy "OPENCLAW_SINGLE_CLIENT_MODE" false || env_gateway_bridge_enabled

  unfoldable pub cooldown_ms : ℕ
  cooldown_ms =
      cooldown_of (to_number rt (number_or 120000 (rt.env "OPENCLAW_SELF_HEAL_COOLDOWN_MS")))

  unfoldable pub periodic_interval_ms : ℕ
  periodic_interval_ms =
      interval_of 60000 (to_number rt (number_or 180000 (rt.env "OPENCLAW_SELF_HEAL_INTERVAL_MS")))

  unfoldable pub gateway_watch_interval_ms : ℕ
  gateway_watch_interval_ms =
      interval_of 15000
        (to_number rt (number_or 60000 (rt.env "OPENCLAW_GATEWAY_WATCH_INTERVAL_MS")))

  unfoldable pub gateway_connect_wait_ms : ℕ
  gateway_connect_wait_ms =
      wait_of (to_number rt (number_or 45000 (rt.env "OPENCLAW_GATEWAY_CONNECT_WAIT_MS")))
