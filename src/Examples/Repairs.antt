-- ===== src/Examples/Repairs.antt =====
-- The repair of the configuration: waiting, cooldowns, and a service that cannot be restarted.
use mathlib.Core.List.{[], ◌∷◌}
use ombot.Prelude.{
  ℕ, ◌+◌, ◌*◌, ◌≡◌, refl, String, Bool, true, false, none, some, List, ltb, arith, if◌then◌else◌,
  ◌==◌,
}
use ombot.Js.Value.{Value, str, obj, end, field}
use ombot.Js.Runtime.{Runtime}
use ombot.SelfHeal.{is_gateway_watchdog_enabled, env_truthy, gateway_connect_wait_ms, cooldown_ms}
use ombot.SelfHeal.Wait.{Probe, wait_for_gateway_loopback}
use ombot.SelfHeal.Wait.Ends.{Ends, wait-Ends}
use ombot.SelfHeal.Assess.{ConfigFiles, assess_openclaw_config_health}
use ombot.SelfHeal.Restart.{restarted, try_restart_gateway_service}
use ombot.SelfHeal.Repair.{Meets, repair, run_gateway_port_watchdog}
use ombot.SelfHeal.Repair.Spacing.{called, finished, threw, Event, Apart, marks, repairs-Apart}
use ombot.SelfHeal.Repair.Outcomes.{Concludes, said_of, repair-Concludes, unrestarted-ok}
use ombot.Examples.World

abbrev local : Value
local = obj (field "gateway" (obj (field "mode" (str "local") end)) end)

-- Every text is this configuration, and the repair is switched on.
abbrev healing : Runtime
healing = record World.rt {
  sha256_hex = λ s. "hash";
  parse_json = λ s. some local;
  env = λ name. if name == "OPENCLAW_SELF_HEAL" then some " Yes" else none;
}

abbrev err_text : String → String
err_text s = "error"

abbrev files : ConfigFiles
files = record { fragments = "fragment" ∷ []; runtime = some "runtime" }

-- the port opens before the third probe
abbrev probes : ℕ → Probe
probes i = record { ok = ltb 1 i; error = "ECONNREFUSED" }

abbrev clock : ℕ → ℕ
clock i = 1000 + i * 500

abbrev meets : (String → Bool) → Meets
meets restarts = record {
  files = files;
  repaired = [];
  mode_patched = false;
  patched_files = files;
  compose_error = none;
  probe = record { ok = false; error = "" };
  restarts = restarts;
  clock = clock;
  probes = probes;
  final_files = files;
}

abbrev unit_name : String
unit_name = "openclaw-gateway@Ombist_IOS.service"

abbrev second_unit : String → Bool
second_unit unit = unit == unit_name

waits_for_third :
    wait_for_gateway_loopback clock probes 1601 1600
    ≡ some (record { ok = true; probe = record { ok = true; error = "ECONNREFUSED" } })
unfolding wait_for_gateway_loopback
waits_for_third = refl

in_order : (assess_openclaw_config_health healing err_text files).needs_compose ≡ false
unfolding assess_openclaw_config_health ombot.Js.Text.trim ombot.Js.Value.to_text
    ombot.Js.Value.or_else ombot.Js.Value.member
in_order = refl

watched : is_gateway_watchdog_enabled healing ≡ true
unfolding is_gateway_watchdog_enabled ombot.Js.Text.trim ombot.Js.Text.to_lower_case
watched = refl

may_restart : env_truthy healing "OPENCLAW_SELF_HEAL_RESTART_GATEWAY" true ≡ true
unfolding env_truthy
may_restart = refl

second_restarts : try_restart_gateway_service healing second_unit ≡ restarted unit_name
unfolding try_restart_gateway_service env_truthy
second_restarts = refl

default_cooldown : cooldown_ms healing ≡ 120000
unfolding cooldown_ms ombot.Js.Runtime.to_number
default_cooldown = refl

wait-Ends_example : Ends clock probes 2600 (wait_for_gateway_loopback clock probes 1601 1600)
wait-Ends_example = wait-Ends clock probes 1600 (omega arith) (λ n. omega arith)

abbrev events : List Event
events =
    called true 5
    ∷ called false 6
    ∷ finished 10
    ∷ called false 130009
    ∷ called false 130010
    ∷ threw
    ∷ called false 130011
    ∷ []

repairs-Apart_example :
    Apart
      (cooldown_ms healing)
      0
      false
      (marks healing events (record { last_heal_at = 0; in_flight = false }))
repairs-Apart_example =
    repairs-Apart healing events (record { last_heal_at = 0; in_flight = false })

repair-Concludes_example :
    Concludes
      (meets second_unit)
      (gateway_connect_wait_ms healing)
      (repair healing err_text true (meets second_unit))
repair-Concludes_example =
    repair-Concludes healing err_text (meets second_unit) in_order refl unit_name second_restarts
      (omega arith) (λ n. omega arith)

unrestarted-ok_example :
    (said_of (repair healing err_text true (meets (λ unit. false))) ≡ some (true, some false))
    × (said_of (run_gateway_port_watchdog healing err_text (meets (λ unit. false)))
        ≡ some (false, some false))
unrestarted-ok_example =
    unrestarted-ok healing err_text (meets (λ unit. false)) in_order refl watched may_restart
      (λ unit. refl)
