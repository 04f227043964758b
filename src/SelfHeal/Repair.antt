-- ===== src/SelfHeal/Repair.antt =====
-- openclawConfigSelfHeal.js: `runOpenClawConfigSelfHeal`, from the cooldown to the outcome, and the
-- light watchdog of the gateway's port.
pub mod Outcomes
pub mod Spacing
use mathlib.Core.List.{[], ◌∷◌}
use ombot.Prelude.{
  ℕ, suc, ◌-◌, String, Bool, true, false, ◌&&◌, ◌||◌, not, Option, none, some, List, ◌++◌, any, ltb,
  if◌then◌else◌, ◌==◌,
}
use ombot.Js.Runtime.{Runtime}
use ombot.SelfHeal.{is_gateway_watchdog_enabled, cooldown_ms, gateway_connect_wait_ms}
use ombot.SelfHeal.Wait.{Probe, Waited, wait_for_gateway_loopback}
use ombot.SelfHeal.Assess.{
  ConfigFiles, Health, assess_openclaw_config_health, read_runtime_gateway_mode,
}
use ombot.SelfHeal.Restart.{Restart, skipped, failed, restarted, try_restart_gateway_service}

-- the texts that an outcome lists; what stands behind a colon is an argument
pub data Action : Type 0 where
  repaired_runtime repaired_etc fragment_mode_patched_local composed compose_failed : Action
  config_ok restart_skipped gateway_restart_failed gateway_port_up port_up in_cooldown : Action
  repaired_fragment gateway_port_down gateway_restarted gateway_still_down : String → Action

abbrev is_compose_failed : Action → Bool
is_compose_failed compose_failed = true
is_compose_failed _ = false

abbrev pub is_still_down : Action → Bool
is_still_down (gateway_still_down err) = true
is_still_down _ = false

-- `health.reason` or an error; what an answer leaves out is `none`
pub record Outcome : Type 0 where
  pub ok : Bool
  pub actions : List Action
  pub reason : Option String
  pub gateway_reachable : Option Bool
  pub gateway_mode : Option String

-- What one repair meets, in its order: the files, what repairing them reports, whether the gateway's
-- mode had to be set, the files after that, the error of composing, if any, a probe of the port,
-- which services can be restarted, the clock and probes of the waiting, and the files in the end.
pub record Meets : Type 0 where
  pub files : ConfigFiles
  pub repaired : List Action
  pub mode_patched : Bool
  pub patched_files : ConfigFiles
  pub compose_error : Option String
  pub probe : Probe
  pub restarts : String → Bool
  pub clock : ℕ → ℕ
  pub probes : ℕ → Probe
  pub final_files : ConfigFiles

-- `probe.error || 'closed'`
abbrev pub error_of : Probe → String
error_of p = if p.error == "" then "closed" else p.error

pub record Prepared : Type 0 where
  pub actions : List Action
  pub health : Health
  pub composed : Bool
  pub error : Option String

abbrev composed_with : List Action → Health → Option String → Prepared
composed_with actions health none = record {
  actions = actions ++ composed ∷ [];
  health = health;
  composed = true;
  error = none;
}
composed_with actions health (some err) = record {
  actions = actions ++ compose_failed ∷ [];
  health = health;
  composed = false;
  error = some err;
}

abbrev waited_actions : Waited → List Action
waited_actions w = if w.ok then gateway_port_up ∷ [] else gateway_still_down (error_of w.probe) ∷ []

abbrev port_actions : Probe → List Action
port_actions p = if p.ok then [] else gateway_port_down (error_of p) ∷ []

module _ (rt : Runtime) (err_text : String → String) where
  -- up to where the configuration is composed
  unfoldable pub prepare : Meets → Prepared
  prepare m =
      let health = assess_openclaw_config_health rt err_text m.files in
      if health.needs_compose
      then if m.mode_patched
        then composed_with (m.repaired ++ fragment_mode_patched_local ∷ [])
            (assess_openclaw_config_health rt err_text m.patched_files) m.compose_error
        else composed_with m.repaired health m.compose_error
      else record { actions = config_ok ∷ []; health = health; composed = false; error = none }

  unfoldable pub finish : Meets → Health → List Action → Bool → Outcome
  finish m health actions reachable = record {
    ok = not (any is_compose_failed actions) && not (any is_still_down actions);
    actions = actions;
    reason = some health.reason;
    gateway_reachable = some reachable;
    gateway_mode = some (read_runtime_gateway_mode rt err_text m.final_files.runtime);
  }

  -- behind the restart, which waits for the port where the service was restarted
  unfoldable pub restarted_with : Meets → Health → List Action → Restart → Option Outcome
  unfolding finish
  restarted_with m health actions skipped =
      some (finish m health (actions ++ restart_skipped ∷ []) m.probe.ok)
  restarted_with m health actions failed =
      some (finish m health (actions ++ gateway_restart_failed ∷ []) m.probe.ok)
  restarted_with m health actions (restarted unit) =
      let max_wait = gateway_connect_wait_ms rt in
      elim (wait_for_gateway_loopback m.clock m.probes (suc max_wait) max_wait) [
        | none ↦ none
        | some w ↦
            some (finish m health (actions ++ gateway_restarted unit ∷ waited_actions w) w.probe.ok)
      ]

  -- whether the service is to be restarted; `restart_gateway` is `opts.restartGateway !== false`
  unfoldable pub want_restart : Bool → Meets → Prepared → Bool
  want_restart restart_gateway m p =
      restart_gateway && (p.composed || p.health.reason == "runtime_missing" || not m.probe.ok)

  unfoldable pub probed : Bool → Meets → Prepared → Option Outcome
  unfolding want_restart restarted_with finish
  probed restart_gateway m p =
      let actions = p.actions ++ port_actions m.probe in
      if want_restart restart_gateway m p
      then restarted_with m p.health actions (try_restart_gateway_service rt m.restarts)
      else some (finish m p.health actions m.probe.ok)

  abbrev unless_failed : Bool → Meets → Prepared → Option String → Option Outcome
  unless_failed restart_gateway m p none = probed restart_gateway m p
  unless_failed restart_gateway m p (some err) = some (record {
    ok = false;
    actions = p.actions;
    reason = some err;
    gateway_reachable = none;
    gateway_mode = none;
  })

  -- the repair itself; `none` where the fuel of the waiting does not last
  unfoldable pub repair : Bool → Meets → Option Outcome
  unfolding prepare probed
  repair restart_gateway m = unless_failed restart_gateway m (prepare m) (prepare m).error

  unfoldable pub run_gateway_port_watchdog : Meets → Option Outcome
  run_gateway_port_watchdog m =
      if not (is_gateway_watchdog_enabled rt)
      then some (answer true [] (some "disabled") none)
      else if m.probe.ok
      then some (answer true (port_up ∷ []) none (some true))
      else after_restart (gateway_port_down (error_of m.probe) ∷ [])
          (try_restart_gateway_service rt m.restarts)
    where
      answer : Bool → List Action → Option String → Option Bool → Outcome
      answer ok actions reason reachable = record {
        ok = ok;
        actions = actions;
        reason = reason;
        gateway_reachable = reachable;
        gateway_mode = none;
      }

      after_restart : List Action → Restart → Option Outcome
      after_restart actions skipped =
          some (answer false (actions ++ restart_skipped ∷ []) none (some false))
      after_restart actions failed =
          some (answer false (actions ++ gateway_restart_failed ∷ []) none (some false))
      after_restart actions (restarted unit) =
          let max_wait = gateway_connect_wait_ms rt in
          elim (wait_for_gateway_loopback m.clock m.probes (suc max_wait) max_wait) [
            | none ↦ none
            | some w ↦ some (
                answer w.ok (actions ++ gateway_restarted unit ∷ waited_actions w) none (some w.ok))
          ]

-- `lastHealAt`, and whether `healInFlight` is set
pub record Heal : Type 0 where
  pub last_heal_at : ℕ
  pub in_flight : Bool

-- what a call comes to before the repair runs: `joined` waits for the one in flight
pub data Called : Type 0 where
  disabled cooling joined begun : Called

module _ (rt : Runtime) where
  -- `Date.now()` is not before `lastHealAt`, which it was
  unfoldable pub run_openclaw_config_self_heal : Bool → ℕ → Heal → Called × Heal
  run_openclaw_config_self_heal force now s =
      if not (is_gateway_watchdog_enabled rt)
      then (disabled, s)
      else if not force && ltb (now - s.last_heal_at) (cooldown_ms rt)
      then (cooling, s)
      else if s.in_flight
      then (joined, s)
      else (begun, record s { in_flight = true })

-- `lastHealAt = Date.now()`, where the repair comes to an outcome; an exception skips it
unfoldable pub healed : ℕ → Heal → Heal
healed now s = record s { last_heal_at = now }

-- the `finally`, however the repair ends
unfoldable pub released : Heal → Heal
released s = record s { in_flight = false }
