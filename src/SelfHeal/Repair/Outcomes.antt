-- ===== src/SelfHeal/Repair/Outcomes.antt =====
-- What a repair comes to: it ends, and what it says of the port is what its last probe found.
use mathlib.Core.List.{[], ◌∷◌}
use ombot.Prelude.{
  ℕ, suc, ◌+◌, ◌≤◌, ◌<◌, ◌≡◌, refl, ◌⊎◌, String, Bool, true, false, Option, none, some, arith,
}
use ombot.Js.Runtime.{Runtime}
use ombot.SelfHeal.{is_gateway_watchdog_enabled, env_truthy, gateway_connect_wait_ms}
use ombot.SelfHeal.Wait.{Probe, Waited, wait_for_gateway_loopback}
use ombot.SelfHeal.Wait.Ends.{Ends, wait-Ends}
use ombot.SelfHeal.Assess.{assess_openclaw_config_health}
use ombot.SelfHeal.Restart.{failed, restarted, restart_first, try_restart_gateway_service}
use ombot.SelfHeal.Repair.{
  config_ok, Outcome, Meets, Prepared, gateway_restarted, waited_actions, prepare, want_restart,
  error_of, gateway_port_down, probed, restarted_with, repair, run_gateway_port_watchdog, finish,
}

-- What is said after the service was restarted: the repair is ok, and the port said to be open, as
-- the last probe found it; those before found it closed, and no time was left if it did too.
pub record Concludes (m : Meets) (max_wait : ℕ) (result : Option Outcome) : Type 0 where
  pub outcome : Outcome
  pub result_is : result ≡ some outcome
  pub last : ℕ
  pub ok_is : outcome.ok ≡ (m.probes last).ok
  pub reachable_is : outcome.gateway_reachable ≡ some (m.probes last).ok
  pub before : (j : ℕ) → j < last → (m.probes j).ok ≡ false
  pub over : ((m.probes last).ok ≡ true) ⊎ (m.clock 0 + max_wait ≤ m.clock (suc last))

-- whether an outcome is ok, and what it says of the port
abbrev pub said_of : Option Outcome → Option (Bool × Option Bool)
said_of none = none
said_of (some o) = some (o.ok, o.gateway_reachable)

module _ (rt : Runtime) (err_text : String → String) (m : Meets) where
  -- no service can be restarted
  restart_failed :
      env_truthy rt "OPENCLAW_SELF_HEAL_RESTART_GATEWAY" true ≡ true
      → ((unit : String) → m.restarts unit ≡ false)
      → try_restart_gateway_service rt m.restarts ≡ failed
  unfolding try_restart_gateway_service restart_first
  restart_failed on refused = rw (on, refused, refused) refl

  module _ (fits : (assess_openclaw_config_health rt err_text m.files).needs_compose ≡ false)
      (closed : m.probe.ok ≡ false) where
    abbrev ready : Prepared
    ready = record {
      actions = config_ok ∷ [];
      health = assess_openclaw_config_health rt err_text m.files;
      composed = false;
      error = none;
    }

    repair-ready : repair rt err_text true m ≡ probed rt err_text true m ready
    unfolding repair prepare
    repair-ready = rw fits refl

    wants : want_restart rt err_text true m ready ≡ true
    unfolding want_restart
    wants = ground arith

    probed-ready :
        probed rt err_text true m ready
        ≡ restarted_with rt err_text m ready.health
            (config_ok ∷ gateway_port_down (error_of m.probe) ∷ [])
            (try_restart_gateway_service rt m.restarts)
    unfolding probed
    probed-ready = rw (wants, closed) refl

    abbrev said_after : String → Waited → Outcome
    said_after unit w =
        finish rt err_text m ready.health
          (config_ok
            ∷ gateway_port_down (error_of m.probe)
            ∷ gateway_restarted unit
            ∷ waited_actions w)
          w.probe.ok

    said_after-ok :
        (unit : String) (p : Probe) (ok : Bool)
        → (said_after unit (record { ok = ok; probe = p })).ok ≡ ok
    unfolding finish
    said_after-ok unit p true = refl
    said_after-ok unit p false = refl

    concluded :
        (unit : String)
        → Ends m.clock m.probes (m.clock 0 + gateway_connect_wait_ms rt) (
            wait_for_gateway_loopback m.clock m.probes
              (suc (gateway_connect_wait_ms rt))
              (gateway_connect_wait_ms rt))
        → Concludes m (gateway_connect_wait_ms rt) (
            restarted_with rt err_text m ready.health
              (config_ok ∷ gateway_port_down (error_of m.probe) ∷ [])
              (restarted unit))
    unfolding restarted_with finish
    concluded unit w = record {
      outcome = said_after unit (record { ok = (m.probes w.last).ok; probe = m.probes w.last });
      result_is = rw (restarted_with, w.result_is) refl;
      last = w.last;
      ok_is = said_after-ok unit (m.probes w.last) (m.probes w.last).ok;
      reachable_is = refl;
      before = w.before;
      over = w.over;
    }

    -- Where the configuration is in order, the port is closed, the service can be restarted and
    -- every sleep lets the clock go on, a repair ends. It says that it is ok and the port open
    -- exactly as the last probe found the port; the probes before found it closed, and a last one
    -- that did too was made when no time was left.
    pub repair-Concludes :
        (unit : String)
        → try_restart_gateway_service rt m.restarts ≡ restarted unit
        → m.clock 0 ≤ m.clock 1
        → ((n : ℕ) → m.clock (suc n) < m.clock (suc (suc n)))
        → Concludes m (gateway_connect_wait_ms rt) (repair rt err_text true m)
    repair-Concludes unit can starts sleeps =
        rw (repair-ready, probed-ready, can)
          (concluded unit (wait-Ends m.clock m.probes (gateway_connect_wait_ms rt) starts sleeps))

    -- Where the configuration is in order, the port is closed and no service can be restarted, a
    -- repair says that it is ok, though the port is not open; the watchdog says that it is not.
    pub unrestarted-ok :
        is_gateway_watchdog_enabled rt ≡ true
        → env_truthy rt "OPENCLAW_SELF_HEAL_RESTART_GATEWAY" true ≡ true
        → ((unit : String) → m.restarts unit ≡ false)
        → (said_of (repair rt err_text true m) ≡ some (true, some false))
          × (said_of (run_gateway_port_watchdog rt err_text m) ≡ some (false, some false))
    unfolding run_gateway_port_watchdog restarted_with finish
    unrestarted-ok watched on refused = (
      rw (repair-ready, probed-ready, restart_failed on refused, closed) refl,
      rw (watched, closed, restart_failed on refused) refl,
    )
