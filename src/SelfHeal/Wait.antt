-- ===== src/SelfHeal/Wait.antt =====
-- openclawConfigSelfHeal.js: `waitForGatewayLoopback`, which probes the gateway's port until it is
-- open or the time is over.
pub mod Ends
use ombot.Prelude.{
  ℕ, zero, suc, ◌+◌, String, Bool, true, false, Option, none, some, ltb, eqb, if◌then◌else◌,
}

-- what a probe of the port finds; `error` is there where the port is not open
pub record Probe : Type 0 where
  pub ok : Bool
  pub error : String

pub record Waited : Type 0 where
  pub ok : Bool
  pub probe : Probe

-- `clock 0` is the time at which the waiting starts, `clock (i + 1)` what `Date.now()` says at the
-- loop's test i, and `probes i` the probe before that test.
module _ (clock : ℕ → ℕ) (probes : ℕ → Probe) where
  -- the loop from its test i on, with fuel
  unfoldable pub poll_until : ℕ → ℕ → ℕ → Option Waited
  poll_until zero deadline i = none
  poll_until (suc fuel) deadline i =
      let rest = poll_until fuel deadline (suc i) in
      if ltb (clock (suc i)) deadline
      then if (probes (suc i)).ok then some (record { ok = true; probe = probes (suc i) }) else rest
      else some (record { ok = false; probe = probes i })

  unfoldable pub wait_for_gateway_loopback : ℕ → ℕ → Option Waited
  unfolding poll_until
  wait_for_gateway_loopback fuel max_wait =
      let rest = poll_until fuel (clock 0 + max_wait) 0 in
      if eqb max_wait 0
      then some (record { ok = (probes 0).ok; probe = probes 0 })
      else if (probes 0).ok
      then some (record { ok = true; probe = probes 0 })
      else rest
