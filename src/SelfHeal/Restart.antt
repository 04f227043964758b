-- ===== src/SelfHeal/Restart.antt =====
-- openclawConfigSelfHeal.js: composing the configuration and restarting the gateway's service by
-- other programs.
use mathlib.Core.List.{[], ◌∷◌}
use ombot.Prelude.{
  ℕ, String, Bool, true, false, not, Option, none, some, List, eqb, if◌then◌else◌, ◌==◌,
}
use ombot.Js.Text.{◌⧺◌, trim, decimal, take_chars}
use ombot.Js.Runtime.{Runtime}
use ombot.SelfHeal.{env_truthy}

-- what `spawnSync` returns; no status where the program was killed or not started
pub record Exited : Type 0 where
  pub status : Option ℕ
  pub stdout : String
  pub stderr : String

abbrev exit_text : Option ℕ → String
exit_text none = "exit null"
exit_text (some n) = "exit " ⧺ decimal n

abbrev is_zero : Option ℕ → Bool
is_zero none = false
is_zero (some n) = eqb n 0

abbrev text_or : String → String → String
text_or s t = if s == "" then t else s

-- the error of `runCompose`, where it is not ok: whether the script is there, whether the runtime's
-- configuration can be written, its path, and what the script's run returned
unfoldable pub run_compose : Bool → Bool → String → Exited → Option String
run_compose has_script writable runtime_path r =
    if not has_script
    then some "openclaw-compose.mjs missing"
    else if not writable
    then some ("runtime not writable: " ⧺ runtime_path)
    else if is_zero r.status
    then none
    else some
        (take_chars 400 (text_or (trim r.stderr) (text_or (trim r.stdout) (exit_text r.status))))

pub data Restart : Type 0 where
  skipped failed : Restart
  restarted : String → Restart

-- `restarts unit`: whether `sudo -n systemctl restart` of the unit exits with 0
unfoldable pub restart_first : (String → Bool) → List String → Restart
restart_first restarts [] = failed
restart_first restarts (unit ∷ units) =
    let rest = restart_first restarts units in if restarts unit then restarted unit else rest

unfoldable pub try_restart_gateway_service : Runtime → (String → Bool) → Restart
unfolding restart_first
try_restart_gateway_service rt restarts =
    if not (env_truthy rt "OPENCLAW_SELF_HEAL_RESTART_GATEWAY" true)
    then skipped
    else restart_first restarts
        ("ombist-openclaw-gateway.service" ∷ "openclaw-gateway@Ombist_IOS.service" ∷ [])
