-- ===== src/Server.antt =====
-- index.js: the WebSocket server for the clients, and its health server.
pub mod Connection
pub mod RateLimit
pub mod Life
pub mod Crash
use ombot.Prelude.{
  ℕ, ◌-◌, String, Bool, true, false, not, ◌&&◌, Option, none, some, List, [], ◌∷◌, ◌++◌, ltb, keep,
  length, if◌then◌else◌, ◌==◌,
}

-- `rateWindow`: the times of the messages let through, by client
abbrev pub RateWindow : Type 0
RateWindow = List (String × List ℕ)

pub record Server : Type 0 where
  pub accepting_new_connections : Bool
  pub rate_window : RateWindow

unfoldable pub times_of : String → RateWindow → List ℕ
times_of client [] = []
times_of client (e ∷ w) = let rest = times_of client w in if e.0 == client then e.1 else rest

-- `Map.set`
unfoldable pub set_times : String → List ℕ → RateWindow → RateWindow
set_times client ts [] = (client, ts) ∷ []
set_times client ts (e ∷ w) =
    let rest = set_times client ts w in if e.0 == client then (client, ts) ∷ w else e ∷ rest

abbrev pub delete_times : String → RateWindow → RateWindow
delete_times client w = keep (λ e. not (e.0 == client)) w

unfoldable pub fresh : ℕ → List ℕ → List ℕ
fresh now ts = keep (λ t. ltb (now - t) 60000) ts

-- Whether the message is let through, and the Map afterwards.
unfoldable pub allow_message : ℕ → String → ℕ → RateWindow → Bool × RateWindow
unfolding fresh
allow_message max_per_minute client now w =
    let current = fresh now (times_of client w) in
    if ltb (length current) max_per_minute
    then (true, set_times client (current ++ now ∷ []) w)
    else (false, w)

-- The status of `/readyz`. The first argument is the watchdog's report: none where it is off, and
-- `some none` where asking for it throws.
unfoldable pub readyz_status : Option (Option Bool) → Bool → Server → ℕ
readyz_status (some (some gateway_reachable)) require_gateway s =
    if require_gateway && not gateway_reachable
    then 503
    else if s.accepting_new_connections
    then 200
    else 503
readyz_status _ require_gateway s = if s.accepting_new_connections then 200 else 503

unfoldable pub graceful_shutdown : Server → Server
graceful_shutdown s = record s { accepting_new_connections = false }
