-- ===== src/Gateway/Client/Queue.antt =====
-- The turns of the shared gateway client are started in the order in which they were asked for, one
-- at a time.
use ombot.Prelude.{
  ℕ, suc, ◌+◌, String, ◌≡◌, refl, sym, ap, ◌∙◌, Bool, true, false, not, ◌&&◌, Option, List, [], ◌∷◌,
  ◌++◌, arith, length, length-append, if◌then◌else◌,
}
use mathlib.Core.List.{append_assoc}
use ombot.Js.Value.{Value}
use ombot.Js.Runtime.{Runtime}
use ombot.Gateway.Client.{
  Turn, ClientEffect, send_turn, try_fallback, Client, new, can_send, send_agent_turn, start_first,
  drain_queue, turn_settled, queued, enqueue_agent_turn, finish_connect, connect, ensure_connected,
  schedule_reconnect, on_reconnect_timer, on_port_up, on_port_down, on_gateway_open,
  on_gateway_close,
}

-- the turns that were started, the first one first
abbrev pub started : List ClientEffect → List Turn
started [] = []
started (send_turn id turn ∷ es) = started es ++ turn ∷ []
started (try_fallback turn ∷ es) = started es ++ turn ∷ []
started (_ ∷ es) = started es

-- the turns that were asked for: started, or waiting
abbrev pub asked : Client → List Turn
asked c = started c.effects ++ c.queue

-- the turns that were started, less the one in flight
abbrev pub Settled : Client → ℕ → Type 0
Settled c n = length (started c.effects) ≡ n + (if c.in_flight then 1 else 0)

assoc_one : (xs ys : List Turn) (t : Turn) → (xs ++ t ∷ []) ++ ys ≡ xs ++ t ∷ ys
assoc_one [] ys t = refl
assoc_one (x ∷ xs) ys t = ap (◌∷◌ x) (assoc_one xs ys t)

if-Settled :
    (b : Bool) (c d : Client) (n : ℕ)
    → Settled c n
    → (b ≡ false → Settled d n)
    → Settled (if b then c else d) n
if-Settled true c d n h k = h
if-Settled false c d n h k = k refl

start-asked :
    (id : String) (q : List Turn) (c : Client) → c.queue ≡ q → asked (start_first id q c) ≡ asked c
unfolding send_agent_turn
start-asked id [] c h = refl
start-asked id (t ∷ rest) c h = ground (arith, assoc_one (started c.effects) rest t)

start-Settled :
    (id : String) (q : List Turn) (c : Client) (n : ℕ)
    → c.in_flight ≡ false
    → Settled c n
    → Settled (start_first id q c) n
unfolding send_agent_turn
start-Settled id [] c n idle h = h
start-Settled id (t ∷ rest) c n idle h = ground (arith, length-append (started c.effects) (t ∷ []))

drain-asked : (id : String) (c : Client) → asked (drain_queue id c) ≡ asked c
unfolding drain_queue
drain-asked id c = ground (arith, start-asked id c.queue c refl)

drain-Settled : (id : String) (c : Client) (n : ℕ) → Settled c n → Settled (drain_queue id c) n
unfolding drain_queue
drain-Settled id c n h =
    let first = start_first id c.queue c in
    let stuck = not (can_send c) && not c.auto_fallback_enabled in
    if-Settled c.in_flight c (if stuck then c else first) n h
      (λ idle. if-Settled stuck c first n h (λ _. start-Settled id c.queue c n idle h))

ask-asked :
    (rt : Runtime) (id text : String) (agent : Value) (m : Option String) (c : Client)
    → asked (enqueue_agent_turn rt id text agent m c) ≡ asked c ++ queued rt text agent m ∷ []
unfolding enqueue_agent_turn
ask-asked rt id text agent m c =
    drain-asked id (record c { queue = c.queue ++ queued rt text agent m ∷ [] })
    ∙ sym (append_assoc (started c.effects) c.queue (queued rt text agent m ∷ []))

ask-Settled :
    (rt : Runtime) (id text : String) (agent : Value) (m : Option String) (c : Client) (n : ℕ)
    → Settled c n
    → Settled (enqueue_agent_turn rt id text agent m c) n
unfolding enqueue_agent_turn
ask-Settled rt id text agent m c n h =
    drain-Settled id (record c { queue = c.queue ++ queued rt text agent m ∷ [] }) n h

-- what leaves the turns alone
abbrev Spares : Client → Client → Type 0
Spares c d =
    (started d.effects ≡ started c.effects) × (d.queue ≡ c.queue) × (d.in_flight ≡ c.in_flight)

connect-Spares : (c : Client) → Spares c (connect c)
unfolding connect
connect-Spares c = ground arith

close-Spares : (c : Client) → Spares c (on_gateway_close c)
unfolding on_gateway_close schedule_reconnect
close-Spares c = ground arith

Spares-asked : (c d : Client) → Spares c d → asked d ≡ asked c
Spares-asked c d (e, q, f) = cc (e, q)

Spares-Settled : (c d : Client) (n : ℕ) → Spares c d → Settled c n → Settled d n
Spares-Settled c d n (e, q, f) h = ground (arith, ap length e)

-- A client after any events, with the turns that it was asked for and the number of turns that have
-- been settled. A turn is settled only while one is in flight.
pub data Life (rt : Runtime) : Client → List Turn → ℕ → Type 0 where
  begin : (fallback : Bool) → Life rt (new fallback) [] 0
  ask :
      {c : Client} {turns : List Turn} {n : ℕ} (id text : String) (agent : Value)
      (message : Option String)
      → Life rt c turns n
      → Life rt
          (enqueue_agent_turn rt id text agent message c)
          (turns ++ queued rt text agent message ∷ [])
          n
  settle :
      {c : Client} {turns : List Turn} {n : ℕ} (id : String)
      → Life rt c turns n
      → c.in_flight ≡ true
      → Life rt (turn_settled id c) turns (suc n)
  join :
      {c : Client} {turns : List Turn} {n : ℕ} (id : String)
      → Life rt c turns n
      → Life rt (finish_connect id c) turns n
  port_up :
      {c : Client} {turns : List Turn} {n : ℕ} → Life rt c turns n → Life rt (on_port_up c) turns n
  port_down :
      {c : Client} {turns : List Turn} {n : ℕ}
      → Life rt c turns n
      → Life rt (on_port_down c) turns n
  open_gateway :
      {c : Client} {turns : List Turn} {n : ℕ}
      → Life rt c turns n
      → Life rt (on_gateway_open c) turns n
  lose :
      {c : Client} {turns : List Turn} {n : ℕ}
      → Life rt c turns n
      → Life rt (on_gateway_close c) turns n
  ensure :
      {c : Client} {turns : List Turn} {n : ℕ}
      → Life rt c turns n
      → Life rt (ensure_connected c) turns n
  retry :
      {c : Client} {turns : List Turn} {n : ℕ}
      → Life rt c turns n
      → Life rt (on_reconnect_timer c) turns n

port_up-Spares : (c : Client) → Spares c (on_port_up c)
unfolding on_port_up
port_up-Spares c = ground arith

port_down-Spares : (c : Client) → Spares c (on_port_down c)
unfolding on_port_down schedule_reconnect
port_down-Spares c = ground arith

open-Spares : (c : Client) → Spares c (on_gateway_open c)
unfolding on_gateway_open
open-Spares c = (refl, refl, refl)

ensure-Spares : (c : Client) → Spares c (ensure_connected c)
unfolding ensure_connected
ensure-Spares c = ground (arith, connect-Spares c)

retry-Spares : (c : Client) → Spares c (on_reconnect_timer c)
unfolding on_reconnect_timer
retry-Spares c = ground (arith, connect-Spares (record c { reconnect_timer = false }))

abbrev InOrder : Client → List Turn → ℕ → Type 0
InOrder c turns n = (asked c ≡ turns) × Settled c n

Spares-InOrder :
    (c d : Client) (turns : List Turn) (n : ℕ) → Spares c d → InOrder c turns n → InOrder d turns n
Spares-InOrder c d turns n s (h, k) = (Spares-asked c d s ∙ h, Spares-Settled c d n s k)

Settled-once :
    (c : Client) (n : ℕ)
    → c.in_flight ≡ true
    → Settled c n
    → Settled (record c { in_flight = false }) (suc n)
Settled-once c n busy h = ground arith

settle-InOrder :
    (id : String) (c : Client) (turns : List Turn) (n : ℕ)
    → c.in_flight ≡ true
    → InOrder c turns n
    → InOrder (turn_settled id c) turns (suc n)
unfolding turn_settled
settle-InOrder id c turns n busy (h, k) =
    let idle = record c { in_flight = false } in
    (drain-asked id idle ∙ h, drain-Settled id idle (suc n) (Settled-once c n busy k))

join-InOrder :
    (id : String) (c : Client) (turns : List Turn) (n : ℕ)
    → InOrder c turns n
    → InOrder (finish_connect id c) turns n
unfolding finish_connect
join-InOrder id c turns n (h, k) =
    let joined = record c { gateway_connected = true } in
    (drain-asked id joined ∙ h, drain-Settled id joined n k)

-- Whatever happens to a client short of its destruction, the turns that it has started, followed by
-- those that wait, are the turns that it was asked for, in that order; and it has started as many
-- as have been settled, and one more exactly while one is in flight.
pub turns_in_order :
    (rt : Runtime) {c : Client} {turns : List Turn} {n : ℕ}
    → Life rt c turns n
    → (started c.effects ++ c.queue ≡ turns)
      × (length (started c.effects) ≡ n + (if c.in_flight then 1 else 0))
turns_in_order rt (begin fallback) = (refl, omega arith)
turns_in_order rt (ask {c} {turns} {n} id text agent message l) =
    let (h, k) = turns_in_order rt l in
    (
      ask-asked rt id text agent message c ∙ ap (λ ts. ts ++ queued rt text agent message ∷ []) h,
      ask-Settled rt id text agent message c n k,
    )
turns_in_order rt (settle {c} {turns} {n} id l busy) =
    settle-InOrder id c turns n busy (turns_in_order rt l)
turns_in_order rt (join {c} {turns} {n} id l) = join-InOrder id c turns n (turns_in_order rt l)
turns_in_order rt (port_up {c} {turns} {n} l) =
    Spares-InOrder c (on_port_up c) turns n (port_up-Spares c) (turns_in_order rt l)
turns_in_order rt (port_down {c} {turns} {n} l) =
    Spares-InOrder c (on_port_down c) turns n (port_down-Spares c) (turns_in_order rt l)
turns_in_order rt (open_gateway {c} {turns} {n} l) =
    Spares-InOrder c (on_gateway_open c) turns n (open-Spares c) (turns_in_order rt l)
turns_in_order rt (lose {c} {turns} {n} l) =
    Spares-InOrder c (on_gateway_close c) turns n (close-Spares c) (turns_in_order rt l)
turns_in_order rt (ensure {c} {turns} {n} l) =
    Spares-InOrder c (ensure_connected c) turns n (ensure-Spares c) (turns_in_order rt l)
turns_in_order rt (retry {c} {turns} {n} l) =
    Spares-InOrder c (on_reconnect_timer c) turns n (retry-Spares c) (turns_in_order rt l)
