-- ===== src/Examples/Turns.antt =====
-- The shared gateway client with two turns, and the scopes that it asks for.
use ombot.Prelude.{◌+◌, ◌≡◌, refl, true, false, none, List, [], ◌∷◌, ◌++◌, length, if◌then◌else◌}
use ombot.Js.Value.{Value, str, undefined, Items, nil, cons}
use ombot.Gateway.Client.{
  Client, Turn, new, queued, enqueue_agent_turn, finish_connect, on_gateway_open, ensure_connected,
  on_port_up,
}
use ombot.Gateway.Client.Queue.{
  begin, ask, join, open_gateway, ensure, port_up, started, turns_in_order,
}
use ombot.Gateway.Client.Scopes.{normalize}
use ombot.Examples.World.{rt}

-- a client that was asked for two turns, then was connected
abbrev asked_twice : Client
asked_twice =
    enqueue_agent_turn rt "2" "second" undefined none
      (enqueue_agent_turn rt "1" "first" undefined none (new false))

abbrev connected : Client
connected = finish_connect "3" (on_gateway_open (on_port_up (ensure_connected asked_twice)))

abbrev two_turns : List Turn
two_turns = queued rt "first" undefined none ∷ queued rt "second" undefined none ∷ []

turns_in_order_example :
    (started connected.effects ++ connected.queue ≡ two_turns)
    × (length (started connected.effects) ≡ 0 + (if connected.in_flight then 1 else 0))
turns_in_order_example = turns_in_order rt (
    join "3" (
      open_gateway (
        port_up (
          ensure
            (ask "2" "second" undefined none (ask "1" "first" undefined none (begin false)))))))

connected-in_flight : connected.in_flight ≡ true
unfolding finish_connect on_gateway_open on_port_up ensure_connected enqueue_agent_turn
connected-in_flight = refl

abbrev configured : Items
configured = cons (str "operater.write") (cons (str " operator.admin ") nil)

configured-normalize :
    normalize configured ≡ "operator.write" ∷ "operator.admin" ∷ "operator.read" ∷ []
unfolding normalize ombot.Js.Text.trim ombot.Js.Text.starts_with ombot.Js.Text.drop_chars
configured-normalize = refl
