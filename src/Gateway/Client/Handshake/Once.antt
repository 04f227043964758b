-- ===== src/Gateway/Client/Handshake/Once.antt =====
-- With a device, the client answers a challenge, and sends one connect request on a connection.
use mathlib.Core.List.{[], ◌∷◌}
use ombot.Prelude.{ℕ, ◌+◌, ◌≤◌, String, ◌≡◌, refl, false, List, All, arith}
use ombot.Js.Value.{Value}
use ombot.Js.Runtime.{Runtime}
use ombot.Gateway.Device.Payload.{DeviceKeys}
use ombot.Gateway.Device.State.{device_auth_insecure_skip, gateway_legacy_blind_connect}
use ombot.Gateway.Client.{Client}
use ombot.Gateway.Client.Handshake.{
  Link, Attempt, on_gateway_message, begin_handshake_after_open, on_challenge_timeout,
  arm_connect_challenge_timer,
}
use ombot.Gateway.Client.Handshake.Requests.{
  requests, sent_now, AtMostOne, message-AtMostOne, timeout-AtMostOne,
}

-- what happens on a connection: a message of the gateway, or the timer that waits for a challenge
pub data Happening : Type 0 where
  message : Attempt → Value → Happening
  challenge_timeout : Attempt → String → Happening

module _ (rt : Runtime) (keys : DeviceKeys) (platform gateway_token : String) where
  abbrev pub happen : Happening → Link → Link
  happen (message at msg) l = on_gateway_message rt keys platform gateway_token at msg l
  happen (challenge_timeout at elapsed) l =
      on_challenge_timeout rt keys platform gateway_token at elapsed l

  -- the first one first
  abbrev pub run : List Happening → Link → Link
  run [] l = l
  run (e ∷ es) l = run es (happen e l)

  module _ (no_skip : device_auth_insecure_skip rt ≡ false)
      (no_legacy : gateway_legacy_blind_connect rt ≡ false) where
    run-AtMostOne :
        {n : ℕ} (es : List Happening) (l : Link) → AtMostOne n l → AtMostOne n (run es l)
    run-AtMostOne [] l h = h
    run-AtMostOne (message at msg ∷ es) l h =
        run-AtMostOne es _
          (message-AtMostOne rt keys platform gateway_token no_skip no_legacy at msg l h)
    run-AtMostOne (challenge_timeout at elapsed ∷ es) l h =
        run-AtMostOne es _
          (timeout-AtMostOne rt keys platform gateway_token no_skip no_legacy at elapsed l h)

    begin-AtMostOne :
        (at : Attempt) (l : Link)
        → All (λ (_, omit_device). omit_device ≡ false) l.connects
        → AtMostOne
            (requests l.did)
            (begin_handshake_after_open rt keys platform gateway_token at l)
    unfolding begin_handshake_after_open arm_connect_challenge_timer
    begin-AtMostOne at l waiting =
        rw (no_skip, no_legacy) record { bounded = omega arith; with_device = waiting }

    begin_quiet :
        (at : Attempt) (l : Link)
        → requests (begin_handshake_after_open rt keys platform gateway_token at l).did
          ≡ requests l.did
    unfolding begin_handshake_after_open
    begin_quiet at l = rw (no_skip, no_legacy) refl

    sent_now_bounded : (c : Client) → sent_now c ≤ 1
    sent_now_bounded c = ground arith

    -- Where neither skipping nor the old handshake is switched on, the client sends nothing when the
    -- connection opens, and whatever the gateway says after that, at most one connect request.
    pub one_request_per_connection :
        (at : Attempt) (es : List Happening) (l : Link)
        → All (λ (_, omit_device). omit_device ≡ false) l.connects
        → (requests (begin_handshake_after_open rt keys platform gateway_token at l).did
            ≡ requests l.did)
          × (requests (run es (begin_handshake_after_open rt keys platform gateway_token at l)).did
              ≤ requests l.did + 1)
    one_request_per_connection at es l waiting =
        let opened = begin_handshake_after_open rt keys platform gateway_token at l in
        let h = run-AtMostOne es opened (begin-AtMostOne at l waiting) in
        (begin_quiet at l, omega (arith, h.bounded, sent_now_bounded (run es opened).client))
