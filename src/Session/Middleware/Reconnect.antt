-- ===== src/Session/Middleware/Reconnect.antt =====
-- What a session does when it loses the middleware.
use ombot.Prelude.{
  ℕ, zero, suc, ◌*◌, ◌^◌, ◌≤◌, min, ◌≡◌, refl, ap, ◌∙◌, true, false, none, some, arith,
}
use ombot.Js.Runtime.{Runtime}
use ombot.Session.{
  connecting, Config, Session, stop_middleware_keepalive, is_client_connected, notify_client_json,
}
use ombot.Session.Middleware.{
  reconnect_delay, connect_to_middleware, retry_later, forget_middleware, on_middleware_close,
  on_reconnect_timer,
}

early_delay : (n : ℕ) → n ≤ 4 → min 30000 (1000 * 2 ^ n) ≡ 1000 * 2 ^ n
early_delay zero h = refl
early_delay (suc zero) h = refl
early_delay (suc (suc zero)) h = refl
early_delay (suc (suc (suc zero))) h = refl
early_delay (suc (suc (suc (suc zero)))) h = refl
early_delay (suc (suc (suc (suc (suc n))))) h = absurd (omega arith)

late : (n : ℕ) → 5 ≤ n → min n 5 ≡ 5
late n h = omega arith

-- Before its n-th attempt in a row a session waits 2 to the n seconds, and from the fifth on 30.
reconnect_delay_lem :
    (n : ℕ) → (n ≤ 4 → reconnect_delay n ≡ 1000 * 2 ^ n) × (5 ≤ n → reconnect_delay n ≡ 30000)
unfolding reconnect_delay
reconnect_delay_lem n = (
  (λ h. ap (λ k. min 30000 (1000 * 2 ^ k)) (omega arith) ∙ early_delay n h),
  (λ h. ap (λ k. min 30000 (1000 * 2 ^ k)) (late n h)),
)

module _ (rt : Runtime) (cfg : Config) where
  -- Losing the connection and the timer that follows bring a session that is not destroyed, with a
  -- client that is connected, back to connecting, with no box keys, no keepalive timers and no
  -- reconnect timer left.
  pub close-reconnects :
      (s : Session)
      → s.destroyed ≡ false
      → is_client_connected s ≡ true
      → let s' = on_reconnect_timer rt cfg (on_middleware_close rt cfg s) in
        (s'.middleware_ws ≡ some connecting)
        × (s'.chatroom_box_keys ≡ none)
        × (s'.middleware_ping_timer ≡ false)
        × (s'.middleware_pong_timeout ≡ false)
        × (s'.reconnect_timer ≡ false)
  unfolding on_reconnect_timer on_middleware_close forget_middleware retry_later
      connect_to_middleware is_client_connected notify_client_json stop_middleware_keepalive
  close-reconnects s alive connected = ground arith
