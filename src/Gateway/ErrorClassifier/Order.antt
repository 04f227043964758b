-- ===== src/Gateway/ErrorClassifier/Order.antt =====
-- Which category an error is given.
use ombot.Prelude.{◌≡◌, ◌↔◌, Bool, true, false, arith}
use ombot.Js.Text.{to_lower_case}
use ombot.Js.Value.{Value}
use ombot.Gateway.ErrorClassifier.{
  to_flat_error_string, includes_any, pairing_needles, scope_needles, provider_needles,
  network_needles, classify_gateway_error, schedules_repair_on_transport_error,
}

-- An error starts a repair exactly when the watchdog is on and its text, in lower case, has one of
-- the words for a network failure and none of those for pairing, scopes or the provider.
pub repair_iff :
    (on : Bool) (v : Value)
    → let text = to_lower_case (to_flat_error_string v) in
      (schedules_repair_on_transport_error on v ≡ true) ↔ (
        (on ≡ true)
        × (includes_any text network_needles ≡ true)
        × (includes_any text pairing_needles ≡ false)
        × (includes_any text scope_needles ≡ false)
        × (includes_any text provider_needles ≡ false))
unfolding schedules_repair_on_transport_error classify_gateway_error
repair_iff on v = (λ h. ground arith, λ h. ground arith)
