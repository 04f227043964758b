-- ===== src/Gateway/ErrorClassifier.antt =====
-- gatewayErrorClassifier.js, and the scheduling of a repair by openclawConfigSelfHeal.js.
use ombot.Prelude.{String, Bool, true, false, not, List, [], ◌∷◌, any, if◌then◌else◌}
use ombot.Js.Text.{to_lower_case, includes}
use ombot.Js.Value.{Value, undefined, null, str, obj, end}
use ombot.Js.Json.{json}
pub mod Order

-- The value is one of JSON. An Error counts as the object of its own enumerable fields, which are
-- what `JSON.stringify` writes of it: its message is not among them.
unfoldable pub to_flat_error_string : Value → String
to_flat_error_string undefined = ""
to_flat_error_string null = ""
to_flat_error_string (str s) = s
to_flat_error_string v = json v

unfoldable pub includes_any : String → List String → Bool
includes_any haystack needles = any (λ needle. includes haystack needle) needles

pub data Category : Type 0 where
  pairing scope provider network unknown : Category

pub data GatewayErrorReason : Type 0 where
  not_paired missing_scope provider_auth transport_error unknown_reason : GatewayErrorReason

pub record Classified : Type 0 where
  pub category : Category
  pub reason : GatewayErrorReason
  pub raw : String

abbrev pub pairing_needles : List String
pairing_needles = "not_paired" ∷ "device_identity_required" ∷ "device identity required" ∷ []

abbrev pub scope_needles : List String
scope_needles =
    "missing scope" ∷ "insufficient_scope" ∷ "operator.write" ∷ "scope:" ∷ "forbidden" ∷ []

abbrev pub provider_needles : List String
provider_needles =
    "no api key found" ∷ "invalid api key" ∷ "401" ∷ "unauthorized" ∷ "auth_failed"
    ∷ "authentication" ∷ "permission denied for provider" ∷ []

abbrev pub network_needles : List String
network_needles = "econnrefused" ∷ "etimedout" ∷ "ehostunreach" ∷ "network" ∷ []

unfoldable pub classify_gateway_error : Value → Classified
classify_gateway_error v =
    let raw = to_flat_error_string v in
    let text = to_lower_case raw in
    if includes_any text pairing_needles
    then record { category = pairing; reason = not_paired; raw = raw }
    else if includes_any text scope_needles
    then record { category = scope; reason = missing_scope; raw = raw }
    else if includes_any text provider_needles
    then record { category = provider; reason = provider_auth; raw = raw }
    else if includes_any text network_needles
    then record { category = network; reason = transport_error; raw = raw }
    else record { category = unknown; reason = unknown_reason; raw = raw }

abbrev is_network : Category → Bool
is_network network = true
is_network _ = false

-- `scheduleOpenClawSelfHealOnGatewayTransportError`: whether a repair is started
unfoldable pub schedules_repair_on_transport_error : Bool → Value → Bool
schedules_repair_on_transport_error watchdog_enabled v =
    if not watchdog_enabled then false else is_network (classify_gateway_error v).category
