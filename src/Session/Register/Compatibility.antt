-- ===== src/Session/Register/Compatibility.antt =====
-- machineRelaySession.js: the key, the capabilities and the version that a client registers with.
use ombot.Prelude.{
  ℕ, String, Bool, true, not, ◌&&◌, Option, none, some, List, [], ◌∷◌, ltb, eqb, any, length,
  if◌then◌else◌, ◌==◌,
}
use ombot.Js.Text.{◌⧺◌, trim}
use ombot.Js.Value.{Number, nonneg, Value, str, arr, Items, nil, cons, or_else, to_text}
use ombot.Ed25519.{hex_to_bytes}
use ombot.Session.{Config}

unfoldable pub safe_load_client_public_key : Value → Option (List ℕ)
safe_load_client_public_key v =
    let bytes = hex_to_bytes (trim (to_text (or_else v (str "")))) in
    if eqb (length bytes) 32 then some bytes else none

-- `String(v || '').trim()` of each element, without the empty ones
unfoldable pub capability_list : Items → List String
capability_list nil = []
capability_list (cons v xs) =
    let c = trim (to_text (or_else v (str ""))) in
    let rest = capability_list xs in if c == "" then rest else c ∷ rest

unfoldable pub parse_capabilities : Value → List String
unfolding capability_list
parse_capabilities (arr xs) = capability_list xs
parse_capabilities _ = []

-- `!Number.isFinite(v) || v < least`
unfoldable pub is_below : Number → ℕ → Bool
is_below (nonneg v) least = ltb v least
is_below _ least = true

unfoldable pub missing_capability : List String → List String → Option String
missing_capability [] capabilities = none
missing_capability (needed ∷ rest) capabilities =
    if any (λ c. c == needed) capabilities
    then missing_capability rest capabilities
    else some needed

-- the reason of a refusal, or `none` for `{ ok: true }`
unfoldable pub validate_client_compatibility : Config → Number → List String → Option String
validate_client_compatibility cfg version capabilities =
    if is_below version cfg.min_protocol_version
    then some "protocol_too_old"
    else if not cfg.allow_legacy_protocol && is_below version cfg.server_protocol_version
    then some "protocol_legacy_disallowed"
    else elim (missing_capability cfg.required_capabilities capabilities) [
      | none ↦ none
      | some needed ↦ some ("capability_missing:" ⧺ needed)
    ]
