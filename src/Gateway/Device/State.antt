-- ===== src/Gateway/Device/State.antt =====
-- gatewayDeviceIdentity.js: the file that keeps the device's identity, with the token and the scopes
-- that the gateway gave. The file is its text, or none if there is no file; a write succeeds.
pub mod Kept
pub mod Again
pub mod Token
use mathlib.Core.List.{[], ◌∷◌}
use ombot.Prelude.{
  ℕ, String, Bool, true, false, ◌&&◌, ◌||◌, not, Option, none, some, List, if◌then◌else◌, ◌==◌,
}
use ombot.Js.Text.{◌⧺◌, trim, to_lower_case}
use ombot.Js.Value.{
  nonneg, Value, undefined, null, bool, num, str, arr, obj, Items, nil, cons, Fields, end, field,
  member, to_text,
}
use ombot.Js.Indented.{json_indented}
use ombot.Js.Runtime.{Runtime, env_or}
use ombot.ConfigMerge.{set_field, strictly_equal, object_fields}
use ombot.Gateway.Device.Payload.{DeviceKeys, fingerprint_public_key, Identity}

-- `${JSON.stringify(v, null, 2)}\n`
abbrev pub file_text : Value → String
file_text v = json_indented v ⧺ "\n"

abbrev pub is_text_value : Value → Bool
is_text_value (str s) = true
is_text_value _ = false

abbrev pub text_of : Value → String
text_of (str s) = s
text_of _ = ""

unfoldable pub has_identity : Value → Bool
unfolding strictly_equal member
has_identity v =
    strictly_equal (member v "version") (num (nonneg 1))
    && is_text_value (member v "deviceId")
    && is_text_value (member v "publicKeyPem")
    && is_text_value (member v "privateKeyPem")

abbrev pub identity_in : Value → String → Identity
identity_in v device_id = record {
  device_id = device_id;
  public_key_pem = text_of (member v "publicKeyPem");
  private_key_pem = text_of (member v "privateKeyPem");
}

-- what `loadOrCreateDeviceIdentity` returns, and what it writes, if anything
pub record Loaded : Type 0 where
  pub identity : Identity
  pub written : Option Value

-- the file after a call that writes this
abbrev pub after_write : Option Value → Option String → Option String
after_write none file = file
after_write (some v) file = some (file_text v)

-- what `generateKeyPairSync` and `Date.now()` return, and the fingerprint of the public key
pub record Generated : Type 0 where
  pub identity : Identity
  pub now : ℕ

abbrev pub generated_fields : Generated → Fields
generated_fields g = field "version" (num (nonneg 1)) (
    field "deviceId" (str g.identity.device_id) (
      field "publicKeyPem" (str g.identity.public_key_pem) (
        field "privateKeyPem" (str g.identity.private_key_pem)
          (field "createdAtMs" (num (nonneg g.now)) end))))

abbrev pub regenerated : Generated → Loaded
regenerated g = record { identity = g.identity; written = some (obj (generated_fields g)) }

-- a stored identity under the fingerprint of its key, which is written if it was another one
abbrev pub under_fingerprint : Value → String → Loaded
under_fingerprint v derived =
    if not (derived == "") && not (derived == text_of (member v "deviceId"))
    then record {
      identity = identity_in v derived;
      written = some (obj (set_field "deviceId" (str derived) (object_fields v)));
    }
    else record { identity = identity_in v (text_of (member v "deviceId")); written = none }

-- an exception of the fingerprint is caught like the others
abbrev pub fixed_or_regenerated : Value → Option String → Generated → Loaded
fixed_or_regenerated v none g = regenerated g
fixed_or_regenerated v (some derived) g = under_fingerprint v derived

-- `auth.scopes.map((s) => String(s))`
unfoldable pub scope_texts : Items → Items
unfolding to_text
scope_texts nil = nil
scope_texts (cons v scopes) = cons (str (to_text v)) (scope_texts scopes)

-- `body.version = 1; body.deviceToken = …`
abbrev pub with_token : String → Fields → Fields
with_token token fs = set_field "deviceToken" (str token) (set_field "version" (num (nonneg 1)) fs)

abbrev pub with_scopes : Value → Fields → Fields
with_scopes (arr scopes) fs = set_field "storedScopes" (arr (scope_texts scopes)) fs
with_scopes _ fs = fs

-- `body` with its new fields: `none` where it has no properties, and an array writes none of them
abbrev pub persisted_body : String → Value → Value → Option Value
persisted_body token scopes (obj fs) = some (obj (with_scopes scopes (with_token token fs)))
persisted_body token scopes (arr items) = some (arr items)
persisted_body token scopes _ = none

-- `body = {}` where the text does not parse
abbrev pub body_or_empty : Option Value → Value
body_or_empty none = obj end
body_or_empty (some v) = v

abbrev pub to_write : Option Value → Option (Option Value)
to_write none = none
to_write (some v) = some (some v)

unfoldable pub all_texts : Items → Bool
all_texts nil = true
all_texts (cons v items) = is_text_value v && all_texts items

abbrev pub trimmed_token : Value → Option String
trimmed_token (str t) = if trim t == "" then none else some (trim t)
trimmed_token _ = none

abbrev pub text_scopes : Value → Option Items
text_scopes (arr scopes) = if all_texts scopes then some scopes else none
text_scopes _ = none

module _ (rt : Runtime) where
  -- the JSON value in the file; `none` where there is no file or it does not parse
  unfoldable pub stored_value : Option String → Option Value
  stored_value none = none
  stored_value (some raw) = rt.parse_json raw

  module _ (keys : DeviceKeys) where
    abbrev pub loaded_or_created : Generated → Option Value → Loaded
    loaded_or_created g none = regenerated g
    loaded_or_created g (some v) =
        if has_identity v
        then fixed_or_regenerated v
            (fingerprint_public_key keys (text_of (member v "publicKeyPem"))) g
        else regenerated g

    unfoldable pub load_or_create_device_identity : Generated → Option String → Loaded
    load_or_create_device_identity g file = loaded_or_created g (stored_value file)

  abbrev pub persisted : Value → Value → Option String → Option (Option Value)
  persisted (str token) scopes file =
      if token == ""
      then some none
      else to_write (persisted_body token scopes (body_or_empty (stored_value file)))
  persisted _ scopes file = some none

  -- what is written, if anything; `none` where it throws
  unfoldable pub persist_hello_ok_device_auth : Value → Option String → Option (Option Value)
  persist_hello_ok_device_auth auth file =
      persisted (member auth "deviceToken") (member auth "scopes") file

  abbrev pub token_in : Option Value → Option String
  token_in none = none
  token_in (some v) = trimmed_token (member v "deviceToken")

  unfoldable pub load_stored_device_token : Option String → Option String
  unfolding stored_value
  load_stored_device_token file = token_in (stored_value file)

  abbrev pub scopes_in : Option Value → Option Items
  scopes_in none = none
  scopes_in (some v) = text_scopes (member v "storedScopes")

  unfoldable pub load_stored_scopes : Option String → Option Items
  unfolding stored_value all_texts
  load_stored_scopes file = scopes_in (stored_value file)

  -- `['1', 'true', 'yes'].includes(String(v || '').trim().toLowerCase())`
  abbrev pub is_switched_on : String → Bool
  is_switched_on v =
      let word = to_lower_case (trim v) in word == "1" || word == "true" || word == "yes"

  unfoldable pub device_auth_insecure_skip : Bool
  device_auth_insecure_skip = is_switched_on (env_or rt "OPENCLAW_GATEWAY_DEVICE_INSECURE_SKIP" "")

  unfoldable pub gateway_legacy_blind_connect : Bool
  gateway_legacy_blind_connect =
      is_switched_on (env_or rt "OPENCLAW_GATEWAY_LEGACY_BLIND_CONNECT" "")
