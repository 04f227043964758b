-- ===== src/Gateway/Client/Connect.antt =====
-- gatewayAgentClient.js: what the client puts into its connect request. Names that come from the
-- environment are in ASCII where the source lowers them.
use Prim.Native.String.{[], ◌∷◌}
use mathlib.Core.List.{[], ◌∷◌, ◌++◌}
use ombot.Prelude.{
  ℕ, Char, code, String, Bool, ◌&&◌, ◌||◌, not, Option, none, some, List, map, eqb, keep,
  if◌then◌else◌, ◌==◌,
}
use ombot.Js.Text.{trim, to_lower_case, starts_with, ends_with, drop_chars, split}
use ombot.Js.Value.{
  Number, nonneg, neg, Value, num, str, arr, obj, Items, nil, cons, Fields, end, field,
}
use ombot.Js.Runtime.{Runtime, env_or, to_number}
use ombot.ConfigMerge.{set_field}
use ombot.Gateway.Deduper.{has}
use ombot.Gateway.Device.Payload.{DeviceKeys, Identity, DeviceOptions, build_connect_device_block}
use ombot.Gateway.Device.State.{
  Loaded, Generated, after_write, all_texts, load_or_create_device_identity,
  load_stored_device_token, load_stored_scopes,
}
use ombot.Gateway.Client.Scopes

abbrev pub is_quote : Char → Bool
is_quote c = eqb (code c) 39 || eqb (code c) 34

unfoldable pub trim_quote_end : String → String
trim_quote_end [] = []
trim_quote_end (c ∷ []) = if is_quote c then "" else c ∷ []
trim_quote_end (c ∷ d ∷ s) = c ∷ trim_quote_end (d ∷ s)

-- `replace(/^['"]|['"]$/g, '')`
unfoldable pub unquoted : String → String
unfolding trim_quote_end
unquoted [] = []
unquoted (c ∷ s) = if is_quote c then trim_quote_end s else trim_quote_end (c ∷ s)

-- `s.slice(0, -1)`
unfoldable pub drop_last : String → String
drop_last [] = []
drop_last (c ∷ []) = []
drop_last (c ∷ d ∷ s) = c ∷ drop_last (d ∷ s)

unfoldable pub text_items : List String → Items
text_items [] = nil
text_items (s ∷ ss) = cons (str s) (text_items ss)

abbrev pub listed : List String → Option Items
listed [] = none
listed (s ∷ ss) = some (text_items (s ∷ ss))

-- a list in brackets without the quotes that JSON wants
unfoldable pub bracketed_scopes : String → Option Items
unfolding unquoted drop_last text_items
bracketed_scopes t =
    let inner = trim (drop_last (drop_chars 1 t)) in
    if not (starts_with t "[" && ends_with t "]")
    then none
    else if inner == ""
    then some nil
    else listed (keep (λ s. not (s == "")) (map (λ s. unquoted (trim s)) (split 44 inner)))

abbrev pub default_scopes : Items
default_scopes =
    cons (str "operator.read") (cons (str "operator.write") (cons (str "operator.admin") nil))

abbrev pub items_or : Option Items → Items → Items
items_or none fallback = fallback
items_or (some items) fallback = items

abbrev pub lowered : List String → List String
lowered = map to_lower_case

-- a required scope, if no scope has its name in lower case
abbrev pub add_required : String → List String → List String
add_required scope out = if has scope (lowered out) then out else out ++ scope ∷ []

unfoldable pub trimmed_scopes : Items → List String
trimmed_scopes nil = []
trimmed_scopes (cons (str s) scopes) =
    if trim s == "" then trimmed_scopes scopes else trim s ∷ trimmed_scopes scopes
trimmed_scopes (cons v scopes) = trimmed_scopes scopes

abbrev pub finite_or : ℕ → Number → Number
finite_or fallback (nonneg n) = nonneg n
finite_or fallback (neg n) = neg n
finite_or fallback _ = nonneg fallback

-- what a call of `_composeConnectParams` returns, with the identity and the file that it leaves
pub record Composed : Type 0 where
  -- none where it throws
  pub params : Option Value
  pub gateway_identity : Option Identity
  pub file : Option String

module _ (rt : Runtime) where
  abbrev pub json_scopes : Option Value → Option Items
  json_scopes (some (arr items)) = if all_texts items then some items else none
  json_scopes _ = none

  -- `parseScopes`
  unfoldable pub parse_scopes : String → Option Items
  unfolding bracketed_scopes
  parse_scopes raw = elim (json_scopes (rt.parse_json raw)) [
    | some items ↦ some items
    | none ↦ bracketed_scopes (trim raw)
  ]

  unfoldable pub default_gateway_scopes : List String
  unfolding parse_scopes
  default_gateway_scopes =
      let raw = trim (env_or rt "OPENCLAW_BRIDGE_OPERATOR_SCOPES" "") in
      Scopes.normalize
        (if raw == "" then default_scopes else items_or (parse_scopes raw) default_scopes)

  -- `platform` is `process.platform`
  unfoldable pub default_bridge_client_platform : String → String
  default_bridge_client_platform platform =
      let raw = to_lower_case (trim (env_or rt "OPENCLAW_BRIDGE_CLIENT_PLATFORM" "")) in
      if not (raw == "")
      then raw
      else if platform == "win32"
      then "windows"
      else if platform == "darwin"
      then "darwin"
      else "linux"

  unfoldable pub default_bridge_client_mode : String
  default_bridge_client_mode =
      let raw = to_lower_case (trim (env_or rt "OPENCLAW_BRIDGE_CLIENT_MODE" "")) in
      if raw == "" then "cli" else raw

  unfoldable pub default_bridge_client_id : String
  default_bridge_client_id =
      let raw = trim (env_or rt "OPENCLAW_BRIDGE_CLIENT_ID" "") in if raw == "" then "cli" else raw

  unfoldable pub default_gateway_role : String
  default_gateway_role =
      let raw = to_lower_case (trim (env_or rt "OPENCLAW_BRIDGE_ROLE" "")) in
      if raw == "" || raw == "admin" then "operator" else raw

  -- `Number(process.env[name] ?? fallback)`, where it is finite
  unfoldable pub protocol_version : String → ℕ → Number
  protocol_version name fallback = elim (rt.env name) [
    | none ↦ nonneg fallback
    | some v ↦ finite_or fallback (to_number rt (str v))
  ]

  abbrev pub positive_or : ℕ → Number → ℕ
  positive_or fallback (nonneg n) = if eqb n 0 then fallback else n
  positive_or fallback _ = fallback

  unfoldable pub connect_challenge_timeout_ms : ℕ
  connect_challenge_timeout_ms = elim (rt.env "OPENCLAW_GATEWAY_CONNECT_CHALLENGE_TIMEOUT_MS") [
    | none ↦ 15000
    | some v ↦ positive_or 15000 (to_number rt (str v))
  ]

  -- `explicit || stored`, where the stored token is not empty
  abbrev pub explicit_or : String → Option String → Option String
  explicit_or explicit stored = if explicit == "" then stored else some explicit

  unfoldable pub resolve_signature_token : String → Option String → String
  resolve_signature_token gateway_token file =
      elim (explicit_or (trim gateway_token) (load_stored_device_token rt file)) [
        | none ↦ ""
        | some token ↦ token
      ]

  abbrev pub stored_or_default : Option String → Option Items → List String
  stored_or_default (some token) (some (cons scope scopes)) =
      add_required "operator.write"
        (add_required "operator.read" (trimmed_scopes (cons scope scopes)))
  stored_or_default _ _ = default_gateway_scopes

  -- the scopes that were stored are used with a stored token alone
  unfoldable pub resolve_scopes_for_connect : String → Option String → List String
  unfolding trimmed_scopes
  resolve_scopes_for_connect gateway_token file =
      if trim gateway_token == ""
      then stored_or_default (load_stored_device_token rt file) (load_stored_scopes rt file)
      else default_gateway_scopes

  abbrev pub with_auth : Option String → Fields → Fields
  with_auth none fs = fs
  with_auth (some token) fs = set_field "auth" (obj (field "token" (str token) end)) fs

  -- what the request has without a device
  unfoldable pub base_params : String → String → Option String → Fields
  unfolding text_items
  base_params platform gateway_token file =
      with_auth (explicit_or (trim gateway_token) (load_stored_device_token rt file)) (
        field "minProtocol" (num (protocol_version "OPENCLAW_BRIDGE_MIN_PROTOCOL" 3)) (
          field "maxProtocol" (num (protocol_version "OPENCLAW_BRIDGE_MAX_PROTOCOL" 9)) (
            field "client"
              (obj (
                field "id" (str default_bridge_client_id) (
                  field "version" (str (env_or rt "npm_package_version" "1.0.0")) (
                    field "platform" (str (default_bridge_client_platform platform))
                      (field "mode" (str default_bridge_client_mode) end)))))
              (field "role" (str default_gateway_role) (
                field "scopes" (arr (text_items (resolve_scopes_for_connect gateway_token file))) (
                  field "caps" (arr nil)
                    (field "commands" (arr nil) (field "permissions" (obj end) end))))))))

  -- The arguments of the device block; an empty family counts as none. The scopes were resolved
  -- before the identity was loaded, the token for the signature is read after that.
  abbrev pub device_options :
      String → String → String → Option String → Option String → Identity → DeviceOptions
  device_options platform gateway_token nonce file file' identity = record {
    identity = identity;
    nonce = nonce;
    scopes = resolve_scopes_for_connect gateway_token file;
    role = default_gateway_role;
    client_id = default_bridge_client_id;
    client_mode = default_bridge_client_mode;
    platform = str (default_bridge_client_platform platform);
    device_family = str (trim (env_or rt "OPENCLAW_BRIDGE_DEVICE_FAMILY" ""));
    signature_token = some (resolve_signature_token gateway_token file');
  }

  module _ (keys : DeviceKeys) (platform gateway_token : String) where
    -- `this._gatewayIdentity`, loaded the first time
    abbrev pub loaded_once : Generated → Option Identity → Option String → Loaded
    loaded_once g (some identity) file = record { identity = identity; written = none }
    loaded_once g none file = load_or_create_device_identity rt keys g file

    abbrev pub with_device : Fields → Option Value → Option Value
    with_device fs none = none
    with_device fs (some block) = some (obj (set_field "device" block fs))

    abbrev pub composed_with : String → ℕ → Option String → Loaded → Composed
    composed_with nonce now file loaded =
        let file' = after_write loaded.written file in
        record {
          params = with_device (base_params platform gateway_token file) (
              build_connect_device_block rt keys
                (device_options platform gateway_token nonce file file' loaded.identity) now);
          gateway_identity = some loaded.identity;
          file = file';
        }

    unfoldable pub compose_connect_params :
        Bool → String → ℕ → Generated → Option Identity → Option String → Composed
    unfolding base_params
    compose_connect_params omit_device nonce now g identity file =
        if omit_device || (nonce == "")
        then record {
          params = some (obj (base_params platform gateway_token file));
          gateway_identity = identity;
          file = file;
        }
        else composed_with nonce now file (loaded_once g identity file)
