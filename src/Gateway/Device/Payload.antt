-- ===== src/Gateway/Device/Payload.antt =====
-- gatewayDeviceIdentity.js: the text that a device signs to authenticate, and the block of the
-- connect request that carries the signature. The package `crypto` is a parameter.
pub mod Distinct
use Prim.Native.String.{[], ◌∷◌, char_at}
use mathlib.Core.List.{[], ◌∷◌}
use ombot.Prelude.{
  ℕ, ◌-◌, Char, code, String, Bool, true, false, ◌&&◌, Option, none, some, List, leb, eqb, length,
  if◌then◌else◌, ◌==◌,
}
use ombot.Js.Text.{◌⧺◌, trim, join, decimal}
use ombot.Js.Value.{nonneg, Value, num, str, obj, end, field, is_nullish}
use ombot.Js.Runtime.{Runtime}

pub record DeviceKeys : Type 0 where
  -- `createPublicKey(pem).export({ type: 'spki', format: 'der' })`; `none` where it throws
  pub spki : String → Option (List ℕ)
  -- SHA-256 of bytes, in hexadecimal
  pub sha256_hex : List ℕ → String
  -- `sign(null, text, createPrivateKey(pem))`; `none` where it throws
  pub sign : String → String → Option (List ℕ)

abbrev lower_letter : Char → Char
lower_letter c =
    if leb 65 (code c) && leb (code c) 90
    then char_at "abcdefghijklmnopqrstuvwxyz" (code c - 65)
    else c

-- `replace(/[A-Z]/g, …)`
unfoldable pub lower_ascii : String → String
lower_ascii [] = []
lower_ascii (c ∷ s) = lower_letter c ∷ lower_ascii s

unfoldable pub normalize_device_metadata_for_auth : Value → String
unfolding lower_ascii
normalize_device_metadata_for_auth (str s) = lower_ascii (trim s)
normalize_device_metadata_for_auth _ = ""

pub record AuthParams : Type 0 where
  pub device_id : String
  pub client_id : String
  pub client_mode : String
  pub role : String
  pub scopes : List String
  pub signed_at_ms : ℕ
  pub token : Option String
  pub nonce : String
  pub platform : Value
  pub device_family : Value

-- `params.token ?? ''`
abbrev pub token_text : Option String → String
token_text none = ""
token_text (some t) = t

abbrev pub signed_texts : AuthParams → List String
signed_texts p =
    p.device_id
    ∷ p.client_id
    ∷ p.client_mode
    ∷ p.role
    ∷ join "," p.scopes
    ∷ decimal p.signed_at_ms
    ∷ token_text p.token
    ∷ p.nonce
    ∷ normalize_device_metadata_for_auth p.platform
    ∷ normalize_device_metadata_for_auth p.device_family
    ∷ []

unfoldable pub build_device_auth_payload_v3 : AuthParams → String
build_device_auth_payload_v3 p = join "|" ("v3" ∷ signed_texts p)

-- `replaceAll('+', '-').replaceAll('/', '_')`
unfoldable pub url_letters : String → String
url_letters [] = []
url_letters (c ∷ s) =
    (if eqb (code c) b'+' then char_at "-" 0 else if eqb (code c) b'/' then char_at "_" 0 else c)
    ∷ url_letters s

abbrev without_padding_before : Char → String → String
without_padding_before c rest = if eqb (code c) b'=' && (rest == "") then "" else c ∷ rest

-- `replace(/=+$/g, '')`
unfoldable pub without_padding : String → String
without_padding [] = []
without_padding (c ∷ s) = without_padding_before c (without_padding s)

abbrev ed25519_spki_prefix : List ℕ
ed25519_spki_prefix = 48 ∷ 42 ∷ 48 ∷ 5 ∷ 6 ∷ 3 ∷ 43 ∷ 101 ∷ 112 ∷ 3 ∷ 33 ∷ 0 ∷ []

-- what follows a prefix, if the bytes start with it
unfoldable pub after_prefix : List ℕ → List ℕ → Option (List ℕ)
after_prefix [] bytes = some bytes
after_prefix (p ∷ ps) [] = none
after_prefix (p ∷ ps) (b ∷ bytes) = if eqb p b then after_prefix ps bytes else none

abbrev raw_key : List ℕ → List ℕ
raw_key spki = elim (after_prefix ed25519_spki_prefix spki) [
  | none ↦ spki
  | some raw ↦ if eqb (length raw) 32 then raw else spki
]

pub record Identity : Type 0 where
  pub device_id : String
  pub public_key_pem : String
  pub private_key_pem : String

-- the arguments of `buildConnectDeviceBlock`
pub record DeviceOptions : Type 0 where
  pub identity : Identity
  pub nonce : String
  pub scopes : List String
  pub role : String
  pub client_id : String
  pub client_mode : String
  pub platform : Value
  pub device_family : Value
  pub signature_token : Option String

unfoldable pub auth_params : DeviceOptions → ℕ → AuthParams
auth_params opts now = record {
  device_id = opts.identity.device_id;
  client_id = opts.client_id;
  client_mode = opts.client_mode;
  role = opts.role;
  scopes = opts.scopes;
  signed_at_ms = now;
  token = some (token_text opts.signature_token);
  nonce = opts.nonce;
  platform = opts.platform;
  device_family = opts.device_family;
}

module _ (keys : DeviceKeys) where
  -- `none` where the key cannot be read
  unfoldable pub derive_public_key_raw : String → Option (List ℕ)
  unfolding after_prefix
  derive_public_key_raw pem = elim (keys.spki pem) [ none ↦ none | some spki ↦ some (raw_key spki) ]

  unfoldable pub fingerprint_public_key : String → Option String
  unfolding derive_public_key_raw
  fingerprint_public_key pem = elim (derive_public_key_raw pem) [
    | none ↦ none
    | some raw ↦ some (keys.sha256_hex raw)
  ]

module _ (rt : Runtime) (keys : DeviceKeys) where
  unfoldable pub base64_url : List ℕ → String
  unfolding url_letters without_padding
  base64_url bytes = without_padding (url_letters (rt.base64 bytes))

  unfoldable pub sign_device_payload : String → String → Option String
  unfolding base64_url
  sign_device_payload pem payload = elim (keys.sign pem payload) [
    | none ↦ none
    | some signature ↦ some (base64_url signature)
  ]

  unfoldable pub public_key_raw_base64_url_from_pem : String → Option String
  unfolding derive_public_key_raw base64_url
  public_key_raw_base64_url_from_pem pem = elim (derive_public_key_raw keys pem) [
    | none ↦ none
    | some raw ↦ some (base64_url raw)
  ]

  abbrev device_block : DeviceOptions → ℕ → Option String → Option String → Option Value
  device_block opts now (some signature) (some public_key) = some (
      obj (
        field "id" (str opts.identity.device_id) (
          field "publicKey" (str public_key) (
            field "signature" (str signature)
              (field "signedAt" (num (nonneg now)) (field "nonce" (str opts.nonce) end))))))
  device_block opts now _ _ = none

  -- `now` is what `Date.now()` returns; `none` where a key cannot be used
  unfoldable pub build_connect_device_block : DeviceOptions → ℕ → Option Value
  unfolding auth_params build_device_auth_payload_v3
  build_connect_device_block opts now =
      device_block opts now
        (sign_device_payload opts.identity.private_key_pem
          (build_device_auth_payload_v3 (auth_params opts now)))
        (public_key_raw_base64_url_from_pem opts.identity.public_key_pem)
