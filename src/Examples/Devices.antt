-- ===== src/Examples/Devices.antt =====
-- The identity of the device: a file with a wrong fingerprint, and what becomes of it.
use mathlib.Core.List.{[], ◌∷◌}
use ombot.Prelude.{String, ◌≡◌, refl, sym, ◌∙◌, none, some, some_inj, arith, if◌then◌else◌, ◌==◌}
use ombot.Js.Text.{◌⧺◌}
use ombot.Js.Value.{nonneg, Value, null, num, str, arr, obj, Items, nil, cons, Fields, end, field}
use ombot.Js.Runtime.{Runtime}
use ombot.Gateway.Device.Payload.{DeviceKeys, Identity, AuthParams, build_device_auth_payload_v3}
use ombot.Gateway.Device.Payload.Distinct.{
  IsPlain, SaysSame, build_device_auth_payload_v3-injective,
}
use ombot.Gateway.Device.State.{
  Loaded, Generated, file_text, load_or_create_device_identity, persist_hello_ok_device_auth,
  load_stored_device_token, load_stored_scopes,
}
use ombot.Gateway.Device.State.Again.{loaded_again}
use ombot.Gateway.Device.State.Token.{token_kept}
use ombot.Examples.World

-- the fingerprint of every key is `fp`
abbrev pub keys : DeviceKeys
keys = record {
  spki = λ pem. some (1 ∷ []);
  sha256_hex = λ bytes. "fp";
  sign = λ pem text. some (7 ∷ []);
}

abbrev pub generated : Generated
generated = record {
  identity = record { device_id = "fp"; public_key_pem = "new"; private_key_pem = "new secret" };
  now = 5;
}

abbrev fields : String → Fields → Fields
fields device_id rest = field "version" (num (nonneg 1)) (
    field "deviceId" (str device_id)
      (field "publicKeyPem" (str "pem") (field "privateKeyPem" (str "secret") rest)))

abbrev with_token : Fields
with_token = fields "fp" (
    field "deviceToken" (str " token ")
      (field "storedScopes" (arr (cons (str "operator.read") nil)) end))

-- the file has the fingerprint `old`, and is known to the parser like what is written in its place
abbrev rt : Runtime
rt = record World.rt {
  parse_json = λ s.
      if s == "old file"
      then some (obj (fields "old" end))
      else if s == file_text (obj (fields "fp" end))
      then some (obj (fields "fp" end))
      else if s == file_text (obj with_token)
      then some (obj with_token)
      else none;
}

rewritten :
    (load_or_create_device_identity rt keys generated (some "old file")).written
    ≡ some (obj (fields "fp" end))
unfolding load_or_create_device_identity ombot.Gateway.Device.State.stored_value
    ombot.Gateway.Device.State.has_identity ombot.Gateway.Device.Payload.fingerprint_public_key
    ombot.ConfigMerge.set_field
rewritten = refl

parses :
    (v : Value)
    → (load_or_create_device_identity rt keys generated (some "old file")).written ≡ some v
    → rt.parse_json (file_text v) ≡ some v
unfolding ombot.Js.Indented.json_indented ombot.Js.Text.join
parses v e = rw (some_inj (sym e ∙ rewritten)) refl

loaded_again_example :
    load_or_create_device_identity rt keys generated (some (file_text (obj (fields "fp" end))))
    ≡ record {
      identity = record { device_id = "fp"; public_key_pem = "pem"; private_key_pem = "secret" };
      written = none;
    }
unfolding ombot.Gateway.Device.Payload.fingerprint_public_key load_or_create_device_identity
    ombot.Gateway.Device.State.stored_value ombot.Js.Indented.json_indented
    ombot.Gateway.Device.State.has_identity ombot.Js.Text.join ombot.ConfigMerge.set_field
loaded_again_example = loaded_again keys rt generated refl (some "old file") parses generated

abbrev auth : Value
auth = obj (
    field "deviceToken" (str " token ") (field "scopes" (arr (cons (str "operator.read") nil)) end))

persisted :
    persist_hello_ok_device_auth rt auth (some (file_text (obj (fields "fp" end))))
    ≡ some (some (obj with_token))
unfolding persist_hello_ok_device_auth ombot.Js.Value.member ombot.Gateway.Device.State.stored_value
    ombot.Js.Indented.json_indented ombot.Js.Text.join ombot.ConfigMerge.set_field
    ombot.Gateway.Device.State.scope_texts
persisted = refl

parses_persisted :
    (v : Value)
    → persist_hello_ok_device_auth rt auth (some (file_text (obj (fields "fp" end))))
      ≡ some (some v)
    → rt.parse_json (file_text v) ≡ some v
unfolding ombot.Js.Indented.json_indented ombot.Js.Text.join
parses_persisted v e = rw (some_inj (some_inj (sym e ∙ persisted))) refl

token_kept_example :
    (v : Value) × (persist_hello_ok_device_auth rt auth (some (file_text (obj (fields "fp" end))))
      ≡ some (some v))
    × (load_or_create_device_identity rt keys generated (some (file_text v)) ≡ record {
      identity = record { device_id = "fp"; public_key_pem = "pem"; private_key_pem = "secret" };
      written = none;
    })
    × (load_stored_device_token rt (some (file_text v)) ≡ some "token")
    × (load_stored_scopes rt (some (file_text v)) ≡ some (cons (str "operator.read") nil))
unfolding ombot.Gateway.Device.Payload.fingerprint_public_key ombot.Js.Value.member
    ombot.Js.Text.trim load_or_create_device_identity ombot.Gateway.Device.State.stored_value
    ombot.Gateway.Device.State.has_identity ombot.ConfigMerge.set_field
    ombot.Gateway.Device.State.scope_texts
token_kept_example =
    token_kept rt keys generated auth " token " (cons (str "operator.read") nil) (some "old file")
      refl parses refl refl refl parses_persisted generated

abbrev params : AuthParams
params = record {
  device_id = "fp";
  client_id = "cli";
  client_mode = "cli";
  role = "operator";
  scopes = "operator.read" ∷ "operator.write" ∷ [];
  signed_at_ms = 1;
  token = none;
  nonce = "n";
  platform = str " Linux ";
  device_family = null;
}

-- a token that is not there is signed like an empty one, and a platform in lower case
abbrev same_params : AuthParams
same_params = record params { token = some ""; platform = str "linux" }

params-IsPlain : IsPlain params
unfolding ombot.Js.Text.join ombot.Js.Text.decimal
    ombot.Gateway.Device.Payload.normalize_device_metadata_for_auth ombot.Js.Text.trim
params-IsPlain = omega arith

same_params-IsPlain : IsPlain same_params
unfolding ombot.Js.Text.join ombot.Js.Text.decimal
    ombot.Gateway.Device.Payload.normalize_device_metadata_for_auth ombot.Js.Text.trim
same_params-IsPlain = omega arith

build_device_auth_payload_v3-injective_example : SaysSame params same_params
unfolding ombot.Js.Text.join ombot.Js.Text.decimal
    ombot.Gateway.Device.Payload.normalize_device_metadata_for_auth ombot.Js.Text.trim
    build_device_auth_payload_v3
build_device_auth_payload_v3-injective_example =
    build_device_auth_payload_v3-injective params same_params params-IsPlain same_params-IsPlain
      refl
