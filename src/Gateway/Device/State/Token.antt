-- ===== src/Gateway/Device/State/Token.antt =====
-- The token and the scopes that the gateway gives are kept beside the identity.
use ombot.Prelude.{
  String, ◌≡◌, refl, ◌∙◌, true, false, Bool-cases, inl, inr, Option, none, some, eq_iff, ◌==◌,
}
use ombot.Js.Text.{trim}
use ombot.Js.Value.{Value, str, arr, obj, Items, nil, cons, Fields, get_field, member}
use ombot.Js.Runtime.{Runtime}
use ombot.ConfigMerge.Lookup.{get_field-set_field_same, get_field-set_field_other}
use ombot.Gateway.Device.Payload.{DeviceKeys, fingerprint_public_key}
use ombot.Gateway.Device.State.{
  Generated, with_token, with_scopes, scope_texts, all_texts, stored_value, file_text,
  load_or_create_device_identity, persist_hello_ok_device_auth, load_stored_device_token,
  load_stored_scopes,
}
use ombot.Gateway.Device.State.Kept.{with_token-Holds, with_scopes-Holds, load-Holds}
use ombot.Gateway.Device.State.Again.{file_after, stored_after}

all_texts-scope_texts : (scopes : Items) → all_texts (scope_texts scopes) ≡ true
unfolding all_texts scope_texts
all_texts-scope_texts nil = refl
all_texts-scope_texts (cons v scopes) = all_texts-scope_texts scopes

trim_named : (token : String) → (trim token == "") ≡ false → (token == "") ≡ false
unfolding trim
trim_named token h = elim (Bool-cases (token == "")) [
  | inl empty ↦ cc (h, (eq_iff token "").0 empty)
  | inr named ↦ named
]

module _ (token : String) (scopes : Items) (fs : Fields) where
  -- the fields that are written
  abbrev pub persisted_fields : Fields
  persisted_fields = with_scopes (arr scopes) (with_token token fs)

  device_token_persisted : get_field "deviceToken" persisted_fields ≡ str token
  device_token_persisted =
      get_field-set_field_other "deviceToken" "storedScopes" _ (with_token token fs) refl
      ∙ get_field-set_field_same "deviceToken" (str token) _

  scopes_persisted : get_field "storedScopes" persisted_fields ≡ arr (scope_texts scopes)
  scopes_persisted = get_field-set_field_same "storedScopes" _ (with_token token fs)

  module _ (rt : Runtime) where
    persist-writes :
        (auth : Value) (file : Option String)
        → stored_value rt file ≡ some (obj fs)
        → member auth "deviceToken" ≡ str token
        → member auth "scopes" ≡ arr scopes
        → (trim token == "") ≡ false
        → persist_hello_ok_device_auth rt auth file ≡ some (some (obj persisted_fields))
    unfolding persist_hello_ok_device_auth
    persist-writes auth file e h k inked = rw (h, k) (rw (trim_named token inked) (rw e refl))

    module _
        (parses : rt.parse_json (file_text (obj persisted_fields))
          ≡ some (obj persisted_fields)) where
      stored_persisted :
          stored_value rt (some (file_text (obj persisted_fields))) ≡ some (obj persisted_fields)
      unfolding stored_value
      stored_persisted = parses

      token_read :
          (trim token == "") ≡ false
          → load_stored_device_token rt (some (file_text (obj persisted_fields)))
            ≡ some (trim token)
      unfolding load_stored_device_token member
      token_read inked = rw stored_persisted (rw device_token_persisted (rw inked refl))

      scopes_read :
          load_stored_scopes rt (some (file_text (obj persisted_fields)))
          ≡ some (scope_texts scopes)
      unfolding load_stored_scopes member
      scopes_read =
          rw stored_persisted (rw scopes_persisted (rw (all_texts-scope_texts scopes) refl))

module _ (rt : Runtime) (keys : DeviceKeys) (g : Generated) (auth : Value) (token : String)
    (scopes : Items) (file : Option String)
    (fingerprinted : fingerprint_public_key keys g.identity.public_key_pem
      ≡ some g.identity.device_id)
    (parses : (v : Value)
      → (load_or_create_device_identity rt keys g file).written ≡ some v
      → rt.parse_json (file_text v) ≡ some v) where
  abbrev pub file_before : Option String
  file_before = file_after keys rt g fingerprinted file

  -- After loading the identity, persisting the token and the scopes of an answer writes a file in
  -- which the identity is the same, and from which both are read back.
  pub token_kept :
      member auth "deviceToken" ≡ str token
      → member auth "scopes" ≡ arr scopes
      → (trim token == "") ≡ false
      → ((v : Value)
          → persist_hello_ok_device_auth rt auth file_before ≡ some (some v)
          → rt.parse_json (file_text v) ≡ some v)
      → (g' : Generated)
      → (v : Value) × (persist_hello_ok_device_auth rt auth file_before ≡ some (some v))
        × (load_or_create_device_identity rt keys g' (some (file_text v)) ≡ record {
          identity = (load_or_create_device_identity rt keys g file).identity;
          written = none;
        })
        × (load_stored_device_token rt (some (file_text v)) ≡ some (trim token))
        × (load_stored_scopes rt (some (file_text v)) ≡ some (scope_texts scopes))
  token_kept h k inked parses_auth g' =
      let (fs, holds, e) = stored_after keys rt g fingerprinted file parses in
      let writes = persist-writes token scopes fs rt auth file_before e h k inked in
      let parses' = parses_auth _ writes in
      (
        obj (persisted_fields token scopes fs),
        writes,
        load-Holds keys rt g' _ (stored_persisted token scopes fs rt parses')
            (with_scopes-Holds keys (arr scopes) (with_token-Holds keys token holds)),
        token_read token scopes fs rt parses' inked,
        scopes_read token scopes fs rt parses',
      )
