-- ===== src/Guards/Payload.antt =====
-- The texts that are signed.
pub mod Order
use ombot.Prelude.{
  String, Bool, true, false, not, ◌&&◌, Option, none, some, List, [], ◌∷◌, if◌then◌else◌, ◌==◌,
}
use ombot.Js.Text.{◌⧺◌, join}
use ombot.Js.Value.{
  Number, nonneg, neg, Value, str, num, arr, obj, Items, nil, cons, Fields, end, field, member,
  or_else, nullish_else, to_text, number_text,
}
use ombot.Js.Json.{json, json_fields, quote, sort_fields, enumerate}
use ombot.Js.Runtime.{Runtime, to_number}

-- `sortKeysDeep`: the keys are added to a new object in sorted order
unfoldable mutual
  pub sort_keys_deep : Value → Value
  sort_keys_deep (arr xs) = arr (sort_items_deep xs)
  sort_keys_deep (obj fs) = obj (enumerate (sort_fields (sort_values_deep fs)))
  sort_keys_deep v = v

  pub sort_items_deep : Items → Items
  sort_items_deep nil = nil
  sort_items_deep (cons v xs) = cons (sort_keys_deep v) (sort_items_deep xs)

  pub sort_values_deep : Fields → Fields
  sort_values_deep end = end
  sort_values_deep (field k v fs) = field k (sort_keys_deep v) (sort_values_deep fs)

module _ (rt : Runtime) where
  -- the object that the legacy and the canonical text are made of
  unfoldable pub signing_body : Value → Value
  signing_body req = obj (
      field "type" (or_else (member req "type") (str "req")) (
        field "id" (or_else (member req "id") (str "")) (
          field "method" (or_else (member req "method") (str "")) (
            field "params" (or_else (member req "params") (obj end)) (
              field "timestamp"
                (num (to_number rt (or_else (member req "timestamp") (num (nonneg 0)))))
                (field "nonce" (str (to_text (or_else (member req "nonce") (str "")))) end))))))

  unfoldable pub req_signing_payload_legacy : Value → String
  req_signing_payload_legacy req = json (signing_body req)

  unfoldable pub req_signing_payload : Value → String
  req_signing_payload req = json (sort_keys_deep (signing_body req))

  -- `Number.isFinite(ts) ? String(Math.trunc(ts)) : '0'`
  abbrev pub timestamp_text : Number → String
  timestamp_text (nonneg n) = number_text (nonneg n)
  timestamp_text (neg n) = number_text (neg n)
  timestamp_text _ = "0"

  abbrev pub stable_params : Value → Fields
  stable_params (obj fs) = fs
  stable_params _ = end

  unfoldable pub req_signing_payload_stable : Value → String
  req_signing_payload_stable req =
      let id = to_text (nullish_else (member req "id") (str "")) in
      let method = to_text (nullish_else (member req "method") (str "")) in
      let nonce = to_text (nullish_else (member req "nonce") (str "")) in
      let type = to_text (or_else (member req "type") (str "req")) in
      let ts = to_number rt (or_else (member req "timestamp") (num (nonneg 0))) in
      let inner = join "," (json_fields (sort_fields (stable_params (member req "params")))) in
      "{\"id\":"
      ⧺ quote id
      ⧺ ",\"method\":"
      ⧺ quote method
      ⧺ ",\"nonce\":"
      ⧺ quote nonce
      ⧺ ",\"params\":{"
      ⧺ inner
      ⧺ "},\"timestamp\":"
      ⧺ timestamp_text ts
      ⧺ ",\"type\":"
      ⧺ quote type
      ⧺ "}"

  -- `reqSigningPayloadSha256Hex`: the digests that an audit record has when no text verifies
  pub record PayloadDigests : Type 0 where
    pub stable_sha256 : String
    pub canonical_sha256 : String
    pub legacy_sha256 : String

  unfoldable pub req_signing_payload_sha256_hex : Value → PayloadDigests
  req_signing_payload_sha256_hex req = record {
    stable_sha256 = rt.sha256_hex (req_signing_payload_stable req);
    canonical_sha256 = rt.sha256_hex (req_signing_payload req);
    legacy_sha256 = rt.sha256_hex (req_signing_payload_legacy req);
  }
