-- ===== src/Chatrooms/Vault.antt =====
-- chatroomStorage.js: the keys that encrypt the key files, and what is written and read under them.
-- AES-256-GCM of the package `crypto` is a parameter.
pub mod Opened
use mathlib.Core.List.{[], ◌∷◌}
use ombot.Prelude.{
  ℕ, ◌+◌, String, Bool, true, false, ◌&&◌, ◌||◌, not, Option, none, some, List, map, eqb, length,
  keep, if◌then◌else◌, ◌==◌,
}
use ombot.Js.Text.{◌⧺◌, trim, split, decimal}
use ombot.Js.Value.{
  nonneg, Value, undefined, null, num, str, obj, Fields, end, field, member, truthy, is_object,
}
use ombot.Js.Json.{json}
use ombot.Js.Runtime.{Runtime}
use ombot.ConfigMerge.{set_field, strictly_equal}

pub record Sealed : Type 0 where
  pub bytes : List ℕ
  pub tag : List ℕ

pub record Gcm : Type 0 where
  -- `createCipheriv('aes-256-gcm', key, iv)` over the UTF-8 of a text, with `getAuthTag()`
  pub seal : List ℕ → List ℕ → String → Sealed
  -- `createDecipheriv` with `setAuthTag`, as text; `none` where a call throws
  pub unseal : List ℕ → List ℕ → Sealed → Option String

pub record EncryptionKey : Type 0 where
  pub id : String
  pub key : List ℕ

-- the value of a call that is known not to throw, such as `Buffer.from` of a text
abbrev pub bytes_or_none : Option (List ℕ) → List ℕ
bytes_or_none none = []
bytes_or_none (some bytes) = bytes

abbrev pub is_full_key : EncryptionKey → Bool
is_full_key k = eqb (length k.key) 32

module _ (rt : Runtime) where
  -- `.map((s, idx) => …)`, from an index on
  unfoldable pub number_keys : ℕ → List String → List EncryptionKey
  number_keys idx [] = []
  number_keys idx (s ∷ parts) =
      record { id = "k" ⧺ decimal (idx + 1); key = bytes_or_none (rt.buffer_from (str s)) }
      ∷ number_keys (idx + 1) parts

  abbrev pub parts_of : String → List String
  parts_of raw = keep (λ s. not (s == "")) (map trim (split 44 raw))

  abbrev pub keys_of : String → List EncryptionKey
  keys_of raw = if raw == "" then [] else keep is_full_key (number_keys 0 (parts_of raw))

  unfoldable pub load_encryption_keys : List EncryptionKey
  unfolding number_keys
  load_encryption_keys = elim (rt.env "OPENCLAW_KEY_ENCRYPTION_KEYS") [
    | none ↦ []
    | some raw ↦ keys_of (trim raw)
  ]

  -- the JSON value under `encrypted`
  unfoldable pub envelope : String → List ℕ → Sealed → Value
  envelope key_id iv sealed = obj (
      field "keyId" (str key_id) (
        field "iv" (str (rt.base64 iv)) (
          field "tag" (str (rt.base64 sealed.tag))
            (field "data" (str (rt.base64 sealed.bytes)) end))))

  module _ (gcm : Gcm) where
    abbrev pub encrypt_under : List ℕ → Fields → List EncryptionKey → Value
    encrypt_under iv fs [] = obj (set_field "version" (num (nonneg 1)) fs)
    encrypt_under iv fs (primary ∷ _) = obj (
        field "version" (num (nonneg 2)) (
          field "encrypted" (envelope primary.id iv (gcm.seal primary.key iv (json (obj fs)))) end))

    -- `iv` is what `crypto.randomBytes(12)` returns
    unfoldable pub encrypt_payload : List ℕ → Fields → Value
    unfolding load_encryption_keys envelope
    encrypt_payload iv fs = encrypt_under iv fs load_encryption_keys

    abbrev pub parsed : Option String → Option Value
    parsed none = none
    parsed (some plain) = rt.parse_json plain

    -- what one key makes of the file; `none` where deciphering or parsing throws
    unfoldable pub try_key : List ℕ → Sealed → EncryptionKey → Option Value
    try_key iv sealed k = parsed (gcm.unseal k.key iv sealed)

    abbrev pub first_of : Option Value → Value → Value
    first_of none rest = rest
    first_of (some v) rest = v

    -- `for (const k of keys)`: the first key that works
    unfoldable pub try_keys : List ℕ → Sealed → List EncryptionKey → Value
    unfolding try_key
    try_keys iv sealed [] = null
    try_keys iv sealed (k ∷ keys) = first_of (try_key iv sealed k) (try_keys iv sealed keys)

    -- `none` where one of the texts is no text and `Buffer.from` throws
    abbrev pub opened :
        List EncryptionKey → Option (List ℕ) → Option (List ℕ) → Option (List ℕ) → Option Value
    opened keys (some iv) (some tag) (some bytes) =
        some (try_keys iv (record { bytes = bytes; tag = tag }) keys)
    opened keys _ _ _ = none

    abbrev pub open_envelope : List EncryptionKey → Value → Option Value
    open_envelope [] e = some null
    open_envelope (k ∷ keys) e =
        opened (k ∷ keys) (rt.buffer_from (member e "iv")) (rt.buffer_from (member e "tag"))
          (rt.buffer_from (member e "data"))

    unfoldable pub decrypt_payload : Value → Option Value
    unfolding load_encryption_keys try_keys
    decrypt_payload v =
        if not (is_object v)
        then some null
        else if not (truthy (member v "version"))
            || strictly_equal (member v "version") (num (nonneg 1))
        then some v
        else if not (strictly_equal (member v "version") (num (nonneg 2)))
            || not (truthy (member v "encrypted"))
        then some null
        else open_envelope load_encryption_keys (member v "encrypted")
