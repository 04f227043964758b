-- ===== src/Chatrooms/Vault/Opened.antt =====
-- What was written under the keys of one moment is read back, also once there are newer keys.
use mathlib.Core.List.{[], ◌∷◌, ◌++◌}
use ombot.Prelude.{ℕ, String, ◌≡◌, refl, none, some, List, All, ap}
use ombot.Js.Value.{nonneg, Value, num, str, obj, Fields, member, get_field, truthy, is_object}
use ombot.Js.Json.{json}
use ombot.Js.Runtime.{Runtime}
use ombot.ConfigMerge.{set_field, strictly_equal}
use ombot.ConfigMerge.Lookup.{get_field-set_field_same}
use ombot.Chatrooms.Vault.{
  Sealed, Gcm, EncryptionKey, load_encryption_keys, envelope, encrypt_payload, try_key, try_keys,
  decrypt_payload, encrypt_under, open_envelope,
}

-- the object that is read back: a file that is not encrypted keeps its version
abbrev pub read_back : Fields → List EncryptionKey → Fields
read_back fs [] = set_field "version" (num (nonneg 1)) fs
read_back fs (k ∷ keys) = fs

module _ (rt : Runtime) (gcm : Gcm) where
  -- no key of a list opens a file
  abbrev pub NoneOpens : List ℕ → Sealed → List EncryptionKey → Type 0
  NoneOpens iv sealed = All (λ k. try_key rt gcm iv sealed k ≡ none)

  -- The keys before the right one are tried and passed over.
  try_keys-skip :
      (iv : List ℕ) (sealed : Sealed) (before after : List EncryptionKey) (k : EncryptionKey)
      {v : Value}
      → NoneOpens iv sealed before
      → try_key rt gcm iv sealed k ≡ some v
      → try_keys rt gcm iv sealed (before ++ k ∷ after) ≡ v
  unfolding try_keys
  try_keys-skip iv sealed [] after k skipped e = rw e
  try_keys-skip iv sealed (b ∷ before) after k (p, ps) e =
      rw p (try_keys-skip iv sealed before after k ps e)

  module _ (decodes : (bytes : List ℕ) → rt.buffer_from (str (rt.base64 bytes)) ≡ some bytes) where
    open_envelope-envelope :
        (k : EncryptionKey) (keys : List EncryptionKey) (id : String) (iv : List ℕ)
        (sealed : Sealed) {v : Value}
        → try_keys rt gcm iv sealed (k ∷ keys) ≡ v
        → open_envelope rt gcm (k ∷ keys) (envelope rt id iv sealed) ≡ some v
    unfolding envelope member get_field
    open_envelope-envelope k keys id iv sealed e =
        rw (decodes iv, decodes sealed.tag, decodes sealed.bytes) (ap some e)

    module _ (iv : List ℕ) (fs : Fields)
        (parses : rt.parse_json (json (obj fs)) ≡ some (obj fs)) where
      -- what a key file holds that was written under a key
      abbrev pub sealed_under : EncryptionKey → Value
      sealed_under k = encrypt_under rt gcm iv fs (k ∷ [])

      abbrev pub sealed_by : EncryptionKey → Sealed
      sealed_by k = gcm.seal k.key iv (json (obj fs))

      try_key_own :
          (k : EncryptionKey)
          → gcm.unseal k.key iv (sealed_by k) ≡ some (json (obj fs))
          → try_key rt gcm iv (sealed_by k) k ≡ some (obj fs)
      unfolding try_key
      try_key_own k e = rw (e, parses)

      -- A file that was written under one key is read under any keys among which that key is, if no
      -- key before it opens the file.
      pub decrypt_payload-rotated :
          (newer older : List EncryptionKey) (k : EncryptionKey)
          → load_encryption_keys rt ≡ newer ++ k ∷ older
          → gcm.unseal k.key iv (sealed_by k) ≡ some (json (obj fs))
          → NoneOpens iv (sealed_by k) newer
          → decrypt_payload rt gcm (sealed_under k) ≡ some (obj fs)
      unfolding decrypt_payload member get_field truthy is_object strictly_equal envelope
      decrypt_payload-rotated [] older k keys e skipped = rw keys (
          open_envelope-envelope k older k.id iv (sealed_by k)
            (try_keys-skip iv (sealed_by k) [] older k skipped (try_key_own k e)))
      decrypt_payload-rotated (n ∷ newer) older k keys e skipped = rw keys (
          open_envelope-envelope n (newer ++ k ∷ older) k.id iv (sealed_by k)
            (try_keys-skip iv (sealed_by k) (n ∷ newer) older k skipped (try_key_own k e)))

      decrypt_payload-plain :
          decrypt_payload rt gcm (obj (set_field "version" (num (nonneg 1)) fs))
          ≡ some (obj (set_field "version" (num (nonneg 1)) fs))
      unfolding decrypt_payload member truthy is_object strictly_equal
      decrypt_payload-plain = rw get_field-set_field_same refl

      decrypt_payload-encrypt_under :
          (keys : List EncryptionKey)
          → load_encryption_keys rt ≡ keys
          → ((k : EncryptionKey) → gcm.unseal k.key iv (sealed_by k) ≡ some (json (obj fs)))
          → decrypt_payload rt gcm (encrypt_under rt gcm iv fs keys)
            ≡ some (obj (read_back fs keys))
      decrypt_payload-encrypt_under [] e authentic = decrypt_payload-plain
      decrypt_payload-encrypt_under (k ∷ keys) e authentic =
          decrypt_payload-rotated [] keys k e (authentic k) tt

      -- What was encrypted is read back, with or without keys.
      pub decrypt_payload-encrypt_payload :
          ((k : EncryptionKey) → gcm.unseal k.key iv (sealed_by k) ≡ some (json (obj fs)))
          → decrypt_payload rt gcm (encrypt_payload rt gcm iv fs)
            ≡ some (obj (read_back fs (load_encryption_keys rt)))
      unfolding encrypt_payload
      decrypt_payload-encrypt_payload authentic =
          decrypt_payload-encrypt_under (load_encryption_keys rt) refl authentic
