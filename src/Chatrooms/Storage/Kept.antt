-- ===== src/Chatrooms/Storage/Kept.antt =====
-- What was saved is loaded: the key pair, the key of the participant, and those of the others.
use mathlib.Core.List.{[], ◌∷◌}
use ombot.Prelude.{
  ℕ, String, ◌≡◌, refl, ◌≢◌, true, false, some, List, arith, eq_iff, eq_refl, Bool-cases, inl, inr,
  ◌==◌,
}
use ombot.Js.Value.{
  Value, null, str, obj, Fields, end, field, get_field, member, truthy, is_nullish, is_object,
  nullish_else,
}
use ombot.Js.Json.{json}
use ombot.Js.Runtime.{Runtime}
use ombot.ConfigMerge.{set_field}
use ombot.Chatrooms.Names.{RoomPath, agent_room, legacy_room, same_path}
use ombot.Chatrooms.Vault.{Gcm, EncryptionKey, encrypt_payload, load_encryption_keys}
use ombot.Chatrooms.Vault.Opened.{decrypt_payload-encrypt_payload, read_back}
use ombot.Chatrooms.Storage.{
  Disk, read_file, write_file, named_keys, normalize_participants, object_entries, StoredKeys,
  read_json_file, room_fields, kept_in, legacy_peer,
}

same_path_refl : (p : RoomPath) → same_path p p ≡ true
unfolding same_path
same_path_refl (agent_room a f) = ground (arith, eq_refl a, eq_refl f)
same_path_refl (legacy_room f) = eq_refl f

pub same_path-eq : (p q : RoomPath) → same_path p q ≡ true → p ≡ q
unfolding same_path
same_path-eq (agent_room a f) (agent_room b g) h = ground (arith, eq_iff a b, eq_iff f g)
same_path-eq (legacy_room f) (legacy_room g) h = ground (arith, eq_iff f g)
same_path-eq (agent_room a f) (legacy_room g) h = cc
same_path-eq (legacy_room f) (agent_room b g) h = cc

read_file-write_file :
    (p : RoomPath) (text : String) (disk : Disk) → read_file p (write_file p text disk) ≡ some text
unfolding read_file write_file
read_file-write_file p text [] = rw same_path_refl
read_file-write_file p text ((q, old) ∷ disk) = ground (arith, read_file-write_file p text disk)

pub read_file-write_file_other :
    (p q : RoomPath) (text : String) (disk : Disk)
    → same_path q p ≡ false
    → read_file p (write_file q text disk) ≡ read_file p disk
unfolding read_file write_file
read_file-write_file_other p q text [] h = rw h
read_file-write_file_other p q text ((r, old) ∷ disk) h = elim (Bool-cases (same_path r q)) [
  | inl there ↦ rw (there, same_path-eq r q there) (rw h)
  | inr elsewhere ↦ rw elsewhere (ground (arith, read_file-write_file_other p q text disk h))
]

-- A text under a name survives the filter of participants.
pub get_field-named_keys :
    (m q : String) (fs : Fields)
    → m ≢ ""
    → q ≢ ""
    → get_field m fs ≡ str q
    → get_field m (named_keys fs) ≡ str q
unfolding get_field named_keys
get_field-named_keys m q end hm hq h = h
get_field-named_keys m q (field k v fs) hm hq h =
    ground (arith, eq_iff k m, eq_iff k "", eq_iff q "", get_field-named_keys m q fs hm hq)

module _ (rt : Runtime) (gcm : Gcm) (iv : List ℕ) where
  module _ (public_key secret_key : String) (peer : Value) (participants : Fields) {pk sk : List ℕ}
      (public_named : public_key ≢ "") (secret_named : secret_key ≢ "")
      (public_decoded : rt.buffer_from (str public_key) ≡ some pk)
      (secret_decoded : rt.buffer_from (str secret_key) ≡ some sk) where
    abbrev pub fields : Fields
    fields = room_fields public_key secret_key peer participants

    -- what is read from the file that these keys were written to
    abbrev pub written_keys : StoredKeys
    written_keys = record {
      public_key = pk;
      secret_key = sk;
      peer_public_key_base64 =
          nullish_else (legacy_peer peer participants)
            (nullish_else (get_field "default" (named_keys participants)) null);
      peer_public_keys = named_keys participants;
    }

    public_text : (public_key == "") ≡ false
    public_text = ground (arith, eq_iff public_key "")

    secret_text : (secret_key == "") ≡ false
    secret_text = ground (arith, eq_iff secret_key "")

    kept_in-room_fields :
        (keys : List EncryptionKey)
        → kept_in rt gcm (some (obj (read_back fields keys))) ≡ some written_keys
    unfolding room_fields normalize_participants object_entries member get_field truthy set_field
        nullish_else is_object
    kept_in-room_fields [] = elim (Bool-cases (is_nullish (legacy_peer peer participants))) [
      | inl nothing ↦ rw (nothing, public_text, secret_text, public_decoded, secret_decoded) refl
      | inr there ↦ rw (there, public_text, secret_text, public_decoded, secret_decoded) (rw there)
    ]
    kept_in-room_fields (k ∷ keys) =
        elim (Bool-cases (is_nullish (legacy_peer peer participants))) [
          | inl nothing ↦
              rw (nothing, public_text, secret_text, public_decoded, secret_decoded) refl
          | inr there ↦
              rw (there, public_text, secret_text, public_decoded, secret_decoded) (rw there)
        ]

    module _ (decodes : (bytes : List ℕ) → rt.buffer_from (str (rt.base64 bytes)) ≡ some bytes)
        (authentic : (k : EncryptionKey)
          → gcm.unseal k.key iv (gcm.seal k.key iv (json (obj fields))) ≡ some (json (obj fields)))
        (parses : rt.parse_json (json (obj fields)) ≡ some (obj fields))
        (parses_file : rt.parse_json (json (encrypt_payload rt gcm iv fields))
          ≡ some (encrypt_payload rt gcm iv fields)) where
      pub read_json_file-write_file :
          (path : RoomPath) (disk : Disk)
          → read_json_file rt gcm path
              (write_file path (json (encrypt_payload rt gcm iv fields)) disk)
            ≡ some written_keys
      unfolding read_json_file
      read_json_file-write_file path disk =
          rw (read_file-write_file, parses_file)
            (rw (decrypt_payload-encrypt_payload rt gcm decodes iv fields parses authentic)
              (kept_in-room_fields (load_encryption_keys rt)))
