-- ===== src/Chatrooms/Storage/RoundTrip.antt =====
-- Saving the keys of a chatroom and loading them again.
use ombot.Prelude.{
  ℕ, String, ◌≡◌, refl, ◌∙◌, ◌≢◌, ◌⊎◌, inl, inr, ap, false, Option, none, some, List, arith, eq_iff,
  ◌==◌,
}
use ombot.Js.Value.{
  Value, str, obj, Fields, get_field, truthy, is_nullish, or_else, nullish_else, to_text,
}
use ombot.Js.Json.{json}
use ombot.Js.Runtime.{Runtime}
use ombot.ConfigMerge.{set_field}
use ombot.ConfigMerge.Lookup.{get_field-set_field_same, get_field-set_field_other}
use ombot.Chatrooms.Names.{RoomPath, agent_chatroom_path}
use ombot.Chatrooms.Vault.{Gcm, EncryptionKey, encrypt_payload}
use ombot.Chatrooms.Storage.{
  Disk, named_keys, StoredKeys, default_id, base_participants, for_participant, room_fields,
  load_chatroom_keys, save_chatroom_keys, write_file, read_json_file,
}
use ombot.Chatrooms.Storage.Kept.{get_field-named_keys, written_keys, read_json_file-write_file}

pub default_id_named : (m : String) → m ≢ "" → default_id (str m) ≡ str m
unfolding or_else truthy
default_id_named m h = let named : (m == "") ≡ false = ground (arith, eq_iff m "") in rw named refl

for_participant_lem :
    (m q : String) (kept : StoredKeys)
    → m ≢ ""
    → get_field m kept.peer_public_keys ≡ str q
    → for_participant (default_id (str m)) (some kept)
      ≡ some (record kept { peer_public_key_base64 = str q })
unfolding to_text nullish_else
for_participant_lem m q kept h e = rw (default_id_named m h) (rw e refl)

module _ (rt : Runtime) (gcm : Gcm) (iv : List ℕ) (agent_id conversation_id : Value)
    (public_key secret_key participant peer : String) (peers : Option Fields) (disk : Disk) where
  abbrev pub path : RoomPath
  path = agent_chatroom_path (default_id agent_id) (default_id conversation_id)

  -- the participants as they are saved: those of the call or of the file, with one key replaced
  abbrev pub saved_participants : Fields
  saved_participants = set_field participant (str peer) (base_participants rt gcm peers path disk)

  abbrev pub saved_fields : Fields
  saved_fields = room_fields public_key secret_key (str peer) saved_participants

  abbrev pub saved : Disk
  saved =
      save_chatroom_keys rt gcm iv agent_id conversation_id public_key secret_key (str peer)
        (str participant) peers disk

  -- the participants before the saving
  base_stored :
      (kept : StoredKeys)
      → (peers ≡ none) ⊎ (peers ≡ some kept.peer_public_keys)
      → read_json_file rt gcm path disk ≡ some kept
      → base_participants rt gcm peers path disk ≡ kept.peer_public_keys
  base_stored kept (inl e) stored = rw (e, stored) refl
  base_stored kept (inr e) stored = rw e refl

  load-stored :
      (m q : String) (kept : StoredKeys)
      → m ≢ ""
      → read_json_file rt gcm path disk ≡ some kept
      → get_field m kept.peer_public_keys ≡ str q
      → load_chatroom_keys rt gcm agent_id conversation_id (str m) disk
        ≡ some (record kept { peer_public_key_base64 = str q })
  unfolding load_chatroom_keys
  load-stored m q kept hm stored has = rw stored (for_participant_lem m q kept hm has)

  module _ {pk sk : List ℕ}
      (decodes : (bytes : List ℕ) → rt.buffer_from (str (rt.base64 bytes)) ≡ some bytes)
      (authentic : (k : EncryptionKey)
        → gcm.unseal k.key iv (gcm.seal k.key iv (json (obj saved_fields)))
          ≡ some (json (obj saved_fields)))
      (parses : rt.parse_json (json (obj saved_fields)) ≡ some (obj saved_fields))
      (parses_file : rt.parse_json (json (encrypt_payload rt gcm iv saved_fields))
        ≡ some (encrypt_payload rt gcm iv saved_fields))
      (public_named : public_key ≢ "") (secret_named : secret_key ≢ "")
      (participant_named : participant ≢ "") (peer_named : peer ≢ "")
      (public_decoded : rt.buffer_from (str public_key) ≡ some pk)
      (secret_decoded : rt.buffer_from (str secret_key) ≡ some sk) where
    -- the key pair, and the key of one participant
    abbrev pub loaded_keys : String → StoredKeys
    loaded_keys q = record {
      public_key = pk;
      secret_key = sk;
      peer_public_key_base64 = str q;
      peer_public_keys = named_keys saved_participants;
    }

    saved-write_file : saved ≡ write_file path (json (encrypt_payload rt gcm iv saved_fields)) disk
    unfolding save_chatroom_keys is_nullish to_text
    saved-write_file = rw (default_id_named participant participant_named) refl

    load-save_named :
        (m q : String)
        → m ≢ ""
        → q ≢ ""
        → get_field m saved_participants ≡ str q
        → load_chatroom_keys rt gcm agent_id conversation_id (str m) saved ≡ some (loaded_keys q)
    unfolding load_chatroom_keys
    load-save_named m q hm hq e = rw saved-write_file (
        rw
          (read_json_file-write_file rt gcm iv public_key secret_key (str peer) saved_participants
            public_named secret_named public_decoded secret_decoded decodes authentic parses
            parses_file path disk)
          (for_participant_lem m q
            (written_keys rt gcm iv public_key secret_key (str peer) saved_participants public_named
              secret_named public_decoded secret_decoded)
            hm (get_field-named_keys m q saved_participants hm hq e)))

    -- Saving a participant's key and loading gives the key pair and that key back, encrypted or not.
    pub load-save :
        load_chatroom_keys rt gcm agent_id conversation_id (str participant) saved
        ≡ some (loaded_keys peer)
    load-save =
        load-save_named participant peer participant_named peer_named
          (get_field-set_field_same _ _ _)

    -- Where the keys of the participants are those of the chatroom's own file, read there by the call
    -- or passed to it, every other participant that has a key in that file is loaded with that key
    -- before the saving and after it.
    pub load-save_other :
        (m q : String) (kept : StoredKeys)
        → m ≢ ""
        → q ≢ ""
        → m ≢ participant
        → (peers ≡ none) ⊎ (peers ≡ some kept.peer_public_keys)
        → read_json_file rt gcm path disk ≡ some kept
        → get_field m kept.peer_public_keys ≡ str q
        → (load_chatroom_keys rt gcm agent_id conversation_id (str m) disk
            ≡ some (record kept { peer_public_key_base64 = str q }))
          × (load_chatroom_keys rt gcm agent_id conversation_id (str m) saved
              ≡ some (loaded_keys q))
    load-save_other m q kept hm hq other from_file stored has = (
      load-stored m q kept hm stored has,
      load-save_named m q hm hq (
          get_field-set_field_other m participant (str peer) _
            (ground (arith, eq_iff participant m))
          ∙ (ap (get_field m) (base_stored kept from_file stored) ∙ has)),
    )
