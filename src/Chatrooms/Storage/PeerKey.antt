-- ===== src/Chatrooms/Storage/PeerKey.antt =====
-- Replacing the key of one participant keeps the key pair of the chatroom.
use ombot.Prelude.{ℕ, String, ◌≡◌, ◌≢◌, some, List}
use ombot.Js.Value.{Value, str, obj, Fields}
use ombot.Js.Json.{json}
use ombot.Js.Runtime.{Runtime}
use ombot.ConfigMerge.{set_field}
use ombot.Chatrooms.Vault.{Gcm, EncryptionKey, encrypt_payload}
use ombot.Chatrooms.Storage.{
  Disk, named_keys, StoredKeys, room_fields, load_chatroom_keys, save_chatroom_peer_key,
}
use ombot.Chatrooms.Storage.RoundTrip.{load-save}

module _ (rt : Runtime) (gcm : Gcm) (iv : List ℕ) (agent_id conversation_id : Value)
    (participant peer : String) (kept : StoredKeys) (disk : Disk) where
  abbrev pub replaced_participants : Fields
  replaced_participants = set_field participant (str peer) kept.peer_public_keys

  abbrev pub replaced_fields : Fields
  replaced_fields =
      room_fields (rt.base64 kept.public_key) (rt.base64 kept.secret_key) (str peer)
        replaced_participants

  -- Where a chatroom has keys, replacing the key of a participant and loading gives the same key pair
  -- with the new key.
  load-save_chatroom_peer_key :
      load_chatroom_keys rt gcm agent_id conversation_id (str participant) disk ≡ some kept
      → ((bytes : List ℕ) → rt.buffer_from (str (rt.base64 bytes)) ≡ some bytes)
      → ((k : EncryptionKey)
          → gcm.unseal k.key iv (gcm.seal k.key iv (json (obj replaced_fields)))
            ≡ some (json (obj replaced_fields)))
      → rt.parse_json (json (obj replaced_fields)) ≡ some (obj replaced_fields)
      → rt.parse_json (json (encrypt_payload rt gcm iv replaced_fields))
        ≡ some (encrypt_payload rt gcm iv replaced_fields)
      → rt.base64 kept.public_key ≢ ""
      → rt.base64 kept.secret_key ≢ ""
      → participant ≢ ""
      → peer ≢ ""
      → load_chatroom_keys rt gcm agent_id conversation_id (str participant) (
          save_chatroom_peer_key rt gcm iv agent_id conversation_id
            (str peer)
            (str participant)
            disk)
        ≡ some (record kept {
          peer_public_key_base64 = str peer;
          peer_public_keys = named_keys replaced_participants;
        })
  unfolding save_chatroom_peer_key
  load-save_chatroom_peer_key loaded decodes authentic parses parses_file hp hs hn hk = rw loaded (
      load-save rt gcm iv agent_id conversation_id (rt.base64 kept.public_key)
        (rt.base64 kept.secret_key) participant peer (some kept.peer_public_keys) disk decodes
        authentic parses parses_file hp hs hn hk (decodes kept.public_key)
        (decodes kept.secret_key))
