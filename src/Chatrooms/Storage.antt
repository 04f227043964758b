-- ===== src/Chatrooms/Storage.antt =====
-- chatroomStorage.js: reading and writing a key file, and what is kept in it: the key pair of the
-- chatroom, and the public key of each participant. The disk is a list of paths with texts; a write
-- succeeds, and directories are made as they are needed. A participant is not called like a property
-- that every object inherits, and one that is called like an array index is not moved to the front.
pub mod Kept
pub mod RoundTrip
pub mod Isolation
pub mod PeerKey
use Prim.Native.String.{[], ◌∷◌}
use mathlib.Core.List.{[], ◌∷◌}
use ombot.Prelude.{
  ℕ, zero, suc, ◌+◌, String, Bool, true, false, ◌&&◌, not, Option, none, some, List, if◌then◌else◌,
  ◌==◌,
}
use ombot.Js.Text.{decimal, ends_with}
use ombot.Js.Value.{
  Value, undefined, null, bool, num, str, arr, obj, Items, nil, cons, Fields, end, field, get_field,
  member, truthy, is_nullish, is_object, or_else, nullish_else, is_text, to_text,
}
use ombot.Js.Json.{json}
use ombot.Js.Runtime.{Runtime}
use ombot.ConfigMerge.{set_field}
use ombot.Chatrooms.Names.{
  RoomPath, agent_room, same_path, agent_chatroom_path, legacy_chatroom_path,
}
use ombot.Chatrooms.Vault.{
  Gcm, EncryptionKey, load_encryption_keys, encrypt_payload, decrypt_payload,
}

abbrev pub Disk : Type 0
Disk = List (RoomPath × String)

-- `readFileSync`; `none` where it throws
unfoldable pub read_file : RoomPath → Disk → Option String
unfolding same_path
read_file path [] = none
read_file path ((p, text) ∷ disk) = if same_path p path then some text else read_file path disk

-- `writeFileSync`
unfoldable pub write_file : RoomPath → String → Disk → Disk
unfolding same_path
write_file path text [] = (path, text) ∷ []
write_file path text ((p, old) ∷ disk) =
    let rest = write_file path text disk in
    if same_path p path then (p, text) ∷ disk else (p, old) ∷ rest

-- `Object.entries` of an array: the indices are the keys
unfoldable pub index_entries : ℕ → Items → Fields
index_entries idx nil = end
index_entries idx (cons v items) = field (decimal idx) v (index_entries (idx + 1) items)

-- `Object.entries`
unfoldable pub object_entries : Value → Fields
unfolding index_entries
object_entries (obj fs) = fs
object_entries (arr items) = index_entries 0 items
object_entries _ = end

-- `typeof v === 'string' && v`
abbrev pub is_key_text : Value → Bool
is_key_text (str s) = not (s == "")
is_key_text _ = false

-- the entries with a name and a text
unfoldable pub named_keys : Fields → Fields
named_keys end = end
named_keys (field k v fs) =
    if not (k == "") && is_key_text v then field k v (named_keys fs) else named_keys fs

unfoldable pub normalize_participants : Value → Fields
unfolding object_entries named_keys
normalize_participants v =
    if is_object (member v "participants")
    then named_keys (object_entries (member v "participants"))
    else if truthy (member v "peerPublicKeyBase64")
    then field "default" (member v "peerPublicKeyBase64") end
    else end

-- what `readJsonFile` returns
pub record StoredKeys : Type 0 where
  pub public_key : List ℕ
  pub secret_key : List ℕ
  pub peer_public_key_base64 : Value
  pub peer_public_keys : Fields

abbrev pub default_id : Value → Value
default_id id = or_else id (str "default")

-- `data?.peerPublicKeys || {}`
abbrev pub participants_of : Option StoredKeys → Fields
participants_of none = end
participants_of (some kept) = kept.peer_public_keys

-- `{ ...data, peerPublicKeyBase64: … }`
abbrev pub for_participant : Value → Option StoredKeys → Option StoredKeys
for_participant pid none = none
for_participant pid (some kept) = some (record kept {
  peer_public_key_base64 = nullish_else (get_field (to_text pid) kept.peer_public_keys) (
      nullish_else (get_field "default" kept.peer_public_keys)
        (nullish_else kept.peer_public_key_base64 null));
})

abbrev pub or_legacy : Bool → Option StoredKeys → Option StoredKeys → Option StoredKeys
or_legacy _ (some kept) legacy = some kept
or_legacy true none legacy = legacy
or_legacy false none legacy = none

abbrev pub merged_participants : Value → Value → Fields → Fields
merged_participants pid peer base =
    if is_nullish peer then base else set_field (to_text pid) peer base

abbrev pub with_legacy_peer : Value → Fields → Fields
with_legacy_peer peer fs = if is_nullish peer then fs else field "peerPublicKeyBase64" peer fs

-- `mergedParticipants.default ?? peerPublicKeyBase64 ?? null`
abbrev pub legacy_peer : Value → Fields → Value
legacy_peer peer participants =
    nullish_else (get_field "default" participants) (nullish_else peer null)

unfoldable pub room_fields : String → String → Value → Fields → Fields
room_fields public_key secret_key peer participants = field "publicKeyBase64" (str public_key) (
    field "secretKeyBase64" (str secret_key) (
      with_legacy_peer (legacy_peer peer participants)
        (field "participants" (obj participants) end)))

-- what `rotateChatroomKeysEncryptionSync` counts, and the disk that it leaves
pub record Rotation : Type 0 where
  pub disk : Disk
  pub rotated : ℕ
  pub skipped : ℕ

-- `file.replace(/\.json$/, '')`
unfoldable pub without_extension : String → String
without_extension [] = []
without_extension (c ∷ s) = if (c ∷ s) == ".json" then [] else c ∷ without_extension s

module _ (rt : Runtime) (gcm : Gcm) where
  -- `none` where `Buffer.from` throws
  abbrev pub kept_with : Value → Option (List ℕ) → Option (List ℕ) → Option StoredKeys
  kept_with v (some public_key) (some secret_key) = some record {
    public_key = public_key;
    secret_key = secret_key;
    peer_public_key_base64 =
        nullish_else (member v "peerPublicKeyBase64")
          (nullish_else (get_field "default" (normalize_participants v)) null);
    peer_public_keys = normalize_participants v;
  }
  kept_with v _ _ = none

  abbrev pub kept_in : Option Value → Option StoredKeys
  kept_in none = none
  kept_in (some v) =
      if truthy (member v "publicKeyBase64") && truthy (member v "secretKeyBase64")
      then kept_with v (rt.buffer_from (member v "publicKeyBase64"))
          (rt.buffer_from (member v "secretKeyBase64"))
      else none

  abbrev pub kept_in_json : Option Value → Option StoredKeys
  kept_in_json none = none
  kept_in_json (some v) = kept_in (decrypt_payload rt gcm v)

  abbrev pub kept_in_text : Option String → Option StoredKeys
  kept_in_text none = none
  kept_in_text (some raw) = kept_in_json (rt.parse_json raw)

  -- `none` where it returns null: on every exception, and where a key is missing
  unfoldable pub read_json_file : RoomPath → Disk → Option StoredKeys
  unfolding read_file normalize_participants
  read_json_file path disk = kept_in_text (read_file path disk)

  unfoldable pub load_chatroom_keys : Value → Value → Value → Disk → Option StoredKeys
  load_chatroom_keys agent_id conversation_id participant_id disk =
      let aid = default_id agent_id in
      let cid = default_id conversation_id in
      for_participant (default_id participant_id) (
        or_legacy (is_text aid "default") (read_json_file (agent_chatroom_path aid cid) disk)
          (read_json_file (legacy_chatroom_path cid) disk))

  -- `none` for `peerPublicKeys` that is null
  abbrev pub base_participants : Option Fields → RoomPath → Disk → Fields
  base_participants none path disk = participants_of (read_json_file path disk)
  base_participants (some peers) path disk = peers

  -- `iv` is what `crypto.randomBytes(12)` returns
  unfoldable pub save_chatroom_keys :
      List ℕ → Value → Value → String → String → Value → Value → Option Fields → Disk → Disk
  save_chatroom_keys iv agent_id conversation_id public_key secret_key peer participant_id peers
        disk =
      let path = agent_chatroom_path (default_id agent_id) (default_id conversation_id) in
      let participants =
        merged_participants (default_id participant_id) peer (base_participants peers path disk) in
      write_file path
        (json (encrypt_payload rt gcm iv (room_fields public_key secret_key peer participants)))
        disk

  abbrev pub save_peer_over :
      List ℕ → Value → Value → Value → Value → Option StoredKeys → Disk → Disk
  save_peer_over iv agent_id conversation_id peer participant_id none disk = disk
  save_peer_over iv agent_id conversation_id peer participant_id (some kept) disk =
      save_chatroom_keys iv agent_id conversation_id (rt.base64 kept.public_key)
        (rt.base64 kept.secret_key) peer participant_id (some kept.peer_public_keys) disk

  unfoldable pub save_chatroom_peer_key : List ℕ → Value → Value → Value → Value → Disk → Disk
  save_chatroom_peer_key iv agent_id conversation_id peer participant_id disk =
      save_peer_over iv agent_id conversation_id peer participant_id
        (load_chatroom_keys agent_id conversation_id participant_id disk) disk

  abbrev pub rotate_kept : (ℕ → List ℕ) → String → String → Option StoredKeys → Rotation → Rotation
  rotate_kept ivs aid file none r = record r { skipped = r.skipped + 1 }
  rotate_kept ivs aid file (some kept) r = record r {
    disk =
        save_chatroom_keys (ivs r.rotated) (str aid) (str (without_extension file))
          (rt.base64 kept.public_key) (rt.base64 kept.secret_key) kept.peer_public_key_base64
          (str "default") (some kept.peer_public_keys) r.disk;
    rotated = r.rotated + 1;
  }

  unfoldable pub rotate_file : (ℕ → List ℕ) → String → String → Rotation → Rotation
  unfolding without_extension
  rotate_file ivs aid file r =
      if ends_with file ".json"
      then rotate_kept ivs aid file (read_json_file (agent_room aid file) r.disk) r
      else r

  unfoldable pub rotate_agent : (ℕ → List ℕ) → String → List String → Rotation → Rotation
  rotate_agent ivs aid [] r = r
  rotate_agent ivs aid (file ∷ files) r = rotate_agent ivs aid files (rotate_file ivs aid file r)

  unfoldable pub rotate_agents : (ℕ → List ℕ) → List (String × List String) → Rotation → Rotation
  rotate_agents ivs [] r = r
  rotate_agents ivs ((aid, files) ∷ agents) r =
      rotate_agents ivs agents (rotate_agent ivs aid files r)

  abbrev pub rotate_with :
      (ℕ → List ℕ) → List (String × List String) → Disk → List EncryptionKey → Rotation
  rotate_with ivs agents disk [] = record { disk = disk; rotated = 0; skipped = 0 }
  rotate_with ivs agents disk (k ∷ keys) =
      rotate_agents ivs agents (record { disk = disk; rotated = 0; skipped = 0 })

  -- `agents` is what `readdirSync` gives: each directory of an agent that has one of chatrooms, with
  -- the files in that. `ivs n` is what the call of `crypto.randomBytes(12)` number `n` returns.
  unfoldable pub rotate_chatroom_keys_encryption :
      (ℕ → List ℕ) → List (String × List String) → Disk → Rotation
  rotate_chatroom_keys_encryption ivs agents disk =
      rotate_with ivs agents disk (load_encryption_keys rt)
