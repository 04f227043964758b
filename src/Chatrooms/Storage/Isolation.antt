-- ===== src/Chatrooms/Storage/Isolation.antt =====
-- What saving the keys of one chatroom leaves alone, and which chatrooms have one file.
use ombot.Prelude.{
  ℕ, String, ◌≡◌, refl, ap, ◌≢◌, false, Option, List, arith, eq_iff, Bool-cases, inl, inr,
}
use ombot.Js.Value.{Value, str, Fields}
use ombot.Js.Json.{json}
use ombot.Js.Runtime.{Runtime}
use ombot.Chatrooms.Names.{
  RoomPath, agent_room, same_path, agent_chatroom_path, legacy_chatroom_path, replace_unsafe,
  safe_filename,
}
use ombot.Chatrooms.Vault.{Gcm, encrypt_payload}
use ombot.Chatrooms.Storage.{
  Disk, default_id, read_json_file, write_file, load_chatroom_keys, save_chatroom_keys, room_fields,
  merged_participants, base_participants,
}
use ombot.Chatrooms.Storage.Kept.{same_path-eq, read_file-write_file_other}
use ombot.Chatrooms.Storage.RoundTrip.{default_id_named}
use ombot.Js.Text.{◌⧺◌}

other_file : (p q : RoomPath) → p ≢ q → same_path p q ≡ false
other_file p q h = elim (Bool-cases (same_path p q)) [
  | inl same ↦ absurd (h (same_path-eq p q same))
  | inr other ↦ other
]

not_legacy :
    (agent conversation conversation' : Value)
    → same_path (agent_chatroom_path agent conversation) (legacy_chatroom_path conversation')
      ≡ false
unfolding same_path agent_chatroom_path legacy_chatroom_path
not_legacy agent conversation conversation' = refl

safe_filename-collision :
    (s t : String)
    → s ≢ ""
    → t ≢ ""
    → replace_unsafe s ≡ replace_unsafe t
    → safe_filename (str s) ≡ safe_filename (str t)
unfolding safe_filename
safe_filename-collision s t hs ht e = ground (arith, eq_iff s "", eq_iff t "")

path-collision :
    (s t : String) (conversation : Value)
    → s ≢ ""
    → t ≢ ""
    → replace_unsafe s ≡ replace_unsafe t
    → agent_chatroom_path (default_id (str s)) conversation
      ≡ agent_chatroom_path (default_id (str t)) conversation
unfolding agent_chatroom_path
path-collision s t conversation hs ht e =
    rw (default_id_named s hs, default_id_named t ht)
      (ap (λ name. agent_room name (safe_filename conversation ⧺ ".json"))
        (safe_filename-collision s t hs ht e))

module _ (rt : Runtime) (gcm : Gcm) where
  read_json_file-write_file_other :
      (p q : RoomPath) (text : String) (disk : Disk)
      → same_path q p ≡ false
      → read_json_file rt gcm p (write_file q text disk) ≡ read_json_file rt gcm p disk
  unfolding read_json_file
  read_json_file-write_file_other p q text disk h = rw (read_file-write_file_other p q text disk h)

  load-write_elsewhere :
      (agent conversation participant : Value) (q : RoomPath) (text : String) (disk : Disk)
      → same_path q (agent_chatroom_path (default_id agent) (default_id conversation)) ≡ false
      → same_path q (legacy_chatroom_path (default_id conversation)) ≡ false
      → load_chatroom_keys rt gcm agent conversation participant (write_file q text disk)
        ≡ load_chatroom_keys rt gcm agent conversation participant disk
  unfolding load_chatroom_keys
  load-write_elsewhere agent conversation participant q text disk new old = rw (
    read_json_file-write_file_other
        (agent_chatroom_path (default_id agent) (default_id conversation)) q text disk new,
    read_json_file-write_file_other (legacy_chatroom_path (default_id conversation)) q text disk
        old,
  )

  -- Saving the keys of a chatroom changes nothing that is loaded for a chatroom with another file.
  pub load-save_elsewhere :
      (iv : List ℕ) (agent_id conversation_id : Value) (public_key secret_key : String)
      (peer participant_id : Value) (peers : Option Fields) (disk : Disk)
      (agent' conversation' participant' : Value)
      → agent_chatroom_path (default_id agent_id) (default_id conversation_id)
        ≢ agent_chatroom_path (default_id agent') (default_id conversation')
      → load_chatroom_keys rt gcm agent' conversation' participant' (
          save_chatroom_keys rt gcm iv agent_id conversation_id public_key secret_key peer
            participant_id peers disk)
        ≡ load_chatroom_keys rt gcm agent' conversation' participant' disk
  unfolding load_chatroom_keys save_chatroom_keys
  load-save_elsewhere iv agent_id conversation_id public_key secret_key peer participant_id peers
        disk agent' conversation' participant' h =
      load-write_elsewhere agent' conversation' participant' _ _ disk (other_file _ _ h)
        (not_legacy _ _ _)

  -- Two agents whose identifiers differ only in characters that a file name may not have share their
  -- files: saving for the one is saving for the other.
  pub save-save_collision :
      (iv : List ℕ) (s t : String) (conversation_id : Value) (public_key secret_key : String)
      (peer participant_id : Value) (peers : Option Fields) (disk : Disk)
      → s ≢ ""
      → t ≢ ""
      → replace_unsafe s ≡ replace_unsafe t
      → save_chatroom_keys rt gcm iv
          (str s)
          conversation_id
          public_key
          secret_key
          peer
          participant_id
          peers
          disk
        ≡ save_chatroom_keys rt gcm iv
            (str t)
            conversation_id
            public_key
            secret_key
            peer
            participant_id
            peers
            disk
  unfolding save_chatroom_keys
  save-save_collision iv s t conversation_id public_key secret_key peer participant_id peers disk hs
        ht e =
      ap
        (λ path.
          write_file path
            (json (
              encrypt_payload rt gcm iv (
                room_fields public_key secret_key peer (
                  merged_participants (default_id participant_id) peer
                    (base_participants rt gcm peers path disk)))))
            disk)
        (path-collision s t (default_id conversation_id) hs ht e)
