-- ===== src/Examples/Rooms.antt =====
-- Key files of chatrooms: a world with one encryption key, and the theorems in it.
use Prim.Native.String.{[], ◌∷◌, char_at}
use mathlib.Core.List.{[], ◌∷◌}
use ombot.Prelude.{
  ℕ, zero, suc, ◌+◌, String, code, ◌≡◌, refl, ap, ◌∙◌, ◌≢◌, true, false, Option, none, some, List,
  inl, arith, eq_iff, eqb, if◌then◌else◌, ◌==◌,
}
use ombot.Js.Text.{◌⧺◌, take_chars}
use ombot.Js.Value.{nonneg, Value, num, str, obj, Fields, end, field, or_else, truthy}
use ombot.Js.Json.{json}
use ombot.Js.Runtime.{Runtime}
use ombot.Chatrooms.Names.{agent_room, agent_chatroom_path, safe_filename}
use ombot.Chatrooms.Names.Safe.{IsFileName, safe_filename-IsFileName}
use ombot.Chatrooms.Vault.{
  Gcm, EncryptionKey, encrypt_payload, decrypt_payload, encrypt_under, load_encryption_keys,
}
use ombot.Chatrooms.Vault.Opened.{decrypt_payload-rotated}
use ombot.Chatrooms.Storage.{
  Disk, StoredKeys, default_id, room_fields, load_chatroom_keys, save_chatroom_keys,
  save_chatroom_peer_key,
}
use ombot.Chatrooms.Storage.RoundTrip.{load-save, load-save_other}
use ombot.Chatrooms.Storage.Isolation.{load-save_elsewhere, save-save_collision}
use ombot.Examples.World

-- Bytes as text: for each byte that many letters `a`, and a `b`.
abbrev unary : ℕ → String → String
unary zero s = char_at "b" 0 ∷ s
unary (suc n) s = char_at "a" 0 ∷ unary n s

abbrev encode : List ℕ → String
encode [] = ""
encode (n ∷ bytes) = unary n (encode bytes)

abbrev decode : ℕ → String → List ℕ
decode acc [] = []
decode acc (c ∷ s) = elim (eqb (code c) b'a') [
  | true ↦ decode (suc acc) s
  | false ↦ acc ∷ decode 0 s
]

decode-unary : (n acc : ℕ) (s : String) → decode acc (unary n s) ≡ (acc + n) ∷ decode 0 s
decode-unary zero acc s = ap (λ (n : ℕ). n ∷ decode 0 s) (omega arith)
decode-unary (suc n) acc s =
    decode-unary n (suc acc) s ∙ ap (λ (m : ℕ). m ∷ decode 0 s) (omega arith)

decode-encode : (bytes : List ℕ) → decode 0 (encode bytes) ≡ bytes
decode-encode [] = refl
decode-encode (n ∷ bytes) =
    decode-unary n 0 (encode bytes)
    ∙ (ap (λ (m : ℕ). m ∷ decode 0 (encode bytes)) (omega arith)
        ∙ ap (λ (bs : List ℕ). n ∷ bs) (decode-encode bytes))

abbrev bytes_from : Value → Option (List ℕ)
bytes_from (str s) = some (decode 0 s)
bytes_from _ = none

decoded : (bytes : List ℕ) → bytes_from (str (encode bytes)) ≡ some bytes
decoded bytes = ap some (decode-encode bytes)

-- thirty-two bytes that are zero
abbrev env_keys : String
env_keys = "bbbbbbbbbbbbbbbbbbbbbbbbbbbbbbbb"

abbrev vault_key : EncryptionKey
vault_key = record { id = "k1"; key = decode 0 env_keys }

-- the world without its parser
abbrev blank_world : Runtime
blank_world = record World.rt {
  buffer_from = bytes_from;
  base64 = encode;
  env = λ name. if name == "OPENCLAW_KEY_ENCRYPTION_KEYS" then some env_keys else none;
}

-- a cipher that opens every file as one text
abbrev opens_as : Fields → Gcm
opens_as fs = record {
  seal = λ key iv text. record { bytes = 1 ∷ []; tag = 2 ∷ [] };
  unseal = λ key iv sealed. some (json (obj fs));
}

-- a parser of the two texts that occur: a key file, and the keys in it
abbrev parsing : Fields → Runtime
parsing fs = record blank_world {
  parse_json = λ s.
      if s == json (encrypt_payload blank_world (opens_as fs) [] fs)
      then some (encrypt_payload blank_world (opens_as fs) [] fs)
      else if s == json (obj fs)
      then some (obj fs)
      else none;
}

abbrev alice_fields : Fields
alice_fields = room_fields "ab" "b" (str "aab") (field "alice" (str "aab") end)

abbrev rt : Runtime
rt = parsing alice_fields

abbrev gcm : Gcm
gcm = opens_as alice_fields

abbrev rooms : Disk
rooms =
    save_chatroom_keys rt gcm [] (str "bot 1") (str "room/7") "ab" "b" (str "aab") (str "alice")
      none []

stored_under : agent_chatroom_path (str "bot 1") (str "room/7") ≡ agent_room "bot_1" "room_7.json"
unfolding agent_chatroom_path ombot.Js.Text.take_chars
stored_under = refl

load-save_example :
    load_chatroom_keys rt gcm (str "bot 1") (str "room/7") (str "alice") rooms
    ≡ some record {
      public_key = 1 ∷ [];
      secret_key = 0 ∷ [];
      peer_public_key_base64 = str "aab";
      peer_public_keys = field "alice" (str "aab") end;
    }
unfolding ombot.ConfigMerge.set_field ombot.Chatrooms.Storage.read_json_file json ombot.Js.Text.join
    room_fields ombot.Js.Json.quote ombot.Js.Value.is_nullish ombot.Js.Value.nullish_else
    ombot.Js.Value.get_field encrypt_payload ombot.Js.Text.trim ombot.Js.Text.split
    ombot.Js.Json.json_number
load-save_example =
    load-save rt gcm [] (str "bot 1") (str "room/7") "ab" "b" "alice" "aab" none [] decoded
      (λ k. refl) refl refl (λ e. cc) (λ e. cc) (λ e. cc) (λ e. cc) refl refl

-- A file without encryption that has a key of Bob, and the file after one of Alice was saved.
abbrev bob_fields : Fields
bob_fields = room_fields "ab" "b" (str "ab") (field "bob" (str "ab") end)

abbrev both_fields : Fields
both_fields =
    room_fields "ab" "b" (str "aab") (field "bob" (str "ab") (field "alice" (str "aab") end))

abbrev keyless : Runtime
keyless = record blank_world { env = λ name. none }

abbrev plain_rt : Runtime
plain_rt = record keyless {
  parse_json = λ s.
      if s == json (encrypt_payload keyless (opens_as both_fields) [] both_fields)
      then some (encrypt_payload keyless (opens_as both_fields) [] both_fields)
      else if s == json (obj both_fields)
      then some (obj both_fields)
      else if s == json (obj bob_fields)
      then some (obj bob_fields)
      else none;
}

abbrev bobs_disk : Disk
bobs_disk = (agent_room "bot_1" "room_7.json", json (obj bob_fields)) ∷ []

abbrev bobs_keys : StoredKeys
bobs_keys = record {
  public_key = 1 ∷ [];
  secret_key = 0 ∷ [];
  peer_public_key_base64 = str "ab";
  peer_public_keys = field "bob" (str "ab") end;
}

abbrev both_disk : Disk
both_disk =
    save_chatroom_keys plain_rt (opens_as both_fields) [] (str "bot 1") (str "room/7") "ab" "b"
      (str "aab") (str "alice") none bobs_disk

load-save_other_example :
    (load_chatroom_keys plain_rt
        (opens_as both_fields)
        (str "bot 1")
        (str "room/7")
        (str "bob")
        bobs_disk
      ≡ some bobs_keys)
    × (load_chatroom_keys plain_rt
          (opens_as both_fields)
          (str "bot 1")
          (str "room/7")
          (str "bob")
          both_disk
        ≡ some record {
          public_key = 1 ∷ [];
          secret_key = 0 ∷ [];
          peer_public_key_base64 = str "ab";
          peer_public_keys = field "bob" (str "ab") (field "alice" (str "aab") end);
        })
unfolding ombot.ConfigMerge.set_field ombot.Chatrooms.Storage.read_json_file json ombot.Js.Text.join
    room_fields ombot.Js.Json.quote ombot.Js.Value.is_nullish ombot.Js.Value.nullish_else
    ombot.Js.Value.get_field encrypt_payload ombot.Js.Text.trim ombot.Js.Text.split
    ombot.Js.Json.json_number ombot.Chatrooms.Storage.named_keys agent_chatroom_path or_else
    take_chars decrypt_payload ombot.Js.Value.is_object ombot.Js.Value.member truthy
load-save_other_example =
    load-save_other plain_rt (opens_as both_fields) [] (str "bot 1") (str "room/7") "ab" "b" "alice"
      "aab" none bobs_disk decoded (λ k. refl) refl refl (λ e. cc) (λ e. cc) (λ e. cc) (λ e. cc)
      refl refl "bob" "ab" bobs_keys (λ e. cc) (λ e. cc) (λ e. cc) (inl refl) refl refl

other_room :
    agent_chatroom_path (default_id (str "bot 1")) (default_id (str "room/7"))
    ≢ agent_chatroom_path (default_id (str "bot 2")) (default_id (str "room/7"))
unfolding agent_chatroom_path or_else truthy take_chars
other_room e = ground (arith, eq_iff "bot_1" "bot_2")

load-save_elsewhere_example :
    load_chatroom_keys rt gcm (str "bot 2") (str "room/7") (str "alice") (
      save_chatroom_keys rt gcm []
        (str "bot 1")
        (str "room/7")
        "ab"
        "b"
        (str "aab")
        (str "alice")
        none
        rooms)
    ≡ load_chatroom_keys rt gcm (str "bot 2") (str "room/7") (str "alice") rooms
load-save_elsewhere_example =
    load-save_elsewhere rt gcm [] (str "bot 1") (str "room/7") "ab" "b" (str "aab") (str "alice")
      none rooms (str "bot 2") (str "room/7") (str "alice") other_room

save-save_collision_example :
    save_chatroom_keys rt gcm []
      (str "bot 1")
      (str "room/7")
      "ab"
      "b"
      (str "aab")
      (str "alice")
      none
      rooms
    ≡ save_chatroom_keys rt gcm []
        (str "bot_1")
        (str "room/7")
        "ab"
        "b"
        (str "aab")
        (str "alice")
        none
        rooms
unfolding ombot.Chatrooms.Names.replace_unsafe
save-save_collision_example =
    save-save_collision rt gcm [] "bot 1" "bot_1" (str "room/7") "ab" "b" (str "aab") (str "alice")
      none rooms (λ e. cc) (λ e. cc) refl

safe_filename-IsFileName_example : IsFileName (safe_filename (str "../../etc/passwd"))
safe_filename-IsFileName_example = safe_filename-IsFileName (str "../../etc/passwd")

-- Two keys; a file is opened by the second alone.
abbrev two_keys : String
two_keys = "bbbbbbbbbbbbbbbbbbbbbbbbbbbbbbbb,abbbbbbbbbbbbbbbbbbbbbbbbbbbbbbbb"

abbrev rotated_rt : Runtime
rotated_rt = record rt {
  env = λ name. if name == "OPENCLAW_KEY_ENCRYPTION_KEYS" then some two_keys else none;
}

abbrev older_key : EncryptionKey
older_key = record { id = "k2"; key = decode 0 "abbbbbbbbbbbbbbbbbbbbbbbbbbbbbbbb" }

abbrev rotated_gcm : Gcm
rotated_gcm = record {
  seal = λ key iv text. record { bytes = 1 ∷ []; tag = 2 ∷ [] };
  unseal = λ key iv sealed.
      if encode key == "abbbbbbbbbbbbbbbbbbbbbbbbbbbbbbbb"
      then some (json (obj alice_fields))
      else none;
}

decrypt_payload-rotated_example :
    decrypt_payload rotated_rt rotated_gcm
      (encrypt_under rotated_rt rotated_gcm [] alice_fields (older_key ∷ []))
    ≡ some (obj alice_fields)
unfolding json ombot.Js.Text.join room_fields ombot.Js.Json.quote ombot.Js.Value.is_nullish
    ombot.Js.Value.nullish_else ombot.Js.Value.get_field encrypt_payload ombot.Js.Text.trim
    ombot.Js.Text.split ombot.Js.Json.json_number ombot.Chatrooms.Vault.try_key
decrypt_payload-rotated_example =
    decrypt_payload-rotated rotated_rt rotated_gcm decoded [] alice_fields refl (vault_key ∷ []) []
      older_key refl refl (refl, tt)
