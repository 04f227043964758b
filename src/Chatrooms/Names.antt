-- ===== src/Chatrooms/Names.antt =====
-- chatroomStorage.js: `safeFilename` and the paths of the key files. A path is the part of it below
-- the data directory: the two directories, and the names in them.
pub mod Safe
use Prim.Native.String.{[], ◌∷◌}
use ombot.Prelude.{
  ℕ, String, code, Char, Bool, true, false, ◌&&◌, ◌||◌, leb, eqb, if◌then◌else◌, ◌==◌,
}
use ombot.Js.Text.{◌⧺◌, take_chars}
use ombot.Js.Value.{Value, str}

-- a character that `/[^a-zA-Z0-9_-]/` does not match
unfoldable pub is_safe : ℕ → Bool
is_safe n =
    (leb 97 n && leb n 122)
    || (leb 65 n && leb n 90)
    || (leb 48 n && leb n 57)
    || eqb n 95
    || eqb n 45

-- the regular expression sees UTF-16 units, of which a character past 65535 has two
unfoldable pub replaced : Char → String
unfolding is_safe
replaced c = if is_safe (code c) then c ∷ [] else if leb 65536 (code c) then "__" else "_"

-- `id.replace(/[^a-zA-Z0-9_-]/g, '_')`
unfoldable pub replace_unsafe : String → String
unfolding replaced
replace_unsafe [] = []
replace_unsafe (c ∷ s) = replaced c ⧺ replace_unsafe s

abbrev pub or_default : String → String
or_default s = if s == "" then "default" else s

unfoldable pub safe_filename : Value → String
unfolding replace_unsafe
safe_filename (str id) =
    if id == "" then "default" else or_default (take_chars 128 (replace_unsafe id))
safe_filename _ = "default"

pub data RoomPath : Type 0 where
  -- data/agents/<agent>/chatrooms/<file>
  agent_room : String → String → RoomPath
  -- data/chatrooms/<file>
  legacy_room : String → RoomPath

unfoldable pub agent_chatroom_path : Value → Value → RoomPath
unfolding safe_filename
agent_chatroom_path agent_id conversation_id =
    agent_room (safe_filename agent_id) (safe_filename conversation_id ⧺ ".json")

unfoldable pub legacy_chatroom_path : Value → RoomPath
unfolding safe_filename
legacy_chatroom_path conversation_id = legacy_room (safe_filename conversation_id ⧺ ".json")

unfoldable pub same_path : RoomPath → RoomPath → Bool
same_path (agent_room a f) (agent_room b g) = a == b && f == g
same_path (legacy_room f) (legacy_room g) = f == g
same_path _ _ = false
