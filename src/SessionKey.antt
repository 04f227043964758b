-- ===== src/SessionKey.antt =====
-- sessionKey.js and gatewayTurnAgentId.js: the names of tunnels and of agents.
pub mod Names
pub mod Agent
use Prim.Native.String.{[], ◌∷◌, char_at}
use mathlib.Core.List.{[], ◌∷◌}
use ombot.Prelude.{
  ℕ, ◌+◌, ◌-◌, ◌/◌, ◌%◌, Char, code, String, Bool, true, false, not, ◌&&◌, ◌||◌, Option, none, some,
  List, leb, ltb, eqb, if◌then◌else◌, ◌==◌,
}
use ombot.Js.Text.{◌⧺◌, trim, to_lower_case, ends_with}
use ombot.Js.Value.{Value, is_nullish, to_text}
use ombot.Js.Runtime.{Runtime, env_or}

-- `v == null ? '' : String(v).trim()`
unfoldable pub id_text : Value → String
id_text v = if is_nullish v then "" else trim (to_text v)

-- `t || 'default'`
abbrev pub or_default : String → String
or_default t = if t == "" then "default" else t

-- `normalizeAgentId`, `normalizeConversationId` and `normalizeParticipantId`, which are alike
unfoldable pub normalize_id : Value → String
normalize_id v = or_default (id_text v)

unfoldable pub session_key_input : Value → Value → Value → String
session_key_input agent conversation participant =
    if id_text participant == ""
    then normalize_id agent ⧺ "\n" ⧺ normalize_id conversation
    else normalize_id agent ⧺ "\n" ⧺ normalize_id conversation ⧺ "\n" ⧺ normalize_id participant

-- `replace(/\+/g, '-').replace(/\//g, '_').replace(/=/g, '')`
unfoldable pub base64_url_encode : String → String
base64_url_encode [] = []
base64_url_encode (c ∷ s) =
    let rest = base64_url_encode s in
    if eqb (code c) b'+'
    then char_at "-" 0 ∷ rest
    else if eqb (code c) b'/'
    then char_at "_" 0 ∷ rest
    else if eqb (code c) b'='
    then rest
    else c ∷ rest

-- `replace(/\/$/, '')`
unfoldable pub drop_last_slash : String → String
drop_last_slash [] = []
drop_last_slash (c ∷ s) =
    let rest = drop_last_slash s in if s == "" && eqb (code c) b'/' then [] else c ∷ rest

unfoldable pub normalize_middleware_base : String → String
unfolding drop_last_slash
normalize_middleware_base url =
    let bare = drop_last_slash (trim url) in
    let u = if bare == "" then "ws://127.0.0.1:8081/ws" else bare in
    if ends_with (to_lower_case u) "/ws" then u else u ⧺ "/ws"

-- what `encodeURIComponent` leaves as it is
unfoldable pub is_unreserved : ℕ → Bool
is_unreserved n =
    (leb 65 n && leb n 90)
    || (leb 97 n && leb n 122)
    || (leb 48 n && leb n 57)
    || eqb n b'-'
    || eqb n b'_'
    || eqb n b'.'
    || eqb n b'!'
    || eqb n b'~'
    || eqb n b'*'
    || eqb n 39
    || eqb n b'('
    || eqb n b')'

abbrev percent : ℕ → String
percent n =
    char_at "%" 0 ∷ char_at "0123456789ABCDEF" (n / 16) ∷ char_at "0123456789ABCDEF" (n % 16) ∷ []

-- the UTF-8 of a character, each byte as %XX
unfoldable pub percent_char : ℕ → String
percent_char n =
    if ltb n 128
    then percent n
    else if ltb n 2048
    then percent (192 + n / 64) ⧺ percent (128 + n % 64)
    else if ltb n 65536
    then percent (224 + n / 4096) ⧺ percent (128 + n / 64 % 64) ⧺ percent (128 + n % 64)
    else percent (240 + n / 262144)
      ⧺ percent (128 + n / 4096 % 64)
      ⧺ percent (128 + n / 64 % 64)
      ⧺ percent (128 + n % 64)

unfoldable pub encode_uri_component : String → String
unfolding is_unreserved percent_char
encode_uri_component [] = []
encode_uri_component (c ∷ s) =
    let rest = encode_uri_component s in
    if is_unreserved (code c) then c ∷ rest else percent_char (code c) ⧺ rest

unfoldable pub middleware_ws_url_for_session : String → Option String → String
middleware_ws_url_for_session base none = normalize_middleware_base base
middleware_ws_url_for_session base (some key) =
    if key == ""
    then normalize_middleware_base base
    else normalize_middleware_base base ⧺ "/" ⧺ encode_uri_component key

-- the choice between the agent of the environment and the one asked for
unfoldable pub pick_agent : String → String → String
pick_agent env raw =
    if not (env == "") && (raw == "" || raw == "default")
    then env
    else if not (raw == "")
    then raw
    else or_default env

module _ (rt : Runtime) where
  unfoldable pub compute_session_key : Value → Value → Value → String
  compute_session_key agent conversation participant =
      base64_url_encode (rt.sha256_base64 (session_key_input agent conversation participant))

  -- the agent that the environment names, or ''
  unfoldable pub default_agent : String
  default_agent =
      let first = trim (env_or rt "OPENCLAW_BRIDGE_GATEWAY_DEFAULT_AGENT_ID" "") in
      if first == "" then trim (env_or rt "OPENCLAW_BRIDGE_AGENT_ID" "") else first

  unfoldable pub resolve_gateway_turn_agent_id : Value → String
  unfolding pick_agent
  resolve_gateway_turn_agent_id agent = pick_agent default_agent (id_text agent)
