-- ===== src/SessionKey/Agent.antt =====
-- The agent id of a turn.
use ombot.Prelude.{
  String, ◌≡◌, refl, ◌≢◌, Bool, true, false, not, ◌&&◌, ◌||◌, arith, eq_iff, eq_refl, Bool-cases,
  inl, inr, if◌then◌else◌, ◌==◌,
}
use ombot.Js.Text.{trim}
use ombot.Js.Text.Trim.{trim_idem}
use ombot.Js.Value.{Value, str, is_nullish, to_text}
use ombot.Js.Runtime.{Runtime, env_or}
use ombot.SessionKey.{pick_agent, id_text, default_agent, resolve_gateway_turn_agent_id}

id_text-str : (s : String) → id_text (str s) ≡ trim s
unfolding id_text is_nullish to_text
id_text-str s = refl

trim-id_text : (v : Value) → trim (id_text v) ≡ id_text v
unfolding id_text
trim-id_text v = elim (Bool-cases (is_nullish v)) [
  | inl missing ↦ rw missing (unfold trim in refl)
  | inr present ↦ rw present (trim_idem (to_text v))
]

trim_if :
    (b : Bool) (s t : String)
    → trim s ≡ s
    → trim t ≡ t
    → trim (if b then s else t) ≡ (if b then s else t)
trim_if true s t h k = h
trim_if false s t h k = k

trim-default_agent : (rt : Runtime) → trim (default_agent rt) ≡ default_agent rt
unfolding default_agent
trim-default_agent rt =
    trim_if (trim first == "") (trim second) (trim first) (trim_idem second) (trim_idem first)
  where
    first : String
    first = env_or rt "OPENCLAW_BRIDGE_GATEWAY_DEFAULT_AGENT_ID" ""

    second : String
    second = env_or rt "OPENCLAW_BRIDGE_AGENT_ID" ""

default_trimmed : trim "default" ≡ "default"
unfolding trim
default_trimmed = refl

trim-pick_agent :
    (env raw : String)
    → trim env ≡ env
    → trim raw ≡ raw
    → trim (pick_agent env raw) ≡ pick_agent env raw
unfolding pick_agent
trim-pick_agent env raw h k =
    trim_if (not (env == "") && (raw == "" || raw == "default")) env _ h
      (trim_if (not (raw == "")) raw _ k (trim_if (env == "") "default" env default_trimmed h))

pick_agent_idem : (env raw : String) → pick_agent env (pick_agent env raw) ≡ pick_agent env raw
unfolding pick_agent
pick_agent_idem env raw = ground (
  arith,
  eq_iff env "",
  eq_iff raw "",
  eq_iff raw "default",
  eq_iff env "default",
  eq_iff "default" "",
  eq_refl "default",
)

pick_agent-ne-empty : (env raw : String) → pick_agent env raw ≢ ""
unfolding pick_agent
pick_agent-ne-empty env raw = ground (arith, eq_iff env "", eq_iff raw "", eq_iff "default" "")

-- A resolved id resolves to itself, so it does no harm that callers resolve an id twice; and it is
-- never empty.
resolve_idem :
    (rt : Runtime) (v : Value)
    → (resolve_gateway_turn_agent_id rt (str (resolve_gateway_turn_agent_id rt v))
        ≡ resolve_gateway_turn_agent_id rt v)
      × (resolve_gateway_turn_agent_id rt v ≢ "")
resolve_idem rt v =
    let env = default_agent rt in
    let raw = id_text v in
    let trimmed = trim-pick_agent env raw (trim-default_agent rt) (trim-id_text v) in
    unfold resolve_gateway_turn_agent_id in
    (rw id_text-str (rw trimmed (pick_agent_idem env raw)), pick_agent-ne-empty env raw)
