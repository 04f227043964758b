-- ===== src/SelfHeal/Assess.antt =====
-- openclawConfigSelfHeal.js: `assessOpenClawConfigHealth` and `readRuntimeGatewayMode`. A file is its
-- text, in UTF-8.
use mathlib.Core.List.{[], ◌∷◌}
use ombot.Prelude.{
  ℕ, zero, suc, String, Bool, true, false, not, Option, none, some, List, if◌then◌else◌, ◌==◌,
}
use ombot.Js.Text.{◌⧺◌, trim}
use ombot.Js.Value.{Value, str, obj, member, or_else, to_text}
use ombot.Js.Indented.{json_indented}
use ombot.Js.Runtime.{Runtime}
use ombot.ConfigMerge.Repair.{merge_ordered_fragments}

-- the fragments in the order of their names, and the runtime's configuration, where there is one
pub record ConfigFiles : Type 0 where
  pub fragments : List String
  pub runtime : Option String

pub record Health : Type 0 where
  pub needs_compose : Bool
  pub reason : String
  pub fragment_count : ℕ
  pub composed_matches_runtime : Option Bool

unfoldable pub length : List String → ℕ
length [] = zero
length (x ∷ xs) = suc (length xs)

unfoldable pub needs_compose_for : String → Bool → ℕ → Health
needs_compose_for reason same n = record {
  needs_compose = true;
  reason = reason;
  fragment_count = n;
  composed_matches_runtime = some same;
}

-- `err_text` is the message of the error that `JSON.parse` throws on a text
module _ (rt : Runtime) (err_text : String → String) where
  abbrev mode_of : Option Value → String
  mode_of none = ""
  mode_of (some j) = trim (to_text (or_else (member (member j "gateway") "mode") (str "")))

  unfoldable pub read_runtime_gateway_mode : Option String → String
  read_runtime_gateway_mode none = ""
  read_runtime_gateway_mode (some text) = mode_of (rt.parse_json text)

  -- the fragments' values, or the message of the first that is no JSON
  unfoldable pub parse_all : List String → Option String × List Value
  parse_all [] = (none, [])
  parse_all (text ∷ texts) =
      let rest = parse_all texts in
      elim (rt.parse_json text) [
        | none ↦ (some (err_text text), [])
        | some v ↦ (rest.0, v ∷ rest.1)
      ]

  unfoldable pub composed_body : List Value → String
  composed_body fragments = json_indented (obj (merge_ordered_fragments fragments)) ⧺ "\n"

  unfoldable pub assess_composed : ℕ → String → String → Health
  unfolding needs_compose_for read_runtime_gateway_mode
  assess_composed n body text = elim (rt.parse_json text) [
    | none ↦ needs_compose_for ("runtime_invalid:" ⧺ err_text text) false n
    | some j ↦
        if not (rt.sha256_hex body == rt.sha256_hex text)
        then needs_compose_for "composed_runtime_mismatch" false n
        else if not (read_runtime_gateway_mode (some text) == "local")
        then needs_compose_for "gateway_mode_not_local" true n
        else record {
          needs_compose = false;
          reason = "ok";
          fragment_count = n;
          composed_matches_runtime = some true;
        }
  ]

  unfoldable pub assess_parsed : ℕ → Option String × List Value → Option String → Health
  unfolding needs_compose_for assess_composed composed_body
  assess_parsed n (some err, fragments) runtime =
      needs_compose_for ("fragment_compose_error:" ⧺ err) false n
  assess_parsed n (none, fragments) none = needs_compose_for "runtime_missing" false n
  assess_parsed n (none, fragments) (some text) = assess_composed n (composed_body fragments) text

  unfoldable pub assess_openclaw_config_health : ConfigFiles → Health
  unfolding length parse_all assess_parsed
  assess_openclaw_config_health files = assess files.fragments files.runtime
    where
      assess : List String → Option String → Health
      assess [] runtime = record {
        needs_compose = false;
        reason = "no_fragments";
        fragment_count = 0;
        composed_matches_runtime = none;
      }
      assess (text ∷ texts) runtime =
          assess_parsed (length (text ∷ texts)) (parse_all (text ∷ texts)) runtime
