-- ===== src/ConfigMerge/Repair.antt =====
-- tools/openclaw-json-merge.mjs: what is put right in a configuration, and the merges that do so.
pub mod Sound
use ombot.Prelude.{String, Bool, true, false, not, ◌&&◌, ◌||◌, List, [], ◌∷◌, if◌then◌else◌, ◌==◌}
use ombot.Js.Text.{trim}
use ombot.Js.Value.{
  Value, str, arr, obj, Items, nil, cons, Fields, end, field, get_field, member,
  is_non_empty_string,
}
use ombot.ConfigMerge.{set_field, delete_field, object_fields, is_plain_object, deep_merge}

abbrev pub hoisted : Value → Fields → Fields
hoisted providers models =
    let own = get_field "providers" models in
    if is_plain_object own
    then set_field "providers" (obj (deep_merge (object_fields own) (object_fields providers)))
        models
    else set_field "providers" providers models

unfoldable pub normalize_nested_models_key : Fields → Fields
normalize_nested_models_key fs =
    let models = get_field "models" fs in
    let nested = member models "models" in
    let providers = member nested "providers" in
    if not (is_plain_object models)
    then fs
    else if not (is_plain_object nested)
    then fs
    else if not (is_plain_object providers)
    then fs
    else set_field "models" (obj (delete_field "models" (hoisted providers (object_fields models))))
        fs

unfoldable pub has_invalid_nested_models_key : Value → Bool
has_invalid_nested_models_key v =
    let models = member v "models" in
    is_plain_object models && is_plain_object (member models "models")

abbrev pub is_non_empty_list : Value → Bool
is_non_empty_list (arr (cons x xs)) = true
is_non_empty_list _ = false

-- the tests from `providers.blockrun` on
unfoldable pub rejects_blockrun : Value → Bool
rejects_blockrun blockrun =
    if not (is_plain_object blockrun)
    then false
    else not (is_non_empty_list (member blockrun "models"))

unfoldable pub has_invalid_blockrun_provider_overlay : Value → Bool
has_invalid_blockrun_provider_overlay v =
    let models = member v "models" in
    let providers = member models "providers" in
    if not (is_plain_object models)
    then false
    else if not (is_plain_object providers)
    then false
    else rejects_blockrun (member providers "blockrun")

abbrev pub set_default : String → String → Fields → Fields
set_default k v fs = if is_non_empty_string (get_field k fs) then fs else set_field k (str v) fs

-- `{ id: 'blockrun/auto' }` in a list
abbrev pub auto_models : Value
auto_models = arr (cons (obj (field "id" (str "blockrun/auto") end)) nil)

unfoldable pub repaired_blockrun : Fields → Fields
repaired_blockrun blockrun = set_field "models" auto_models (
    set_default "apiKey" "x402-proxy-handles-auth"
      (set_default "api" "openai-completions" blockrun))

unfoldable pub repaired_providers : Fields → Fields
repaired_providers providers =
    let blockrun = get_field "blockrun" providers in
    if not (is_non_empty_string (member blockrun "baseUrl"))
    then delete_field "blockrun" providers
    else set_field "blockrun" (obj (repaired_blockrun (object_fields blockrun))) providers

-- Whether it changed anything, and the configuration afterwards. It is called where `providers` is
-- an object: the first test says so.
unfoldable pub repair_blockrun_provider_overlay : Fields → Bool × Fields
repair_blockrun_provider_overlay fs =
    let models = object_fields (get_field "models" fs) in
    let providers = object_fields (get_field "providers" models) in
    if not (has_invalid_blockrun_provider_overlay (obj fs)) then (false, fs) else (
      true,
      set_field "models" (obj (set_field "providers" (obj (repaired_providers providers)) models))
          fs,
    )

unfoldable pub has_invalid_openclaw_models_config : Value → Bool
has_invalid_openclaw_models_config v =
    has_invalid_nested_models_key v || has_invalid_blockrun_provider_overlay v

unfoldable pub merge_openclaw_patch : Fields → Fields → Fields
merge_openclaw_patch base patch =
    let merged =
      deep_merge (normalize_nested_models_key base) (normalize_nested_models_key patch) in
    (repair_blockrun_provider_overlay (normalize_nested_models_key merged)).1

-- the merge of the fragments one after the other
unfoldable pub merge_fragments : Fields → List Value → Fields
merge_fragments out [] = out
merge_fragments out (obj fs ∷ rest) =
    merge_fragments (deep_merge out (normalize_nested_models_key fs)) rest
merge_fragments out (frag ∷ rest) = merge_fragments out rest

unfoldable pub merge_ordered_fragments : List Value → Fields
merge_ordered_fragments fragments =
    (repair_blockrun_provider_overlay
      (normalize_nested_models_key (merge_fragments end fragments))).1
