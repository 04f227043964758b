-- ===== src/ConfigMerge/Repair/Sound.antt =====
-- A merged configuration has no provider overlay that OpenClaw rejects.
use ombot.Prelude.{String, ◌≡◌, refl, ap, false, List, arith}
use ombot.Js.Value.{Value, undefined, obj, Fields, end, field, get_field, member}
use ombot.ConfigMerge.{set_field, delete_field, object_fields}
use ombot.ConfigMerge.Lookup.{get_field-set_field_same}
use ombot.ConfigMerge.Repair.{
  has_invalid_blockrun_provider_overlay, rejects_blockrun, repaired_blockrun, repaired_providers,
  auto_models, repair_blockrun_provider_overlay, merge_openclaw_patch, merge_ordered_fragments,
  set_default,
}

get_field-delete_field : (k : String) (fs : Fields) → get_field k (delete_field k fs) ≡ undefined
unfolding get_field delete_field
get_field-delete_field k end = refl
get_field-delete_field k (field j w fs) = ground (arith, get_field-delete_field k fs)

-- a repaired overlay is accepted, and so is one that is not there
repaired-accepted :
    (blockrun : Fields) → rejects_blockrun (obj (repaired_blockrun blockrun)) ≡ false
unfolding rejects_blockrun repaired_blockrun member
repaired-accepted blockrun = ground (
  arith,
  get_field-set_field_same "models" auto_models (
      set_default "apiKey" "x402-proxy-handles-auth"
        (set_default "api" "openai-completions" blockrun)),
)

missing-accepted : rejects_blockrun undefined ≡ false
unfolding rejects_blockrun
missing-accepted = refl

providers-accepted :
    (providers : Fields)
    → rejects_blockrun (get_field "blockrun" (repaired_providers providers)) ≡ false
unfolding repaired_providers
providers-accepted providers =
    let blockrun = object_fields (get_field "blockrun" providers) in
    ground (
      arith,
      ap rejects_blockrun (get_field-delete_field "blockrun" providers),
      ap rejects_blockrun
          (get_field-set_field_same "blockrun" (obj (repaired_blockrun blockrun)) providers),
      missing-accepted,
      repaired-accepted blockrun,
    )

invalid-rejects :
    (fs models providers : Fields)
    → get_field "models" fs ≡ obj models
    → get_field "providers" models ≡ obj providers
    → has_invalid_blockrun_provider_overlay (obj fs)
      ≡ rejects_blockrun (get_field "blockrun" providers)
unfolding has_invalid_blockrun_provider_overlay member
invalid-rejects fs models providers m p = ground arith

repair-accepted :
    (fs : Fields)
    → has_invalid_blockrun_provider_overlay (obj (repair_blockrun_provider_overlay fs).1) ≡ false
unfolding repair_blockrun_provider_overlay
repair-accepted fs =
    let models = object_fields (get_field "models" fs) in
    let providers = repaired_providers (object_fields (get_field "providers" models)) in
    let models' = set_field "providers" (obj providers) models in
    ground (
      arith,
      invalid-rejects (set_field "models" (obj models') fs) models' providers
          (get_field-set_field_same "models" (obj models') fs)
          (get_field-set_field_same "providers" (obj providers) models),
      providers-accepted (object_fields (get_field "providers" models)),
    )

-- Whatever the base and the patch are, and whatever the fragments, the merged configuration has no
-- `blockrun` provider without a list of models.
pub merge-accepted :
    (base patch : Fields) (fragments : List Value)
    → (has_invalid_blockrun_provider_overlay (obj (merge_openclaw_patch base patch)) ≡ false)
      × (has_invalid_blockrun_provider_overlay (obj (merge_ordered_fragments fragments)) ≡ false)
unfolding merge_openclaw_patch merge_ordered_fragments
merge-accepted base patch fragments = (repair-accepted _, repair-accepted _)
