-- ===== src/Examples/Merging.antt =====
-- A configuration and a patch of it.
use ombot.Prelude.{◌≡◌, refl, false, [], ◌∷◌, if◌then◌else◌}
use ombot.Js.Value.{str, obj, Fields, end, field, get_field, has_own}
use ombot.ConfigMerge.{deep_merge}
use ombot.ConfigMerge.Lookup.{DistinctKeys, merged_value, get_field-deep_merge}
use ombot.ConfigMerge.Repair.{
  has_invalid_blockrun_provider_overlay, merge_openclaw_patch, merge_ordered_fragments,
}
use ombot.ConfigMerge.Repair.Sound.{merge-accepted}

abbrev base : Fields
base = field "gateway" (obj (field "port" (str "18789") end)) (field "name" (str "old") end)

-- it has a `blockrun` provider with an address and no models
abbrev patch : Fields
patch = field "name" (str "new") (
    field "models"
      (obj (
        field "providers" (obj (field "blockrun" (obj (field "baseUrl" (str "http://x") end)) end))
          end))
      end)

patch-DistinctKeys : DistinctKeys patch
unfolding DistinctKeys has_own
patch-DistinctKeys = (refl, (refl, tt))

get_field-deep_merge_example : get_field "name" (deep_merge base patch) ≡ (
    if has_own patch "name"
    then merged_value "name" (get_field "name" base) (get_field "name" patch)
    else get_field "name" base)
get_field-deep_merge_example = get_field-deep_merge base patch "name" patch-DistinctKeys

merge-accepted_example :
    (has_invalid_blockrun_provider_overlay (obj (merge_openclaw_patch base patch)) ≡ false)
    × (has_invalid_blockrun_provider_overlay
          (obj (merge_ordered_fragments (obj base ∷ obj patch ∷ [])))
        ≡ false)
merge-accepted_example = merge-accepted base patch (obj base ∷ obj patch ∷ [])
