-- ===== src/ConfigMerge.antt =====
-- tools/openclaw-json-merge.mjs: the deep merge of OpenClaw configurations. Objects are what
-- `JSON.parse` makes, without a key `__proto__`.
pub mod Lookup
pub mod Repair
use ombot.Prelude.{
  ℕ, String, Bool, true, false, not, ◌&&◌, Option, none, some, List, [], ◌∷◌, eqb, if◌then◌else◌,
  ◌==◌,
}
use ombot.Js.Text.{trim}
use ombot.Js.Value.{
  Number, nan, infinity, neg_infinity, nonneg, neg, Value, undefined, null, bool, num, str, arr,
  obj, Items, nil, cons, Fields, end, field, get_field, member, truthy, is_object,
  is_non_empty_string,
}

-- `target[k] = v`
unfoldable pub set_field : String → Value → Fields → Fields
set_field k v end = field k v end
set_field k v (field j w fs) =
    let rest = set_field k v fs in if j == k then field j v fs else field j w rest

-- `delete target[k]`
unfoldable pub delete_field : String → Fields → Fields
delete_field k end = end
delete_field k (field j w fs) =
    let rest = delete_field k fs in if j == k then rest else field j w rest

-- the fields of an object, and none of a value that is not one or is an array
abbrev pub object_fields : Value → Fields
object_fields (obj fs) = fs
object_fields _ = end

abbrev pub is_plain_object : Value → Bool
is_plain_object (obj fs) = true
is_plain_object _ = false

abbrev same_number : Number → Number → Bool
same_number (nonneg m) (nonneg n) = eqb m n
same_number (neg m) (neg n) = eqb m n
same_number infinity infinity = true
same_number neg_infinity neg_infinity = true
same_number _ _ = false

-- `===`; two objects that `JSON.parse` made apart are never the same
unfoldable pub strictly_equal : Value → Value → Bool
strictly_equal undefined undefined = true
strictly_equal null null = true
strictly_equal (bool true) (bool b) = b
strictly_equal (bool false) (bool b) = not b
strictly_equal (num m) (num n) = same_number m n
strictly_equal (str s) (str t) = s == t
strictly_equal _ _ = false

-- `p && p.id === id`
abbrev has_id : Value → Value → Bool
has_id id p = truthy p && strictly_equal (member p "id") id

-- the first plugin of an id
unfoldable pub find_plugin : Value → Items → Option Value
find_plugin id nil = none
find_plugin id (cons p ps) = let rest = find_plugin id ps in if has_id id p then some p else rest

-- `curArr[idx] = existing`, or `curArr.push(pp)` where there is none
unfoldable pub put_plugin : Value → Value → Items → Items
put_plugin id v nil = cons v nil
put_plugin id v (cons p ps) =
    let rest = put_plugin id v ps in if has_id id p then cons v ps else cons p rest

-- the fields of a plugin but its config, over those of the one there was
unfoldable pub override_fields : Fields → Fields → Fields
override_fields existing end = existing
override_fields existing (field k v fs) =
    override_fields (if k == "config" then existing else set_field k v existing) fs

abbrev pub items_of : Value → Items
items_of (arr xs) = xs
items_of _ = nil

abbrev pub was_found : Option Value → Bool
was_found none = false
was_found (some p) = true

abbrev pub found_fields : Option Value → Fields
found_fields none = end
found_fields (some p) = object_fields p

-- `merged` where the config of a plugin is not an array. An array is kept: the fields that are merged
-- into it are its own, which `JSON.stringify` does not write; those that are indices do not occur.
abbrev config_or_array : Value → Value → Value
config_or_array (arr xs) merged = arr xs
config_or_array _ merged = merged

-- The merges.
unfoldable mutual
  pub deep_merge : Fields → Fields → Fields
  deep_merge target end = target
  deep_merge target (field k v source) = deep_merge (merge_key target k v) source

  pub merge_key : Fields → String → Value → Fields
  merge_key target k (obj fs) =
      set_field k (obj (deep_merge (object_fields (get_field k target)) fs)) target
  merge_key target k (arr xs) =
      let merged = merge_plugins (items_of (get_field k target)) xs in
      if k == "plugins" then set_field k (arr merged) target else set_field k (arr xs) target
  merge_key target k v = set_field k v target

  pub merge_plugins : Items → Items → Items
  merge_plugins cur nil = cur
  merge_plugins cur (cons p ps) = merge_plugins (merge_plugin cur p) ps

  merge_plugin : Items → Value → Items
  merge_plugin cur (obj pp) =
      let id = get_field "id" pp in
      let existing = found_fields (find_plugin id cur) in
      let merged = override_fields (merge_config existing pp) pp in
      if not (truthy id)
      then cur
      else put_plugin id (if was_found (find_plugin id cur) then obj merged else obj pp) cur
  merge_plugin cur p = cur

  -- `deepMerge(existing.config, pp.config)` where the patch has a config that is an object
  merge_config : Fields → Fields → Fields
  merge_config existing end = existing
  merge_config existing (field k (obj fs) rest) =
      let merged =
        set_field "config"
          (config_or_array (get_field "config" existing)
            (obj (deep_merge (object_fields (get_field "config" existing)) fs)))
          existing in
      let later = merge_config existing rest in if k == "config" then merged else later
  merge_config existing (field k v rest) =
      let later = merge_config existing rest in if k == "config" then existing else later
