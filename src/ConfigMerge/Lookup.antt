-- ===== src/ConfigMerge/Lookup.antt =====
-- What a merged configuration has under each key.
use ombot.Prelude.{
  String, ◌≡◌, refl, ap, ◌∙◌, subst, true, false, arith, eq_iff, eq_refl, Bool-cases, inl, inr,
  if◌then◌else◌, ◌==◌,
}
use ombot.Js.Value.{
  Value, undefined, null, bool, num, str, arr, obj, Fields, end, field, get_field, has_own,
}
use ombot.ConfigMerge.{set_field, object_fields, items_of, deep_merge, merge_key, merge_plugins}

pub get_field-set_field_same :
    (k : String) (v : Value) (fs : Fields) → get_field k (set_field k v fs) ≡ v
unfolding get_field set_field
get_field-set_field_same k v end = ground (arith, eq_refl k)
get_field-set_field_same k v (field j w fs) = ground (arith, get_field-set_field_same k v fs)

pub get_field-set_field_other :
    (j k : String) (v : Value) (fs : Fields)
    → (k == j) ≡ false
    → get_field j (set_field k v fs) ≡ get_field j fs
unfolding get_field set_field
get_field-set_field_other j k v end h = ground arith
get_field-set_field_other j k v (field i w fs) h =
    ground (arith, get_field-set_field_other j k v fs h, eq_iff i k)

-- what a merge makes of a key's old value and the patch's value
unfoldable pub merged_value : String → Value → Value → Value
merged_value k old (obj fs) = obj (deep_merge (object_fields old) fs)
merged_value k old (arr xs) =
    if k == "plugins" then arr (merge_plugins (items_of old) xs) else arr xs
merged_value k old v = v

-- No key occurs twice.
unfoldable pub DistinctKeys : Fields → Type 0
DistinctKeys end = Unit
DistinctKeys (field k v fs) = (has_own fs k ≡ false) × DistinctKeys fs

merge_key-set_field :
    (t : Fields) (k : String) (v : Value)
    → merge_key t k v ≡ set_field k (merged_value k (get_field k t) v) t
unfolding deep_merge merged_value
merge_key-set_field t k undefined = refl
merge_key-set_field t k null = refl
merge_key-set_field t k (bool b) = refl
merge_key-set_field t k (num n) = refl
merge_key-set_field t k (str s) = refl
merge_key-set_field t k (arr xs) = ground arith
merge_key-set_field t k (obj fs) = refl

deep_merge-end : (t : Fields) → deep_merge t end ≡ t
unfolding deep_merge
deep_merge-end t = refl

deep_merge-field :
    (t : Fields) (k : String) (v : Value) (fs : Fields)
    → deep_merge t (field k v fs) ≡ deep_merge (merge_key t k v) fs
unfolding deep_merge
deep_merge-field t k v fs = refl

get_field-merge_key_same :
    (t : Fields) (j k : String) (v : Value)
    → (k == j) ≡ true
    → get_field j (merge_key t k v) ≡ merged_value j (get_field j t) v
get_field-merge_key_same t j k v h =
    subst (λ i. get_field i (merge_key t k v) ≡ merged_value i (get_field i t) v) ((eq_iff k j).0 h)
      (ap (get_field k) (merge_key-set_field t k v) ∙ get_field-set_field_same k _ t)

get_field-merge_key_other :
    (t : Fields) (j k : String) (v : Value)
    → (k == j) ≡ false
    → get_field j (merge_key t k v) ≡ get_field j t
get_field-merge_key_other t j k v h =
    ap (get_field j) (merge_key-set_field t k v) ∙ get_field-set_field_other j k _ t h

has_own_at :
    (fs : Fields) (j k : String) → (k == j) ≡ true → has_own fs k ≡ false → has_own fs j ≡ false
has_own_at fs j k h = subst (λ i. has_own fs i ≡ false) ((eq_iff k j).0 h)

-- A merge gives a key that the patch does not have the value it had, and a key that the patch has
-- the patch's value; only, two objects are merged in turn, and so are the lists under `plugins`.
pub get_field-deep_merge :
    (target source : Fields) (j : String)
    → DistinctKeys source
    → get_field j (deep_merge target source) ≡ (
        if has_own source j
        then merged_value j (get_field j target) (get_field j source)
        else get_field j target)
unfolding DistinctKeys has_own get_field
get_field-deep_merge t end j d = ap (get_field j) (deep_merge-end t)
get_field-deep_merge t (field k v fs) j d = elim (Bool-cases (k == j)) [
  | inl same ↦ ground (
    arith,
    ap (get_field j) (deep_merge-field t k v fs),
    get_field-deep_merge (merge_key t k v) fs j d.1,
    get_field-merge_key_same t j k v same,
    has_own_at fs j k same d.0,
  )
  | inr other ↦ ground (
    arith,
    ap (get_field j) (deep_merge-field t k v fs),
    get_field-deep_merge (merge_key t k v) fs j d.1,
    get_field-merge_key_other t j k v other,
  )
]
