-- ===== src/Guards/Payload/Order.antt =====
-- The canonical text does not depend on the order in which a client wrote the keys.
use ombot.Prelude.{String, ◌≡◌, refl, sym, ◌∙◌, ap, ◌≢◌, eq_iff, Bool-cases, inl, inr, ◌==◌}
use ombot.Js.Text.{join}
use ombot.Js.Value.{
  nonneg, Value, undefined, num, str, arr, obj, Items, nil, cons, Fields, end, field, get_field,
  member, truthy, is_nullish, or_else, to_text, item_texts,
}
use ombot.Js.Json.{json, utf16, sort_fields, enumerate}
use ombot.Js.Json.Sorted.{insert_key_comm}
use ombot.Js.Runtime.{Runtime, to_number}
use ombot.Guards.Payload.{
  sort_keys_deep, sort_items_deep, sort_values_deep, signing_body, req_signing_payload,
}

-- Two values that differ in the order of the keys of their objects, at any depth.
mutual
  pub data Same : Value → Value → Type 0 where
    same : (v : Value) → Same v v
    in_arr : {xs ys : Items} → SameItems xs ys → Same (arr xs) (arr ys)
    in_obj : {fs gs : Fields} → SameFields fs gs → Same (obj fs) (obj gs)

  pub data SameItems : Items → Items → Type 0 where
    no_items : SameItems nil nil
    item :
        {v w : Value} {xs ys : Items}
        → Same v w
        → SameItems xs ys
        → SameItems (cons v xs) (cons w ys)

  pub data SameFields : Fields → Fields → Type 0 where
    no_fields : SameFields end end
    keep :
        (k : String) {v w : Value} {fs gs : Fields}
        → Same v w
        → SameFields fs gs
        → SameFields (field k v fs) (field k w gs)
    swap :
        (j k : String) (v w : Value) (fs : Fields)
        → utf16 j ≢ utf16 k
        → SameFields (field j v (field k w fs)) (field k w (field j v fs))
    trans : {fs gs hs : Fields} → SameFields fs gs → SameFields gs hs → SameFields fs hs

mutual
  unfolding sort_keys_deep sort_fields

  sort_keys_deep-Same : {v w : Value} → Same v w → sort_keys_deep v ≡ sort_keys_deep w
  sort_keys_deep-Same (same v) = refl
  sort_keys_deep-Same (in_arr s) = ap arr (sort_items_deep-Same s)
  sort_keys_deep-Same (in_obj s) = ap (λ fs. obj (enumerate fs)) (sort_fields-Same s)

  sort_items_deep-Same : {xs ys : Items} → SameItems xs ys → sort_items_deep xs ≡ sort_items_deep ys
  sort_items_deep-Same no_items = refl
  sort_items_deep-Same (item s r) = cc (sort_keys_deep-Same s, sort_items_deep-Same r)

  sort_fields-Same :
      {fs gs : Fields}
      → SameFields fs gs
      → sort_fields (sort_values_deep fs) ≡ sort_fields (sort_values_deep gs)
  sort_fields-Same no_fields = refl
  sort_fields-Same (keep k s r) = cc (sort_keys_deep-Same s, sort_fields-Same r)
  sort_fields-Same (swap j k v w fs h) =
      insert_key_comm j k (sort_keys_deep v) (sort_keys_deep w) (sort_fields (sort_values_deep fs))
        h
  sort_fields-Same (trans s r) = sort_fields-Same s ∙ sort_fields-Same r

mutual
  Same-trans : {u v w : Value} → Same u v → Same v w → Same u w
  Same-trans (same v) s = s
  Same-trans (in_arr s) (same v) = in_arr s
  Same-trans (in_obj s) (same v) = in_obj s
  Same-trans (in_arr s) (in_arr r) = in_arr (SameItems-trans s r)
  Same-trans (in_obj s) (in_obj r) = in_obj (trans s r)

  SameItems-trans : {xs ys zs : Items} → SameItems xs ys → SameItems ys zs → SameItems xs zs
  SameItems-trans no_items r = r
  SameItems-trans (item s r) (item s' r') = item (Same-trans s s') (SameItems-trans r r')

SameFields-refl : (fs : Fields) → SameFields fs fs
SameFields-refl end = no_fields
SameFields-refl (field k v fs) = keep k (same v) (SameFields-refl fs)

get_field-Same :
    (key : String) {fs gs : Fields} → SameFields fs gs → Same (get_field key fs) (get_field key gs)
unfolding get_field
get_field-Same key no_fields = same undefined
get_field-Same key (keep k s r) = elim (Bool-cases (k == key)) [
  | inl here ↦ rw here s
  | inr later ↦ rw later (get_field-Same key r)
]
get_field-Same key (swap j k v w fs h) = elim (Bool-cases (j == key)) [
  | inl first ↦ elim (Bool-cases (k == key)) [
    | inl second ↦ absurd (h (ap utf16 ((eq_iff j key).0 first ∙ sym ((eq_iff k key).0 second))))
    | inr other ↦ rw (first, other) (same v)
  ]
  | inr other ↦ rw other (same _)
]
get_field-Same key (trans s r) = Same-trans (get_field-Same key s) (get_field-Same key r)

member-Same : {v w : Value} (key : String) → Same v w → Same (member v key) (member w key)
unfolding member
member-Same key (same v) = same (member v key)
member-Same key (in_arr s) = same undefined
member-Same key (in_obj s) = get_field-Same key s

truthy-Same : {v w : Value} → Same v w → truthy v ≡ truthy w
unfolding truthy
truthy-Same (same v) = refl
truthy-Same (in_arr s) = refl
truthy-Same (in_obj s) = refl

or_else-Same : {v w : Value} (d : Value) → Same v w → Same (or_else v d) (or_else w d)
unfolding or_else
or_else-Same {v} {w} d s = elim (Bool-cases (truthy w)) [
  | inl full ↦ rw (truthy-Same s, full) s
  | inr empty ↦ rw (truthy-Same s, empty) (same d)
]

is_nullish-Same : {v w : Value} → Same v w → is_nullish v ≡ is_nullish w
unfolding is_nullish
is_nullish-Same (same v) = refl
is_nullish-Same (in_arr s) = refl
is_nullish-Same (in_obj s) = refl

mutual
  unfolding to_text

  to_text-Same : {v w : Value} → Same v w → to_text v ≡ to_text w
  to_text-Same (same v) = refl
  to_text-Same (in_arr s) = ap (join ",") (item_texts-Same s)
  to_text-Same (in_obj s) = refl

  item_texts-Same : {xs ys : Items} → SameItems xs ys → item_texts xs ≡ item_texts ys
  item_texts-Same no_items = refl
  item_texts-Same (item s r) = cc (is_nullish-Same s, to_text-Same s, item_texts-Same r)

to_number-Same : (rt : Runtime) {v w : Value} → Same v w → to_number rt v ≡ to_number rt w
unfolding to_number
to_number-Same rt (same v) = refl
to_number-Same rt (in_arr s) = ap rt.number_of_text (to_text-Same (in_arr s))
to_number-Same rt (in_obj s) = ap rt.number_of_text (to_text-Same (in_obj s))

-- Two requests that differ only in the order of keys, at any depth, have one canonical text.
pub req_signing_payload-Same :
    (rt : Runtime) {req req' : Value}
    → Same req req'
    → req_signing_payload rt req ≡ req_signing_payload rt req'
unfolding req_signing_payload signing_body
req_signing_payload-Same rt {req} {req'} s =
    let type = or_else-Same (str "req") (member-Same "type" s) in
    let id = or_else-Same (str "") (member-Same "id" s) in
    let method = or_else-Same (str "") (member-Same "method" s) in
    let params = or_else-Same (obj end) (member-Same "params" s) in
    let ts = to_number-Same rt (or_else-Same (num (nonneg 0)) (member-Same "timestamp" s)) in
    let nonce = to_text-Same (or_else-Same (str "") (member-Same "nonce" s)) in
    ap json (
      sort_keys_deep-Same (
        rw (ts, nonce)
          (in_obj (
            keep "type" type
              (keep "id" id (keep "method" method (keep "params" params (SameFields-refl _))))))))
