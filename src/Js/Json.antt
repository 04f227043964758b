-- ===== src/Js/Json.antt =====
-- `JSON.stringify`, and the order in which JavaScript enumerates the keys of an object. The fields of
-- an `obj` stand in that order.
pub mod Sorted
use Prim.Native.String.{[], ◌∷◌, char_at}
use mathlib.Core.List.{[], ◌∷◌}
use ombot.Prelude.{
  ℕ, zero, suc, ◌+◌, ◌-◌, ◌*◌, ◌/◌, ◌%◌, Char, code, String, Bool, true, false, ◌&&◌, ◌||◌, not,
  List, leb, ltb, eqb, length, if◌then◌else◌, ◌==◌,
}
use ombot.Js.Text.{◌⧺◌, decimal, join}
use ombot.Js.Value.{
  Number, nonneg, neg, Value, undefined, null, bool, num, str, arr, obj, Items, nil, cons, Fields,
  end, field, bool_text, number_text,
}

abbrev hex_digit : ℕ → String
hex_digit n = char_at "0123456789abcdef" n ∷ []

unfoldable pub escape : Char → String
escape c =
    if eqb (code c) 8
    then "\\b"
    else if eqb (code c) 9
    then "\\t"
    else if eqb (code c) 10
    then "\\n"
    else if eqb (code c) 12
    then "\\f"
    else if eqb (code c) 13
    then "\\r"
    else if eqb (code c) 34
    then "\\\""
    else if eqb (code c) 92
    then "\\\\"
    else if ltb (code c) 32
    then "\\u00" ⧺ hex_digit (code c / 16) ⧺ hex_digit (code c % 16)
    else c ∷ []

unfoldable pub escaped : String → String
unfolding escape
escaped [] = []
escaped (c ∷ s) = escape c ⧺ escaped s

unfoldable pub quote : String → String
unfolding escaped
quote s = "\"" ⧺ escaped s ⧺ "\""

-- NaN and the infinities are `null` in JSON
unfoldable pub json_number : Number → String
unfolding number_text
json_number (nonneg n) = number_text (nonneg n)
json_number (neg n) = number_text (neg n)
json_number _ = "null"

abbrev pub is_undefined : Value → Bool
is_undefined undefined = true
is_undefined _ = false

-- `${JSON.stringify(v)}`
unfoldable mutual
  pub json : Value → String
  json undefined = "undefined"
  json null = "null"
  json (bool b) = bool_text b
  json (num n) = json_number n
  json (str s) = quote s
  json (arr xs) = "[" ⧺ join "," (json_items xs) ⧺ "]"
  json (obj fs) = "{" ⧺ join "," (json_fields fs) ⧺ "}"

  json_items : Items → List String
  json_items nil = []
  json_items (cons v xs) = (if is_undefined v then "null" else json v) ∷ json_items xs

  pub json_fields : Fields → List String
  json_fields end = []
  json_fields (field k v fs) =
      let rest = json_fields fs in if is_undefined v then rest else (quote k ⧺ ":" ⧺ json v) ∷ rest

-- the UTF-16 code units of a text, by which `sort` compares
unfoldable pub utf16 : String → List ℕ
utf16 [] = []
utf16 (c ∷ s) =
    let rest = utf16 s in
    let astral = code c - 65536 in
    if ltb (code c) 65536
    then code c ∷ rest
    else (55296 + astral / 1024) ∷ (56320 + astral % 1024) ∷ rest

unfoldable pub before : List ℕ → List ℕ → Bool
before [] [] = false
before [] (b ∷ bs) = true
before (a ∷ as') [] = false
before (a ∷ as') (b ∷ bs) = ltb a b || eqb a b && before as' bs

-- `Object.keys(…).sort()`, each key with its value
unfoldable pub insert_key : String → Value → Fields → Fields
insert_key k v end = field k v end
insert_key k v (field j w fs) =
    if before (utf16 j) (utf16 k) then field j w (insert_key k v fs) else field k v (field j w fs)

unfoldable pub sort_fields : Fields → Fields
unfolding insert_key
sort_fields end = end
sort_fields (field k v fs) = insert_key k v (sort_fields fs)

-- a key that is an array index is enumerated before the others, in numeric order
unfoldable pub all_digits : List ℕ → Bool
all_digits [] = true
all_digits (d ∷ ds) = leb 48 d && leb d 57 && all_digits ds

unfoldable pub number_value : ℕ → List ℕ → ℕ
number_value acc [] = acc
number_value acc (d ∷ ds) = number_value (acc * 10 + (d - 48)) ds

unfoldable pub is_canonical : List ℕ → Bool
unfolding all_digits
is_canonical [] = false
is_canonical (d ∷ []) = all_digits (d ∷ [])
is_canonical (d ∷ e ∷ ds) = not (eqb d 48) && all_digits (d ∷ e ∷ ds)

unfoldable pub is_index : String → Bool
unfolding is_canonical number_value
is_index k =
    let units = utf16 k in
    is_canonical units && leb (length units) 10 && ltb (number_value 0 units) 4294967295

unfoldable pub insert_index : String → Value → Fields → Fields
insert_index k v end = field k v end
insert_index k v (field j w fs) =
    if is_index j && ltb (number_value 0 (utf16 j)) (number_value 0 (utf16 k))
    then field j w (insert_index k v fs)
    else field k v (field j w fs)

unfoldable pub insert_named : String → Value → Fields → Fields
insert_named k v end = field k v end
insert_named k v (field j w fs) =
    if is_index j then field j w (insert_named k v fs) else field k v (field j w fs)

-- the enumeration order of an object whose keys were added in the order given
unfoldable pub enumerate : Fields → Fields
unfolding is_index insert_index insert_named
enumerate end = end
enumerate (field k v fs) =
    let rest = enumerate fs in if is_index k then insert_index k v rest else insert_named k v rest
