-- ===== src/Js/Value.antt =====
-- JavaScript values as `JSON.parse` makes them, with `undefined` for what is not there. A number is
-- NaN, an infinity or an integer; fractions do not occur in the fields that the program reads.
use ombot.Prelude.{ℕ, Bool, true, false, String, List, [], ◌∷◌, ◌||◌, not, eqb, if◌then◌else◌, ◌==◌}
use ombot.Js.Text.{◌⧺◌, decimal, join, trim}

pub data Number : Type 0 where
  nan infinity neg_infinity : Number
  nonneg : ℕ → Number
  -- `neg n` is -(n + 1)
  neg : ℕ → Number

mutual
  pub data Value : Type 0 where
    undefined null : Value
    bool : Bool → Value
    num : Number → Value
    str : String → Value
    obj : Fields → Value
    arr : Items → Value

  pub data Fields : Type 0 where
    end : Fields
    field : String → Value → Fields → Fields

  pub data Items : Type 0 where
    nil : Items
    cons : Value → Items → Items

unfoldable pub get_field : String → Fields → Value
get_field k end = undefined
get_field k (field j v fs) = if j == k then v else get_field k fs

-- `v.k`, and `v?.k` where `v` may be null: undefined unless `v` is an object that has the key
unfoldable pub member : Value → String → Value
unfolding get_field
member (obj fs) k = get_field k fs
member _ k = undefined

unfoldable pub has_own : Fields → String → Bool
has_own end k = false
has_own (field j v fs) k = j == k || has_own fs k

unfoldable pub truthy : Value → Bool
truthy undefined = false
truthy null = false
truthy (bool b) = b
truthy (num nan) = false
truthy (num (nonneg n)) = not (eqb n 0)
truthy (num _) = true
truthy (str s) = not (s == "")
truthy (arr _) = true
truthy (obj _) = true

-- `v == null`
unfoldable pub is_nullish : Value → Bool
is_nullish undefined = true
is_nullish null = true
is_nullish _ = false

-- `typeof v === 'object'` and not null; an array is one
unfoldable pub is_object : Value → Bool
is_object (arr _) = true
is_object (obj _) = true
is_object _ = false

-- `v || w`
unfoldable pub or_else : Value → Value → Value
unfolding truthy
or_else v w = if truthy v then v else w

-- `v ?? w`
unfoldable pub nullish_else : Value → Value → Value
unfolding is_nullish
nullish_else v w = if is_nullish v then w else v

-- `v === 's'`
unfoldable pub is_text : Value → String → Bool
is_text (str s) t = s == t
is_text _ t = false

-- `v === true`, `v === false`
unfoldable pub is_bool : Value → Bool → Bool
is_bool (bool true) true = true
is_bool (bool false) false = true
is_bool _ _ = false

abbrev pub bool_text : Bool → String
bool_text true = "true"
bool_text false = "false"

unfoldable pub number_text : Number → String
unfolding decimal
number_text nan = "NaN"
number_text infinity = "Infinity"
number_text neg_infinity = "-Infinity"
number_text (nonneg n) = decimal n
number_text (neg n) = "-" ⧺ decimal (ℕ.suc n)

-- `String(v)`. An array joins its elements by commas, where null and undefined are empty.
unfoldable mutual
  pub to_text : Value → String
  to_text undefined = "undefined"
  to_text null = "null"
  to_text (bool b) = bool_text b
  to_text (num n) = number_text n
  to_text (str s) = s
  to_text (arr xs) = join "," (item_texts xs)
  to_text (obj _) = "[object Object]"

  pub item_texts : Items → List String
  item_texts nil = []
  item_texts (cons v xs) = (if is_nullish v then "" else to_text v) ∷ item_texts xs

-- `isNonEmptyString` of gatewayResponseText.js and gatewayAssistantDispatch.js
unfoldable pub is_non_empty_string : Value → Bool
is_non_empty_string (str s) = not (trim s == "")
is_non_empty_string _ = false

unfoldable pub values : Items → List Value
values nil = []
values (cons v xs) = v ∷ values xs
