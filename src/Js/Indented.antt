-- ===== src/Js/Indented.antt =====
-- `JSON.stringify(v, null, 2)`. `indent` is what a line of the value starts with.
use Prim.Native.String.{[], ◌∷◌}
use mathlib.Core.List.{[], ◌∷◌}
use ombot.Prelude.{String, List, if◌then◌else◌}
use ombot.Js.Text.{◌⧺◌, join}
use ombot.Js.Value.{
  Value, undefined, null, bool, num, str, arr, obj, Items, nil, cons, Fields, end, field, bool_text,
}
use ombot.Js.Json.{quote, json_number, is_undefined}

-- the parts on lines of their own between brackets, or the brackets alone
unfoldable pub bracketed : String → String → String → List String → String
bracketed open_bracket close_bracket indent [] = open_bracket ⧺ close_bracket
bracketed open_bracket close_bracket indent (x ∷ xs) =
    open_bracket
    ⧺ "\n  "
    ⧺ indent
    ⧺ join (",\n  " ⧺ indent) (x ∷ xs)
    ⧺ "\n"
    ⧺ indent
    ⧺ close_bracket

unfoldable mutual
  unfolding bracketed quote json_number

  indented : String → Value → String
  indented indent undefined = "undefined"
  indented indent null = "null"
  indented indent (bool b) = bool_text b
  indented indent (num n) = json_number n
  indented indent (str s) = quote s
  indented indent (arr xs) = bracketed "[" "]" indent (indented_items ("  " ⧺ indent) xs)
  indented indent (obj fs) = bracketed "{" "}" indent (indented_fields ("  " ⧺ indent) fs)

  indented_items : String → Items → List String
  indented_items indent nil = []
  indented_items indent (cons v xs) =
      (if is_undefined v then "null" else indented indent v) ∷ indented_items indent xs

  indented_fields : String → Fields → List String
  indented_fields indent end = []
  indented_fields indent (field k v fs) =
      let rest = indented_fields indent fs in
      if is_undefined v then rest else (quote k ⧺ ": " ⧺ indented indent v) ∷ rest

unfoldable pub json_indented : Value → String
unfolding indented
json_indented v = indented "" v
