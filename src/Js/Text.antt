-- ===== src/Js/Text.antt =====
-- What the source uses of JavaScript strings: `trim`, `toLowerCase`, `includes`, `startsWith`,
-- `endsWith`, `slice`, `join`, and the decimal form of a number. A text is a list of code points.
pub mod Join
pub mod Trim
use Prim.Native.String.{[], ◌∷◌, char_at}
use Prim.Native.String
use mathlib.Core.List.{[], ◌∷◌}
use ombot.Prelude.{
  ℕ, zero, suc, ◌-◌, ◌/◌, ◌%◌, Char, code, String, Bool, true, false, ◌&&◌, ◌||◌, List, leb, ltb,
  eqb, if◌then◌else◌, ◌==◌,
}

infixr 65 ◌⧺◌
abbrev pub ◌⧺◌ : String → String → String
s ⧺ t = String.◌++◌ s t

-- WhiteSpace and LineTerminator of ECMA-262, which `trim` removes
unfoldable pub is_space : ℕ → Bool
is_space n =
    (leb 9 n && leb n 13)
    || eqb n 32
    || eqb n 160
    || eqb n 5760
    || (leb 8192 n && leb n 8202)
    || eqb n 8232
    || eqb n 8233
    || eqb n 8239
    || eqb n 8287
    || eqb n 12288
    || eqb n 65279

unfoldable pub trim_start : String → String
trim_start [] = []
trim_start (c ∷ s) = if is_space (code c) then trim_start s else c ∷ s

-- what a character puts before the trimmed rest
unfoldable pub before_trimmed : Char → String → String
before_trimmed c [] = if is_space (code c) then [] else c ∷ []
before_trimmed c (d ∷ r) = c ∷ d ∷ r

unfoldable pub trim_end : String → String
unfolding before_trimmed
trim_end [] = []
trim_end (c ∷ s) = before_trimmed c (trim_end s)

unfoldable pub trim : String → String
unfolding trim_start trim_end is_space
trim s = trim_end (trim_start s)

-- The letters outside ASCII whose lower case is in ASCII: the Kelvin sign, and the dotted capital I
-- (whose lower case is `i` and a combining dot, which no literal of the source has). The source
-- compares lowered texts with ASCII literals alone, so the others may stay as they are.
unfoldable pub lower_char : Char → Char
lower_char c =
    if leb 65 (code c) && leb (code c) 90
    then char_at "abcdefghijklmnopqrstuvwxyz" (code c - 65)
    else if eqb (code c) 8490
    then char_at "k" 0
    else c

unfoldable pub to_lower_case : String → String
unfolding lower_char
to_lower_case [] = []
to_lower_case (c ∷ s) = lower_char c ∷ to_lower_case s

unfoldable pub starts_with : String → String → Bool
starts_with s [] = true
starts_with [] (d ∷ t) = false
starts_with (c ∷ s) (d ∷ t) = eqb (code c) (code d) && starts_with s t

unfoldable pub includes : String → String → Bool
unfolding starts_with
includes [] t = starts_with [] t
includes (c ∷ s) t = starts_with (c ∷ s) t || includes s t

unfoldable pub ends_with : String → String → Bool
ends_with [] t = t == ""
ends_with (c ∷ s) t = (c ∷ s) == t || ends_with s t

-- `s.slice(0, n)`
unfoldable pub take_chars : ℕ → String → String
take_chars zero s = []
take_chars (suc n) [] = []
take_chars (suc n) (c ∷ s) = c ∷ take_chars n s

-- `s.slice(n)`
unfoldable pub drop_chars : ℕ → String → String
drop_chars zero s = s
drop_chars (suc n) [] = []
drop_chars (suc n) (c ∷ s) = drop_chars n s

unfoldable pub join : String → List String → String
join sep [] = ""
join sep (x ∷ []) = x
join sep (x ∷ y ∷ xs) = x ⧺ sep ⧺ join sep (y ∷ xs)

-- The decimal digits of a number below `10 ^ fuel`, before `acc`.
digits : ℕ → ℕ → String → String
digits zero n acc = acc
digits (suc f) n acc =
    let rest = digits f (n / 10) (char_at "0123456789" (n % 10) ∷ acc) in
    if ltb n 10 then char_at "0123456789" n ∷ acc else rest

-- JavaScript switches to an exponent at 10 ^ 21, so twenty-one digits are enough.
unfoldable pub decimal : ℕ → String
unfolding digits
decimal n = digits 21 n ""

-- puts a character before the first of the parts
abbrev pub extend_first : Char → List String → List String
extend_first c [] = (c ∷ []) ∷ []
extend_first c (part ∷ parts) = (c ∷ part) ∷ parts

-- `s.split(sep)` at a separator of one character, given by its code
unfoldable pub split : ℕ → String → List String
split sep [] = "" ∷ []
split sep (c ∷ s) =
    let parts = split sep s in if eqb (code c) sep then "" ∷ parts else extend_first c parts
