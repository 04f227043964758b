-- ===== src/Js/Json/Sorted.antt =====
-- Keys in the order of `sort`: two different keys are inserted in either order with one result.
use ombot.Prelude.{ℕ, String, ◌≡◌, refl, ◌≢◌, true, false, not, List, [], ◌∷◌, arith}
use ombot.Js.Value.{Value, Fields, end, field}
use ombot.Js.Json.{utf16, before, insert_key}

before_cotrans : (a b c : List ℕ) → before a c ≡ true → before a b ≡ false → before b c ≡ true
unfolding before
before_cotrans [] [] c h k = h
before_cotrans [] (y ∷ b) c h k = cc
before_cotrans (x ∷ a) b [] h k = cc
before_cotrans (x ∷ a) [] (z ∷ c) h k = refl
before_cotrans (x ∷ a) (y ∷ b) (z ∷ c) h k = ground (arith, before_cotrans a b c)

before_total : (a b : List ℕ) → a ≢ b → before a b ≡ not (before b a)
unfolding before
before_total [] [] h = absurd (h refl)
before_total [] (y ∷ b) h = refl
before_total (x ∷ a) [] h = refl
before_total (x ∷ a) (y ∷ b) h = ground (arith, before_total a b)

pub insert_key_comm :
    (j k : String) (v w : Value) (fs : Fields)
    → utf16 j ≢ utf16 k
    → insert_key j v (insert_key k w fs) ≡ insert_key k w (insert_key j v fs)
unfolding insert_key
insert_key_comm j k v w end h = ground (arith, before_total (utf16 j) (utf16 k) h)
insert_key_comm j k v w (field i u fs) h = ground (
  arith,
  before_total (utf16 j) (utf16 k) h,
  before_cotrans (utf16 i) (utf16 j) (utf16 k),
  before_cotrans (utf16 i) (utf16 k) (utf16 j),
  insert_key_comm j k v w fs h,
)
