-- ===== src/Chatrooms/Names/Safe.antt =====
-- A safe file name is one: not empty, at most 128 characters, and each of them safe.
use Prim.Native.String.{[], ◌∷◌}
use mathlib.Core.List.{[], ◌∷◌}
use text.Mathlib.TextLemmas.{nil-append, cons-append}
use ombot.Prelude.{
  ℕ, zero, suc, ◌≤◌, String, code, Char, ◌≡◌, refl, ◌∙◌, ◌≢◌, Bool, true, false, ◌&&◌, arith, leb,
  ◌==◌, eq_iff, Bool-cases, inl, inr,
}
use ombot.Js.Text.{◌⧺◌, take_chars}
use ombot.Js.Value.{Value, str}
use ombot.Chatrooms.Names.{is_safe, replaced, replace_unsafe, or_default, safe_filename}

-- every character is safe
abbrev pub all_safe : String → Bool
all_safe [] = true
all_safe (c ∷ s) = is_safe (code c) && all_safe s

abbrev pub text_length : String → ℕ
text_length [] = 0
text_length (c ∷ s) = suc (text_length s)

all_safe-append : (s t : String) → all_safe (s ⧺ t) ≡ (all_safe s && all_safe t)
all_safe-append [] t = rw nil-append
all_safe-append (c ∷ s) t = rw cons-append (ground (arith, all_safe-append s t))

all_safe-replaced : (c : Char) → all_safe (replaced c) ≡ true
unfolding replaced is_safe
all_safe-replaced c = elim (Bool-cases (is_safe (code c))) [
  | inl safe ↦ rw safe (rw safe)
  | inr unsafe ↦
      rw unsafe
        (elim (Bool-cases (leb 65536 (code c))) [ inl astral ↦ rw astral | inr unit ↦ rw unit ])
]

all_safe-replace_unsafe : (s : String) → all_safe (replace_unsafe s) ≡ true
unfolding replace_unsafe
all_safe-replace_unsafe [] = refl
all_safe-replace_unsafe (c ∷ s) =
    all_safe-append (replaced c) (replace_unsafe s)
    ∙ rw (all_safe-replaced, all_safe-replace_unsafe s)

all_safe-take_chars : (n : ℕ) (s : String) → all_safe s ≡ true → all_safe (take_chars n s) ≡ true
unfolding take_chars
all_safe-take_chars zero s h = refl
all_safe-take_chars (suc n) [] h = refl
all_safe-take_chars (suc n) (c ∷ s) h = ground (arith, all_safe-take_chars n s)

take_chars-length : (n : ℕ) (s : String) → text_length (take_chars n s) ≤ n
unfolding take_chars
take_chars-length zero s = omega arith
take_chars-length (suc n) [] = omega arith
take_chars-length (suc n) (c ∷ s) = omega (arith, take_chars-length n s)

replaced_safe : (c : Char) → is_safe (code c) ≡ true → replaced c ≡ c ∷ []
unfolding replaced
replaced_safe c h = rw h

replace_unsafe_safe : (s : String) → all_safe s ≡ true → replace_unsafe s ≡ s
unfolding replace_unsafe
replace_unsafe_safe [] h = refl
replace_unsafe_safe (c ∷ s) h = elim (Bool-cases (is_safe (code c))) [
  | inl safe ↦
      rw (replaced_safe c safe, replace_unsafe_safe s (ground arith), cons-append, nil-append)
  | inr unsafe ↦ cc
]

take_chars_short : (n : ℕ) (s : String) → text_length s ≤ n → take_chars n s ≡ s
unfolding take_chars
take_chars_short zero [] h = refl
take_chars_short zero (c ∷ s) h = absurd (omega arith)
take_chars_short (suc n) [] h = refl
take_chars_short (suc n) (c ∷ s) h = rw (take_chars_short n s (omega arith))

-- what a file name must be like
pub record IsFileName (s : String) : Type 0 where
  pub safe : all_safe s ≡ true
  pub short : text_length s ≤ 128
  pub named : s ≢ ""

default-IsFileName : IsFileName "default"
unfolding is_safe
default-IsFileName = record {
  safe = refl;
  short = omega arith;
  named = ground (arith, eq_iff "default" "");
}

or_default-IsFileName :
    (s : String) → all_safe s ≡ true → text_length s ≤ 128 → IsFileName (or_default s)
or_default-IsFileName s safe short = elim (Bool-cases (s == "")) [
  | inl empty ↦ rw empty default-IsFileName
  | inr named ↦ rw named record { safe = safe; short = short; named = ground (arith, eq_iff s "") }
]

-- Whatever the identifier, the name of its file has at most 128 characters, none of which leads out
-- of the directory, and is not empty.
pub safe_filename-IsFileName : (id : Value) → IsFileName (safe_filename id)
unfolding safe_filename
safe_filename-IsFileName (str id) = elim (Bool-cases (id == "")) [
  | inl empty ↦ rw empty default-IsFileName
  | inr named ↦ rw named (
      or_default-IsFileName (take_chars 128 (replace_unsafe id))
        (all_safe-take_chars 128 (replace_unsafe id) (all_safe-replace_unsafe id))
        (take_chars-length 128 (replace_unsafe id)))
]
safe_filename-IsFileName _ = default-IsFileName

safe_filename_fixed : (s : String) → IsFileName s → safe_filename (str s) ≡ s
unfolding safe_filename
safe_filename_fixed s h =
    let named : (s == "") ≡ false = ground (arith, eq_iff s "", h.named) in
    rw (named, replace_unsafe_safe s h.safe, take_chars_short 128 s h.short, named)

-- A name of a file is the name of its own file.
safe_filename_idem : (id : Value) → safe_filename (str (safe_filename id)) ≡ safe_filename id
safe_filename_idem id = safe_filename_fixed (safe_filename id) (safe_filename-IsFileName id)
