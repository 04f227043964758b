-- ===== src/Js/Text/Trim.antt =====
-- Blank texts: what `trim` makes empty, and what it leaves.
use Prim.Native.String.{[], ◌∷◌}
use Prim.Native.String.compare
use text.Mathlib.TextLemmas.{append-eq-nil_iff, cons-append, nil-append}
use text.Mathlib.Text.{is_eq}
use ombot.Prelude.{
  Char, code, String, ◌≡◌, refl, ◌∙◌, ap, ◌≢◌, Bool, true, false, ◌&&◌, ◌||◌, not, arith,
  Bool-cases, inl, inr, ◌==◌,
}
use ombot.Js.Text.{◌⧺◌, is_space, trim_start, before_trimmed, trim_end, trim}

pub append-ne-empty : (s t : String) → s ≢ "" → s ⧺ t ≢ ""
append-ne-empty s t h e = h ((append-eq-nil_iff {p = s} {q = t}).0 e).0

-- a text with a character that `trim` keeps
unfoldable pub has_ink : String → Bool
has_ink [] = false
has_ink (c ∷ s) = not (is_space (code c)) || has_ink s

cons-ne-empty : (c : Char) (s : String) → ((c ∷ s) == "") ≡ false
cons-ne-empty c s = ap is_eq (compare.cons-nil c s)

before_trimmed-empty :
    (c : Char) (r : String) → (before_trimmed c r == "") ≡ (is_space (code c) && (r == ""))
unfolding before_trimmed
before_trimmed-empty c [] = elim (Bool-cases (is_space (code c))) [
  | inl blank ↦ rw blank
  | inr inked ↦ rw (inked, cons-ne-empty)
]
before_trimmed-empty c (d ∷ r) = ground (arith, cons-ne-empty c (d ∷ r), cons-ne-empty d r)

trim_end_empty : (s : String) → (trim_end s == "") ≡ not (has_ink s)
unfolding trim_end before_trimmed has_ink
trim_end_empty [] = refl
trim_end_empty (c ∷ s) = ground (arith, before_trimmed-empty c (trim_end s), trim_end_empty s)

has_ink-trim_start : (s : String) → has_ink (trim_start s) ≡ has_ink s
unfolding trim_start has_ink
has_ink-trim_start [] = refl
has_ink-trim_start (c ∷ s) = ground (arith, has_ink-trim_start s)

has_ink-before_trimmed :
    (c : Char) (r : String) → has_ink (before_trimmed c r) ≡ (not (is_space (code c)) || has_ink r)
unfolding before_trimmed has_ink
has_ink-before_trimmed c [] = elim (Bool-cases (is_space (code c))) [
  | inl blank ↦ rw blank
  | inr inked ↦ rw (inked, has_ink) (rw inked)
]
has_ink-before_trimmed c (d ∷ r) = refl

has_ink-trim_end : (s : String) → has_ink (trim_end s) ≡ has_ink s
unfolding trim_end has_ink
has_ink-trim_end [] = refl
has_ink-trim_end (c ∷ s) = rw has_ink-before_trimmed (rw (has_ink-trim_end s))

-- `trim` leaves nothing exactly when every character is white space.
pub trim_empty : (s : String) → (trim s == "") ≡ not (has_ink s)
unfolding trim
trim_empty s = rw (trim_end_empty, has_ink-trim_start)

pub has_ink-trim : (s : String) → has_ink (trim s) ≡ has_ink s
unfolding trim
has_ink-trim s = rw (has_ink-trim_end, has_ink-trim_start)

pub has_ink-append : (s t : String) → has_ink (s ⧺ t) ≡ (has_ink s || has_ink t)
unfolding has_ink
has_ink-append [] t = rw nil-append
has_ink-append (c ∷ s) t = rw cons-append (ground (arith, has_ink-append s t))

pub inked-ne-empty : (s : String) → has_ink s ≡ true → (s == "") ≡ false
unfolding has_ink
inked-ne-empty [] h = cc
inked-ne-empty (c ∷ s) h = cons-ne-empty c s

trim_end-before_trimmed :
    (c : Char) (r : String) → trim_end r ≡ r → trim_end (before_trimmed c r) ≡ before_trimmed c r
unfolding trim_end before_trimmed
trim_end-before_trimmed c [] h = elim (Bool-cases (is_space (code c))) [
  | inl blank ↦ rw blank
  | inr inked ↦ rw (inked, trim_end) (rw inked)
]
trim_end-before_trimmed c (d ∷ r) h = ap (before_trimmed c) h

trim_end_idem : (s : String) → trim_end (trim_end s) ≡ trim_end s
unfolding trim_end
trim_end_idem [] = refl
trim_end_idem (c ∷ s) = trim_end-before_trimmed c (trim_end s) (trim_end_idem s)

trim_start-before_trimmed :
    (c : Char) (r : String)
    → is_space (code c) ≡ false
    → trim_start (before_trimmed c r) ≡ before_trimmed c r
unfolding trim_start before_trimmed
trim_start-before_trimmed c [] h = rw h (rw h)
trim_start-before_trimmed c (d ∷ r) h = rw h

trim_start-trim_end : (s : String) → trim_start (trim_end (trim_start s)) ≡ trim_end (trim_start s)
unfolding trim_start
trim_start-trim_end [] = unfold trim_end in refl
trim_start-trim_end (c ∷ s) = elim (Bool-cases (is_space (code c))) [
  | inl blank ↦ rw blank (trim_start-trim_end s)
  | inr inked ↦ rw inked (unfold trim_end in trim_start-before_trimmed c (trim_end s) inked)
]

-- A trimmed text is trimmed.
pub trim_idem : (s : String) → trim (trim s) ≡ trim s
unfolding trim
trim_idem s = ap trim_end (trim_start-trim_end s) ∙ trim_end_idem (trim_start s)

abbrev pub starts_inked : String → Bool
starts_inked [] = false
starts_inked (c ∷ s) = not (is_space (code c))

-- a text with something in it and no white space at either end
pub record IsTrimmed (s : String) : Type 0 where
  pub starts : starts_inked s ≡ true
  pub ends : trim_end s ≡ s

before_trimmed-there : (c : Char) (r : String) → (r == "") ≡ false → before_trimmed c r ≡ c ∷ r
unfolding before_trimmed
before_trimmed-there c [] h = cc
before_trimmed-there c (d ∷ r) h = refl

append-there : (s t : String) → (t == "") ≡ false → (s ⧺ t == "") ≡ false
append-there [] t h = rw nil-append h
append-there (c ∷ s) t h = rw cons-append (cons-ne-empty c (s ⧺ t))

trim_end-append : (s t : String) → trim_end t ≡ t → (t == "") ≡ false → trim_end (s ⧺ t) ≡ s ⧺ t
unfolding trim_end
trim_end-append [] t e h = rw nil-append e
trim_end-append (c ∷ s) t e h =
    rw (cons-append, trim_end-append s t e h) (before_trimmed-there c (s ⧺ t) (append-there s t h))

starts-there : (s : String) → starts_inked s ≡ true → (s == "") ≡ false
starts-there [] h = cc
starts-there (c ∷ s) h = cons-ne-empty c s

trim_start-starts : (s : String) → starts_inked s ≡ true → trim_start s ≡ s
unfolding trim_start
trim_start-starts [] h = refl
trim_start-starts (c ∷ s) h = ground arith

starts-append : (s t : String) → starts_inked s ≡ true → starts_inked (s ⧺ t) ≡ true
starts-append [] t h = cc
starts-append (c ∷ s) t h = rw cons-append h

pub trim-IsTrimmed : (s : String) → IsTrimmed s → trim s ≡ s
unfolding trim
trim-IsTrimmed s h = rw (trim_start-starts s h.starts) h.ends

pub IsTrimmed-append : (s m t : String) → IsTrimmed s → IsTrimmed t → IsTrimmed (s ⧺ m ⧺ t)
IsTrimmed-append s m t h k =
    let there = starts-there t k.starts in
    record {
      starts = starts-append s (m ⧺ t) h.starts;
      ends = trim_end-append s (m ⧺ t) (trim_end-append m t k.ends there) (append-there m t there);
    }

pub IsTrimmed-there : (s : String) → IsTrimmed s → (s == "") ≡ false
IsTrimmed-there s h = starts-there s h.starts
