-- ===== src/Js/Text/Join.antt =====
-- Joined texts: the parts are determined by the whole if none has the separator in it.
use Prim.Native.String.{[], ◌∷◌}
use text.Mathlib.TextLemmas.{cons-append, nil-append, cons-eq-cons}
use mathlib.Core.List.{[], ◌∷◌}
use ombot.Prelude.{Char, code, String, ◌≡◌, refl, sym, ◌∙◌, ap, ◌≢◌, List, All}
use ombot.Js.Text.{◌⧺◌, join}

module _ (sep : Char) where
  abbrev pub Without : String → Type 0
  Without [] = Unit
  Without (c ∷ s) = (code c ≢ code sep) × Without s

  pub split_first :
      (a b s t : String) → Without a → Without b → a ⧺ sep ∷ s ≡ b ⧺ sep ∷ t → (a ≡ b) × (s ≡ t)
  split_first [] [] s t h k e =
      (refl, ((cons-eq-cons {x = sep} {y = sep}).0 (sym (nil-append _) ∙ e ∙ nil-append _)).1)
  split_first [] (d ∷ b) s t h k e = absurd (
      k.0 (
        sym (
          ap code
            ((cons-eq-cons {x = sep} {y = d}).0
              (sym (nil-append _) ∙ e ∙ cons-append d b (sep ∷ t))).0)))
  split_first (c ∷ a) [] s t h k e = absurd (
      h.0 (
        sym (
          ap code
            ((cons-eq-cons {x = sep} {y = c}).0
              (sym (nil-append _) ∙ sym e ∙ cons-append c a (sep ∷ s))).0)))
  split_first (c ∷ a) (d ∷ b) s t h k e =
      let (same, rest) =
        (cons-eq-cons {x = c} {y = d}).0
          (sym (cons-append c a (sep ∷ s)) ∙ e ∙ cons-append d b (sep ∷ t)) in
      let (same', rest') = split_first a b s t h.1 k.1 rest in (cc (same, same'), rest')

  -- A text without the separator is not two parts.
  split_none : (a b t : String) → Without a → a ≢ b ⧺ sep ∷ t
  split_none [] [] t h e = cc (e, nil-append (sep ∷ t))
  split_none [] (d ∷ b) t h e = cc (e, cons-append d b (sep ∷ t))
  split_none (c ∷ a) [] t h e =
      h.0 (ap code ((cons-eq-cons {x = c} {y = sep}).0 (e ∙ nil-append _)).0)
  split_none (c ∷ a) (d ∷ b) t h e =
      split_none a b t h.1 ((cons-eq-cons {x = c} {y = d}).0 (e ∙ cons-append d b (sep ∷ t))).1

  join-cons :
      (x y : String) (xs : List String)
      → join (sep ∷ []) (x ∷ y ∷ xs) ≡ x ⧺ sep ∷ join (sep ∷ []) (y ∷ xs)
  unfolding join
  join-cons x y xs = ap (λ s. x ⧺ s) (cons-append sep [] _ ∙ ap (λ s. sep ∷ s) (nil-append _))

  join-single : (x : String) → join (sep ∷ []) (x ∷ []) ≡ x
  unfolding join
  join-single x = refl

  pub join-injective :
      (x y : String) (xs ys : List String)
      → All Without (x ∷ xs)
      → All Without (y ∷ ys)
      → join (sep ∷ []) (x ∷ xs) ≡ join (sep ∷ []) (y ∷ ys)
      → ◌≡◌ {A = List String} (x ∷ xs) (y ∷ ys)
  join-injective x y [] [] h k e =
      ap (λ (z : String). z ∷ []) (sym (join-single x) ∙ e ∙ join-single y)
  join-injective x y [] (y' ∷ ys) h k e =
      absurd (split_none x y _ h.0 (sym (join-single x) ∙ e ∙ join-cons y y' ys))
  join-injective x y (x' ∷ xs) [] h k e =
      absurd (split_none y x _ k.0 (sym (join-single y) ∙ sym e ∙ join-cons x x' xs))
  join-injective x y (x' ∷ xs) (y' ∷ ys) h k e =
      let (same, rest) =
        split_first x y _ _ h.0 k.0 (sym (join-cons x x' xs) ∙ e ∙ join-cons y y' ys) in
      cc (same, join-injective x' y' xs ys h.1 k.1 rest)
