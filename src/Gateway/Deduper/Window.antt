-- ===== src/Gateway/Deduper/Window.antt =====
-- The window over a history of keys: its last `n` entries, and how `evict` computes it.
use ombot.Prelude.{
  ℕ, ◌≤◌, ◌<◌, String, ◌≡◌, refl, ◌≢◌, true, false, ◌||◌, List, [], ◌∷◌, ◌++◌, arith, eq_iff,
  eq_refl, length, length-append, All, ltb, Bool-cases, inl, inr, if◌then◌else◌,
}
use ombot.Gateway.Deduper.{has, delete, evict}

-- the last `n` entries
unfoldable pub window : ℕ → List String → List String
window n [] = []
window n (x ∷ xs) = if ltb n (length (x ∷ xs)) then window n xs else x ∷ xs

abbrev pub Distinct : List String → Type 0
Distinct [] = Unit
Distinct (x ∷ xs) = (has x xs ≡ false) × Distinct xs

abbrev pub NonEmpty : List String → Type 0
NonEmpty = All (λ k. k ≢ "")

length-window-le : (n : ℕ) (xs : List String) → length (window n xs) ≤ n
unfolding window
length-window-le n [] = omega arith
length-window-le n (x ∷ xs) = ground (arith, length-window-le n xs)

pub window-Distinct : (n : ℕ) (xs : List String) → Distinct xs → Distinct (window n xs)
unfolding window
window-Distinct n [] h = tt
window-Distinct n (x ∷ xs) h = ground (arith, window-Distinct n xs h.1)

pub window-NonEmpty : (n : ℕ) (xs : List String) → NonEmpty xs → NonEmpty (window n xs)
unfolding window
window-NonEmpty n [] h = tt
window-NonEmpty n (x ∷ xs) h = ground (arith, window-NonEmpty n xs h.1)

-- The window of a longer history reads only the window of the shorter one.
pub window-window :
    (n : ℕ) (xs : List String) (k : String)
    → window n (window n xs ++ k ∷ []) ≡ window n (xs ++ k ∷ [])
unfolding window
window-window n [] k = refl
window-window n (x ∷ xs) k = ground (arith, window-window n xs k, length-append {0} xs (k ∷ []))

has-append : (k : String) (xs ys : List String) → has k (xs ++ ys) ≡ (has k xs || has k ys)
has-append k [] ys = refl
has-append k (x ∷ xs) ys = ground (arith, has-append k xs ys)

has-append_self : (k : String) (xs ys : List String) → has k (xs ++ k ∷ ys) ≡ true
has-append_self k xs ys = rw has-append (ground (arith, eq_refl k))

-- While fewer than `n` entries follow an entry, it is in the window.
pub has-window :
    (n : ℕ) (xs : List String) (k : String) (ys : List String)
    → length ys < n
    → has k (window n (xs ++ k ∷ ys)) ≡ true
unfolding window
has-window n [] k ys h = ground (arith, eq_refl k)
has-window n (x ∷ xs) k ys h = elim (Bool-cases (ltb n (length (x ∷ xs ++ k ∷ ys)))) [
  | inl long ↦ rw long (has-window n xs k ys h)
  | inr short ↦ rw short (has-append_self k (x ∷ xs) ys)
]

delete_absent : (k : String) (xs : List String) → has k xs ≡ false → delete k xs ≡ xs
unfolding delete
delete_absent k [] h = refl
delete_absent k (x ∷ xs) h = ground (arith, delete_absent k xs)

pub Distinct-append :
    (xs : List String) (k : String) → Distinct xs → has k xs ≡ false → Distinct (xs ++ k ∷ [])
Distinct-append [] k d h = (refl, tt)
Distinct-append (x ∷ xs) k (fresh, d) h =
    (rw has-append (ground (arith, eq_iff x k, eq_iff k x)), Distinct-append xs k d (ground arith))

-- Over a history with no repeats, where the Set holds the history, `evict` is the window.
pub evict-eq-window :
    (n : ℕ) (xs : List String)
    → Distinct xs
    → NonEmpty xs
    → evict n xs xs ≡ (window n xs, window n xs)
unfolding evict window
evict-eq-window n [] d e = refl
evict-eq-window n (x ∷ xs) (fresh, d) (filled, e) =
    ground (arith, evict-eq-window n xs d e, delete_absent x xs fresh, eq_iff x "", eq_refl x)
