-- ===== src/Gateway/Client/Scopes/Minimal.antt =====
-- The scopes that the client asks for are the least that a turn needs, and no scope twice.
use ombot.Prelude.{
  String, ◌≡◌, Bool, true, false, List, [], ◌∷◌, ◌++◌, arith, eq_refl, Bool-cases, inl, inr,
  if◌then◌else◌, ◌==◌,
}
use ombot.Js.Text.{trim}
use ombot.Js.Value.{undefined, null, bool, num, str, arr, obj, Items, nil, cons}
use ombot.Gateway.Deduper.{has}
use ombot.Gateway.Deduper.Window.{Distinct, Distinct-append}
use ombot.Gateway.Client.Scopes.{canonical_scope, add_scope, add_trimmed, add_scopes, normalize}

has-append_self : (k : String) (xs : List String) → has k (xs ++ k ∷ []) ≡ true
has-append_self k [] = ground (arith, eq_refl k)
has-append_self k (x ∷ xs) = ground (arith, has-append_self k xs)

has-append_other : (k j : String) (xs : List String) → has k xs ≡ true → has k (xs ++ j ∷ []) ≡ true
has-append_other k j [] h = cc
has-append_other k j (x ∷ xs) h = ground (arith, has-append_other k j xs)

add_scope-Distinct :
    (scope : String) (out : List String) → Distinct out → Distinct (add_scope scope out)
unfolding add_scope
add_scope-Distinct scope out d = elim (Bool-cases (has scope out)) [
  | inl known ↦ rw known d
  | inr fresh ↦ rw fresh (Distinct-append out scope d fresh)
]

has-add_scope : (scope : String) (out : List String) → has scope (add_scope scope out) ≡ true
unfolding add_scope
has-add_scope scope out = ground (arith, has-append_self scope out)

has-add_scope_other :
    (k scope : String) (out : List String) → has k out ≡ true → has k (add_scope scope out) ≡ true
unfolding add_scope
has-add_scope_other k scope out h = ground (arith, has-append_other k scope out h)

if-Distinct :
    (b : Bool) (xs ys : List String) → Distinct xs → Distinct ys → Distinct (if b then xs else ys)
if-Distinct true xs ys h k = h
if-Distinct false xs ys h k = k

add_scopes-Distinct :
    (scopes : Items) (out : List String) → Distinct out → Distinct (add_scopes scopes out)
unfolding add_scopes
add_scopes-Distinct nil out d = d
add_scopes-Distinct (cons (str s) scopes) out d =
    add_scopes-Distinct scopes (add_trimmed (trim s) out) (
      if-Distinct (trim s == "") out (add_scope (canonical_scope (trim s)) out) d
        (add_scope-Distinct (canonical_scope (trim s)) out d))
add_scopes-Distinct (cons undefined scopes) out d = add_scopes-Distinct scopes out d
add_scopes-Distinct (cons null scopes) out d = add_scopes-Distinct scopes out d
add_scopes-Distinct (cons (bool b) scopes) out d = add_scopes-Distinct scopes out d
add_scopes-Distinct (cons (num n) scopes) out d = add_scopes-Distinct scopes out d
add_scopes-Distinct (cons (arr xs) scopes) out d = add_scopes-Distinct scopes out d
add_scopes-Distinct (cons (obj fs) scopes) out d = add_scopes-Distinct scopes out d

-- Whatever scopes are configured, the client asks for those to read and to write, and for none
-- twice.
normalize_lem :
    (scopes : Items)
    → Distinct (normalize scopes)
      × (has "operator.read" (normalize scopes) ≡ true)
      × (has "operator.write" (normalize scopes) ≡ true)
unfolding normalize
normalize_lem scopes =
    let configured = add_scopes scopes [] in
    let reading = add_scope "operator.read" configured in
    (
      add_scope-Distinct "operator.write" reading
          (add_scope-Distinct "operator.read" configured (add_scopes-Distinct scopes [] tt)),
      has-add_scope_other "operator.read" "operator.write" reading
          (has-add_scope "operator.read" configured),
      has-add_scope "operator.write" reading,
    )
