-- ===== src/Gateway/Deduper/Refinement.antt =====
-- The deduper refines a history of delivered keys: it holds the last `max_entries` of them.
use ombot.Prelude.{
  ℕ, ◌<◌, String, ◌≡◌, refl, sym, ◌∙◌, ◌≢◌, Bool, true, false, not, ◌&&◌, Option, none, some, List,
  [], ◌∷◌, ◌++◌, arith, eq_iff, length, All-append, Bool-cases, inl, inr, if◌then◌else◌, ◌==◌,
}
use mathlib.Core.List.{append-nil, append_assoc}
use ombot.Js.Text.{trim}
use ombot.Js.Text.Trim.{append-ne-empty}
use ombot.Gateway.Deduper.{Deduper, new, has, evict, reply_key, remember, should_deliver}
use ombot.Gateway.Deduper.Window.{
  window, Distinct, NonEmpty, window-Distinct, window-NonEmpty, window-window, has-window,
  Distinct-append, evict-eq-window,
}

-- A deduper of capacity `n` holds the window of the history, in the Set and in the array, and no
-- key is empty or twice in it.
pub record Refines (n : ℕ) (d : Deduper) (history : List String) : Type 0 where
  pub capacity : d.max_entries ≡ n
  pub seen_is : d.seen ≡ window n history
  pub order_is : d.order ≡ window n history
  pub distinct : Distinct (window n history)
  pub filled : NonEmpty (window n history)

pub new-Refines : (n : ℕ) → Refines n (new n) []
unfolding window
new-Refines n = record {
  capacity = refl;
  seen_is = refl;
  order_is = refl;
  distinct = tt;
  filled = tt;
}

module _ {n : ℕ} {d : Deduper} {history : List String} (r : Refines n d history)
    (key : String) where
  module _ (fresh : has key d.seen ≡ false) (named : key ≢ "") where
    push-Distinct : Distinct (window n history ++ key ∷ [])
    push-Distinct = Distinct-append (window n history) key r.distinct (rw r.seen_is at fresh)

    push-NonEmpty : NonEmpty (window n history ++ key ∷ [])
    push-NonEmpty = All-append _ (window n history) (key ∷ []) r.filled (named, tt)

    -- `evict` after the push leaves the window of the longer history, in the Set and in the array
    evict-push :
        evict d.max_entries (d.seen ++ key ∷ []) (d.order ++ key ∷ [])
        ≡ (window n (history ++ key ∷ []), window n (history ++ key ∷ []))
    evict-push =
        let e = evict-eq-window n (window n history ++ key ∷ []) push-Distinct push-NonEmpty in
        rw (r.capacity, r.seen_is, r.order_is) (rw window-window at e)

    remember_fresh : (remember key d).0 ≡ true
    unfolding remember
    remember_fresh = rw fresh

    remember-Refines : Refines n (remember key d).1 (history ++ key ∷ [])
    unfolding remember
    remember-Refines =
        rw (fresh, evict-push)
          (record {
            capacity = r.capacity;
            seen_is = refl;
            order_is = refl;
            distinct = rw window-window at (window-Distinct n _ push-Distinct);
            filled = rw window-window at (window-NonEmpty n _ push-NonEmpty);
          })

  remember_known : has key d.seen ≡ true → remember key d ≡ (false, d)
  unfolding remember
  remember_known known = rw known

text_prefix : ◌≢◌ {A = String} "text:" ""
text_prefix = ground (arith, eq_iff "text:" "")

run_prefix : ◌≢◌ {A = String} "run:" ""
run_prefix = ground (arith, eq_iff "run:" "")

reply_key-ne-empty : (run_id : Option String) (text : String) → reply_key run_id text ≢ ""
unfolding reply_key
reply_key-ne-empty none text = append-ne-empty "text:" (trim text) text_prefix
reply_key-ne-empty (some id) text = elim (Bool-cases (trim id == "")) [
  | inl blank ↦ rw blank (append-ne-empty "text:" (trim text) text_prefix)
  | inr named ↦ rw named (append-ne-empty "run:" id run_prefix)
]

-- whether a reply has text, and a key that is not among the last `n` keys of the history
abbrev pub is_fresh : ℕ → List String → Option String → String → Bool
is_fresh n history run_id text =
    not (trim text == "") && not (has (reply_key run_id text) (window n history))

abbrev pub extended : ℕ → List String → Option String → String → List String
extended n history run_id text =
    if is_fresh n history run_id text then history ++ reply_key run_id text ∷ [] else history

-- A reply is delivered exactly when it has text and its key is not among the last `n` delivered
-- keys; then its key joins the history, and otherwise the history stays.
pub should_deliver_iff :
    (n : ℕ) (d : Deduper) (history : List String) (run_id : Option String) (text : String)
    → Refines n d history
    → ((should_deliver run_id (some text) d).0 ≡ is_fresh n history run_id text)
      × Refines n (should_deliver run_id (some text) d).1 (extended n history run_id text)
unfolding should_deliver
should_deliver_iff n d history run_id text r = elim (Bool-cases (trim text == "")) [
  | inl blank ↦ rw blank (refl, r)
  | inr spoken ↦ elim (Bool-cases (has key d.seen)) [
    | inl known ↦ rw (spoken, remember_known r key known, rw r.seen_is at known) (refl, r)
    | inr fresh ↦
        let named = reply_key-ne-empty run_id text in
        rw (spoken, ← r.seen_is, fresh)
          (remember_fresh r key fresh named, remember-Refines r key fresh named)
  ]
]
  where
    key : String
    key = reply_key run_id text

-- A run of replies: the keys that were delivered, oldest first, and the deduper afterwards.
unfoldable pub deliver_all : List (Option String × String) → Deduper → List String × Deduper
deliver_all [] d = ([], d)
deliver_all ((run_id, text) ∷ rs) d =
    let (delivered, d') = should_deliver run_id (some text) d in
    let (keys, last) = deliver_all rs d' in
    (if delivered then reply_key run_id text ∷ keys else keys, last)

deliver_all-Refines :
    (n : ℕ) (rs : List (Option String × String)) (d : Deduper) (history : List String)
    → Refines n d history
    → Refines n (deliver_all rs d).1 (history ++ (deliver_all rs d).0)
unfolding deliver_all
deliver_all-Refines n [] d history r = rw append-nil r
deliver_all-Refines n ((run_id, text) ∷ rs) d history r =
    let (delivered, r') = should_deliver_iff n d history run_id text r in
    elim (Bool-cases (is_fresh n history run_id text)) [
      | inl fresh ↦
          rw (delivered, fresh) (rw append_assoc at (deliver_all-Refines n rs _ _ (rw fresh at r')))
      | inr stale ↦ rw (delivered, stale) (deliver_all-Refines n rs _ history (rw stale at r'))
    ]

-- Of the keys that a new deduper of capacity `n` has let through, the last `n` are all different.
recent-Distinct :
    (n : ℕ) (rs : List (Option String × String)) → Distinct (window n (deliver_all rs (new n)).0)
recent-Distinct n rs = (deliver_all-Refines n rs (new n) [] (new-Refines n)).distinct

reply_key_named :
    (id s t : String) → (trim id == "") ≡ false → reply_key (some id) s ≡ reply_key (some id) t
unfolding reply_key
reply_key_named id s t named = rw named

-- After a reply of a named run was delivered, no reply of that run is delivered, whatever its text,
-- while fewer than `n` other replies have been delivered.
pub run_delivered_once :
    (n : ℕ) (d : Deduper) (history : List String) (id text again : String)
    (rs : List (Option String × String))
    → Refines n d history
    → (trim id == "") ≡ false
    → (should_deliver (some id) (some text) d).0 ≡ true
    → length (deliver_all rs (should_deliver (some id) (some text) d).1).0 < n
    → (should_deliver
        (some id)
        (some again)
        (deliver_all rs (should_deliver (some id) (some text) d).1).1).0
      ≡ false
run_delivered_once n d history id text again rs r named first few =
    let (delivered, r₁) = should_deliver_iff n d history (some id) text r in
    let fresh : is_fresh n history (some id) text ≡ true = sym delivered ∙ first in
    let r₂ = deliver_all-Refines n rs _ _ (rw fresh at r₁) in
    let known = has-window n history (reply_key (some id) text) _ few in
    (should_deliver_iff n _ _ (some id) again r₂).0
    ∙ stale again _ (rw (append_assoc, reply_key_named id again text named) known)
  where
    stale :
        (s : String) (h : List String)
        → has (reply_key (some id) s) (window n h) ≡ true
        → is_fresh n h (some id) s ≡ false
    stale s h seen = rw seen (ground arith)
