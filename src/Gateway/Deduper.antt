-- ===== src/Gateway/Deduper.antt =====
-- `GatewayReplyDeduper` of gatewayAssistantDispatch.js. The Set `_seen` is the list of its members
-- in the order of insertion.
pub mod Window
pub mod Refinement
use ombot.Prelude.{
  ℕ, String, Bool, true, false, not, Option, none, some, List, [], ◌∷◌, ◌++◌, length, keep, any,
  ltb, if◌then◌else◌, ◌==◌,
}
use ombot.Js.Text.{◌⧺◌, trim}

pub record Deduper : Type 0 where
  pub max_entries : ℕ
  pub seen : List String
  pub order : List String

-- `new GatewayReplyDeduper({ maxEntries })`, whose default is 256
abbrev pub new : ℕ → Deduper
new max_entries = record { max_entries = max_entries; seen = []; order = [] }

unfoldable pub reset : Deduper → Deduper
reset d = record d { seen = []; order = [] }

abbrev pub has : String → List String → Bool
has k s = any (λ j. j == k) s

unfoldable pub delete : String → List String → List String
delete k s = keep (λ j. not (j == k)) s

-- `while (order.length > maxEntries)`, each round one entry shorter
unfoldable pub evict : ℕ → List String → List String → List String × List String
unfolding delete
evict most seen [] = (seen, [])
evict most seen (old ∷ rest) =
    if ltb most (length (old ∷ rest))
    then evict most (if old == "" then seen else delete old seen) rest
    else (seen, old ∷ rest)

-- `isNonEmptyString(runId) ? run:… : text:…`
unfoldable pub reply_key : Option String → String → String
reply_key none text = "text:" ⧺ trim text
reply_key (some id) text = if trim id == "" then "text:" ⧺ trim text else "run:" ⧺ id

unfoldable pub remember : String → Deduper → Bool × Deduper
unfolding evict
remember key d =
    let (seen, order) = evict d.max_entries (d.seen ++ key ∷ []) (d.order ++ key ∷ []) in
    if has key d.seen then (false, d) else (true, record d { seen = seen; order = order })

unfoldable pub should_deliver : Option String → Option String → Deduper → Bool × Deduper
should_deliver run_id none d = (false, d)
should_deliver run_id (some text) d =
    if trim text == "" then (false, d) else remember (reply_key run_id text) d
