-- ===== src/Server/RateLimit.antt =====
-- The rate limit of index.js, over any run of one client's messages.
use ombot.Prelude.{
  ℕ, ◌≤◌, ◌<◌, String, ◌≡◌, refl, sym, ap, ◌∙◌, true, false, List, [], ◌∷◌, ◌++◌, arith, eq_refl,
  length, length-append,
}
use ombot.Server.{RateWindow, times_of, set_times, fresh, allow_message}

times_of-set_times :
    (client : String) (ts : List ℕ) (w : RateWindow) → times_of client (set_times client ts w) ≡ ts
unfolding times_of set_times
times_of-set_times client ts [] = ground (arith, eq_refl client)
times_of-set_times client ts (e ∷ w) =
    ground (arith, eq_refl client, times_of-set_times client ts w)

fresh-append : (now : ℕ) (xs ys : List ℕ) → fresh now (xs ++ ys) ≡ fresh now xs ++ fresh now ys
unfolding fresh
fresh-append now [] ys = refl
fresh-append now (x ∷ xs) ys = ground (arith, fresh-append now xs ys)

-- What is fresh later was fresh before.
fresh-fresh :
    (later now : ℕ) (xs : List ℕ) → now ≤ later → fresh later (fresh now xs) ≡ fresh later xs
unfolding fresh
fresh-fresh later now [] h = refl
fresh-fresh later now (x ∷ xs) h = ground (arith, fresh-fresh later now xs h)

length-fresh_le :
    (later now : ℕ) (xs : List ℕ) → now ≤ later → length (fresh later xs) ≤ length (fresh now xs)
unfolding fresh
length-fresh_le later now [] h = omega arith
length-fresh_le later now (x ∷ xs) h = ground (arith, length-fresh_le later now xs h)

length-fresh-one : (later now : ℕ) → length (fresh later (now ∷ [])) ≤ 1
unfolding fresh
length-fresh-one later now = ground arith

module _ (limit : ℕ) (client : String) where
  -- The Map and the times of the messages let through so far, after messages of the client at times
  -- that do not decrease; the last index is the time of the last message.
  pub data Run : RateWindow → List ℕ → ℕ → Type 0 where
    idle : (w : RateWindow) (now : ℕ) → times_of client w ≡ [] → Run w [] now
    passed :
        {w : RateWindow} {history : List ℕ} {before : ℕ} (now : ℕ)
        → Run w history before
        → before ≤ now
        → (allow_message limit client now w).0 ≡ true
        → Run (allow_message limit client now w).1 (history ++ now ∷ []) now
    refused :
        {w : RateWindow} {history : List ℕ} {before : ℕ} (now : ℕ)
        → Run w history before
        → before ≤ now
        → (allow_message limit client now w).0 ≡ false
        → Run (allow_message limit client now w).1 history now

  passed-times :
      (now : ℕ) (w : RateWindow)
      → (allow_message limit client now w).0 ≡ true
      → (length (fresh now (times_of client w)) < limit)
        × (times_of client (allow_message limit client now w).1
            ≡ fresh now (times_of client w) ++ now ∷ [])
  unfolding allow_message
  passed-times now w h =
      ground (arith, times_of-set_times client (fresh now (times_of client w) ++ now ∷ []) w)

  refused-same :
      (now : ℕ) (w : RateWindow)
      → (allow_message limit client now w).0 ≡ false
      → (allow_message limit client now w).1 ≡ w
  unfolding allow_message
  refused-same now w h = ground arith

  -- what is left of the history at a later time is in the Map
  Run-fresh :
      {w : RateWindow} {history : List ℕ} {last : ℕ} (later : ℕ)
      → Run w history last
      → last ≤ later
      → fresh later (times_of client w) ≡ fresh later history
  Run-fresh later (idle w now e) h = ap (fresh later) e
  Run-fresh later (passed {w} {history} {before} now r le under) h =
      ap (fresh later) (passed-times now w under).1
      ∙ fresh-append later (fresh now (times_of client w)) (now ∷ [])
      ∙ ap (λ xs. xs ++ fresh later (now ∷ []))
          (fresh-fresh later now (times_of client w) h ∙ Run-fresh later r (omega arith))
      ∙ sym (fresh-append later history (now ∷ []))
  Run-fresh later (refused {w} {history} {before} now r le over) h =
      ap (λ v. fresh later (times_of client v)) (refused-same now w over)
      ∙ Run-fresh later r (omega arith)

  -- From a client that the Map does not know, whatever messages it sends at times that do not
  -- decrease, no more than the limit are let through within any 60 seconds: at the last message's
  -- time and at every later time, at most `limit` of those let through are less than 60000 ms old.
  pub at_most_limit_per_minute :
      {w : RateWindow} {history : List ℕ} {last : ℕ} (later : ℕ)
      → Run w history last
      → last ≤ later
      → length (fresh later history) ≤ limit
  unfolding fresh
  at_most_limit_per_minute later (idle w now e) h = omega arith
  at_most_limit_per_minute later (passed {w} {history} {before} now r le under) h = omega (
    arith,
    passed-times now w under,
    ap length (Run-fresh now r le),
    ap length (fresh-append later history (now ∷ [])),
    length-append (fresh later history) (fresh later (now ∷ [])),
    length-fresh_le later now history h,
    length-fresh-one later now,
  )
  at_most_limit_per_minute later (refused {w} {history} {before} now r le over) h =
      at_most_limit_per_minute later r (omega arith)
