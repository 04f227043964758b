-- ===== src/SelfHeal/Wait/Ends.antt =====
-- The waiting for the gateway's port ends, with the first open probe or after the time is over.
use ombot.Prelude.{
  ℕ, zero, suc, ◌+◌, ◌≤◌, ◌<◌, ◌≡◌, refl, sym, ap, ◌∙◌, subst, ◌⊎◌, inl, inr, Bool, true, false,
  Option, some, ltb, eqb, if◌then◌else◌, arith, Bool-cases,
}
use ombot.SelfHeal.Wait.{Probe, Waited, poll_until, wait_for_gateway_loopback}

-- A result is that of the probe k, the last one made: those before it found the port closed, and it
-- is open itself, or the deadline has come at the test behind it.
pub record Ends (clock : ℕ → ℕ) (probes : ℕ → Probe) (deadline : ℕ) (result : Option Waited)
    : Type 0 where
  pub last : ℕ
  pub result_is : result ≡ some (record { ok = (probes last).ok; probe = probes last })
  pub before : (j : ℕ) → j < last → (probes j).ok ≡ false
  pub over : ((probes last).ok ≡ true) ⊎ (deadline ≤ clock (suc last))

module _ (clock : ℕ → ℕ) (probes : ℕ → Probe) where
  -- the loop's result at its test i
  at_test :
      (fuel deadline i : ℕ) (in_time open_ : Bool)
      → ltb (clock (suc i)) deadline ≡ in_time
      → (probes (suc i)).ok ≡ open_
      → poll_until clock probes (suc fuel) deadline i ≡ (
          if in_time
          then if open_
            then some (record { ok = true; probe = probes (suc i) })
            else poll_until clock probes fuel deadline (suc i)
          else some (record { ok = false; probe = probes i }))
  unfolding poll_until
  at_test fuel deadline i in_time open_ e f = rw (e, f) refl

  late-Ends :
      (fuel deadline i : ℕ)
      → ltb (clock (suc i)) deadline ≡ false
      → ((j : ℕ) → j < suc i → (probes j).ok ≡ false)
      → Ends clock probes deadline (poll_until clock probes (suc fuel) deadline i)
  late-Ends fuel deadline i late closed = record {
    last = i;
    result_is =
        rw (at_test fuel deadline i false (probes (suc i)).ok late refl, closed i (omega arith))
          refl;
    before = λ j h. closed j (omega arith);
    over = inr (ground arith);
  }

  open-Ends :
      (fuel deadline i : ℕ)
      → ltb (clock (suc i)) deadline ≡ true
      → (probes (suc i)).ok ≡ true
      → ((j : ℕ) → j < suc i → (probes j).ok ≡ false)
      → Ends clock probes deadline (poll_until clock probes (suc fuel) deadline i)
  open-Ends fuel deadline i in_time is_open closed = record {
    last = suc i;
    result_is = rw (at_test fuel deadline i true true in_time is_open, is_open) refl;
    before = closed;
    over = inl is_open;
  }

  closed_at :
      (i : ℕ)
      → (probes i).ok ≡ false
      → ((j : ℕ) → j < i → (probes j).ok ≡ false)
      → (j : ℕ) → j < suc i
      → (probes j).ok ≡ false
  closed_at i now before j h = elim (Bool-cases (eqb j i)) [
    | inl e ↦ let same : j ≡ i = ground arith in ap (λ n. (probes n).ok) same ∙ now
    | inr n ↦ before j (ground arith)
  ]

  poll-Ends :
      (fuel deadline i : ℕ)
      → ((n : ℕ) → clock (suc n) < clock (suc (suc n)))
      → deadline ≤ clock (suc i) + fuel
      → ((j : ℕ) → j < suc i → (probes j).ok ≡ false)
      → Ends clock probes deadline (poll_until clock probes (suc fuel) deadline i)
  poll-Ends zero deadline i sleeps enough closed = late-Ends zero deadline i (ground arith) closed
  poll-Ends (suc fuel) deadline i sleeps enough closed =
      let later = sleeps i in
      elim (Bool-cases (ltb (clock (suc i)) deadline)) [
        | inr late ↦ late-Ends (suc fuel) deadline i late closed
        | inl in_time ↦ elim (Bool-cases (probes (suc i)).ok) [
          | inl is_open ↦ open-Ends (suc fuel) deadline i in_time is_open closed
          | inr is_closed ↦
              subst (Ends clock probes deadline)
                (sym (at_test (suc fuel) deadline i true false in_time is_closed))
                (poll-Ends fuel deadline (suc i) sleeps (omega arith)
                  (closed_at (suc i) is_closed closed))
        ]
      ]

  at_start :
      (max_wait : ℕ) (is_open : Bool)
      → (probes 0).ok ≡ is_open
      → wait_for_gateway_loopback clock probes (suc (suc max_wait)) (suc max_wait) ≡ (
          if is_open
          then some (record { ok = true; probe = probes 0 })
          else poll_until clock probes (suc (suc max_wait)) (clock 0 + suc max_wait) 0)
  unfolding wait_for_gateway_loopback
  at_start max_wait is_open e =
      let positive : eqb (suc max_wait) 0 ≡ false = ground arith in rw (positive, e) refl

  -- Where every sleep lets the clock go on, the fuel max_wait + 1 is enough for the waiting to end.
  -- Its result is then the last probe made; all probes before it found the port closed, and it is
  -- open itself, or no time was left, or there was no time to wait for.
  pub wait-Ends :
      (max_wait : ℕ)
      → clock 0 ≤ clock 1
      → ((n : ℕ) → clock (suc n) < clock (suc (suc n)))
      → Ends clock probes
          (clock 0 + max_wait)
          (wait_for_gateway_loopback clock probes (suc max_wait) max_wait)
  unfolding wait_for_gateway_loopback
  wait-Ends zero starts sleeps = record {
    last = 0;
    result_is = refl;
    before = λ j h. ground arith;
    over = inr (omega arith);
  }
  wait-Ends (suc max_wait) starts sleeps = elim (Bool-cases (probes 0).ok) [
    | inl is_open ↦ record {
      last = 0;
      result_is = rw (at_start max_wait true is_open, is_open) refl;
      before = λ j h. ground arith;
      over = inl is_open;
    }
    | inr is_closed ↦
        subst (Ends clock probes (clock 0 + suc max_wait)) (sym (at_start max_wait false is_closed))
          (poll-Ends (suc max_wait) (clock 0 + suc max_wait) 0 sleeps (omega arith)
            (closed_at 0 is_closed (λ j h. ground arith)))
  ]
