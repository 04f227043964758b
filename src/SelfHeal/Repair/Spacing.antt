-- ===== src/SelfHeal/Repair/Spacing.antt =====
-- Repairs run one at a time, and those that are not forced keep the cooldown after an outcome.
use mathlib.Core.List.{[], ◌∷◌}
use ombot.Prelude.{
  ℕ, ◌+◌, ◌-◌, ◌≤◌, ◌≡◌, refl, Bool, true, false, List, ltb, if◌then◌else◌, arith, Bool-cases, inl,
  inr,
}
use ombot.Js.Value.{Number, nan, infinity, neg_infinity, nonneg, neg}
use ombot.Js.Runtime.{Runtime, to_number}
use ombot.SelfHeal.{is_gateway_watchdog_enabled, cooldown_of, number_or, cooldown_ms}
use ombot.SelfHeal.Repair.{Heal, Called, begun, run_openclaw_config_self_heal, healed, released}

-- A call, forced or not, with its time, and the end of the repair in flight: with an outcome, at a
-- time, or by an exception.
pub data Event : Type 0 where
  called : Bool → ℕ → Event
  finished : ℕ → Event
  threw : Event

pub data Mark : Type 0 where
  began : Bool → ℕ → Mark
  ended : ℕ → Mark
  broke_off : Mark

abbrev marked : Called → Bool → ℕ → List Mark → List Mark
marked begun force now rest = began force now ∷ rest
marked _ force now rest = rest

-- No repair begins while one runs, and one that is not forced begins no sooner than the cooldown
-- after the last outcome; a repair that breaks off leaves that as it was.
abbrev pub Apart : ℕ → ℕ → Bool → List Mark → Type 0
Apart cooldown last running [] = Unit
Apart cooldown last running (began force now ∷ rest) =
    (running ≡ false) × (force ≡ false → last + cooldown ≤ now) × Apart cooldown last true rest
Apart cooldown last running (ended now ∷ rest) = (running ≡ true) × Apart cooldown now false rest
Apart cooldown last running (broke_off ∷ rest) = (running ≡ true) × Apart cooldown last false rest

module _ (rt : Runtime) where
  abbrev pub marks : List Event → Heal → List Mark
  marks [] s = []
  marks (called force now ∷ es) s =
      let r = run_openclaw_config_self_heal rt force now s in marked r.0 force now (marks es r.1)
  marks (finished now ∷ es) s =
      let rest = marks es (released (healed now s)) in
      let idle = marks es s in if s.in_flight then ended now ∷ rest else idle
  marks (threw ∷ es) s =
      let rest = marks es (released s) in
      let idle = marks es s in if s.in_flight then broke_off ∷ rest else idle

  cooldown_least : 1 ≤ cooldown_ms rt
  unfolding cooldown_ms
  cooldown_least = least (to_number rt (number_or 120000 (rt.env "OPENCLAW_SELF_HEAL_COOLDOWN_MS")))
    where
      least : (n : Number) → 1 ≤ cooldown_of n
      least (nonneg n) = ground arith
      least nan = omega arith
      least infinity = omega arith
      least neg_infinity = omega arith
      least (neg n) = omega arith

  called-Apart :
      (force enabled soon running : Bool) (now : ℕ) (es : List Event) (s : Heal)
      → is_gateway_watchdog_enabled rt ≡ enabled
      → ltb (now - s.last_heal_at) (cooldown_ms rt) ≡ soon
      → s.in_flight ≡ running
      → ((t : Heal) → Apart (cooldown_ms rt) t.last_heal_at t.in_flight (marks es t))
      → Apart (cooldown_ms rt) s.last_heal_at s.in_flight (marks (called force now ∷ es) s)
  unfolding run_openclaw_config_self_heal
  called-Apart force false soon running now es s e f g rest = rw e (rest s)
  called-Apart false true true running now es s e f g rest = rw (e, f) (rest s)
  called-Apart false true false true now es s e f g rest =
      rw (e, f, g) (rest (record { last_heal_at = s.last_heal_at; in_flight = true }))
  called-Apart false true false false now es s e f g rest =
      rw (e, f, g)
        let least = cooldown_least in
          (
            refl,
            (λ h. ground arith),
            rest (record { last_heal_at = s.last_heal_at; in_flight = true }),
          )
  called-Apart true true soon true now es s e f g rest =
      rw (e, g) (rest (record { last_heal_at = s.last_heal_at; in_flight = true }))
  called-Apart true true soon false now es s e f g rest =
      rw (e, g)
        (
          refl,
          (λ h. ground arith),
          rest (record { last_heal_at = s.last_heal_at; in_flight = true }),
        )

  -- Whatever calls of a repair and ends of the one in flight follow, with an outcome or by an
  -- exception, no repair begins while one runs, and one that is not forced begins no sooner than the
  -- cooldown after the last that came to an outcome.
  pub repairs-Apart :
      (es : List Event) (s : Heal) → Apart (cooldown_ms rt) s.last_heal_at s.in_flight (marks es s)
  unfolding healed released
  repairs-Apart [] s = tt
  repairs-Apart (called force now ∷ es) s =
      called-Apart force _ _ _ now es s refl refl refl (repairs-Apart es)
  repairs-Apart (finished now ∷ es) s = elim (Bool-cases s.in_flight) [
    | inl runs ↦ rw runs (refl, repairs-Apart es (released (healed now s)))
    | inr idle ↦
        rw idle (repairs-Apart es (record { last_heal_at = s.last_heal_at; in_flight = false }))
  ]
  repairs-Apart (threw ∷ es) s = elim (Bool-cases s.in_flight) [
    | inl runs ↦ rw runs (refl, repairs-Apart es (released s))
    | inr idle ↦
        rw idle (repairs-Apart es (record { last_heal_at = s.last_heal_at; in_flight = false }))
  ]
