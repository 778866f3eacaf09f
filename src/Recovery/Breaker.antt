-- ===== src/Recovery/Breaker.antt =====
-- When a circuit breaker answers that a harness may not be started; nothing but a test asks it.
use openburrow.Prelude.{
  ℕ, ◌+◌, ◌≤◌, ◌<◌, ◌≡◌, refl, ap, ◌∙◌, Bool, true, false, Option, none, some, some-injective, List,
  [], ◌∷◌, ◌++◌, get-save, Text, text_eq, text_eq_refl, length, if◌then◌else◌, leb, Bool-cases,
  arith, inl, inr,
}
use openburrow.Recovery.Failures.{
  BreakerState, CircuitBreaker, state_of, with_state, failed_once, record_failure, allow_since,
  breaker_allow,
}

-- Failures of a harness, one after the other.
unfoldable pub record_failures : List ℕ → Text → CircuitBreaker → CircuitBreaker
record_failures [] harness b = b
record_failures (t ∷ ts) harness b = record_failures ts harness (record_failure t harness b).1

state_of-with_state :
    (harness other : Text) (s : BreakerState) (b : CircuitBreaker)
    → state_of other (with_state harness s b)
      ≡ (if text_eq harness other then s else state_of other b)
unfolding state_of with_state
state_of-with_state harness other s b = elim (Bool-cases (text_eq harness other)) [
  | inl e ↦ rw (get-save b.states harness other s, e) refl
  | inr e ↦ rw (get-save b.states harness other s, e) refl
]

own_state :
    (harness : Text) (s : BreakerState) (b : CircuitBreaker)
    → state_of harness (with_state harness s b) ≡ s
own_state harness s b = state_of-with_state harness harness s b ∙ rw (text_eq_refl harness) refl

-- The state after a failure.
record_failure-state :
    (t : ℕ) (harness : Text) (b : CircuitBreaker)
    → state_of harness (record_failure t harness b).1
      ≡ (failed_once t b.threshold
          (state_of harness b).opened_at
          ((state_of harness b).failures + 1)).1
unfolding record_failure
record_failure-state t harness b = own_state harness _ b

record_failure-settings :
    (t : ℕ) (harness : Text) (b : CircuitBreaker)
    → ((record_failure t harness b).1.threshold ≡ b.threshold)
      × ((record_failure t harness b).1.cooldown_s ≡ b.cooldown_s)
unfolding record_failure with_state
record_failure-settings t harness b = (refl, refl)

-- The number of failures counted, and since when the breaker is open, after failures on a state.
abbrev after_failures : ℕ → List ℕ → BreakerState → BreakerState
after_failures threshold [] s = s
after_failures threshold (t ∷ ts) s =
    after_failures threshold ts (failed_once t threshold s.opened_at (s.failures + 1)).1

record_failures-state :
    (ts : List ℕ) (harness : Text) (b : CircuitBreaker)
    → state_of harness (record_failures ts harness b)
      ≡ after_failures b.threshold ts (state_of harness b)
unfolding record_failures
record_failures-state [] harness b = refl
record_failures-state (t ∷ ts) harness b =
    record_failures-state ts harness (record_failure t harness b).1
    ∙ (ap (λ n. after_failures n ts (state_of harness (record_failure t harness b).1))
          (record_failure-settings t harness b).0
        ∙ ap (after_failures b.threshold ts) (record_failure-state t harness b))

failed-open :
    (u threshold t failures : ℕ) (o : Option ℕ)
    → o ≡ some t
    → (failed_once u threshold o failures).1.opened_at ≡ some t
unfolding failed_once
failed-open u threshold t failures none h = absurd (cc h)
failed-open u threshold t failures (some v) h = h

failed-enough :
    (u threshold failures : ℕ) (o : Option ℕ)
    → o ≡ none
    → threshold ≤ failures
    → (failed_once u threshold o failures).1.opened_at ≡ some u
unfolding failed_once
failed-enough u threshold failures none h enough = ground (arith, enough)
failed-enough u threshold failures (some v) h enough = absurd (cc h)

failed-few :
    (u threshold failures : ℕ) (o : Option ℕ)
    → o ≡ none
    → failures < threshold
    → ((failed_once u threshold o failures).1.opened_at ≡ none)
      × ((failed_once u threshold o failures).1.failures ≡ failures)
unfolding failed_once
failed-few u threshold failures none h few = (ground (arith, few), ground (arith, few))
failed-few u threshold failures (some v) h few = absurd (cc h)

-- A breaker that is open stays so.
after_failures-open :
    (threshold : ℕ) (ts : List ℕ) (s : BreakerState) (t : ℕ)
    → s.opened_at ≡ some t
    → (after_failures threshold ts s).opened_at ≡ some t
after_failures-open threshold [] s t h = h
after_failures-open threshold (u ∷ ts) s t h =
    after_failures-open threshold ts (failed_once u threshold s.opened_at (s.failures + 1)).1 t
      (failed-open u threshold t (s.failures + 1) s.opened_at h)

-- Failures that are too few leave it closed, and are counted; the one that makes enough opens it.
after_failures-opens :
    (threshold : ℕ) (early late : List ℕ) (t : ℕ) (s : BreakerState)
    → s.opened_at ≡ none
    → s.failures + length early + 1 ≡ threshold
    → (after_failures threshold (early ++ t ∷ late) s).opened_at ≡ some t
after_failures-opens threshold [] late t s closed few =
    after_failures-open threshold late (failed_once t threshold s.opened_at (s.failures + 1)).1 t
      (failed-enough t threshold (s.failures + 1) s.opened_at closed (omega (arith, few)))
after_failures-opens threshold (u ∷ early) late t s closed few =
    let (still, counted) =
      failed-few u threshold (s.failures + 1) s.opened_at closed (omega (arith, few)) in
    after_failures-opens threshold early late t
      (failed_once u threshold s.opened_at (s.failures + 1)).1 still (omega (arith, counted, few))

record_failures-cooldown :
    (ts : List ℕ) (harness : Text) (b : CircuitBreaker)
    → (record_failures ts harness b).cooldown_s ≡ b.cooldown_s
unfolding record_failures
record_failures-cooldown [] harness b = refl
record_failures-cooldown (t ∷ ts) harness b =
    record_failures-cooldown ts harness (record_failure t harness b).1
    ∙ (record_failure-settings t harness b).1

if_self :
    (b : Bool) (x y : BreakerState)
    → let r : Bool × BreakerState = if b then (true, x) else (false, y) in r.0 ≡ b
if_self true x y = refl
if_self false x y = refl

since-leb :
    (now threshold cooldown failures t : ℕ) (o : Option ℕ)
    → o ≡ some t
    → (allow_since now threshold cooldown failures o).0 ≡ leb (t + cooldown) now
unfolding allow_since
since-leb now threshold cooldown failures t none h = absurd (cc h)
since-leb now threshold cooldown failures t (some u) h =
    let same : u ≡ t = some-injective u t h in rw (← same) (if_self (leb (u + cooldown) now) _ _)

-- Where a harness's breaker is closed, failures recorded for the harness open it at the one that reaches the threshold:
-- whatever further failures of the harness are recorded, the breaker then answers true exactly where the cooldown
-- after that one is over.
pub record_failures-breaker_allow :
    (harness : Text) (early late : List ℕ) (t now : ℕ) (b : CircuitBreaker)
    → (state_of harness b).opened_at ≡ none
    → (state_of harness b).failures + length early + 1 ≡ b.threshold
    → (breaker_allow now harness (record_failures (early ++ t ∷ late) harness b)).0
      ≡ leb (t + b.cooldown_s) now
unfolding breaker_allow
record_failures-breaker_allow harness early late t now b closed few =
    let b' = record_failures (early ++ t ∷ late) harness b in
    let opened : (state_of harness b').opened_at ≡ some t =
      ap (λ (s : BreakerState). s.opened_at) (record_failures-state (early ++ t ∷ late) harness b)
      ∙ after_failures-opens b.threshold early late t (state_of harness b) closed few in
    since-leb now b'.threshold b'.cooldown_s (state_of harness b').failures t
      (state_of harness b').opened_at opened
    ∙ ap (λ n. leb (t + n) now) (record_failures-cooldown (early ++ t ∷ late) harness b)
