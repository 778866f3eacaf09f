-- ===== src/RateLimit/Waits.antt =====
-- The waits that a bucket reports.
use openburrow.Prelude.{
  ℕ, ◌+◌, ◌-◌, ◌*◌, ◌≤◌, ◌<◌, min, ◌≡◌, refl, sym, subst, ◌∙◌, ◌↔◌, inl, inr, true, false, leb,
  Bool-cases, arith,
}
use openburrow.RateLimit.{TokenBucket, Wait, enabled, refill, allow, retry_after}
use openburrow.RateLimit.Bound.{refill-IsKept, enabled-IsKept}

leb-true : {a b : ℕ} → a ≤ b → leb a b ≡ true
leb-true h = ground arith

true-leb : {a b : ℕ} → leb a b ≡ true → a ≤ b
true-leb h = ground arith

updated-now :
    (now : ℕ) (b : TokenBucket) → enabled b ≡ true → b.updated ≤ now → (refill now b).updated ≡ now
unfolding refill
updated-now now b on h = ground arith

tokens-later :
    (now d : ℕ) (c : TokenBucket)
    → enabled c ≡ true
    → c.tokens ≤ c.burst
    → c.updated ≡ now
    → (refill (now + d) c).tokens ≡ min c.burst (c.tokens + d * c.rate)
unfolding refill
tokens-later now d c on full h = elim (Bool-cases (leb (now + d) c.updated)) [
  | inl l ↦ let none_passed : d ≡ 0 = ground arith in rw (on, l, none_passed) (omega arith)
  | inr l ↦ let passed : now + d - c.updated ≡ d = omega arith in rw (on, l, passed) refl
]

allow-tested :
    (now cost : ℕ) (b : TokenBucket)
    → enabled b ≡ true
    → (allow now cost b).0 ≡ leb cost (refill now b).tokens
unfolding allow
allow-tested now cost b on = ground arith

retry_later :
    (now cost : ℕ) (b : TokenBucket) → enabled b ≡ true → (retry_after now cost b).1 ≡ refill now b
unfolding retry_after
retry_later now cost b on = ground arith

retry_room :
    (now cost : ℕ) (b : TokenBucket)
    → enabled b ≡ true
    → leb cost (refill now b).tokens ≡ true
    → (retry_after now cost b).0 ≡ record { deficit = 0; per = 1 }
unfolding retry_after
retry_room now cost b on l = rw (on, l) refl

retry_short :
    (now cost : ℕ) (b : TokenBucket)
    → enabled b ≡ true
    → leb cost (refill now b).tokens ≡ false
    → (retry_after now cost b).0
      ≡ record { deficit = cost - (refill now b).tokens; per = (refill now b).rate }
unfolding retry_after
retry_short now cost b on l = rw (on, l) refl

-- A wait of `d` is long enough.
abbrev pub IsEnough : Wait → ℕ → Type 0
IsEnough w d = w.deficit ≤ d * w.per

-- For a cost within the burst, the wait that `retry_after` reports is exact: the call is granted after `d` more
-- units of time just where `d` is at least the wait.
pub allow-retry_after :
    (now cost d : ℕ) (b : TokenBucket)
    → enabled b ≡ true
    → b.updated ≤ now
    → cost ≤ b.burst
    → b.tokens ≤ b.burst
    → ((allow (now + d) cost (retry_after now cost b).1).0 ≡ true)
      ↔ IsEnough (retry_after now cost b).0 d
allow-retry_after now cost d b on h fits full =
    let c = refill now b in
    let k = refill-IsKept now b in
    let on' = enabled-IsKept b c k on in
    let level =
      tokens-later now d c on' (omega (arith, k.within full, k.same_burst))
        (updated-now now b on h) in
    let top : c.burst ≡ b.burst = k.same_burst in
    let tested = allow-tested (now + d) cost c on' in
    elim (Bool-cases (leb cost c.tokens)) [
      | inl l ↦
          let low : cost ≤ c.tokens = ground arith in
          let granted : (allow (now + d) cost c).0 ≡ true =
            tested ∙ leb-true (rw level (omega (arith, top))) in
          rw (retry_later now cost b on, retry_room now cost b on l)
            (λ e. omega arith, λ e. granted)
      | inr l ↦
          let high : c.tokens < cost = ground arith in
          rw (retry_later now cost b on, retry_short now cost b on l)
            (
              λ e.
                  let r : cost ≤ (refill (now + d) c).tokens = true-leb (sym tested ∙ e) in
                  let r' : cost ≤ min c.burst (c.tokens + d * c.rate) =
                    subst (λ x. cost ≤ x) level r in
                  omega arith,
              λ e. tested ∙ leb-true (rw level (omega (arith, top))),
            )
    ]
