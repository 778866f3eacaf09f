-- ===== src/RateLimit/Bound.antt =====
-- What a token bucket grants over time.
use openburrow.Prelude.{
  ℕ, ◌+◌, ◌-◌, ◌*◌, ◌≤◌, ◌<◌, ◌≡◌, refl, ap, ◌∙◌, inl, inr, Bool, true, false, not, List, [], ◌∷◌,
  if◌then◌else◌, leb, Bool-cases, arith,
}
use openburrow.RateLimit.{TokenBucket, enabled, refill, allow, allow_all}

-- The settings are kept, the level stays within the burst, and the time of the last refill does not run back, and
-- stays below every bound on the clock.
pub record IsKept (b c : TokenBucket) : Type 0 where
  pub same_rate : c.rate ≡ b.rate
  pub same_burst : c.burst ≡ b.burst
  pub within : b.tokens ≤ b.burst → c.tokens ≤ b.burst
  pub since : b.updated ≤ c.updated

IsKept-trans : (a b c : TokenBucket) → IsKept a b → IsKept b c → IsKept a c
IsKept-trans a b c k l = record {
  same_rate = l.same_rate ∙ k.same_rate;
  same_burst = l.same_burst ∙ k.same_burst;
  within = λ h.
      omega (arith, k.within h, l.within (omega (arith, k.within h, k.same_burst)), k.same_burst);
  since = omega (arith, k.since, l.since);
}

credit : (t u now r : ℕ) → u ≤ now → t + (now - u) * r + u * r ≡ t + now * r
credit t u now r h = let e : (now - u) + u ≡ now = omega arith in omega (arith, ap (λ x. x * r) e)

pub refill-IsKept : (now : ℕ) (b : TokenBucket) → IsKept b (refill now b)
unfolding refill
refill-IsKept now b = record {
  same_rate = ground arith;
  same_burst = ground arith;
  within = λ h. ground arith;
  since = ground arith;
}

-- A refill credits at most the rate times the time.
tokens-refill :
    (now : ℕ) (b : TokenBucket)
    → (refill now b).tokens + b.updated * b.rate ≤ b.tokens + (refill now b).updated * b.rate
unfolding refill
tokens-refill now b = elim (Bool-cases (not (enabled b))) [
  | inl e ↦ rw e (omega arith)
  | inr e ↦ elim (Bool-cases (leb now b.updated)) [
    | inl l ↦ rw (e, l) (omega arith)
    | inr l ↦
        let later : b.updated ≤ now = ground arith in
        rw (e, l) (omega (arith, credit b.tokens b.updated now b.rate later))
  ]
]

updated-refill :
    (now top : ℕ) (b : TokenBucket) → b.updated ≤ top → now ≤ top → (refill now b).updated ≤ top
unfolding refill
updated-refill now top b h l = ground arith

abbrev paid : Bool → ℕ → ℕ → ℕ
paid granted cost spent = if granted then cost + spent else spent

pub allow-IsKept : (now cost : ℕ) (b : TokenBucket) → IsKept b (allow now cost b).1
unfolding allow
allow-IsKept now cost b =
    let k = refill-IsKept now b in
    elim (Bool-cases (not (enabled b))) [
      | inl e ↦
          rw e
            (record { same_rate = refl; same_burst = refl; within = λ h. h; since = omega arith })
      | inr e ↦ elim (Bool-cases (leb cost (refill now b).tokens)) [
        | inl l ↦
            rw (e, l)
              (record {
                same_rate = k.same_rate;
                same_burst = k.same_burst;
                within = λ h. omega (arith, k.within h);
                since = k.since;
              })
        | inr l ↦ rw (e, l) k
      ]
    ]

allow-paid :
    (now cost spent : ℕ) (b : TokenBucket)
    → enabled b ≡ true
    → paid (allow now cost b).0 cost spent + (allow now cost b).1.tokens + b.updated * b.rate
      ≤ spent + b.tokens + (allow now cost b).1.updated * b.rate
unfolding allow
allow-paid now cost spent b on =
    let t = tokens-refill now b in
    elim (Bool-cases (leb cost (refill now b).tokens)) [
      | inl l ↦ let fits : cost ≤ (refill now b).tokens = ground arith in rw (on, l) (omega arith)
      | inr l ↦ rw (on, l) (omega arith)
    ]

allow_all-IsKept : (calls : List (ℕ × ℕ)) (b : TokenBucket) → IsKept b (allow_all calls b).1
unfolding allow_all
allow_all-IsKept [] b = record {
  same_rate = refl;
  same_burst = refl;
  within = λ h. h;
  since = omega arith;
}
allow_all-IsKept ((now, cost) ∷ calls) b =
    let c = (allow now cost b).1 in
    IsKept-trans b c (allow_all calls c).1 (allow-IsKept now cost b) (allow_all-IsKept calls c)

pub enabled-IsKept : (b c : TokenBucket) → IsKept b c → enabled b ≡ true → enabled c ≡ true
unfolding enabled
enabled-IsKept b c k h = rw (k.same_rate, k.same_burst) h

allow_all-paid :
    (calls : List (ℕ × ℕ)) (b : TokenBucket)
    → enabled b ≡ true
    → (allow_all calls b).0 + (allow_all calls b).1.tokens + b.updated * b.rate
      ≤ b.tokens + (allow_all calls b).1.updated * b.rate
unfolding allow_all
allow_all-paid [] b on = omega arith
allow_all-paid ((now, cost) ∷ calls) b on =
    let c = (allow now cost b).1 in
    let k = allow-IsKept now cost b in
    let rest = allow_all-paid calls c (enabled-IsKept b c k on) in
    let first = allow-paid now cost (allow_all calls c).0 b on in
    omega (
      arith,
      first,
      rest,
      ap (λ r. c.updated * r) k.same_rate,
      ap (λ r. (allow_all calls c).1.updated * r) k.same_rate,
    )

-- All calls are made by the time `top`.
abbrev pub IsBy : ℕ → List (ℕ × ℕ) → Type 0
IsBy top [] = Unit
IsBy top ((now, cost) ∷ calls) = (now ≤ top) × IsBy top calls

updated-allow :
    (now cost top : ℕ) (b : TokenBucket)
    → b.updated ≤ top
    → now ≤ top
    → (allow now cost b).1.updated ≤ top
unfolding allow
updated-allow now cost top b h l = ground (arith, updated-refill now top b h l)

updated-allow_all :
    (calls : List (ℕ × ℕ)) (top : ℕ) (b : TokenBucket)
    → b.updated ≤ top
    → IsBy top calls
    → (allow_all calls b).1.updated ≤ top
unfolding allow_all
updated-allow_all [] top b h l = h
updated-allow_all ((now, cost) ∷ calls) top b h (l, ls) =
    updated-allow_all calls top (allow now cost b).1 (updated-allow now cost top b h l) ls

-- Whatever calls are made of an enabled bucket by the time `top`, in any order of their times, what they are granted
-- in all is at most the burst and the rate for each unit of time since the last refill.
pub allow_all-bounded :
    (calls : List (ℕ × ℕ)) (b : TokenBucket) (top : ℕ)
    → enabled b ≡ true
    → b.tokens ≤ b.burst
    → b.updated ≤ top
    → IsBy top calls
    → (allow_all calls b).0 ≤ b.burst + (top - b.updated) * b.rate
allow_all-bounded calls b top on full h l =
    let u = (allow_all calls b).1.updated in
    let last = updated-allow_all calls top b h l in
    let gap : (u + (top - u)) * b.rate ≡ top * b.rate = ap (λ x. x * b.rate) (omega arith) in
    omega (arith, allow_all-paid calls b on, credit 0 b.updated top b.rate h, gap)

-- After any calls, a call of an enabled bucket for more than its burst is refused at every time.
allow-above_burst :
    (calls : List (ℕ × ℕ)) (b : TokenBucket) (now cost : ℕ)
    → enabled b ≡ true
    → b.tokens ≤ b.burst
    → b.burst < cost
    → (allow now cost (allow_all calls b).1).0 ≡ false
unfolding allow
allow-above_burst calls b now cost on full h =
    let c = (allow_all calls b).1 in
    let k = allow_all-IsKept calls b in
    let f = refill-IsKept now c in
    let low : leb cost (refill now c).tokens ≡ false = ground (
      arith,
      k.within full,
      k.same_burst,
      f.within (omega (arith, k.within full, k.same_burst)),
      f.same_burst,
    ) in
    rw (enabled-IsKept b c k on, low) refl
