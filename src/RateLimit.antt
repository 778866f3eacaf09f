-- ===== src/RateLimit.antt =====
-- The relay's rate limiter, packages/openburrow-relay/src/openburrow/relay/ratelimit.py: `TokenBucket`, and
-- `BucketRegistry` in the module Registry.
-- Tokens and times are counted in fixed small units, so that the rate is a number of token units for each unit
-- of time; a rate or a burst below zero is 0, which disables a bucket in the same way. Floats are exact.
pub mod Bound
pub mod Registry
pub mod Eviction
pub mod Upkeep
pub mod Waits
pub mod Calls
use openburrow.Prelude.{
  ℕ, zero, ◌+◌, ◌-◌, ◌*◌, min, Bool, true, false, not, ◌&&◌, List, [], ◌∷◌, if◌then◌else◌, ltb, leb,
}

pub record TokenBucket : Type 0 where
  pub rate : ℕ
  pub burst : ℕ
  pub tokens : ℕ  -- _tokens
  pub updated : ℕ  -- _updated

-- A new bucket is full (`__post_init__`).
unfoldable pub new_bucket : ℕ → ℕ → ℕ → TokenBucket
new_bucket now rate burst = record { rate = rate; burst = burst; tokens = burst; updated = now }

unfoldable pub enabled : TokenBucket → Bool
enabled b = ltb 0 b.rate && ltb 0 b.burst

-- `_refill`; no time has passed where `now` is not after the last refill.
unfoldable pub refill : ℕ → TokenBucket → TokenBucket
unfolding enabled
refill now b =
    if not (enabled b)
    then b
    else if leb now b.updated
    then b
    else record b { tokens = min b.burst (b.tokens + (now - b.updated) * b.rate); updated = now }

-- The bucket is refilled also where the call is refused.
unfoldable pub allow : ℕ → ℕ → TokenBucket → Bool × TokenBucket
allow now cost b =
    if not (enabled b)
    then (true, b)
    else let full = refill now b in
      if leb cost full.tokens
      then (true, record full { tokens = full.tokens - cost })
      else (false, full)

-- A wait is a fraction, the deficit over the rate.
pub record Wait : Type 0 where
  pub deficit : ℕ
  pub per : ℕ

unfoldable pub retry_after : ℕ → ℕ → TokenBucket → Wait × TokenBucket
retry_after now cost b =
    if not (enabled b)
    then (record { deficit = 0; per = 1 }, b)
    else let full = refill now b in
      if leb cost full.tokens
      then (record { deficit = 0; per = 1 }, full)
      else (record { deficit = cost - full.tokens; per = full.rate }, full)

unfoldable pub reset : ℕ → TokenBucket → TokenBucket
reset now b = record b { tokens = b.burst; updated = now }

-- Calls of `allow`, each at a time and for a cost, and what they were granted in all.
unfoldable pub allow_all : List (ℕ × ℕ) → TokenBucket → ℕ × TokenBucket
allow_all [] b = (0, b)
allow_all ((now, cost) ∷ calls) b =
    let (granted, b') = allow now cost b in
    let (spent, b'') = allow_all calls b' in (if granted then cost + spent else spent, b'')
