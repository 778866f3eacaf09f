-- ===== src/RateLimit/Registry.antt =====
-- `BucketRegistry` of packages/openburrow-relay/src/openburrow/relay/ratelimit.py: the buckets by key, with the times
-- at which they were last asked for. The readings of the clock within one call of `get` are taken to be the same.
use openburrow.Prelude.{
  ℕ, ◌-◌, Bool, not, Option, none, some, List, [], ◌∷◌, map, Text, text_eq, Table, get, save,
  select, if◌then◌else◌, ltb,
}
use openburrow.RateLimit.{TokenBucket, new_bucket, allow}

module _ {ℓ} {V : Type ℓ} where
  -- `pop(key, None)`
  unfoldable pub remove : Table V → Text → Table V
  remove rows k = select (λ (row : Text × V). not (text_eq row.0 k)) rows

  unfoldable pub remove_all : List Text → Table V → Table V
  remove_all [] rows = rows
  remove_all (k ∷ ks) rows = remove_all ks (remove rows k)

pub record BucketRegistry : Type 0 where
  pub rate : ℕ
  pub burst : ℕ
  pub idle_ttl : ℕ  -- idle_ttl_s
  pub sweep_interval : ℕ  -- SWEEP_INTERVAL_S, in the unit of time
  pub buckets : Table TokenBucket  -- _buckets
  pub touched : Table ℕ  -- _touched
  pub last_sweep : ℕ  -- _last_sweep

unfoldable pub new_registry : ℕ → ℕ → ℕ → ℕ → ℕ → BucketRegistry
new_registry now rate burst ttl interval = record {
  rate = rate;
  burst = burst;
  idle_ttl = ttl;
  sweep_interval = interval;
  buckets = [];
  touched = [];
  last_sweep = now;
}

-- The keys not asked for within the time to live.
unfoldable pub stale : ℕ → ℕ → Table ℕ → List Text
stale now ttl rows =
    map (λ (row : Text × ℕ). row.0) (select (λ (row : Text × ℕ). ltb ttl (now - row.1)) rows)

unfoldable pub sweep : ℕ → BucketRegistry → BucketRegistry
sweep now r =
    let keys = stale now r.idle_ttl r.touched in
    record r {
      buckets = remove_all keys r.buckets;
      touched = remove_all keys r.touched;
      last_sweep = now;
    }

-- `_maybe_sweep`
unfoldable pub maybe_sweep : ℕ → BucketRegistry → BucketRegistry
maybe_sweep now r = if ltb r.sweep_interval (now - r.last_sweep) then sweep now r else r

-- The bucket that `get` finds, or a new one.
unfoldable pub found : ℕ → BucketRegistry → Option TokenBucket → TokenBucket
found now r none = new_bucket now r.rate r.burst
found now r (some b) = b

unfoldable pub entered : Text → ℕ → BucketRegistry → Option TokenBucket → Table TokenBucket
entered key now r none = save r.buckets key (new_bucket now r.rate r.burst)
entered key now r (some b) = r.buckets

-- `get`
unfoldable pub get_bucket : ℕ → Text → BucketRegistry → TokenBucket × BucketRegistry
get_bucket now key r =
    let held = get r.buckets key in
    (
      found now r held,
      maybe_sweep now
          (record r { buckets = entered key now r held; touched = save r.touched key now }),
    )

-- `drop`
unfoldable pub drop_bucket : Text → BucketRegistry → BucketRegistry
drop_bucket key r = record r { buckets = remove r.buckets key; touched = remove r.touched key }

-- A caller's use of the registry, as in relay/routes.py:206: the bucket is the registry's object, so that what
-- `allow` changes is seen under its key. `get` reads the clock, and `allow` reads it again.
unfoldable pub charge : ℕ → ℕ → ℕ → Text → BucketRegistry → Bool × BucketRegistry
charge asked now cost key r =
    let (b, r') = get_bucket asked key r in
    let (granted, b') = allow now cost b in
    (granted, record r' { buckets = save r'.buckets key b' })
