-- ===== src/Tests/RateLimit.antt =====
-- Buckets of a burst of 10 and a rate of 2, and a registry of them.
use openburrow.Prelude.{
  ℕ, ◌+◌, ◌-◌, ◌*◌, ◌≤◌, ◌≡◌, refl, ◌↔◌, true, List, [], ◌∷◌, codes, get, save, arith, text_eq,
}
use openburrow.RateLimit.{TokenBucket, new_bucket, enabled, refill, allow, allow_all, retry_after}
use openburrow.RateLimit.Bound.{allow_all-bounded}
use openburrow.RateLimit.Waits.{IsEnough, allow-retry_after}
use openburrow.RateLimit.Registry.{
  BucketRegistry, new_registry, get_bucket, sweep, charge, maybe_sweep, found, entered, drop_bucket,
  remove,
}
use openburrow.RateLimit.Eviction.{IsWell, get_bucket-sweep}
use openburrow.RateLimit.Calls.{Call, charging, dropping, perform, perform_all, perform_all-IsWell}

abbrev bucket : TokenBucket
unfolding new_bucket
bucket = new_bucket 100 2 10

abbrev calls : List (ℕ × ℕ)
calls = (100, 7) ∷ (101, 7) ∷ (103, 7) ∷ (103, 3) ∷ []

granted : (allow_all calls bucket).0 ≡ 14
unfolding allow_all allow refill enabled new_bucket
granted = refl

allow_all-bounded_example :
    (allow_all calls bucket).0 ≤ bucket.burst + (105 - bucket.updated) * bucket.rate
unfolding bucket
allow_all-bounded_example =
    allow_all-bounded calls bucket 105 (unfold enabled in refl) (omega arith) (omega arith)
      (omega arith, (omega arith, (omega arith, (omega arith, tt))))

abbrev spent : TokenBucket
spent = record { rate = 2; burst = 10; tokens = 1; updated = 100 }

allow-retry_after_example :
    ((allow (101 + 3) 8 (retry_after 101 8 spent).1).0 ≡ true)
    ↔ IsEnough (retry_after 101 8 spent).0 3
allow-retry_after_example =
    allow-retry_after 101 8 3 spent (unfold enabled in refl) (omega arith) (omega arith)
      (omega arith)

abbrev uses : List Call
uses = charging 99 100 4 (codes "a") ∷ charging 102 102 1 (codes "b") ∷ dropping (codes "b") ∷ []

abbrev used : BucketRegistry
used = perform_all uses (new_registry 100 2 10 50 60)

perform_all-IsWell_example : IsWell (perform_all uses (new_registry 100 2 10 50 60))
perform_all-IsWell_example = perform_all-IsWell uses 100 2 10 50 60

abbrev kept : TokenBucket
kept = record { rate = 2; burst = 10; tokens = 6; updated = 100 }

get_bucket-sweep_example :
    refill 300 (get_bucket 300 (codes "a") (sweep 300 used)).0
    ≡ refill 300 (get_bucket 300 (codes "a") used).0
unfolding perform_all perform charge get_bucket sweep maybe_sweep found entered new_registry allow
    refill enabled get save text_eq drop_bucket remove new_bucket
get_bucket-sweep_example =
    get_bucket-sweep 300 used (codes "a") kept 99 1 (perform_all-IsWell uses 100 2 10 50 60)
      (omega arith) (omega arith) (omega arith) refl refl (omega arith)
