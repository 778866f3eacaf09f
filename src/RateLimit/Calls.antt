-- ===== src/RateLimit/Calls.antt =====
-- Any calls of a registry keep it well formed.
use openburrow.Prelude.{
  ℕ, ◌≤◌, ◌≡◌, sym, ap, ◌∙◌, some, some-injective, List, [], ◌∷◌, Text, text_eq, eq_of_text_eq, get,
  get-save, is_some, if◌then◌else◌, Bool-cases, arith, inl, inr, subst,
}
use openburrow.RateLimit.{allow}
use openburrow.RateLimit.Bound.{allow-IsKept}
use openburrow.RateLimit.Registry.{
  BucketRegistry, sweep, get_bucket, drop_bucket, new_registry, charge,
}
use openburrow.RateLimit.Eviction.{IsWell}
use openburrow.RateLimit.Upkeep.{
  new_registry-IsWell, sweep-IsWell, drop_bucket-IsWell, get_bucket-IsWell, get_bucket-held,
}

charge-IsWell :
    (asked now cost : ℕ) (key : Text) (r : BucketRegistry)
    → IsWell r
    → IsWell (charge asked now cost key r).1
unfolding charge
charge-IsWell asked now cost key r w =
    let r' = (get_bucket asked key r).1 in
    let b = (get_bucket asked key r).0 in
    let w' = get_bucket-IsWell asked key r w in
    let held = get_bucket-held asked key r w in
    let (er, eb, full) = w'.settings key b held in
    let kept = allow-IsKept now cost b in
    let c = (allow now cost b).1 in
    let fits : (c.rate ≡ r'.rate) × (c.burst ≡ r'.burst) × (c.tokens ≤ c.burst) = (
      kept.same_rate ∙ er,
      kept.same_burst ∙ eb,
      omega (arith, kept.within full, kept.same_burst),
    ) in
    record {
      unique = w'.unique;
      same_keys = λ k. elim (Bool-cases (text_eq key k)) [
        | inl e ↦
            let here : get r'.buckets k ≡ some b =
              subst (λ x. get r'.buckets x ≡ some b) (eq_of_text_eq key k e) held in
            rw (get-save r'.buckets key k c, e) (ap is_some (sym here) ∙ w'.same_keys k)
        | inr e ↦ rw (get-save r'.buckets key k c, e) (w'.same_keys k)
      ];
      settings = λ k d h. elim (Bool-cases (text_eq key k)) [
        | inl e ↦
            let same : c ≡ d = some-injective _ _ (
              sym (get-save r'.buckets key k c ∙ ap (λ x. if x then some c else get r'.buckets k) e)
              ∙ h) in
            subst (λ x. (x.rate ≡ r'.rate) × (x.burst ≡ r'.burst) × (x.tokens ≤ x.burst)) same fits
        | inr e ↦ w'.settings k d (
            sym (get-save r'.buckets key k c ∙ ap (λ x. if x then some c else get r'.buckets k) e)
            ∙ h)
      ];
    }

-- The calls of a registry.
pub data Call : Type 0 where
  charging : ℕ → ℕ → ℕ → Text → Call
  dropping : Text → Call
  sweeping : ℕ → Call

unfoldable pub perform : Call → BucketRegistry → BucketRegistry
perform (charging asked now cost key) r = (charge asked now cost key r).1
perform (dropping key) r = drop_bucket key r
perform (sweeping now) r = sweep now r

unfoldable pub perform_all : List Call → BucketRegistry → BucketRegistry
perform_all [] r = r
perform_all (c ∷ cs) r = perform_all cs (perform c r)

perform-IsWell : (c : Call) (r : BucketRegistry) → IsWell r → IsWell (perform c r)
unfolding perform
perform-IsWell (charging asked now cost key) r w = charge-IsWell asked now cost key r w
perform-IsWell (dropping key) r w = drop_bucket-IsWell key r w
perform-IsWell (sweeping now) r w = sweep-IsWell now r w

from-IsWell : (cs : List Call) (r : BucketRegistry) → IsWell r → IsWell (perform_all cs r)
unfolding perform_all
from-IsWell [] r w = w
from-IsWell (c ∷ cs) r w = from-IsWell cs (perform c r) (perform-IsWell c r w)

-- After any calls on a new registry, whatever the clock, its two tables have the same keys, each key is touched
-- once, and every bucket has the registry's settings and at most its burst of tokens.
pub perform_all-IsWell :
    (cs : List Call) (now rate burst ttl interval : ℕ)
    → IsWell (perform_all cs (new_registry now rate burst ttl interval))
perform_all-IsWell cs now rate burst ttl interval =
    from-IsWell cs (new_registry now rate burst ttl interval)
      (new_registry-IsWell now rate burst ttl interval)
