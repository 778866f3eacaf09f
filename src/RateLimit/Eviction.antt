-- ===== src/RateLimit/Eviction.antt =====
-- What a sweep of the registry evicts, and that nobody can tell.
use openburrow.Prelude.{
  ℕ, ◌+◌, ◌-◌, ◌*◌, ◌≤◌, ◌<◌, min, ◌≡◌, refl, sym, ap, ◌∙◌, Bool, true, false, ◌&&◌, Option, none,
  some, List, [], ◌∷◌, Text, text_eq, text_eq_iff, Table, get, save, get-save, any, is_some,
  if◌then◌else◌, ltb, leb, Bool-cases, eq_of_text_eq, subst, arith, inl, inr,
}
use native.Mathlib.Nat.{mul-le-mul_right}
use openburrow.RateLimit.{TokenBucket, new_bucket, enabled, refill}
use openburrow.RateLimit.Registry.{
  BucketRegistry, remove, remove_all, stale, sweep, found, get_bucket,
}

module _ {V : Type 0} where
  -- No key twice.
  abbrev pub IsUnique : Table V → Type 0
  IsUnique [] = Unit
  IsUnique ((k, v) ∷ rows) = (get rows k ≡ none) × IsUnique rows

  pub get-remove :
      (rows : Table V) (k j : Text)
      → get (remove rows k) j ≡ (if text_eq k j then none else get rows j)
  unfolding get remove
  get-remove [] k j = ground arith
  get-remove ((i, w) ∷ rows) k j =
      ground (arith, get-remove rows k j, text_eq_iff i k, text_eq_iff i j, text_eq_iff k j)

  pub get-remove_all :
      (ks : List Text) (rows : Table V) (j : Text)
      → get (remove_all ks rows) j ≡ (if any (λ k. text_eq k j) ks then none else get rows j)
  unfolding remove_all
  get-remove_all [] rows j = refl
  get-remove_all (k ∷ ks) rows j =
      ground (arith, get-remove_all ks (remove rows k) j, get-remove rows k j)

  pub IsUnique-save : (rows : Table V) (k : Text) (v : V) → IsUnique rows → IsUnique (save rows k v)
  unfolding get save
  IsUnique-save [] k v u = (refl, tt)
  IsUnique-save ((j, w) ∷ rows) k v (e, u) =
      let later = IsUnique-save rows k v u in
      elim (Bool-cases (text_eq j k)) [
        | inl h ↦ rw h (e, u)
        | inr h ↦
            rw h (ground (arith, get-save rows k j v, text_eq_iff k j, text_eq_iff j k), later)
      ]

  pub IsUnique-remove : (rows : Table V) (k : Text) → IsUnique rows → IsUnique (remove rows k)
  unfolding remove
  IsUnique-remove [] k u = tt
  IsUnique-remove ((j, w) ∷ rows) k (e, u) =
      let later = IsUnique-remove rows k u in
      elim (Bool-cases (text_eq j k)) [
        | inl h ↦ rw h later
        | inr h ↦ rw h (ground (arith, get-remove rows k j), later)
      ]

  pub IsUnique-remove_all :
      (ks : List Text) (rows : Table V) → IsUnique rows → IsUnique (remove_all ks rows)
  unfolding remove_all
  IsUnique-remove_all [] rows u = u
  IsUnique-remove_all (k ∷ ks) rows u =
      IsUnique-remove_all ks (remove rows k) (IsUnique-remove rows k u)

-- Whether a key has been idle for longer than the time to live.
abbrev pub is_idle : ℕ → ℕ → Option ℕ → Bool
is_idle now ttl none = false
is_idle now ttl (some seen) = ltb ttl (now - seen)

abbrev is_stale : ℕ → ℕ → Table ℕ → Text → Bool
unfolding stale
is_stale now ttl rows j = any (λ k. text_eq k j) (stale now ttl rows)

stale-missing :
    (now ttl : ℕ) (rows : Table ℕ) (j : Text) → get rows j ≡ none → is_stale now ttl rows j ≡ false
unfolding get stale is_stale
stale-missing now ttl [] j h = refl
stale-missing now ttl ((k, seen) ∷ rows) j h = elim (Bool-cases (text_eq k j)) [
  | inl e ↦ absurd (cc (rw e at h))
  | inr e ↦
      let later = stale-missing now ttl rows j (rw e at h) in
      elim (Bool-cases (ltb ttl (now - seen))) [ inl l ↦ rw (l, e) later | inr l ↦ rw l later ]
]

stale-idle :
    (now ttl : ℕ) (rows : Table ℕ) (j : Text)
    → IsUnique rows
    → is_stale now ttl rows j ≡ is_idle now ttl (get rows j)
unfolding get stale is_stale
stale-idle now ttl [] j u = refl
stale-idle now ttl ((k, seen) ∷ rows) j (e, u) =
    let later = stale-idle now ttl rows j u in
    elim (Bool-cases (text_eq k j)) [
      | inl h ↦
          let gone : get rows j ≡ none = subst (λ x. get rows x ≡ none) (eq_of_text_eq k j h) e in
          let rest = stale-missing now ttl rows j gone in
          elim (Bool-cases (ltb ttl (now - seen))) [
            | inl l ↦ rw (l, h) (sym l)
            | inr l ↦ rw (l, h) (rest ∙ sym l)
          ]
      | inr h ↦ elim (Bool-cases (ltb ttl (now - seen))) [
        | inl l ↦ rw (l, h) later
        | inr l ↦ rw (l, h) later
      ]
    ]

-- The keys of the two tables are the same, each once, and the buckets have the registry's settings.
pub record IsWell (r : BucketRegistry) : Type 0 where
  pub unique : IsUnique r.touched
  pub same_keys : (k : Text) → is_some (get r.buckets k) ≡ is_some (get r.touched k)
  pub settings :
      (k : Text) (b : TokenBucket)
      → get r.buckets k ≡ some b
      → (b.rate ≡ r.rate) × (b.burst ≡ r.burst) × (b.tokens ≤ b.burst)

pub get-sweep :
    (now : ℕ) (r : BucketRegistry) (k : Text)
    → IsWell r
    → get (sweep now r).buckets k
      ≡ (if is_idle now r.idle_ttl (get r.touched k) then none else get r.buckets k)
unfolding sweep is_stale
get-sweep now r k w =
    get-remove_all (stale now r.idle_ttl r.touched) r.buckets k
    ∙ ap (λ x. if x then none else get r.buckets k) (stale-idle now r.idle_ttl r.touched k w.unique)

-- A refill after the time that fills the bucket gives a full bucket.
refill-full :
    (now : ℕ) (b : TokenBucket)
    → enabled b ≡ true
    → b.burst ≤ (now - b.updated) * b.rate
    → refill now b ≡ new_bucket now b.rate b.burst
unfolding refill new_bucket
refill-full now b on h = elim (Bool-cases (leb now b.updated)) [
  | inl l ↦
      let early : now - b.updated ≡ 0 = ground arith in
      let empty : b.burst ≤ 0 = omega (arith, h, ap (λ x. x * b.rate) early) in
      let on' : (ltb 0 b.rate && ltb 0 b.burst) ≡ true = unfold enabled in on in
      absurd (ground arith)
  | inr l ↦
      let full : min b.burst (b.tokens + (now - b.updated) * b.rate) ≡ b.burst = omega arith in
      rw (on, l, full) refl
]

bucket-get_bucket :
    (now : ℕ) (k : Text) (r : BucketRegistry) (o : Option TokenBucket)
    → get r.buckets k ≡ o
    → (get_bucket now k r).0 ≡ found now r o
unfolding get_bucket
bucket-get_bucket now k r o e = rw e refl

split : (a c n : ℕ) → (a + c) * n ≡ a * n + c * n
split a c n = omega arith

-- In a well-formed registry with a rate and a burst above 0, where a bucket was last refilled at most `lag` after its
-- key was last asked for, and the time to live is long enough for that lag and to fill a bucket, whether the registry
-- was swept before makes no difference to the level of the bucket that a caller is then given.
pub get_bucket-sweep :
    (now : ℕ) (r : BucketRegistry) (k : Text) (b : TokenBucket) (seen lag : ℕ)
    → IsWell r
    → 0 < r.rate
    → 0 < r.burst
    → r.burst + lag * r.rate ≤ r.idle_ttl * r.rate
    → get r.buckets k ≡ some b
    → get r.touched k ≡ some seen
    → b.updated ≤ seen + lag
    → refill now (get_bucket now k (sweep now r)).0 ≡ refill now (get_bucket now k r).0
unfolding refill found
get_bucket-sweep now r k b seen lag w rate burst enough held asked recent =
    let kept = bucket-get_bucket now k r (some b) held in
    let swept =
      get-sweep now r k w
      ∙ ap (λ o. if is_idle now r.idle_ttl o then none else get r.buckets k) asked in
    let (er, eb, full) = w.settings k b held in
    elim (Bool-cases (ltb r.idle_ttl (now - seen))) [
      | inl l ↦
          let gone =
            bucket-get_bucket now k (sweep now r) none
              (swept ∙ ap (λ x. if x then none else get r.buckets k) l) in
          let long : r.idle_ttl ≤ (now - b.updated) + lag = ground arith in
          let filled : b.burst ≤ (now - b.updated) * b.rate = omega (
            arith,
            mul-le-mul_right r.rate long,
            split (now - b.updated) lag r.rate,
            ap (λ x. (now - b.updated) * x) er,
          ) in
          let on : enabled b ≡ true = unfold enabled in ground arith in
          let fresh : refill now (new_bucket now r.rate r.burst) ≡ new_bucket now r.rate r.burst =
            unfold refill new_bucket in ground arith in
          rw (gone, kept, refill-full now b on filled, er, eb) (unfold found sweep in fresh)
      | inr l ↦
          let still =
            bucket-get_bucket now k (sweep now r) (some b)
              (swept ∙ ap (λ x. if x then none else get r.buckets k) l ∙ held) in
          rw (still, kept) (unfold found in refl)
    ]
