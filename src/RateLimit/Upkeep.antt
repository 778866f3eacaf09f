-- ===== src/RateLimit/Upkeep.antt =====
-- The operations of the registry keep it well formed, and the bucket that it hands out is the one that it holds.
use openburrow.Prelude.{
  ℕ, ◌-◌, ◌≤◌, ◌≡◌, refl, sym, ap, ◌∙◌, Bool, true, false, Option, none, some, some-injective, Text,
  text_eq, text_eq_refl, eq_of_text_eq, get, save, get-save, any, is_some, if◌then◌else◌, ltb,
  Bool-cases, arith, inl, inr, subst,
}
use openburrow.RateLimit.{TokenBucket, new_bucket}
use openburrow.RateLimit.Registry.{
  BucketRegistry, stale, sweep, maybe_sweep, found, entered, get_bucket, drop_bucket, new_registry,
}
use openburrow.RateLimit.Eviction.{
  IsWell, IsUnique-save, IsUnique-remove, IsUnique-remove_all, get-remove, get-remove_all,
  get-sweep, is_idle,
}

pub new_registry-IsWell :
    (now rate burst ttl interval : ℕ) → IsWell (new_registry now rate burst ttl interval)
unfolding new_registry get
new_registry-IsWell now rate burst ttl interval = record {
  unique = tt;
  same_keys = λ k. refl;
  settings = λ k b h. absurd (cc h);
}

is_some-if :
    (x : Bool) {A B : Type 0} (o : Option A) (p : Option B)
    → is_some o ≡ is_some p
    → is_some (if x then none else o) ≡ is_some (if x then none else p)
is_some-if true o p h = refl
is_some-if false o p h = h

some-unless :
    (x : Bool) {A : Type 0} (o : Option A) (a : A) → (if x then none else o) ≡ some a → o ≡ some a
some-unless true o a h = absurd (cc h)
some-unless false o a h = h

pub sweep-IsWell : (now : ℕ) (r : BucketRegistry) → IsWell r → IsWell (sweep now r)
unfolding sweep
sweep-IsWell now r w =
    let keys = stale now r.idle_ttl r.touched in
    record {
      unique = IsUnique-remove_all keys r.touched w.unique;
      same_keys = λ k.
          rw (get-remove_all keys r.buckets k, get-remove_all keys r.touched k)
            (is_some-if (any (λ j. text_eq j k) keys) (get r.buckets k) (get r.touched k)
              (w.same_keys k));
      settings = λ k b h. w.settings k b (
          some-unless (any (λ j. text_eq j k) keys) (get r.buckets k) b
            (sym (get-remove_all keys r.buckets k) ∙ h));
    }

maybe_sweep-IsWell : (now : ℕ) (r : BucketRegistry) → IsWell r → IsWell (maybe_sweep now r)
unfolding maybe_sweep
maybe_sweep-IsWell now r w = elim (Bool-cases (ltb r.sweep_interval (now - r.last_sweep))) [
  | inl l ↦ rw l (sweep-IsWell now r w)
  | inr l ↦ rw l w
]

pub drop_bucket-IsWell : (key : Text) (r : BucketRegistry) → IsWell r → IsWell (drop_bucket key r)
unfolding drop_bucket
drop_bucket-IsWell key r w = record {
  unique = IsUnique-remove r.touched key w.unique;
  same_keys = λ k.
      rw (get-remove r.buckets key k, get-remove r.touched key k)
        (is_some-if (text_eq key k) (get r.buckets k) (get r.touched k) (w.same_keys k));
  settings = λ k b h.
      w.settings k b
        (some-unless (text_eq key k) (get r.buckets k) b (sym (get-remove r.buckets key k) ∙ h));
}

-- The registry with a bucket put in under a key, and the key touched.
abbrev put : ℕ → Text → TokenBucket → BucketRegistry → BucketRegistry
put now key b r = record r { buckets = save r.buckets key b; touched = save r.touched key now }

Fits : BucketRegistry → TokenBucket → Type 0
Fits r b = (b.rate ≡ r.rate) × (b.burst ≡ r.burst) × (b.tokens ≤ b.burst)

put-IsWell :
    (now : ℕ) (key : Text) (b : TokenBucket) (r : BucketRegistry)
    → Fits r b
    → IsWell r
    → IsWell (put now key b r)
unfolding Fits
put-IsWell now key b r f w = record {
  unique = IsUnique-save r.touched key now w.unique;
  same_keys =
      λ k. ground (arith, get-save r.buckets key k b, get-save r.touched key k now, w.same_keys k);
  settings = λ k c h. elim (Bool-cases (text_eq key k)) [
    | inl e ↦
        let same : b ≡ c = some-injective _ _ (
          sym (get-save r.buckets key k b ∙ ap (λ x. if x then some b else get r.buckets k) e)
          ∙ h) in
        subst (λ x. (x.rate ≡ r.rate) × (x.burst ≡ r.burst) × (x.tokens ≤ x.burst)) same f
    | inr e ↦
        w.settings k c
          (sym (get-save r.buckets key k b ∙ ap (λ x. if x then some b else get r.buckets k) e) ∙ h)
  ];
}

touch-IsWell :
    (now : ℕ) (key : Text) (b : TokenBucket) (r : BucketRegistry)
    → get r.buckets key ≡ some b
    → IsWell r
    → IsWell (record r { touched = save r.touched key now })
touch-IsWell now key b r held w = record {
  unique = IsUnique-save r.touched key now w.unique;
  same_keys = λ k. elim (Bool-cases (text_eq key k)) [
    | inl e ↦
        let here : get r.buckets k ≡ some b =
          subst (λ x. get r.buckets x ≡ some b) (eq_of_text_eq key k e) held in
        rw (here, get-save r.touched key k now, e) refl
    | inr e ↦ rw (get-save r.touched key k now, e) (w.same_keys k)
  ];
  settings = w.settings;
}

-- The registry of `get` before it sweeps.
abbrev handed : ℕ → Text → BucketRegistry → Option TokenBucket → BucketRegistry
unfolding entered
handed now key r o = record r { buckets = entered key now r o; touched = save r.touched key now }

handed-IsWell :
    (now : ℕ) (key : Text) (r : BucketRegistry) (o : Option TokenBucket)
    → get r.buckets key ≡ o
    → IsWell r
    → IsWell (handed now key r o)
unfolding handed entered new_bucket Fits
handed-IsWell now key r none e w =
    put-IsWell now key (new_bucket now r.rate r.burst) r (refl, refl, omega arith) w
handed-IsWell now key r (some b) e w = touch-IsWell now key b r e w

pub get_bucket-IsWell :
    (now : ℕ) (key : Text) (r : BucketRegistry) → IsWell r → IsWell (get_bucket now key r).1
unfolding get_bucket handed
get_bucket-IsWell now key r w =
    maybe_sweep-IsWell now (handed now key r (get r.buckets key))
      (handed-IsWell now key r (get r.buckets key) refl w)

found-Fits :
    (now : ℕ) (key : Text) (r : BucketRegistry) (o : Option TokenBucket)
    → get r.buckets key ≡ o
    → IsWell r
    → Fits r (found now r o)
unfolding found new_bucket Fits
found-Fits now key r none e w = (refl, refl, omega arith)
found-Fits now key r (some b) e w = w.settings key b e

held-handed :
    (now : ℕ) (key : Text) (r : BucketRegistry) (o : Option TokenBucket)
    → get r.buckets key ≡ o
    → get (handed now key r o).buckets key ≡ some (found now r o)
unfolding handed entered found
held-handed now key r none e =
    rw (get-save r.buckets key key (new_bucket now r.rate r.burst), text_eq_refl key) refl
held-handed now key r (some b) e = e

held-maybe_sweep :
    (now : ℕ) (key : Text) (r : BucketRegistry)
    → IsWell r
    → get r.touched key ≡ some now
    → get (maybe_sweep now r).buckets key ≡ get r.buckets key
unfolding maybe_sweep
held-maybe_sweep now key r w e =
    let fresh : ltb r.idle_ttl (now - now) ≡ false = ground arith in
    elim (Bool-cases (ltb r.sweep_interval (now - r.last_sweep))) [
      | inl l ↦ rw l (
          get-sweep now r key w
          ∙ ap (λ o. if is_idle now r.idle_ttl o then none else get r.buckets key) e
          ∙ ap (λ x. if x then none else get r.buckets key) fresh)
      | inr l ↦ rw l refl
    ]

-- In a well-formed registry, `get` returns the bucket that the registry then holds under the key, also where
-- it sweeps.
pub get_bucket-held :
    (now : ℕ) (key : Text) (r : BucketRegistry)
    → IsWell r
    → get (get_bucket now key r).1.buckets key ≡ some (get_bucket now key r).0
unfolding get_bucket handed
get_bucket-held now key r w =
    let o = get r.buckets key in
    held-maybe_sweep now key (handed now key r o) (handed-IsWell now key r o refl w) (
      get-save r.touched key key now
      ∙ ap (λ x. if x then some now else get r.touched key) (text_eq_refl key))
    ∙ held-handed now key r o refl
