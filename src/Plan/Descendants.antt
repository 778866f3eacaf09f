-- ===== src/Plan/Descendants.antt =====
-- `descendants` of packages/openburrow-core/src/openburrow/core/models/plan.py. The frontier is a stack, its top first.
-- The loop has fuel: each step can be expanded once, and an expansion pushes at most all steps.
use openburrow.Prelude.{
  ℕ, zero, suc, ◌+◌, ◌≤◌, ◌≡◌, refl, sym, ap, ◌∙◌, subst, Bool, true, false, not, ◌&&◌, Option,
  none, some, List, [], ◌∷◌, ◌++◌, Memᴰ, Text, text_eq_refl, length, select, Memᴰ-select,
  if◌then◌else◌, Bool-cases, arith, ◌⊎◌, inl, inr,
}
use openburrow.Plan.{PlanStep, Plan, mem, ids}

-- The steps that wait for one and are not seen yet.
unfoldable pub waiting_for : Text → List PlanStep → List Text → List PlanStep
waiting_for current steps seen =
    select (λ (s : PlanStep). mem current s.depends_on && not (mem s.id seen)) steps

unfoldable pub push_all : List PlanStep → List Text → List Text
push_all [] frontier = frontier
push_all (s ∷ ss) frontier = push_all ss (s.id ∷ frontier)

unfoldable pub descend :
    ℕ → List PlanStep → List Text → List Text → List PlanStep → Option (List PlanStep)
descend fuel steps [] seen found = some found
descend zero steps (c ∷ frontier) seen found = none
descend (suc fuel) steps (c ∷ frontier) seen found =
    let new = waiting_for c steps (c ∷ seen) in
    let skipped = descend fuel steps frontier seen found in
    let expanded = descend fuel steps (push_all new frontier) (c ∷ seen) (found ++ new) in
    if mem c seen then skipped else expanded

-- A number for each entry of a list
unfoldable pub each : ℕ → List Text → ℕ
each k [] = 0
each k (x ∷ xs) = k + each k xs

unfoldable pub descendants : Text → Plan → Option (List PlanStep)
descendants id p =
    descend (each (length p.steps + 1) (id ∷ ids p.steps) + 1) p.steps (id ∷ []) [] []

-- What the steps that are not seen can still cost.
abbrev pub cost : ℕ → List Text → List Text → ℕ
cost k [] seen = 0
cost k (x ∷ xs) seen = (if mem x seen then 0 else k) + cost k xs seen

cost-more : (k : ℕ) (c : Text) (xs seen : List Text) → cost k xs (c ∷ seen) ≤ cost k xs seen
cost-more k c [] seen = omega arith
cost-more k c (x ∷ xs) seen = ground (arith, cost-more k c xs seen)

cost-less :
    (k : ℕ) (c : Text) (xs seen : List Text)
    → Memᴰ c xs
    → mem c seen ≡ false
    → cost k xs (c ∷ seen) + k ≤ cost k xs seen
cost-less k c [] seen m h = elim m [ ]
cost-less k c (x ∷ xs) seen (Memᴰ.head e) h =
    rw (← e, h, text_eq_refl c) (omega (arith, cost-more k c xs seen))
cost-less k c (x ∷ xs) seen (Memᴰ.tail m) h = ground (arith, cost-less k c xs seen m h)

pub cost-each : (k : ℕ) (xs : List Text) → cost k xs [] ≡ each k xs
unfolding each
cost-each k [] = refl
cost-each k (x ∷ xs) = omega (arith, cost-each k xs)

length-select : (f : PlanStep → Bool) (ss : List PlanStep) → length (select f ss) ≤ length ss
length-select f [] = omega arith
length-select f (s ∷ ss) = ground (arith, length-select f ss)

length-push_all :
    (ss : List PlanStep) (frontier : List Text)
    → length (push_all ss frontier) ≡ length ss + length frontier
unfolding push_all
length-push_all [] frontier = omega arith
length-push_all (s ∷ ss) frontier = omega (arith, length-push_all ss (s.id ∷ frontier))

-- A step that cannot start before another one is done, directly or through others.
pub data Waits (steps : List PlanStep) (start : Text) : Text → Type 0 where
  itself : Waits steps start start
  behind :
      (c : Text) (s : PlanStep)
      → Waits steps start c
      → Memᴰ s steps
      → mem c s.depends_on ≡ true
      → Waits steps start s.id

pub Memᴰ-push_all :
    (ss : List PlanStep) (frontier : List Text) (x : Text)
    → Memᴰ x (push_all ss frontier)
    → Memᴰ x frontier ⊎ ((s : PlanStep) × Memᴰ s ss × (x ≡ s.id))
unfolding push_all
Memᴰ-push_all [] frontier x m = inl m
Memᴰ-push_all (s ∷ ss) frontier x m = elim (Memᴰ-push_all ss (s.id ∷ frontier) x m) [
  | inl (Memᴰ.head e) ↦ inr (s, Memᴰ.head refl, e)
  | inl (Memᴰ.tail k) ↦ inl k
  | inr (t, k, e) ↦ inr (t, Memᴰ.tail k, e)
]

length-waiting_for :
    (c : Text) (steps : List PlanStep) (seen : List Text)
    → length (waiting_for c steps seen) ≤ length steps
unfolding waiting_for
length-waiting_for c steps seen =
    length-select (λ s. mem c s.depends_on && not (mem s.id seen)) steps

pub waiting_for-Memᴰ :
    (c : Text) (steps : List PlanStep) (seen : List Text) (s : PlanStep)
    → Memᴰ s (waiting_for c steps seen)
    → Memᴰ s steps × (mem c s.depends_on ≡ true)
unfolding waiting_for
waiting_for-Memᴰ c steps seen s m =
    let (there, both) =
      Memᴰ-select (λ (s : PlanStep). mem c s.depends_on && not (mem s.id seen)) s steps m in
    (there, ground (arith, both))

pub Memᴰ-append : {A : Type 0} (xs ys : List A) (x : A) → Memᴰ x (xs ++ ys) → Memᴰ x xs ⊎ Memᴰ x ys
Memᴰ-append [] ys x m = inr m
Memᴰ-append (y ∷ xs) ys x (Memᴰ.head e) = inl (Memᴰ.head e)
Memᴰ-append (y ∷ xs) ys x (Memᴰ.tail m) = elim (Memᴰ-append xs ys x m) [
  | inl k ↦ inl (Memᴰ.tail k)
  | inr k ↦ inr k
]

Memᴰ-ids :
    (steps : List PlanStep) (s : PlanStep) (x : Text) → Memᴰ s steps → x ≡ s.id → Memᴰ x (ids steps)
Memᴰ-ids [] s x m e = elim m [ ]
Memᴰ-ids (t ∷ steps) s x (Memᴰ.head q) e = Memᴰ.head (e ∙ ap (λ (u : PlanStep). u.id) q)
Memᴰ-ids (t ∷ steps) s x (Memᴰ.tail m) e = Memᴰ.tail (Memᴰ-ids steps s x m e)

module _ (steps : List PlanStep) (start : Text) where
  -- What the frontier holds.
  abbrev pub IsFair : List Text → Type 0
  IsFair frontier = (x : Text) → Memᴰ x frontier → Memᴰ x (start ∷ ids steps) × Waits steps start x

  -- What has been found.
  abbrev pub AreWaiting : List PlanStep → Type 0
  AreWaiting found =
      (s : PlanStep)
      → Memᴰ s found
      → Memᴰ s steps × (c : Text) × Waits steps start c × (mem c s.depends_on ≡ true)

  expanded-IsFair :
      (c : Text) (frontier seen : List Text)
      → IsFair (c ∷ frontier)
      → IsFair (push_all (waiting_for c steps (c ∷ seen)) frontier)
  expanded-IsFair c frontier seen fair x m =
      elim (Memᴰ-push_all (waiting_for c steps (c ∷ seen)) frontier x m) [
        | inl k ↦ fair x (Memᴰ.tail k)
        | inr (s, k, e) ↦
            let (there, on) = waiting_for-Memᴰ c steps (c ∷ seen) s k in
            (
              Memᴰ.tail (Memᴰ-ids steps s x there e),
              subst (Waits steps start) (sym e)
                  (Waits.behind c s (fair c (Memᴰ.head refl)).1 there on),
            )
      ]

  expanded-cost :
      (fuel : ℕ) (c : Text) (frontier seen : List Text)
      → Memᴰ c (start ∷ ids steps)
      → mem c seen ≡ false
      → cost (length steps + 1) (start ∷ ids steps) seen + length (c ∷ frontier) ≤ suc fuel
      → cost (length steps + 1) (start ∷ ids steps) (c ∷ seen)
          + length (push_all (waiting_for c steps (c ∷ seen)) frontier)
        ≤ fuel
  expanded-cost fuel c frontier seen m h few = omega (
    arith,
    few,
    cost-less (length steps + 1) c (start ∷ ids steps) seen m h,
    length-push_all (waiting_for c steps (c ∷ seen)) frontier,
    length-waiting_for c steps (c ∷ seen),
  )

  pub descend-some :
      (fuel : ℕ) (frontier seen : List Text) (found : List PlanStep)
      → cost (length steps + 1) (start ∷ ids steps) seen + length frontier ≤ fuel
      → IsFair frontier
      → AreWaiting found
      → (all : List PlanStep) × (descend fuel steps frontier seen found ≡ some all) × AreWaiting all
  unfolding descend
  descend-some fuel [] seen found few fair waits = (found, refl, waits)
  descend-some zero (c ∷ frontier) seen found few fair waits = absurd (omega (arith, few))
  descend-some (suc fuel) (c ∷ frontier) seen found few fair waits =
      let new = waiting_for c steps (c ∷ seen) in
      let here = fair c (Memᴰ.head refl) in
      let skip = λ (h : mem c seen ≡ true).
        descend-some fuel frontier seen found (omega (arith, few)) (λ x m. fair x (Memᴰ.tail m))
          waits in
      let go = λ (h : mem c seen ≡ false).
        descend-some fuel (push_all new frontier) (c ∷ seen) (found ++ new)
          (expanded-cost fuel c frontier seen here.0 h few) (expanded-IsFair c frontier seen fair)
          (λ s m. elim (Memᴰ-append found new s m) [
            | inl k ↦ waits s k
            | inr k ↦
                let (there, on) = waiting_for-Memᴰ c steps (c ∷ seen) s k in (there, c, here.1, on)
          ]) in
      elim (Bool-cases (mem c seen)) [ inl e ↦ rw e (skip e) | inr e ↦ rw e (go e) ]
