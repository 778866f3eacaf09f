-- ===== src/Plan/Cascade.antt =====
-- What the search for the descendants of a step finds.
use openburrow.Prelude.{
  ℕ, zero, suc, ◌+◌, ◌≡◌, refl, sym, ap, ◌∙◌, subst, Bool, true, false, not, ◌&&◌, some,
  some-injective, List, [], ◌∷◌, ◌++◌, Memᴰ, Text, text_eq, text_eq_refl, eq_of_text_eq, length,
  select-Memᴰ, Bool-cases, arith, ◌⊎◌, inl, inr,
}
use openburrow.Plan.{PlanStep, Plan, mem, ids}
use openburrow.Plan.Descendants.{
  waiting_for, push_all, descend, each, descendants, Waits, AreWaiting, IsFair, Memᴰ-push_all,
  descend-some, cost-each,
}

-- One part of a list in a longer one.
append-left : {A : Type 0} (xs ys : List A) (x : A) → Memᴰ x xs → Memᴰ x (xs ++ ys)
append-left [] ys x m = elim m [ ]
append-left (y ∷ xs) ys x (Memᴰ.head e) = Memᴰ.head e
append-left (y ∷ xs) ys x (Memᴰ.tail m) = Memᴰ.tail (append-left xs ys x m)

append-right : {A : Type 0} (xs ys : List A) (x : A) → Memᴰ x ys → Memᴰ x (xs ++ ys)
append-right [] ys x m = m
append-right (y ∷ xs) ys x m = Memᴰ.tail (append-right xs ys x m)

push_all-frontier :
    (ss : List PlanStep) (frontier : List Text) (x : Text)
    → Memᴰ x frontier
    → Memᴰ x (push_all ss frontier)
unfolding push_all
push_all-frontier [] frontier x m = m
push_all-frontier (s ∷ ss) frontier x m = push_all-frontier ss (s.id ∷ frontier) x (Memᴰ.tail m)

push_all-step :
    (ss : List PlanStep) (frontier : List Text) (s : PlanStep)
    → Memᴰ s ss
    → Memᴰ s.id (push_all ss frontier)
unfolding push_all
push_all-step [] frontier s m = elim m [ ]
push_all-step (t ∷ ss) frontier s (Memᴰ.head e) =
    push_all-frontier ss (t.id ∷ frontier) s.id (Memᴰ.head (ap (λ (u : PlanStep). u.id) e))
push_all-step (t ∷ ss) frontier s (Memᴰ.tail m) = push_all-step ss (t.id ∷ frontier) s m

Memᴰ-waiting_for :
    (c : Text) (steps : List PlanStep) (seen : List Text) (s : PlanStep)
    → Memᴰ s steps
    → mem c s.depends_on ≡ true
    → mem s.id seen ≡ false
    → Memᴰ s (waiting_for c steps seen)
unfolding waiting_for
Memᴰ-waiting_for c steps seen s m on unseen =
    select-Memᴰ (λ (s : PlanStep). mem c s.depends_on && not (mem s.id seen)) s steps m
      (ground (arith, on, unseen))

nowhere : (x : Text) (b : Bool) → (b ≡ true) ⊎ Memᴰ x [] → b ≡ true
nowhere x b (inl e) = e
nowhere x b (inr m) = elim m [ ]

module _ (steps : List PlanStep) (start : Text) where
  abbrev IsPlaced : List Text → List Text → Text → Type 0
  IsPlaced frontier seen x = (mem x seen ≡ true) ⊎ Memᴰ x frontier

  -- A step that is listed, or the one that the search began with.
  abbrev IsListed : List PlanStep → Text → Type 0
  IsListed found x = (x ≡ start) ⊎ ((s : PlanStep) × Memᴰ s found × (x ≡ s.id))

  -- What waits for a step that is seen is seen, or stands on the frontier; both are listed.
  record IsClosed (frontier seen : List Text) (found : List PlanStep) : Type 0 where
    begun : IsPlaced frontier seen start
    closed :
        (c : Text) (s : PlanStep)
        → mem c seen ≡ true
        → Memᴰ s steps
        → mem c s.depends_on ≡ true
        → IsPlaced frontier seen s.id
    known : (x : Text) → IsPlaced frontier seen x → IsListed found x

  -- A seen step on top of the frontier goes.
  drop-IsPlaced :
      (c : Text) (frontier seen : List Text) (x : Text)
      → mem c seen ≡ true
      → IsPlaced (c ∷ frontier) seen x
      → IsPlaced frontier seen x
  drop-IsPlaced c frontier seen x h (inl m) = inl m
  drop-IsPlaced c frontier seen x h (inr (Memᴰ.head e)) = inl (ap (λ t. mem t seen) e ∙ h)
  drop-IsPlaced c frontier seen x h (inr (Memᴰ.tail m)) = inr m

  drop-IsClosed :
      (c : Text) (frontier seen : List Text) (found : List PlanStep)
      → mem c seen ≡ true
      → IsClosed (c ∷ frontier) seen found
      → IsClosed frontier seen found
  drop-IsClosed c frontier seen found h k = record {
    begun = drop-IsPlaced c frontier seen start h k.begun;
    closed = λ d s m n on. drop-IsPlaced c frontier seen s.id h (k.closed d s m n on);
    known = λ x p. k.known x (lifted x p);
  }
    where
      lifted : (x : Text) → IsPlaced frontier seen x → IsPlaced (c ∷ frontier) seen x
      lifted x (inl m) = inl m
      lifted x (inr m) = inr (Memᴰ.tail m)

  module _ (c : Text) (frontier seen : List Text) (found : List PlanStep) where
    abbrev new : List PlanStep
    new = waiting_for c steps (c ∷ seen)

    -- The step on top becomes a seen one.
    moved-IsPlaced :
        (x : Text) → IsPlaced (c ∷ frontier) seen x → IsPlaced (push_all new frontier) (c ∷ seen) x
    moved-IsPlaced x (inl m) = inl (ground (arith, m))
    moved-IsPlaced x (inr (Memᴰ.head e)) =
        inl (ground (arith, ap (λ t. text_eq t c) e ∙ text_eq_refl c))
    moved-IsPlaced x (inr (Memᴰ.tail m)) = inr (push_all-frontier new frontier x m)

    waiting-IsPlaced :
        (s : PlanStep)
        → Memᴰ s steps
        → mem c s.depends_on ≡ true
        → IsPlaced (push_all new frontier) (c ∷ seen) s.id
    waiting-IsPlaced s m on = elim (Bool-cases (mem s.id (c ∷ seen))) [
      | inl e ↦ inl e
      | inr e ↦ inr (push_all-step new frontier s (Memᴰ-waiting_for c steps (c ∷ seen) s m on e))
    ]

    IsListed-more : (x : Text) → IsListed found x → IsListed (found ++ new) x
    IsListed-more x (inl e) = inl e
    IsListed-more x (inr (s, m, e)) = inr (s, append-left found new s m, e)

    closed-IsPlaced :
        IsClosed (c ∷ frontier) seen found
        → (d : Text) (s : PlanStep) → mem d (c ∷ seen) ≡ true
        → Memᴰ s steps
        → mem d s.depends_on ≡ true
        → IsPlaced (push_all new frontier) (c ∷ seen) s.id
    closed-IsPlaced k d s m n on = elim (Bool-cases (text_eq d c)) [
      | inl e ↦ waiting-IsPlaced s n (ap (λ t. mem t s.depends_on) (sym (eq_of_text_eq d c e)) ∙ on)
      | inr e ↦ moved-IsPlaced s.id (k.closed d s (rw e at m) n on)
    ]

    known-IsListed :
        IsClosed (c ∷ frontier) seen found
        → (x : Text) → IsPlaced (push_all new frontier) (c ∷ seen) x
        → IsListed (found ++ new) x
    known-IsListed k x (inl m) = elim (Bool-cases (text_eq x c)) [
      | inl e ↦ IsListed-more x (k.known x (inr (Memᴰ.head (eq_of_text_eq x c e))))
      | inr e ↦ IsListed-more x (k.known x (inl (rw e at m)))
    ]
    known-IsListed k x (inr m) = elim (Memᴰ-push_all new frontier x m) [
      | inl l ↦ IsListed-more x (k.known x (inr (Memᴰ.tail l)))
      | inr (s, l, e) ↦ inr (s, append-right found new s l, e)
    ]

    moved-IsClosed :
        IsClosed (c ∷ frontier) seen found
        → IsClosed (push_all new frontier) (c ∷ seen) (found ++ new)
    moved-IsClosed k = record {
      begun = moved-IsPlaced start k.begun;
      closed = λ d s m n on. closed-IsPlaced k d s m n on;
      known = λ x p. known-IsListed k x p;
    }

  -- Where the loop ends, all that waits is seen.
  ended-IsListed :
      (seen : List Text) (found : List PlanStep)
      → IsClosed [] seen found
      → (x : Text) → Waits steps start x
      → mem x seen ≡ true
  ended-IsListed seen found k x Waits.itself = nowhere start (mem start seen) k.begun
  ended-IsListed seen found k x (Waits.behind c s w m on) =
      nowhere s.id (mem s.id seen) (k.closed c s (ended-IsListed seen found k c w) m on)

  descend-IsListed :
      (fuel : ℕ) (frontier seen : List Text) (found all : List PlanStep)
      → descend fuel steps frontier seen found ≡ some all
      → IsClosed frontier seen found
      → (x : Text) → Waits steps start x
      → IsListed all x
  unfolding descend
  descend-IsListed fuel [] seen found all e k x w =
      subst (λ ss. IsListed ss x) (some-injective found all e)
        (k.known x (inl (ended-IsListed seen found k x w)))
  descend-IsListed zero (c ∷ frontier) seen found all e k x w = absurd (cc e)
  descend-IsListed (suc fuel) (c ∷ frontier) seen found all e k x w =
      let new = waiting_for c steps (c ∷ seen) in
      let skip = λ (h : mem c seen ≡ true) (f : descend fuel steps frontier seen found ≡ some all).
        descend-IsListed fuel frontier seen found all f (drop-IsClosed c frontier seen found h k) x
          w in
      let go =
        λ (f : descend fuel steps (push_all new frontier) (c ∷ seen) (found ++ new) ≡ some all).
          descend-IsListed fuel (push_all new frontier) (c ∷ seen) (found ++ new) all f
            (moved-IsClosed c frontier seen found k) x w in
      elim (Bool-cases (mem c seen)) [ inl h ↦ skip h (rw h at e) | inr h ↦ go (rw h at e) ]

-- Each of the steps is one of the plan, and depends on the given one or on a step that waits for it.
abbrev pub AllWait : List PlanStep → Text → List PlanStep → Type 0
AllWait steps id [] = Unit
AllWait steps id (s ∷ ss) =
    (Memᴰ s steps × (c : Text) × Waits steps id c × (mem c s.depends_on ≡ true))
    × AllWait steps id ss

AreWaiting-AllWait :
    (steps : List PlanStep) (id : Text) (ss : List PlanStep)
    → AreWaiting steps id ss
    → AllWait steps id ss
AreWaiting-AllWait steps id [] h = tt
AreWaiting-AllWait steps id (s ∷ ss) h =
    (h s (Memᴰ.head refl), AreWaiting-AllWait steps id ss (λ t m. h t (Memᴰ.tail m)))

first-IsFair : (steps : List PlanStep) (id : Text) → IsFair steps id (id ∷ [])
first-IsFair steps id x (Memᴰ.head e) = (Memᴰ.head e, subst (Waits steps id) (sym e) Waits.itself)
first-IsFair steps id x (Memᴰ.tail m) = elim m [ ]

first-IsClosed : (steps : List PlanStep) (id : Text) → IsClosed steps id (id ∷ []) [] []
first-IsClosed steps id = record {
  begun = inr (Memᴰ.head refl);
  closed = λ c s m n on. absurd (cc m);
  known = λ x p. elim p [
    | inl m ↦ absurd (cc m)
    | inr (Memᴰ.head e) ↦ inl e
    | inr (Memᴰ.tail m) ↦ elim m [ ]
  ];
}

-- The search for the descendants of a step always ends. It lists only steps of the plan that depend on the given one,
-- directly or through others, and of a step that does so it lists one with its identifier, unless that is the given one.
pub descendants-Waits :
    (id x : Text) (p : Plan)
    → Waits p.steps id x
    → (all : List PlanStep) × (descendants id p ≡ some all)
      × AllWait p.steps id all
      × ((x ≡ id) ⊎ ((s : PlanStep) × Memᴰ s all × (x ≡ s.id)))
unfolding descendants
descendants-Waits id x p w =
    let fuel = each (length p.steps + 1) (id ∷ ids p.steps) + 1 in
    let (all, e, waits) =
      descend-some p.steps id fuel (id ∷ []) [] []
        (omega (arith, cost-each (length p.steps + 1) (id ∷ ids p.steps))) (first-IsFair p.steps id)
        (λ s m. elim m [ ]) in
    (
      all,
      e,
      AreWaiting-AllWait p.steps id all waits,
      descend-IsListed p.steps id fuel (id ∷ []) [] [] all e (first-IsClosed p.steps id) x w,
    )
