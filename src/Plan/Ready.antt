-- ===== src/Plan/Ready.antt =====
-- Which steps of a plan can be taken, and which wait.
use openburrow.Prelude.{
  ◌≡◌, refl, ◌↔◌, Bool, true, false, not, List, [], ◌∷◌, Memᴰ, select-Memᴰ, Memᴰ-select, is_empty,
  all, any, arith,
}
use openburrow.Plan.{
  PlanStep, Plan, StepStatus, is_pending, may_wait, mem, done_ids, ready_steps, blocked_steps,
}

-- A test of all is the negation of the test of any for the opposite.
all-any : {A : Type 0} (f : A → Bool) (xs : List A) → any (λ x. not (f x)) xs ≡ not (all f xs)
all-any f [] = refl
all-any f (x ∷ xs) = ground (arith, all-any f xs)

pending-may_wait : (s : StepStatus) → is_pending s ≡ true → may_wait s ≡ true
unfolding is_pending may_wait
pending-may_wait s h = ground arith

-- A pending step that nobody owns is ready or blocked, and never both: it is ready where every step that it depends on
-- is a step of the plan that is done or skipped, and blocked otherwise.
ready_steps-blocked_steps :
    (p : Plan) (s : PlanStep)
    → Memᴰ s p.steps
    → is_pending s.status ≡ true
    → is_empty s.owner_lane ≡ true
    → (Memᴰ s (ready_steps p) ↔ (all (λ d. mem d (done_ids p)) s.depends_on ≡ true))
      × (Memᴰ s (blocked_steps p) ↔ (all (λ d. mem d (done_ids p)) s.depends_on ≡ false))
unfolding ready_steps blocked_steps
ready_steps-blocked_steps p s m waits free =
    let both = all-any (λ d. mem d (done_ids p)) s.depends_on in
    let may = pending-may_wait s.status waits in
    (
      (
        λ r. ground (arith, (Memᴰ-select _ s p.steps r).1),
        λ a. select-Memᴰ _ s p.steps m (ground arith),
      ),
      (
        λ r. ground (arith, (Memᴰ-select _ s p.steps r).1),
        λ a. select-Memᴰ _ s p.steps m (ground arith),
      ),
    )
