-- ===== src/Lifecycle/Absorbing.antt =====
-- What the methods of a task do in a terminal state, and `fail` in an open one.
use openburrow.Prelude.{
  ℕ, ◌≡◌, refl, inl, inr, true, false, some, List, [], ◌∷◌, arith, Text, take, Bool-cases, ◌∙◌,
}
use openburrow.Lifecycle.{
  TaskState, failed, is_terminal, state_eq, can_transition, Task, done, task_after, moved,
  transition, block_on_input, block_on_auth, unblock, complete, fail,
}
use openburrow.Lifecycle.Histories.{
  Act, move, ask, ask_auth, answer, finish, give_up, act, act_all, can_transition-open,
}

-- The lifecycle part of a task is as it was.
pub record SameLife (t u : Task) : Type 0 where
  pub state : u.state ≡ t.state
  pub history : u.state_history ≡ t.state_history
  pub started : u.started_at ≡ t.started_at
  pub ended : u.ended_at ≡ t.ended_at

SameLife-trans : (t u v : Task) → SameLife t u → SameLife u v → SameLife t v
SameLife-trans t u v a b = record {
  state = b.state ∙ a.state;
  history = b.history ∙ a.history;
  started = b.started ∙ a.started;
  ended = b.ended ∙ a.ended;
}

SameLife-refl : (t : Task) → SameLife t t
SameLife-refl t = record { state = refl; history = refl; started = refl; ended = refl }

stuck : (s target : TaskState) → is_terminal s ≡ true → can_transition s target ≡ false
stuck s target h = elim (Bool-cases (can_transition s target)) [
  | inl c ↦ absurd (cc (h, can_transition-open s target c))
  | inr c ↦ c
]

transition-SameLife :
    (now : ℕ) (target : TaskState) (reason : Text) (t : Task)
    → is_terminal t.state ≡ true
    → SameLife t (task_after (transition now target reason t))
unfolding transition
transition-SameLife now target reason t h = elim (Bool-cases (state_eq target t.state)) [
  | inl e ↦ rw e (SameLife-refl t)
  | inr e ↦ rw (e, stuck t.state target h) (SameLife-refl t)
]

act-SameLife :
    (now : ℕ) (a : Act) (t : Task)
    → is_terminal t.state ≡ true
    → SameLife t (task_after (act now a t))
unfolding act block_on_input block_on_auth unblock complete fail
act-SameLife now (move target reason) t h = transition-SameLife now target reason t h
act-SameLife now (ask message reason) t h =
    SameLife-trans t _ _ (record { state = refl; history = refl; started = refl; ended = refl })
      (transition-SameLife now _ _ _ h)
act-SameLife now (ask_auth reason approval) t h =
    SameLife-trans t _ _ (record { state = refl; history = refl; started = refl; ended = refl })
      (transition-SameLife now _ _ _ h)
act-SameLife now (answer note) t h =
    SameLife-trans t _ _ (record { state = refl; history = refl; started = refl; ended = refl })
      (transition-SameLife now _ _ _ h)
act-SameLife now (finish summary artifacts) t h =
    SameLife-trans t _ _ (record { state = refl; history = refl; started = refl; ended = refl })
      (transition-SameLife now _ _ _ h)
act-SameLife now (give_up error) t h =
    SameLife-trans t _ _ (record { state = refl; history = refl; started = refl; ended = refl })
      (transition-SameLife now _ _ _ h)

-- From a terminal state, no calls change the state, the history, or the two time stamps.
pub act_all-SameLife :
    (acts : List (ℕ × Act)) (t : Task) → is_terminal t.state ≡ true → SameLife t (act_all acts t)
unfolding act_all
act_all-SameLife [] t h = SameLife-refl t
act_all-SameLife ((now, a) ∷ rest) t h =
    let u = task_after (act now a t) in
    let s = act-SameLife now a t h in
    SameLife-trans t u (act_all rest u) s (act_all-SameLife rest u (rw (s.state) h))

open_can_fail : (s : TaskState) → is_terminal s ≡ false → can_transition s failed ≡ true
unfolding is_terminal can_transition
open_can_fail s h = ground arith

open_ne_failed : (s : TaskState) → is_terminal s ≡ false → state_eq failed s ≡ false
unfolding is_terminal state_eq
open_ne_failed s h = ground arith

-- `fail` never raises on an open task: it moves to `failed`, is ended at that time, and carries the error.
pub fail-open :
    (now : ℕ) (error : Text) (t : Task)
    → is_terminal t.state ≡ false
    → (u : Task) × (fail now error t ≡ done u)
      × (u.id ≡ t.id)
      × (u.state ≡ failed)
      × (u.ended_at ≡ some now)
      × (u.error ≡ error)
unfolding fail transition moved is_terminal
fail-open now error t h = (
  moved now failed (take 200 error) (record t { error = error }),
  rw (open_ne_failed t.state h, open_can_fail t.state h),
  refl,
  refl,
  refl,
  refl,
)
