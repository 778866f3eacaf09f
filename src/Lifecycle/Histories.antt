-- ===== src/Lifecycle/Histories.antt =====
-- The history of a task is a walk over the lifecycle graph, and its time stamps agree with it.
use openburrow.Prelude.{
  ℕ, ◌≡◌, refl, sym, ◌∙◌, inl, inr, Bool, true, false, is_some, List, [], ◌∷◌, ◌++◌, arith, Text,
  any, Bool-cases, any-append,
}
use openburrow.Lifecycle.{
  TaskState, submitted, working, completed, failed, is_terminal, is_blocking, state_eq,
  can_transition, Hop, Task, Attempt, task_after, moved, transition, block_on_input, block_on_auth,
  unblock, complete, fail,
}

-- Each hop leaves from where the one before arrived, by an edge of the graph.
abbrev pub IsPath : TaskState → List Hop → TaskState → Type 0
IsPath s [] t = s ≡ t
IsPath s (h ∷ hs) t = (h.from ≡ s) × (can_transition h.from h.to ≡ true) × IsPath h.to hs t

abbrev pub reached_working : List Hop → Bool
reached_working = any (λ (h : Hop). state_eq h.to working)

pub record IsWell (t : Task) : Type 0 where
  pub walked : IsPath submitted t.state_history t.state
  pub ended : is_some t.ended_at ≡ is_terminal t.state
  pub began : is_some t.started_at ≡ reached_working t.state_history
  pub unblocked : is_blocking t.state ≡ false → t.blocking_reason ≡ []

IsPath-snoc :
    (s t u : TaskState) (hs : List Hop) (now : ℕ) (reason : Text)
    → IsPath s hs t
    → can_transition t u ≡ true
    → IsPath s (hs ++ record { from = t; to = u; at = now; reason = reason } ∷ []) u
IsPath-snoc s t u [] now reason p c = (sym p, c, refl)
IsPath-snoc s t u (h ∷ hs) now reason (e, f, p) c = (e, f, IsPath-snoc h.to t u hs now reason p c)

pub can_transition-open : (s t : TaskState) → can_transition s t ≡ true → is_terminal s ≡ false
unfolding can_transition is_terminal
can_transition-open completed t h = cc
can_transition-open failed t h = cc
can_transition-open _ t h = ground arith

module _ (now : ℕ) (target : TaskState) (reason : Text) (t : Task) (well : IsWell t) where
  moved-IsWell : can_transition t.state target ≡ true → IsWell (moved now target reason t)
  unfolding moved
  moved-IsWell c = record {
    walked = IsPath-snoc submitted t.state target t.state_history now reason well.walked c;
    ended = ground (arith, well.ended, can_transition-open t.state target c);
    began = ground (
      arith,
      well.began,
      any-append (λ (h : Hop). state_eq h.to working) t.state_history
          (record { from = t.state; to = target; at = now; reason = reason } ∷ []),
    );
    unblocked = λ e. rw e;
  }

  transition-IsWell : IsWell (task_after (transition now target reason t))
  unfolding transition
  transition-IsWell = elim (Bool-cases (state_eq target t.state)) [
    | inl e ↦ rw e well
    | inr e ↦ elim (Bool-cases (can_transition t.state target)) [
      | inl c ↦ rw (e, c) (moved-IsWell c)
      | inr c ↦ rw (e, c) well
    ]
  ]

-- A method call on the task object.
pub data Act : Type 0 where
  move : TaskState → Text → Act
  ask : Text → Text → Act
  ask_auth : Text → Text → Act
  answer : Text → Act
  finish : Text → List Text → Act
  give_up : Text → Act

unfoldable pub act : ℕ → Act → Task → Attempt
act now (move target reason) t = transition now target reason t
act now (ask message reason) t = block_on_input now message reason t
act now (ask_auth reason approval) t = block_on_auth now reason approval t
act now (answer note) t = unblock now note t
act now (finish summary artifacts) t = complete now summary artifacts t
act now (give_up error) t = fail now error t

-- Any calls, each at its time; an exception is caught, and the object is used again.
unfoldable pub act_all : List (ℕ × Act) → Task → Task
act_all [] t = t
act_all ((now, a) ∷ rest) t = act_all rest (task_after (act now a t))

-- The fields that the invariant reads.
keep :
    (t u : Task)
    → IsWell t
    → u.state ≡ t.state
    → u.state_history ≡ t.state_history
    → u.ended_at ≡ t.ended_at
    → u.started_at ≡ t.started_at
    → u.blocking_reason ≡ t.blocking_reason
    → IsWell u
keep t u w e h d s b = record {
  walked = rw (e, h) w.walked;
  ended = rw (e, d) w.ended;
  began = rw (s, h) w.began;
  unblocked = λ q. b ∙ w.unblocked (rw e at q);
}

act-IsWell : (now : ℕ) (a : Act) (t : Task) → IsWell t → IsWell (task_after (act now a t))
unfolding act block_on_input block_on_auth unblock complete fail
act-IsWell now (move target reason) t w = transition-IsWell now target reason t w
act-IsWell now (ask message reason) t w =
    transition-IsWell now _ _ _ (keep t _ w refl refl refl refl refl)
act-IsWell now (ask_auth reason approval) t w =
    transition-IsWell now _ _ _ (keep t _ w refl refl refl refl refl)
act-IsWell now (answer note) t w = transition-IsWell now _ _ _ (keep t _ w refl refl refl refl refl)
act-IsWell now (finish summary artifacts) t w =
    transition-IsWell now _ _ _ (keep t _ w refl refl refl refl refl)
act-IsWell now (give_up error) t w =
    transition-IsWell now _ _ _ (keep t _ w refl refl refl refl refl)

-- Any calls on a task object, those that raise included, keep its history a walk over the lifecycle graph
-- from `submitted` to its state, an end time exactly at a terminal state, a start time exactly if it has
-- been at work, and a blocking reason at most while it is blocked.
pub act_all-IsWell : (acts : List (ℕ × Act)) (t : Task) → IsWell t → IsWell (act_all acts t)
unfolding act_all
act_all-IsWell [] t w = w
act_all-IsWell ((now, a) ∷ rest) t w =
    act_all-IsWell rest (task_after (act now a t)) (act-IsWell now a t w)
