-- ===== src/Lifecycle/Timeouts.antt =====
-- `enforce_timeouts` of packages/openburrow-a2a/src/openburrow/a2a/lifecycle/manager.py, and `open_tasks` of
-- packages/openburrow-core/src/openburrow/core/db/repository.py. The clock is read once for a sweep.
use openburrow.Prelude.{
  ℕ, sort_by, zero, suc, ◌-◌, Bool, true, false, not, ◌&&◌, Option, none, some, List, [], ◌∷◌, ◌++◌,
  map, Text, codes, text_eq, select, Table, if◌then◌else◌, ltb, leb,
}
use openburrow.Lifecycle.{
  submitted, working, input_required, auth_required, value, is_terminal, Task,
}
use openburrow.Lifecycle.Manager.{Services, World, Outcome, returned, raised, fail_task}

-- The rows are ordered by the time of submission, those without one first.
unfoldable pub no_later : Option ℕ → Option ℕ → Bool
no_later none b = true
no_later (some a) none = false
no_later (some a) (some b) = leb a b

unfoldable pub by_submission : List Task → List Task
by_submission ts = sort_by (λ (t : Task) (u : Task). no_later t.submitted_at u.submitted_at) ts

unfoldable pub open_tasks : Text → Table Task → List Task
open_tasks session rows = by_submission (
    select (λ (t : Task). text_eq t.session_id session && not (is_terminal t.state))
      (map (λ (row : Text × Task). row.1) rows))

-- `task.timeout_s or` the setting
unfoldable pub limit_or : ℕ → ℕ → ℕ
limit_or zero setting = setting
limit_or (suc n) setting = suc n

unfoldable pub deadline_for : Services → Task → Option ℕ
deadline_for sv t = elim t.state [
  | working ↦ some (limit_or t.timeout_s sv.task_timeout)
  | input_required ↦ some sv.input_timeout
  | auth_required ↦ some sv.auth_timeout
  | submitted ↦ some (limit_or t.timeout_s sv.task_timeout)
  | _ ↦ none
]

-- `task.started_at or task.submitted_at`
unfoldable pub anchor : Task → Option ℕ
anchor t = elim t.started_at [ none ↦ t.submitted_at | some s ↦ some s ]

unfoldable pub past : ℕ → Option ℕ → Option ℕ → Bool
past now none since = false
past now (some limit) none = false
past now (some limit) (some since) = ltb limit (now - since)

unfoldable pub has_timed_out : Services → ℕ → Task → Bool
has_timed_out sv now t = past now (deadline_for sv t) (anchor t)

-- The tasks failed, or a sweep that a raised error ends.
pub data Sweep : Type 0 where
  swept : List Task → Sweep
  aborted : Sweep

unfoldable pub added : Task → Sweep × World → Sweep × World
added t (swept ts, w) = (swept (t ∷ ts), w)
added t (aborted, w) = (aborted, w)

unfoldable pub after_fail : Outcome × World → (World → Sweep × World) → Sweep × World
after_fail (returned t, w) rest = added t (rest w)
after_fail (raised t, w) rest = (aborted, w)

unfoldable pub sweep_tasks : Services → ℕ → List Task → World → Sweep × World
sweep_tasks sv now [] w = (swept [], w)
sweep_tasks sv now (t ∷ ts) w =
    let rest = λ (v : World). sweep_tasks sv now ts v in
    if not (has_timed_out sv now t)
    then rest w
    else after_fail
        (fail_task sv now (codes "timed out in state '" ++ value t.state ++ codes "'") t w) rest

unfoldable pub enforce_timeouts : Services → ℕ → Text → World → Sweep × World
enforce_timeouts sv now session w = sweep_tasks sv now (open_tasks session w.tasks) w
