-- ===== src/Tests/Timeouts.antt =====
-- Sweeps of one session, and a task that waited.
use openburrow.Prelude.{
  ◌≡◌, refl, arith, true, false, none, some, List, [], ◌∷◌, Text, codes, text_eq, get,
}
use openburrow.Vocabulary.{intra_repo}
use openburrow.Lifecycle.{
  TaskState, working, input_required, failed, is_terminal, Task, done, unblock,
}
use openburrow.Lifecycle.Manager.{Services, World}
use openburrow.Lifecycle.Timeouts.{
  has_timed_out, deadline_for, limit_or, anchor, past, swept, enforce_timeouts,
}
use openburrow.Lifecycle.Deadlines.{enforce_timeouts-fails, unblock-late}

abbrev services : Services
services = record {
  next_seq = λ log. 1;
  isoformat = λ t. t ∷ [];
  decimal = λ n. n ∷ [];
  task_timeout = 900;
  input_timeout = 1800;
  auth_timeout = 3600;
}

abbrev task : TaskState → Task
task state = record {
  id = codes "t1";
  session_id = codes "s";
  thread_id = [];
  requester_lane = codes "alice";
  assignee_lane = codes "bob";
  authorized_by = codes "maya";
  title = codes "rotate";
  instruction = [];
  input_payload = [];
  skill = [];
  step_id = [];
  parent_task_id = [];
  state = state;
  state_history = [];
  blocking_reason = [];
  pending_message_id = [];
  approval_id = none;
  artifacts = [];
  result_summary = [];
  error = [];
  delegation_id = [];
  trust_boundary = intra_repo;
  authority_scope = [];
  transferable = true;
  delegation_depth = 0;
  submitted_at = some 10;
  started_at = some 20;
  ended_at = none;
  timeout_s = 900;
  retry_count = 0;
  updated_at = 20;
}

abbrev world : World
world = record { tasks = (codes "t1", task working) ∷ []; log = []; messages = []; notices = [] }

enforce_timeouts-fails_example :
    ((us : List Task) × ((enforce_timeouts services 1000 (codes "s") world).0 ≡ swept us))
    × ((i : Text) (t : Task)
        → get world.tasks i ≡ some t
        → t.id ≡ i
        → t.session_id ≡ codes "s"
        → is_terminal t.state ≡ false
        → has_timed_out services 1000 t ≡ true
        → (u : Task) × (get (enforce_timeouts services 1000 (codes "s") world).1.tasks i ≡ some u)
          × (u.state ≡ failed))
enforce_timeouts-fails_example = enforce_timeouts-fails services 1000 (codes "s") world

-- The task of this world is past its deadline.
struck :
    (u : Task) × (get (enforce_timeouts services 1000 (codes "s") world).1.tasks (codes "t1")
      ≡ some u)
    × (u.state ≡ failed)
unfolding get text_eq is_terminal has_timed_out deadline_for limit_or anchor past
struck =
    (enforce_timeouts-fails services 1000 (codes "s") world).1 (codes "t1") (task working) refl refl
      refl refl refl

unblock-late_example :
    (u : Task) × (unblock 1200 (codes "yes") (task input_required) ≡ done u)
    × (u.state ≡ working)
    × (has_timed_out services 1200 u ≡ true)
unfolding limit_or
unblock-late_example =
    unblock-late services 1200 (codes "yes") (task input_required) 20 refl refl (omega arith)
