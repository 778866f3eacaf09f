-- ===== src/Tests/Lifecycle.antt =====
-- The life of one task.
use openburrow.Prelude.{
  ℕ, ◌≡◌, refl, arith, true, none, some, List, [], ◌∷◌, Text, codes, text_eq, get, save,
}
use openburrow.Vocabulary.{intra_repo}
use openburrow.BusLog.{is_duplicate, append}
use openburrow.Lifecycle.{
  TaskState, submitted, working, input_required, completed, value, state_eq, is_terminal,
  is_blocking, can_transition, Task, moved, transition, block_on_input, block_on_auth, unblock,
  complete, fail,
}
use openburrow.Lifecycle.Manager.{
  Services, Message, World, returned, content_hash, task_event, emit, save_task, persist,
  persisting, start, request_input, announce_input, complete_task,
}
use openburrow.Lifecycle.Histories.{
  IsWell, Act, move, ask, answer, finish, give_up, act, act_all, act_all-IsWell,
}
use openburrow.Lifecycle.Absorbing.{SameLife, act_all-SameLife}
use openburrow.Lifecycle.Projection.{
  IsProjected, last_state, manage, ordered, begin, manage-IsProjected, request_input-unsaved,
}

abbrev task : TaskState → Task
task state = record {
  id = codes "t1";
  session_id = codes "s";
  thread_id = [];
  requester_lane = codes "alice";
  assignee_lane = codes "bob";
  authorized_by = codes "maya";
  title = codes "rotate";
  instruction = [];
  input_payload = [];
  skill = [];
  step_id = [];
  parent_task_id = [];
  state = state;
  state_history = [];
  blocking_reason = [];
  pending_message_id = [];
  approval_id = none;
  artifacts = [];
  result_summary = [];
  error = [];
  delegation_id = [];
  trust_boundary = intra_repo;
  authority_scope = [];
  transferable = true;
  delegation_depth = 0;
  submitted_at = some 1;
  started_at = none;
  ended_at = none;
  timeout_s = 900;
  retry_count = 0;
  updated_at = 1;
}

life : List (ℕ × Act) → Task
unfolding act_all act transition moved block_on_input block_on_auth unblock complete fail state_eq
    can_transition is_terminal is_blocking
life acts = act_all acts (task submitted)

abbrev acts : List (ℕ × Act)
acts =
    (2, finish (codes "early") [])
    ∷ (3, move working [])
    ∷ (4, ask (codes "m1") [])
    ∷ (5, answer [])
    ∷ (6, finish (codes "ok") [])
    ∷ (7, give_up (codes "late"))
    ∷ []

acts-state :
    ((life acts).state ≡ completed)
    × ((life acts).ended_at ≡ some 6)
    × ((life acts).started_at ≡ some 3)
unfolding life
acts-state = (refl, refl, refl)

act_all-IsWell_example : IsWell (act_all acts (task submitted))
unfolding is_terminal
act_all-IsWell_example =
    act_all-IsWell acts (task submitted)
      (record { walked = refl; ended = refl; began = refl; unblocked = λ e. refl })

act_all-SameLife_example : SameLife (task completed) (act_all acts (task completed))
unfolding is_terminal
act_all-SameLife_example = act_all-SameLife acts (task completed) refl

abbrev services : Services
services = record {
  next_seq = λ log. 1;
  isoformat = λ t. t ∷ [];
  decimal = λ n. n ∷ [];
  task_timeout = 900;
  input_timeout = 3600;
  auth_timeout = 3600;
}

abbrev world : Task → World
world t = record {
  tasks = (codes "t1", t) ∷ [];
  log = task_event services (codes "task.submitted") [] [] t ∷ [];
  messages = [];
  notices = [];
}

code : Task → World
unfolding get save text_eq last_state value is_duplicate append content_hash task_event emit
    save_task persist persisting start request_input announce_input complete_task manage transition
    moved state_eq can_transition is_terminal is_blocking
code t = world t

world-IsProjected :
    (k : Text) (u : Task)
    → get (world (task submitted)).tasks k ≡ some u
    → last_state (world (task submitted)).log k ≡ some (value u.state)
unfolding code
world-IsProjected k u h = ground arith

manage-IsProjected_example :
    IsProjected (manage services 2 (begin []) (task submitted) (world (task submitted))).1
unfolding code ordered
manage-IsProjected_example =
    manage-IsProjected services 2 (begin []) (task submitted) (world (task submitted)) refl
      (record { agrees = world-IsProjected })

abbrev touched : Task
touched = record (task working) { updated_at = 1 }

abbrev question : Message
question = record { id = codes "m1"; subject = codes "which branch?" }

request_input-unsaved_example :
    (u : Task) × ((request_input services 3 question [] (task working) (world (task working))).0
      ≡ returned u)
    × (u.state ≡ input_required)
    × (get
          (request_input services 3 question [] (task working) (world (task working))).1.tasks
          (codes "t1")
        ≡ some (task working))
    × (last_state
          (request_input services 3 question [] (task working) (world (task working))).1.log
          (codes "t1")
        ≡ some (value input_required))
unfolding code
request_input-unsaved_example =
    request_input-unsaved services 3 question [] (task working) (world (task working)) refl refl
      refl
