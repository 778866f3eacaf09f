-- ===== src/Lifecycle.antt =====
-- A2A tasks: `TaskState` of packages/openburrow-core/src/openburrow/core/models/enums.py and
-- `A2ATask` of packages/openburrow-core/src/openburrow/core/models/task.py.
-- One operation reads the clock once, as `now`. Artifacts and the input payload are opaque texts;
-- tokens and cost, which no operation here touches, are left out.
pub mod Manager
pub mod Histories
pub mod Absorbing
pub mod Projection
pub mod Timeouts
pub mod Deadlines
use openburrow.Prelude.{
  ℕ, Bool, true, false, not, ◌&&◌, ◌||◌, Option, none, some, is_some, List, [], ◌∷◌, ◌++◌, Text,
  codes, or_else, is_empty, take, text_eq, any, if◌then◌else◌, ◌==◌,
}
use openburrow.Vocabulary.{TrustBoundary}

pub data TaskState : Type 0 where
  submitted working input_required auth_required completed failed canceled rejected : TaskState

-- The member's string, which is what `str` and `format` give.
unfoldable pub value : TaskState → Text
value submitted = codes "submitted"
value working = codes "working"
value input_required = codes "input_required"
value auth_required = codes "auth_required"
value completed = codes "completed"
value failed = codes "failed"
value canceled = codes "canceled"
value rejected = codes "rejected"

abbrev rank : TaskState → ℕ
rank submitted = 0
rank working = 1
rank input_required = 2
rank auth_required = 3
rank completed = 4
rank failed = 5
rank canceled = 6
rank rejected = 7

-- Equality of members.
unfoldable pub state_eq : TaskState → TaskState → Bool
state_eq s t = rank s == rank t

-- `TERMINAL_TASK_STATES`
unfoldable pub is_terminal : TaskState → Bool
is_terminal completed = true
is_terminal failed = true
is_terminal canceled = true
is_terminal rejected = true
is_terminal _ = false

-- `BLOCKING_TASK_STATES`
unfoldable pub is_blocking : TaskState → Bool
is_blocking input_required = true
is_blocking auth_required = true
is_blocking _ = false

-- `TASK_TRANSITIONS`
unfoldable pub task_transitions : TaskState → List TaskState
task_transitions submitted = working ∷ rejected ∷ canceled ∷ failed ∷ []
task_transitions working = input_required ∷ auth_required ∷ completed ∷ failed ∷ canceled ∷ []
task_transitions input_required = working ∷ canceled ∷ failed ∷ []
task_transitions auth_required = working ∷ canceled ∷ failed ∷ rejected ∷ []
task_transitions _ = []

unfoldable pub can_transition : TaskState → TaskState → Bool
unfolding task_transitions state_eq
can_transition source target = any (state_eq target) (task_transitions source)

-- An entry of `state_history`.
pub record Hop : Type 0 where
  pub from : TaskState
  pub to : TaskState
  pub at : ℕ
  pub reason : Text

pub record Task : Type 0 where
  pub id : Text
  pub session_id : Text
  pub thread_id : Text
  pub requester_lane : Text
  pub assignee_lane : Text
  pub authorized_by : Text
  pub title : Text
  pub instruction : Text
  pub input_payload : Text
  pub skill : Text
  pub step_id : Text
  pub parent_task_id : Text
  pub state : TaskState
  pub state_history : List Hop
  pub blocking_reason : Text
  pub pending_message_id : Text
  pub approval_id : Option Text  -- metadata["approval_id"]
  pub artifacts : List Text
  pub result_summary : Text
  pub error : Text
  pub delegation_id : Text
  pub trust_boundary : TrustBoundary
  pub authority_scope : List Text
  pub transferable : Bool
  pub delegation_depth : ℕ
  pub submitted_at : Option ℕ
  pub started_at : Option ℕ
  pub ended_at : Option ℕ
  pub timeout_s : ℕ
  pub retry_count : ℕ
  pub updated_at : ℕ

-- A method returns, or raises `IllegalTaskTransitionError` and leaves the task as it is then.
pub data Attempt : Type 0 where
  done : Task → Attempt
  illegal : Task → Attempt

abbrev pub task_after : Attempt → Task
task_after (done t) = t
task_after (illegal t) = t

-- What `transition` writes once the hop is found legal.
unfoldable pub moved : ℕ → TaskState → Text → Task → Task
moved now target reason t = record t {
  state_history =
      t.state_history ++ record { from = t.state; to = target; at = now; reason = reason } ∷ [];
  state = target;
  started_at =
      if state_eq target working && not (is_some t.started_at) then some now else t.started_at;
  blocking_reason = if is_blocking target then reason else [];
  ended_at = if is_terminal target then some now else t.ended_at;
  updated_at = now;
}

unfoldable pub transition : ℕ → TaskState → Text → Task → Attempt
transition now target reason t =
    if state_eq target t.state
    then done t
    else if not (can_transition t.state target)
    then illegal t
    else done (moved now target reason t)

unfoldable pub block_on_input : ℕ → Text → Text → Task → Attempt
block_on_input now message_id reason t =
    transition now input_required (or_else reason (codes "waiting on a reply"))
      (record t { pending_message_id = message_id })

unfoldable pub block_on_auth : ℕ → Text → Text → Task → Attempt
block_on_auth now reason approval t =
    transition now auth_required reason
      (record t { approval_id = if is_empty approval then t.approval_id else some approval })

unfoldable pub unblock : ℕ → Text → Task → Attempt
unblock now note t =
    transition now working (or_else note (codes "unblocked")) (record t { pending_message_id = [] })

unfoldable pub complete : ℕ → Text → List Text → Task → Attempt
complete now summary artifacts t =
    transition now completed (take 200 summary)
      (record t { artifacts = t.artifacts ++ artifacts; result_summary = summary })

unfoldable pub fail : ℕ → Text → Task → Attempt
fail now error t = transition now failed (take 200 error) (record t { error = error })

unfoldable pub is_open : Task → Bool
is_open t = not (is_terminal t.state)

-- `authority_allows`
unfoldable pub authority_allows : Task → Text → Bool
authority_allows t capability = any (text_eq capability) t.authority_scope
