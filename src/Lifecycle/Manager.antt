-- ===== src/Lifecycle/Manager.antt =====
-- `TaskLifecycleManager` of packages/openburrow-a2a/src/openburrow/a2a/lifecycle/manager.py:
-- the task rows, the bus log, and the calls of the listeners.
-- The payload of an event is left out. A write of the bus fails only by its duplicate test.
use openburrow.Prelude.{
  ℕ, zero, suc, ◌+◌, not, Option, none, some, List, [], ◌∷◌, ◌++◌, Text, codes, or_else, is_empty,
  if◌then◌else◌, Table, save,
}
use openburrow.BusLog.{BusEvent, append}
use openburrow.Lifecycle.{
  TaskState, submitted, working, canceled, rejected, value, is_terminal, Task, Attempt, done,
  illegal, transition, block_on_input, block_on_auth, unblock, complete, fail,
}

-- What the manager calls: the numbers of the database's rows, the printing of a time, the decimal
-- digits of a number, and the settings.
pub record Services : Type 0 where
  pub next_seq : List BusEvent → ℕ
  pub isoformat : ℕ → Text
  pub decimal : ℕ → Text
  pub task_timeout : ℕ  -- a2a_task_timeout_s
  pub input_timeout : ℕ  -- a2a_input_required_timeout_s
  pub auth_timeout : ℕ  -- a2a_auth_required_timeout_s

-- A message is known by its identifier and its subject.
pub record Message : Type 0 where
  pub id : Text
  pub subject : Text

pub record World : Type 0 where
  pub tasks : Table Task
  pub log : List BusEvent
  pub messages : Table Message
  pub notices : List (Text × TaskState)

-- The outcome of a method: the task object that the caller holds, and whether it raised.
pub data Outcome : Type 0 where
  returned : Task → Outcome
  raised : Task → Outcome

module _ (sv : Services) where
  unfoldable pub content_hash : Task → Text
  content_hash t = t.id ++ codes ":" ++ value t.state ++ codes ":" ++ sv.isoformat t.updated_at

  unfoldable pub task_event : Text → Text → Text → Task → BusEvent
  task_event event_type summary correlation t = record {
    seq = 0;
    event_type = event_type;
    session_id = t.session_id;
    thread_id = t.thread_id;
    lane_id = or_else t.assignee_lane t.requester_lane;
    task_id = t.id;
    task_state = value t.state;
    trust_boundary = t.trust_boundary;
    summary = or_else summary t.title;
    correlation_id = or_else correlation t.delegation_id;
    content_hash = content_hash t;
  }

  -- `_emit`: a rejected append is logged as a warning, and nothing else happens.
  unfoldable pub emit : Text → Text → Text → Task → World → World
  emit event_type summary correlation t w =
      elim (append sv.next_seq (task_event event_type summary correlation t) w.log) [
        | none ↦ w
        | some log ↦ record w { log = log }
      ]

  -- `repo.save(task)` marks the row as modified.
  unfoldable pub save_task : ℕ → Task → World → World
  save_task now t w = record w { tasks = save w.tasks t.id (record t { updated_at = now }) }

  -- `_persist`
  unfoldable pub persist : ℕ → Text → Text → Text → Task → World → Outcome × World
  persist now event_type summary correlation t w =
      let t' = record t { updated_at = now } in
      let w' = emit event_type summary correlation t' (save_task now t' w) in
      (returned t', record w' { notices = w'.notices ++ (t.id, t.state) ∷ [] })

  -- A transition, and `_persist` unless it raised.
  unfoldable pub persisting : ℕ → Text → Text → Text → Attempt → World → Outcome × World
  persisting now event_type summary correlation (illegal t) w = (raised t, w)
  persisting now event_type summary correlation (done t) w =
      persist now event_type summary correlation t w

  unfoldable pub start : ℕ → Text → Task → World → Outcome × World
  start now note t = persisting now (codes "task.working") note [] (transition now working note t)

  unfoldable pub announce_input : ℕ → Text → Message → Attempt → World → Outcome × World
  announce_input now summary message (illegal t) w = (raised t, w)
  announce_input now summary message (done t) w = (
    returned t,
    emit (codes "task.input_required") summary message.id t
        (record w { messages = save w.messages message.id message }),
  )

  -- `request_input`: the message is saved, and the event is written.
  unfoldable pub request_input : ℕ → Message → Text → Task → World → Outcome × World
  request_input now message reason t =
      let text = or_else reason message.subject in
      announce_input now text message (block_on_input now message.id text t)

  unfoldable pub request_auth : ℕ → Text → Text → Task → World → Outcome × World
  request_auth now reason approval t =
      persisting now (codes "task.auth_required") reason approval
        (block_on_auth now reason approval t)

  unfoldable pub resume : ℕ → Text → Task → World → Outcome × World
  resume now note t = persisting now (codes "task.resumed") note [] (unblock now note t)

  unfoldable pub complete_task : ℕ → Text → List Text → Task → World → Outcome × World
  complete_task now summary artifacts t =
      persisting now (codes "task.completed") summary [] (complete now summary artifacts t)

  unfoldable pub fail_task : ℕ → Text → Task → World → Outcome × World
  fail_task now error t = persisting now (codes "task.failed") error [] (fail now error t)

  unfoldable pub cancel : ℕ → Text → Task → World → Outcome × World
  cancel now reason t =
      persisting now (codes "task.canceled") reason [] (transition now canceled reason t)

  unfoldable pub reject : ℕ → Text → Task → World → Outcome × World
  reject now reason t =
      persisting now (codes "task.rejected") reason [] (transition now rejected reason t)

  -- `submit`: the new task is given with the caller's fields; `timeout_s or` the setting.
  unfoldable pub submit : ℕ → Option ℕ → Task → World → Task × World
  submit now timeout fields w =
      let t = record fields {
        state = submitted;
        state_history = [];
        blocking_reason = [];
        pending_message_id = [];
        approval_id = none;
        artifacts = [];
        result_summary = [];
        error = [];
        submitted_at = some now;
        started_at = none;
        ended_at = none;
        timeout_s = elim timeout [
          | none ↦ sv.task_timeout
          | some zero ↦ sv.task_timeout
          | some (suc n) ↦ suc n
        ];
        retry_count = 0;
        updated_at = now;
      } in
      (t, emit (codes "task.submitted") t.title [] t (save_task now t w))

  -- `retry`; `fresh` is the identifier of the new task.
  unfoldable pub retry : ℕ → Text → Text → Task → World → Outcome × World
  retry now fresh reason t w =
      if not (is_terminal t.state)
      then (raised t, w)
      else let t' = record t { retry_count = t.retry_count + 1; updated_at = now } in
        let (new, w') =
          submit now (some t.timeout_s)
            (record t {
              id = fresh;
              title = codes "[retry " ++ sv.decimal t'.retry_count ++ codes "] " ++ t.title;
              parent_task_id = t.id;
            })
            (save_task now t' w) in
        if is_empty reason
        then (returned new, w')
        else persist now (codes "task.retried")
            (codes "retry "
              ++ sv.decimal t'.retry_count
              ++ codes " of "
              ++ t.id
              ++ codes ": "
              ++ reason)
            [] new w'
