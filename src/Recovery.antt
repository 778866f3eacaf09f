-- ===== src/Recovery.antt =====
-- Checkpoints and their use, packages/openburrow-daemon/src/openburrow/daemon/recovery.py: `take_checkpoint` and
-- `resume_session` of RecoveryManager, over Checkpoint of core/models/runtime.py and the queries of the repository. The
-- circuit breaker and the accounting of failures are in Recovery.Failures.
-- The digest, the lanes that can be found and the outcome of each start of a lane are arguments. The report is the
-- lists of Resume; the texts of the events, what a harness says of its state, the delivered messages, and the
-- place in a negotiation and in git are left out.
pub mod Failures
pub mod Once
pub mod Breaker
use openburrow.Prelude.{
  ℕ, ◌+◌, Bool, true, false, not, ◌&&◌, ◌||◌, Option, none, some, List, [], ◌∷◌, ◌++◌, map, Text,
  text_eq, is_empty, is_some, length, select, sort_by, max, if◌then◌else◌, leb,
}

pub record Checkpoint : Type 0 where
  pub id : Text
  pub session_id : Text
  pub lane_id : Text
  pub task_id : Text
  pub step_id : Text
  pub task_state : Text
  pub last_event_id : ℕ
  pub sequence : ℕ
  pub has_state : Bool  -- bool(harness_state)
  pub harness_session_id : Text
  pub consumed_at : Option ℕ
  pub checksum : Text

-- The fields that the checksum covers.
pub record Identity : Type 0 where
  pub session_id : Text
  pub lane_id : Text
  pub task_id : Text
  pub step_id : Text
  pub task_state : Text
  pub last_event_id : ℕ
  pub sequence : ℕ

pub record Daemon : Type 0 where
  pub digest : Identity → Text
  pub finds_lane : Text → Bool  -- `get_lane` does not raise
  pub starts : Text → Bool  -- whether `start_lane` succeeds for a checkpoint

unfoldable pub identity : Checkpoint → Identity
identity c = record {
  session_id = c.session_id;
  lane_id = c.lane_id;
  task_id = c.task_id;
  step_id = c.step_id;
  task_state = c.task_state;
  last_event_id = c.last_event_id;
  sequence = c.sequence;
}

unfoldable pub checkpoint_checksum : Daemon → Checkpoint → Text
checkpoint_checksum s c = s.digest (identity c)

-- The greatest sequence of a lane, 0 without a checkpoint of it.
unfoldable pub latest_sequence : Text → List Checkpoint → ℕ
latest_sequence lane [] = 0
latest_sequence lane (c ∷ cs) =
    let rest = latest_sequence lane cs in
    if text_eq c.lane_id lane then max c.sequence rest else rest

pub data Event : Type 0 where
  checkpoint_corrupt resume_failed : Text → Event
  lane_resumed : Text → Bool → Event
  session_resumed : ℕ → ℕ → Event
  checkpoint_taken : Text → ℕ → Event

-- `take_checkpoint`, from what the lane reports and whether it runs: the row and its event are written together.
unfoldable pub take_checkpoint :
    Daemon
    → Text
    → ℕ
    → Bool
    → Checkpoint
    → List Checkpoint × List Event
    → List Checkpoint × List Event
take_checkpoint s fresh last_event running reported (rows, events) =
    let c = record reported {
      id = fresh;
      last_event_id = last_event;
      sequence = latest_sequence reported.lane_id rows + 1;
      consumed_at = none;
    } in
    if running
    then (
      rows ++ record c { checksum = checkpoint_checksum s c } ∷ [],
      events ++ checkpoint_taken c.lane_id c.sequence ∷ [],
    )
    else (rows, events)

unfoldable pub is_unconsumed : Text → Checkpoint → Bool
is_unconsumed session c = text_eq c.session_id session && not (is_some c.consumed_at)

unfoldable pub by_sequence : Checkpoint → Checkpoint → Bool
by_sequence a b = leb a.sequence b.sequence

unfoldable pub unconsumed_checkpoints : Text → List Checkpoint → List Checkpoint
unconsumed_checkpoints session rows = sort_by by_sequence (select (is_unconsumed session) rows)

pub data Reason : Type 0 where
  failed_verification respawn_failed no_harness_state : Reason

pub record Resume : Type 0 where
  pub rows : List Checkpoint
  pub started : List Text  -- the lanes of the calls of start_lane
  pub resumed : List Text  -- the checkpoints that were applied
  pub fresh : List (Text × Reason)
  pub events : List Event
  pub session_open : Bool

-- `consume`, and the row is saved
unfoldable pub consume : ℕ → Text → List Checkpoint → List Checkpoint
consume now id rows =
    map (λ (c : Checkpoint). if text_eq c.id id then record c { consumed_at = some now } else c)
      rows

unfoldable pub is_verified : Daemon → Checkpoint → Bool
is_verified s c = text_eq (checkpoint_checksum s c) c.checksum

unfoldable pub is_applied : Checkpoint → Bool
is_applied c = c.has_state || not (is_empty c.harness_session_id)

-- After the checkpoint is consumed.
unfoldable pub respawn : Daemon → Checkpoint → Resume → Resume
respawn s c r =
    let called = record r { started = r.started ++ c.lane_id ∷ [] } in
    if s.starts c.id
    then (if is_applied c
        then record called {
          resumed = r.resumed ++ c.id ∷ [];
          events = r.events ++ lane_resumed c.lane_id true ∷ [];
        }
        else record called {
          fresh = r.fresh ++ (c.lane_id, no_harness_state) ∷ [];
          events = r.events ++ lane_resumed c.lane_id false ∷ [];
        })
    else record called {
      fresh = r.fresh ++ (c.lane_id, respawn_failed) ∷ [];
      events = r.events ++ resume_failed c.lane_id ∷ [];
    }

unfoldable pub resume_one : Daemon → ℕ → Checkpoint → Resume → Resume
resume_one s now c r =
    if is_verified s c
    then (if s.finds_lane c.lane_id
        then respawn s c (record r { rows = consume now c.id r.rows })
        else r)
    else record r {
      fresh = r.fresh ++ (c.lane_id, failed_verification) ∷ [];
      events = r.events ++ checkpoint_corrupt c.lane_id ∷ [];
    }

unfoldable pub resume_all : Daemon → ℕ → List Checkpoint → Resume → Resume
resume_all s now [] r = r
resume_all s now (c ∷ cs) r = resume_all s now cs (resume_one s now c r)

-- Each resume begins its own report.
abbrev pub reported : Resume → Resume
reported r = record r { resumed = []; fresh = [] }

abbrev pub resume_found : Daemon → ℕ → Text → Resume → List Checkpoint → Resume
resume_found s now session r [] = r
resume_found s now session r (c ∷ cs) =
    let r' = resume_all s now (c ∷ cs) r in
    record r' {
      session_open = true;
      events = r'.events ++ session_resumed (length r'.resumed) (length r'.fresh) ∷ [];
    }

-- `resume_session`
unfoldable pub resume_session : Daemon → ℕ → Text → Resume → Resume
resume_session s now session r =
    resume_found s now session (reported r) (unconsumed_checkpoints session r.rows)
