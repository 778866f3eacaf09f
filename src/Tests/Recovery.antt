-- ===== src/Tests/Recovery.antt =====
-- Two checkpoints of one lane, and a resume of its session.
use openburrow.Prelude.{
  get, leb, ◌≡◌, refl, true, false, none, [], ◌∷◌, ◌++◌, codes, text_eq, select,
}
use openburrow.Recovery.{
  Checkpoint, Identity, Daemon, Resume, identity, checkpoint_checksum, latest_sequence,
  take_checkpoint, is_unconsumed, unconsumed_checkpoints, consume, is_verified, respawn, resume_one,
  resume_all, resume_session, by_sequence, is_applied,
}
use openburrow.Recovery.Failures.{CircuitBreaker, state_of, breaker_allow}
use openburrow.Recovery.Breaker.{record_failures, record_failures-breaker_allow}
use openburrow.Recovery.Once.{is_usable, lanes_of, resume_session_once}

abbrev services : Daemon
services = record {
  digest = λ (i : Identity). i.lane_id ++ i.sequence ∷ [];
  finds_lane = λ lane. true;
  starts = λ id. true;
}

abbrev reports : Checkpoint
reports = record {
  id = [];
  session_id = codes "s";
  lane_id = codes "l";
  task_id = [];
  step_id = [];
  task_state = codes "working";
  last_event_id = 0;
  sequence = 0;
  has_state = true;
  harness_session_id = [];
  consumed_at = none;
  checksum = [];
}

abbrev crashed : Resume
crashed = record {
  rows =
      (take_checkpoint services (codes "2") 9 true reports
        (take_checkpoint services (codes "1") 5 true reports ([], []))).0;
  started = [];
  resumed = [];
  fresh = [];
  events = [];
  session_open = false;
}

resume_session_once_example :
    ((resume_session services 3 (codes "s") crashed).started
      ≡ lanes_of (select (is_usable services) (unconsumed_checkpoints (codes "s") crashed.rows)))
    × ((resume_session services 4
          (codes "s")
          (resume_session services 3 (codes "s") crashed)).started
        ≡ (resume_session services 3 (codes "s") crashed).started)
resume_session_once_example = resume_session_once services 3 4 (codes "s") crashed

-- The lane of two checkpoints is started twice.
twice : (resume_session services 3 (codes "s") crashed).started ≡ codes "l" ∷ codes "l" ∷ []
unfolding resume_session resume_all resume_one respawn take_checkpoint latest_sequence
    unconsumed_checkpoints is_unconsumed is_verified checkpoint_checksum identity consume
    by_sequence is_applied text_eq
twice = refl

abbrev breaker : CircuitBreaker
breaker = record { threshold = 3; cooldown_s = 300; states = [] }

-- The third failure in a row opens the breaker at 12.
record_failures-breaker_allow_example :
    (breaker_allow 100
      (codes "codex")
      (record_failures (5 ∷ 7 ∷ 12 ∷ 20 ∷ []) (codes "codex") breaker)).0
    ≡ leb 312 100
unfolding state_of get
record_failures-breaker_allow_example =
    record_failures-breaker_allow (codes "codex") (5 ∷ 7 ∷ []) (20 ∷ []) 12 100 breaker refl refl
