-- ===== src/Recovery/Failures.antt =====
-- CircuitBreaker, Bulkhead, and the accounting of failures and crashes of RecoveryManager,
-- packages/openburrow-daemon/src/openburrow/daemon/recovery.py. A time is a number of seconds; the threshold and the
-- lengths are natural numbers; the texts of the events are left out.
use openburrow.Prelude.{
  ℕ, ◌+◌, ◌-◌, Bool, true, false, not, ◌&&◌, Option, none, some, List, [], ◌∷◌, ◌++◌, Table, get,
  save, Text, text_eq, any, select, length, drop, min, if◌then◌else◌, leb, ltb,
}
use Prim.Native.Nat.{◌^◌}

-- `_BreakerState`
pub record BreakerState : Type 0 where
  pub failures : ℕ
  pub opened_at : Option ℕ

pub record CircuitBreaker : Type 0 where
  pub threshold : ℕ
  pub cooldown_s : ℕ
  pub states : Table BreakerState

abbrev or_new : Option BreakerState → BreakerState
or_new none = record { failures = 0; opened_at = none }
or_new (some s) = s

-- `_state`, whose new entry is written by each caller
unfoldable pub state_of : Text → CircuitBreaker → BreakerState
state_of harness b = or_new (get b.states harness)

unfoldable pub with_state : Text → BreakerState → CircuitBreaker → CircuitBreaker
with_state harness s b = record b { states = save b.states harness s }

-- Whether the failure opens the breaker, by the time it stands open since.
unfoldable pub failed_once : ℕ → ℕ → Option ℕ → ℕ → Bool × BreakerState
failed_once now threshold none failures =
    if leb threshold failures
    then (true, record { failures = failures; opened_at = some now })
    else (false, record { failures = failures; opened_at = none })
failed_once now threshold (some t) failures =
    (false, record { failures = failures; opened_at = some t })

unfoldable pub record_failure : ℕ → Text → CircuitBreaker → Bool × CircuitBreaker
record_failure now harness b =
    let s = state_of harness b in
    let (opened, s') = failed_once now b.threshold s.opened_at (s.failures + 1) in
    (opened, with_state harness s' b)

unfoldable pub record_success : Text → CircuitBreaker → CircuitBreaker
record_success harness b = with_state harness (record { failures = 0; opened_at = none }) b

-- A time that runs backwards is before the cooldown.
unfoldable pub allow_since : ℕ → ℕ → ℕ → ℕ → Option ℕ → Bool × BreakerState
allow_since now threshold cooldown failures none =
    (true, record { failures = failures; opened_at = none })
allow_since now threshold cooldown failures (some t) =
    if leb (t + cooldown) now
    then (true, record { failures = threshold - 1; opened_at = none })
    else (false, record { failures = failures; opened_at = some t })

-- `CircuitBreaker.allow`
unfoldable pub breaker_allow : ℕ → Text → CircuitBreaker → Bool × CircuitBreaker
breaker_allow now harness b =
    let s = state_of harness b in
    let (ok, s') = allow_since now b.threshold b.cooldown_s s.failures s.opened_at in
    (ok, with_state harness s' b)

pub record Bulkhead : Type 0 where
  pub queue_size : ℕ
  pub depths : Table ℕ
  pub overflowed : List Text

unfoldable pub record_depth : Text → ℕ → Bulkhead → Bulkhead
record_depth lane depth b = record b {
  depths = save b.depths lane depth;
  overflowed =
      if ltb b.queue_size depth && not (any (text_eq lane) b.overflowed)
      then b.overflowed ++ lane ∷ []
      else b.overflowed;
}

pub record CrashReport : Type 0 where
  pub lane_id : Text
  pub harness : Text
  pub session_id : Text
  pub reason : Text
  pub exit_code : Option ℕ
  pub restarts : ℕ

pub data Notice : Type 0 where
  circuit_opened : Text → Notice
  lane_dead_lettered : Text → ℕ → Notice
  lane_crashed : CrashReport → Notice

pub record Accounts : Type 0 where
  pub breaker : CircuitBreaker
  pub retry_counts : Table ℕ
  pub dead_lettered : List Text
  pub dead_letter_after : ℕ
  pub crash_log_keep : ℕ
  pub crash_logs : Table (List CrashReport)
  pub emitted : List Notice

pub data Verdict : Type 0 where
  retry dead_letter circuit_open : Verdict

abbrev or_zero : Option ℕ → ℕ
or_zero none = 0
or_zero (some n) = n

abbrev add_once : Text → List Text → List Text
add_once lane lanes = if any (text_eq lane) lanes then lanes else lanes ++ lane ∷ []

-- After the breaker has counted the failure.
unfoldable pub judge_failure : Text → Text → ℕ → Bool → Accounts → Verdict × Accounts
judge_failure lane harness failures true a =
    (circuit_open, record a { emitted = a.emitted ++ circuit_opened harness ∷ [] })
judge_failure lane harness failures false a =
    if leb a.dead_letter_after failures
    then (
      dead_letter,
      record a {
        dead_lettered = add_once lane a.dead_lettered;
        emitted = a.emitted ++ lane_dead_lettered lane failures ∷ [];
      },
    )
    else (retry, a)

unfoldable pub record_task_failure : ℕ → Text → Text → Accounts → Verdict × Accounts
record_task_failure now lane harness a =
    let failures = or_zero (get a.retry_counts lane) + 1 in
    let (opened, breaker) = record_failure now harness a.breaker in
    judge_failure lane harness failures opened
      (record a { retry_counts = save a.retry_counts lane failures; breaker = breaker })

-- `retry_delay`
unfoldable pub retry_delay : Text → Accounts → ℕ
retry_delay lane a = min 30 (2 ^ min (or_zero (get a.retry_counts lane)) 5)

unfoldable pub record_task_success : Text → Text → Accounts → Accounts
record_task_success lane harness a = record a {
  retry_counts = select (λ (row : Text × ℕ). not (text_eq row.0 lane)) a.retry_counts;
  breaker = record_success harness a.breaker;
  dead_lettered = select (λ l. not (text_eq l lane)) a.dead_lettered;
}

abbrev or_empty_log : Option (List CrashReport) → List CrashReport
or_empty_log none = []
or_empty_log (some rs) = rs

-- `del logs[: len(logs) - keep]`
unfoldable pub keep_last : ℕ → List CrashReport → List CrashReport
keep_last keep logs = if ltb keep (length logs) then drop (length logs - keep) logs else logs

unfoldable pub record_crash : CrashReport → Accounts → Accounts
record_crash report a = record a {
  crash_logs =
      save a.crash_logs report.lane_id (
        keep_last a.crash_log_keep (or_empty_log (get a.crash_logs report.lane_id) ++ report ∷ []));
  emitted = a.emitted ++ lane_crashed report ∷ [];
}
