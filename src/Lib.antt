-- ===== src/Lib.antt =====
-- The governance and coordination core of OpenBurrow, a daemon that lets several coding agents work
-- on one repository and records who was allowed to do what.
--
-- Prelude: tests on numbers, lists, Python's texts as lists of code points, and the table of rows
--   that the repository's get and save see (packages/openburrow-core/src/openburrow/core/db/repository.py).
-- Vocabulary: the enums of the governance layer (core/models/enums.py).
-- Authority: AuthorityScope of core/models/governance.py, its patterns, `allows` and `narrow`.
-- Ledger: DelegationLedger of packages/openburrow-governance/src/openburrow/governance/ledger.py over
--   Delegation of core/models/governance.py. Ledger.Authorize is `authorize`, Ledger.Enforce is
--   `check_action` and `revoke`, Ledger.Trace is `delegation_chain` of the repository.
-- BusLog: BusEventLog of the repository file: append with its duplicate test, stream, and tail.
-- Lifecycle: TaskState of core/models/enums.py and A2ATask of core/models/task.py; Lifecycle.Manager is
--   TaskLifecycleManager of packages/openburrow-a2a/src/openburrow/a2a/lifecycle/manager.py, which
--   changes a task, saves its row and appends an event to the bus log;
--   Lifecycle.Timeouts is its enforce_timeouts.
-- Negotiation: Performative of core/models/enums.py, NegotiationExchange of core/models/message.py,
--   packages/openburrow-acp/src/openburrow/acp/performatives.py; Negotiation.Driver is NegotiationDriver of
--   acp/negotiation.py, with the lanes' replies as a parameter.
-- RateLimit: TokenBucket and, in RateLimit.Registry, BucketRegistry of
--   packages/openburrow-relay/src/openburrow/relay/ratelimit.py.
-- Claims: Claim of core/models/claim.py, the claims of the repository file, and claim_create, claim_release and
--   claim_list of packages/openburrow-daemon/src/openburrow/daemon/handlers.py; Claims.Glob is the fnmatch of Python
--   that they call.
-- Hub: Connection with its queue, of packages/openburrow-relay/src/openburrow/relay/hub.py; Hub.Members is Hub, with
--   admit, release, publish and the rounds of pump; Hub.Notice is about the lag notice. Store: the events of RelayStore in relay/store.py; Store.Invites its
--   invitations and memberships, with the roles of relay/models.py and check_invite_usable of relay/security.py.
-- The graph of steps, in module Plan: PlanStep and Plan of core/models/plan.py; Plan.Cycle is has_cycle and
--   validate_references, Plan.Descendants descendants, Plan.Edits the edits.
-- Wire: the SSH strings, the envelope of a signature and the DER form, of relay/security.py.
-- Policy: PolicyGate of packages/openburrow-governance/src/openburrow/governance/policy.py; Policy.Paths its paths.
-- Recovery: checkpoints and resume_session of packages/openburrow-daemon/src/openburrow/daemon/recovery.py, with the
--   breaker, the bulkhead and the accounting of failures in Recovery.Failures; Recovery.Breaker is about the breaker.
-- Tests: the theorems at concrete inputs, and runs.
--
-- A method that raises is a function into a result that names the error and keeps the state. The clock,
-- new identifiers and the database's row numbers are arguments; time is a natural number of ticks.
-- The walk of `delegation_chain` takes fuel: one round more than the depth bound is enough, which is
-- part of its theorem. The loop of a negotiation has its own bound, max_exchanges, as its fuel, and a
-- glob pattern is read with its length as fuel. The cycle check of a plan has a unit of fuel for each
-- step: it colours one step at each level. The search for descendants has as much as each step,
-- expanded once, can push. Texts written only for people (summaries, reasons, details) are left out of the ledger's rows, and JSON payloads out of the bus events.
-- The numbers of the rate limiter are exact, in units small enough to make them whole: the rounding of
-- floats is not modelled.
-- The connections of the hub are objects that its indexes share: they stand in a table of objects, and the
-- indexes hold their identifiers. The relay's database is PostgreSQL, which refuses the query of tail_events where it
-- has thresholds. Regular expressions, fnmatch, the home directory, hashes and the codec of UTF-8 are arguments.
-- A model strips its texts when it is built (core/models/base.py): scopes are stored stripped, and identifiers and names
-- of lanes have no space around them. A flag of the ledger has no table, and to save one is an error.
-- The claims have the unique constraint of ClaimRow (core/db/models.py); where a save breaks it, the transaction is
-- rolled back.
-- Not modelled: the daemon's sockets, processes and network calls, the relay's routes and tokens, the merge
-- radar, the detectors, the knowledge store, the recordings, the command line, and the web application.
mod Prelude
pub mod Vocabulary
pub mod Authority
pub mod Ledger
pub mod BusLog
pub mod Lifecycle
pub mod Negotiation
pub mod RateLimit
pub mod Claims
pub mod Hub
pub mod Store
pub mod Plan
pub mod Wire
pub mod Policy
pub mod Recovery
mod Tests
