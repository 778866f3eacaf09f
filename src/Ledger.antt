-- ===== src/Ledger.antt =====
-- The delegation ledger: `DelegationLedger` of
-- packages/openburrow-governance/src/openburrow/governance/ledger.py, over the `Delegation` of
-- packages/openburrow-core/src/openburrow/core/models/governance.py and the repository's rows.
-- Time stamps other than expiry, and the texts written for people (summaries, reasons, details),
-- are left out; an error is named by a constructor. Identifiers that `new_id` draws are given;
-- identifiers and names of lanes have no space around them, and the texts that a caller gives are
-- stripped where a model stores them.
pub mod Authorize
pub mod Enforce
pub mod Trace
pub mod Soundness
pub mod Preserved
pub mod Chains
pub mod Accountability
pub mod Revocation
pub mod Grants
use openburrow.Prelude.{
  ℕ, suc, ◌+◌, Bool, true, false, not, ◌&&◌, ◌||◌, Option, none, some, List, [], ◌∷◌, ◌++◌, Text,
  codes, text_eq, is_empty, or_else, is_blank, strip, any, select, length, if◌then◌else◌, ltb,
  Table, get, save,
}
use openburrow.Vocabulary.{
  DelegationStatus, active, revoked, TrustBoundary, intra_repo, is_cross_boundary, is_active,
  AuditSeverity, info, notice, warning, violation,
}
use openburrow.Authority.{AuthorityScope, allows, narrow}

-- The fields of a lane that the ledger reads.
pub record Lane : Type 0 where
  pub id : Text
  pub owner : Text
  pub harness : Text
  pub authority_scope : List Text

-- A date and time, with or without a time zone.
pub record DateTime : Type 0 where
  pub at : ℕ
  pub aware : Bool

pub record Delegation : Type 0 where
  pub id : Text
  pub session_id : Text
  pub task_id : Text
  pub authorized_by : Text
  pub authorized_by_email : Text
  pub delegator_lane : Text
  pub delegatee_lane : Text
  pub delegatee_owner : Text
  pub parent_delegation_id : Text
  pub depth : ℕ
  pub chain : List Text
  pub scope : AuthorityScope
  pub parent_scope_snapshot : List Text
  pub narrowed : Bool
  pub purpose : Text
  pub task_description : Text
  pub transferable : Bool
  pub trust_boundary : TrustBoundary
  pub status : DelegationStatus
  pub explicit_consent : Bool
  pub consent_evidence : Text
  pub revoked_by : Text
  pub revoked_reason : Text
  pub expires_at : Option DateTime

pub record GovernanceFlag : Type 0 where
  pub id : Text
  pub session_id : Text
  pub delegation_id : Text
  pub kind : Text
  pub severity : AuditSeverity
  pub blocking : Bool

pub record AuditRecord : Type 0 where
  pub session_id : Text
  pub lane_id : Text
  pub task_id : Text
  pub delegation_id : Text
  pub event : Text
  pub severity : AuditSeverity
  pub trust_boundary : TrustBoundary
  pub strict : Bool
  pub actor_lane : Text
  pub actor_harness : Text
  pub on_behalf_of : Text
  pub affected_lanes : List Text
  pub allowed : Bool
  pub correlation_id : Text

-- The constructor arguments of `DelegationLedger`.
pub record Config : Type 0 where
  pub human_id : Text
  pub human_email : Text
  pub max_depth : ℕ
  pub allow_redelegation : Bool
  pub authority_inheritance : Text

-- The arguments of `authorize`.
pub record Request : Type 0 where
  pub session_id : Text
  pub delegator : Lane
  pub delegatee : Lane
  pub task_id : Text
  pub requested_scope : List Text
  pub purpose : Text
  pub task_description : Text
  pub parent_delegation_id : Text
  pub trust_boundary : TrustBoundary
  pub transferable : Bool
  pub explicit_consent : Bool
  pub consent_evidence : Text

-- What `new_id` gives to the rows that one call creates.
pub record FreshIds : Type 0 where
  pub delegation : Text
  pub base : Text
  pub scope : Text
  pub flag : Text

-- The rows of the ledger; the audit log and the flags are in the order of writing.
pub record Store : Type 0 where
  pub delegations : Table Delegation
  pub flags : List GovernanceFlag
  pub audit : List AuditRecord

abbrev pub no_rows : Store
no_rows = record { delegations = []; flags = []; audit = [] }

pub data Denial : Type 0 where
  unknown_parent : Denial
  too_deep : Denial

pub data LedgerError : Type 0 where
  no_human : LedgerError  -- GovernanceError
  not_transferable : LedgerError  -- RedelegationDeniedError
  authority_creep : List Text → LedgerError  -- SilentAuthorityCreepError, with what was not granted
  no_table : LedgerError  -- BusError of `Repository.save`: no table is mapped for the model
  blank_human : LedgerError  -- the validator of `Delegation.authorized_by`

pub data AuthorizationResult : Type 0 where
  granted : Delegation → AuthorizationResult
  refused : Denial → AuthorizationResult
  raised : LedgerError → AuthorizationResult

-- `AuditLog.record`
unfoldable pub append_audit : Store → AuditRecord → Store
append_audit st a = record st { audit = st.audit ++ a ∷ [] }

-- `AuditRecord.blocked`
unfoldable pub blocked : Text → Text → Text → AuditRecord
blocked session lane event = record {
  session_id = strip session;
  lane_id = strip lane;
  task_id = [];
  delegation_id = [];
  event = event;
  severity = violation;
  trust_boundary = intra_repo;
  strict = false;
  actor_lane = strip lane;
  actor_harness = [];
  on_behalf_of = [];
  affected_lanes = [];
  allowed = false;
  correlation_id = [];
}

-- `_violation`
unfoldable pub log_violation : Text → Text → Text → Store → Store
unfolding append_audit
log_violation session lane event st = append_audit st (blocked session lane event)

-- The models with a table: `_MODEL_TO_ROW` of
-- packages/openburrow-core/src/openburrow/core/db/repository.py.
abbrev mapped_models : List Text
mapped_models =
    codes "Session"
    ∷ codes "Lane"
    ∷ codes "A2ATask"
    ∷ codes "BusMessage"
    ∷ codes "NegotiationExchange"
    ∷ codes "Claim"
    ∷ codes "Plan"
    ∷ codes "PlanStep"
    ∷ codes "BrainEntry"
    ∷ codes "Lesson"
    ∷ codes "Delegation"
    ∷ codes "ApprovalRequest"
    ∷ codes "Checkpoint"
    ∷ []

unfoldable pub is_mapped : Text → Bool
is_mapped model = any (text_eq model) mapped_models

-- `_flag`, and the error that its caller raises after it: where the model has no table, `save` raises first.
unfoldable pub raise_flag : LedgerError → GovernanceFlag → Store → AuthorizationResult × Store
unfolding append_audit is_mapped
raise_flag error f st =
    if is_mapped (codes "GovernanceFlag")
    then (
      raised error,
      append_audit (record st { flags = st.flags ++ f ∷ [] })
          record {
            session_id = f.session_id;
            lane_id = [];
            task_id = [];
            delegation_id = f.delegation_id;
            event = codes "governance." ++ f.kind;
            severity = f.severity;
            trust_boundary = intra_repo;
            strict = true;
            actor_lane = [];
            actor_harness = [];
            on_behalf_of = [];
            affected_lanes = [];
            allowed = false;
            correlation_id = f.id;
          },
    )
    else (raised no_table, st)

unfoldable pub blocking_flag : Text → Request → Text → Text → GovernanceFlag
blocking_flag fresh req delegation kind = record {
  id = fresh;
  session_id = req.session_id;
  delegation_id = delegation;
  kind = kind;
  severity = violation;
  blocking = true;
}

-- `_deny`
unfoldable pub deny : Denial → Request → Store → AuthorizationResult × Store
unfolding log_violation
deny d req st =
    (refused d, log_violation req.session_id req.delegator.id (codes "delegation.denied") st)

unfoldable pub parent_capabilities : Option Delegation → List Text
parent_capabilities none = codes "*" ∷ []
parent_capabilities (some parent) = parent.scope.capabilities
