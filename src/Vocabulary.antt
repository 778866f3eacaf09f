-- ===== src/Vocabulary.antt =====
-- The controlled vocabularies of the governance layer:
-- packages/openburrow-core/src/openburrow/core/models/enums.py. The members that a component's
-- own file declares (task states, performatives) stand there.
use openburrow.Prelude.{Bool, true, false}

pub data DelegationStatus : Type 0 where
  proposed authorized active completed revoked denied : DelegationStatus

pub data TrustBoundary : Type 0 where
  intra_lane intra_repo cross_human cross_vendor cross_org external : TrustBoundary

pub data AuditSeverity : Type 0 where
  info notice warning violation critical : AuditSeverity

-- `trust_boundary not in {INTRA_REPO, INTRA_LANE}`
unfoldable pub is_cross_boundary : TrustBoundary → Bool
is_cross_boundary intra_lane = false
is_cross_boundary intra_repo = false
is_cross_boundary _ = true

unfoldable pub is_active : DelegationStatus → Bool
is_active active = true
is_active _ = false

-- `AuditRecord.is_violation`
unfoldable pub is_violation : AuditSeverity → Bool
is_violation violation = true
is_violation critical = true
is_violation _ = false
