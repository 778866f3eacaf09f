-- ===== src/Ledger/Authorize.antt =====
-- `DelegationLedger.authorize` of
-- packages/openburrow-governance/src/openburrow/governance/ledger.py, in the order of its steps.
use openburrow.Prelude.{
  ℕ, ◌+◌, true, not, ◌&&◌, ◌||◌, Option, none, some, List, [], ◌∷◌, ◌++◌, map, Text, codes, text_eq,
  is_empty, or_else, is_blank, strip, select, length, if◌then◌else◌, ltb, ◌==◌, get, save, is_some,
}
use openburrow.Vocabulary.{active, is_cross_boundary, info, notice}
use openburrow.Authority.{AuthorityScope, allows, narrow}
use openburrow.Ledger.{
  Delegation, Config, Request, FreshIds, Store, AuditRecord, AuthorizationResult, granted, raised,
  no_human, not_transferable, authority_creep, blank_human, unknown_parent, too_deep, append_audit,
  raise_flag, blocking_flag, deny, parent_capabilities,
}

-- The authority that the delegator hands on from: the parent's scope, or the lane's own as the ceiling.
unfoldable pub ceiling : Config → FreshIds → Request → Option Delegation → AuthorityScope
ceiling cfg ids req (some parent) = parent.scope
ceiling cfg ids req none = record {
  id = ids.base;
  capabilities = map strip (or_else req.delegator.authority_scope (codes "*" ∷ []));
  denials = [];
  max_depth = cfg.max_depth;
  expires_at = none;
  derived_from = [];
}

-- Step 4: the narrowed scope, or none at all where nothing is asked for and nothing is inherited.
unfoldable pub granted_scope : Config → FreshIds → Request → Option Delegation → AuthorityScope
unfolding ceiling
granted_scope cfg ids req parent =
    if text_eq cfg.authority_inheritance (codes "none") && is_empty req.requested_scope
    then record {
      id = ids.scope;
      capabilities = [];
      denials = [];
      max_depth = 0;
      expires_at = none;
      derived_from = [];
    }
    else narrow (ceiling cfg ids req parent) ids.scope req.requested_scope []

-- What was asked for and not granted.
unfoldable pub ungranted : AuthorityScope → Request → List Text
ungranted scope req = select (λ c. not (allows scope c)) req.requested_scope

unfoldable pub depth_of : Option Delegation → ℕ
depth_of none = 0
depth_of (some parent) = parent.depth + 1

unfoldable pub chain_of : Option Delegation → List Text
chain_of none = []
chain_of (some parent) = parent.chain ++ parent.id ∷ []

-- Step 5: the row that is written.
unfoldable pub new_delegation :
    Config → FreshIds → Request → Option Delegation → AuthorityScope → Text → Delegation
unfolding depth_of chain_of
new_delegation cfg ids req parent scope authorizer = record {
  id = ids.delegation;
  session_id = strip req.session_id;
  task_id = strip req.task_id;
  authorized_by = strip authorizer;
  authorized_by_email = strip cfg.human_email;
  delegator_lane = req.delegator.id;
  delegatee_lane = req.delegatee.id;
  delegatee_owner = req.delegatee.owner;
  parent_delegation_id = req.parent_delegation_id;
  depth = depth_of parent;
  chain = chain_of parent;
  scope = scope;
  parent_scope_snapshot = parent_capabilities parent;
  narrowed = ltb (length scope.capabilities) (length req.requested_scope) || is_some parent;
  purpose = strip req.purpose;
  task_description = strip req.task_description;
  transferable = req.transferable;
  trust_boundary = req.trust_boundary;
  status = active;
  explicit_consent = req.explicit_consent;
  consent_evidence = strip req.consent_evidence;
  revoked_by = [];
  revoked_reason = [];
  expires_at = none;
}

unfoldable pub created_record : Request → Delegation → Text → AuditRecord
created_record req d authorizer = record {
  session_id = strip req.session_id;
  lane_id = req.delegator.id;
  task_id = strip req.task_id;
  delegation_id = d.id;
  event = codes "delegation.created";
  severity = if d.depth == 0 then notice else info;
  trust_boundary = req.trust_boundary;
  strict = is_cross_boundary req.trust_boundary;
  actor_lane = req.delegator.id;
  actor_harness = req.delegator.harness;
  on_behalf_of = strip authorizer;
  affected_lanes = req.delegatee.id ∷ [];
  allowed = true;
  correlation_id = [];
}

unfoldable pub write_delegation : Request → Text → Delegation → Store → Store
unfolding append_audit created_record
write_delegation req authorizer d st =
    append_audit (record st { delegations = save st.delegations d.id d })
      (created_record req d authorizer)

-- Steps 4 and 5, once the parent is settled.
unfoldable pub hand_on :
    Config → FreshIds → Request → Text → Option Delegation → Store → AuthorizationResult × Store
hand_on cfg ids req authorizer parent st =
    let scope = granted_scope cfg ids req parent in
    let missing = ungranted scope req in
    if not (is_empty missing)
    then raise_flag (authority_creep missing)
        (blocking_flag ids.flag req req.parent_delegation_id (codes "authority_creep")) st
    else if is_blank authorizer
    then (raised blank_human, st)
    else let d = new_delegation cfg ids req parent scope authorizer in
      (granted d, write_delegation req authorizer d st)

-- Steps 2 and 3, for a parent that is named.
unfoldable pub check_parent :
    Config → FreshIds → Request → Text → Option Delegation → Store → AuthorizationResult × Store
unfolding deny
check_parent cfg ids req authorizer none st = deny unknown_parent req st
check_parent cfg ids req authorizer (some parent) st =
    if ltb cfg.max_depth (parent.depth + 1)
    then deny too_deep req st
    else if not parent.transferable && not cfg.allow_redelegation
    then raise_flag not_transferable
        (blocking_flag ids.flag req parent.id (codes "redelegation_denied")) st
    else hand_on cfg ids req authorizer (some parent) st

unfoldable pub authorize : Config → FreshIds → Request → Store → AuthorizationResult × Store
authorize cfg ids req st =
    let authorizer = or_else cfg.human_id req.delegator.owner in
    if is_empty authorizer
    then (raised no_human, st)
    else if is_empty req.parent_delegation_id
    then hand_on cfg ids req authorizer none st
    else check_parent cfg ids req authorizer (get st.delegations req.parent_delegation_id) st
