-- ===== src/Ledger/Enforce.antt =====
-- `check_action` and `revoke` of
-- packages/openburrow-governance/src/openburrow/governance/ledger.py.
use openburrow.Prelude.{
  ℕ, Bool, true, false, not, Option, none, some, [], ◌∷◌, Text, codes, strip, is_empty,
  if◌then◌else◌, ltb, get, save,
}
use openburrow.Vocabulary.{revoked, is_active, warning}
use openburrow.Authority.{allows}
use openburrow.Ledger.{DateTime, Delegation, Store, append_audit, log_violation}

-- `now() > delegation.expires_at`; none is the TypeError of comparing it with a date that has no time zone.
unfoldable pub is_after : ℕ → DateTime → Option Bool
is_after now t = if t.aware then some (ltb t.at now) else none

-- The expiry passed before the time of the call.
unfoldable pub expired : ℕ → Option DateTime → Option Bool
unfolding is_after
expired now none = some false
expired now (some t) = is_after now t

-- The test on the scope, after the one on the expiry; the answer none is an exception.
unfoldable pub judge_scope :
    Text → Text → Text → Delegation → Option Bool → Store → Option Bool × Store
judge_scope session lane capability d none st = (none, st)
judge_scope session lane capability d (some true) st =
    (some false, log_violation session lane (codes "action.expired_delegation") st)
judge_scope session lane capability d (some false) st =
    if not (allows d.scope capability)
    then (some false, log_violation session lane (codes "action.outside_scope") st)
    else (some true, st)

-- The tests of `check_action` on the row that it found.
unfoldable pub judge : ℕ → Text → Text → Text → Option Delegation → Store → Option Bool × Store
unfolding judge_scope expired
judge now session lane capability none st =
    (some false, log_violation session lane (codes "action.unknown_delegation") st)
judge now session lane capability (some d) st =
    if not (is_active d.status)
    then (some false, log_violation session lane (codes "action.inactive_delegation") st)
    else judge_scope session lane capability d (expired now d.expires_at) st

unfoldable pub check_action : ℕ → Text → Text → Text → Text → Store → Option Bool × Store
unfolding judge
check_action now session delegation lane capability st =
    if is_empty delegation
    then (some true, st)
    else judge now session lane capability (get st.delegations delegation) st

-- `Delegation.revoke`
unfoldable pub mark_revoked : Text → Text → Delegation → Delegation
mark_revoked by reason d = record d {
  status = revoked;
  revoked_by = strip by;
  revoked_reason = strip reason;
}

unfoldable pub revoke_row : Text → Text → Option Delegation → Store → Bool × Store
revoke_row by reason none st = (false, st)
revoke_row by reason (some d) st = (
  true,
  append_audit (record st { delegations = save st.delegations d.id (mark_revoked by reason d) })
      record {
        session_id = d.session_id;
        lane_id = [];
        task_id = [];
        delegation_id = d.id;
        event = codes "delegation.revoked";
        severity = warning;
        trust_boundary = d.trust_boundary;
        strict = true;
        actor_lane = strip by;
        actor_harness = [];
        on_behalf_of = d.authorized_by;
        affected_lanes = d.delegatee_lane ∷ [];
        allowed = false;
        correlation_id = [];
      },
)

unfoldable pub revoke : Text → Text → Text → Store → Bool × Store
unfolding revoke_row
revoke delegation by reason st = revoke_row by reason (get st.delegations delegation) st
