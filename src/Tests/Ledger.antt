-- ===== src/Tests/Ledger.antt =====
-- A ledger with a root delegation and one handed on from it.
use openburrow.Prelude.{
  ◌≡◌, refl, true, false, Option, none, some, arith, List, [], ◌∷◌, ◌++◌, Memᴰ, Text, codes,
  text_eq, starts_with, ends_with, is_blank, strip, get, save,
}
use openburrow.Vocabulary.{intra_repo, is_active, is_cross_boundary, is_violation}
use openburrow.Authority.{matches, allows, narrow, sorted_set, insert_text, text_lt, is_tidy}
use openburrow.Authority.Patterns.{stem}
use openburrow.Authority.Narrowing.{is_plain}
use openburrow.Ledger.{
  Lane, Delegation, Config, Request, FreshIds, Store, raised, no_table, is_mapped, no_rows,
  append_audit, log_violation, raise_flag, blocking_flag, blocked, deny, parent_capabilities,
}
use openburrow.Ledger.Authorize.{
  ceiling, granted_scope, ungranted, depth_of, chain_of, new_delegation, created_record,
  write_delegation, hand_on, check_parent, authorize,
}
use openburrow.Ledger.Enforce.{
  is_after, expired, judge_scope, judge, check_action, mark_revoked, revoke, revoke_row,
}
use openburrow.Ledger.Trace.{walk, delegation_chain}
use openburrow.Ledger.Chains.{Call, authorizing, checking, perform, perform_all}
use openburrow.Ledger.Accountability.{check_action-refused}
use openburrow.Ledger.Grants.{authorize-creep}

abbrev config : Config
config = record {
  human_id = codes "maya";
  human_email = [];
  max_depth = 2;
  allow_redelegation = false;
  authority_inheritance = codes "bounded";
}

abbrev lane : Text → List Text → Lane
lane name scope = record {
  id = name;
  owner = codes "maya";
  harness = codes "mock";
  authority_scope = scope;
}

abbrev request : Text → List Text → Request
request parent scope = record {
  session_id = codes "s";
  delegator = lane (codes "alice") (codes "write:src/**" ∷ []);
  delegatee = lane (codes "bob") [];
  task_id = codes "t";
  requested_scope = scope;
  purpose = [];
  task_description = [];
  parent_delegation_id = parent;
  trust_boundary = intra_repo;
  transferable = true;
  explicit_consent = true;
  consent_evidence = [];
}

abbrev fresh : Text → FreshIds
fresh name = record { delegation = name; base = codes "b"; scope = codes "c"; flag = codes "f" }

abbrev api : Text
api = codes "write:src/api/**"

abbrev calls : List Call
calls =
    authorizing (fresh (codes "d1")) (request [] (codes "write:src/**" ∷ []))
    ∷ authorizing (fresh (codes "d2")) (request (codes "d1") (api ∷ []))
    ∷ checking 5 (codes "s") (codes "d2") (codes "bob") (codes "exec:rm")
    ∷ []

run : Store
unfolding allows matches narrow sorted_set insert_text text_lt text_eq starts_with ends_with
    is_blank is_plain stem strip is_tidy is_mapped get save is_active is_cross_boundary is_violation
    append_audit log_violation raise_flag blocking_flag blocked deny parent_capabilities ceiling
    granted_scope ungranted depth_of chain_of new_delegation created_record write_delegation hand_on
    check_parent authorize is_after expired judge_scope judge check_action mark_revoked revoke
    revoke_row walk delegation_chain perform perform_all
run = perform_all config no_rows calls

-- The row of a run, or the one that a bare request would give.
abbrev row_or_bare : Option Delegation → Delegation
row_or_bare (some d) = d
row_or_bare none =
    let req = request [] [] in
    new_delegation config (fresh []) req none (ceiling config (fresh []) req none) []

abbrev leaf : Delegation
leaf = row_or_bare (get run.delegations (codes "d2"))

check_action-refused_example :
    (event : Text) × ((check_action 6
        (codes "s")
        (codes "d2")
        (codes "bob")
        (codes "exec:rm")
        run).1
      ≡ record run { audit = run.audit ++ blocked (codes "s") (codes "bob") event ∷ [] })
    × (is_violation (blocked (codes "s") (codes "bob") event).severity ≡ true)
    × ((blocked (codes "s") (codes "bob") event).allowed ≡ false)
unfolding run
check_action-refused_example =
    check_action-refused 6 (codes "s") (codes "d2") (codes "bob") (codes "exec:rm") run refl

abbrev regrant : List Call
regrant = authorizing (fresh (codes "d3")) (request (codes "d1") (api ∷ [])) ∷ []

root_row : Delegation
unfolding run
root_row = row_or_bare (get run.delegations (codes "d1"))

authorize-creep_example :
    authorize config (fresh (codes "d4")) (request (codes "d1") (codes "exec:rm" ∷ [])) run
    ≡ (raised no_table, run)
unfolding root_row
authorize-creep_example =
    authorize-creep config (fresh (codes "d4")) (request (codes "d1") (codes "exec:rm" ∷ []))
      (some root_row) run (codes "maya") refl refl (refl, refl, omega arith, refl) (codes "exec:rm")
      (Memᴰ.head refl) refl refl refl refl
