-- ===== src/Ledger/Trace.antt =====
-- `Repository.delegation_chain` of
-- packages/openburrow-core/src/openburrow/core/db/repository.py, which `DelegationLedger.trace`
-- calls: the walk along `parent_delegation_id`, with the rounds of its loop as fuel.
use openburrow.Prelude.{
  ℕ, zero, suc, Option, none, some, List, [], ◌∷◌, Text, text_eq, is_empty, any, if◌then◌else◌,
  Table, get,
}
use openburrow.Ledger.{Delegation}

-- `chain` is held last first, so that it is returned as it stands; `none` is fuel run out.
unfoldable pub walk :
    ℕ
    → Table Delegation
    → Option Delegation
    → List Text
    → List Delegation
    → Option (List Delegation)
walk zero rows current seen chain = none
walk (suc fuel) rows none seen chain = some chain
walk (suc fuel) rows (some d) seen chain =
    let rest = walk fuel rows (get rows d.parent_delegation_id) (d.id ∷ seen) (d ∷ chain) in
    if any (text_eq d.id) seen
    then some chain
    else if is_empty d.parent_delegation_id
    then some (d ∷ chain)
    else rest

unfoldable pub delegation_chain : ℕ → Table Delegation → Text → Option (List Delegation)
unfolding walk
delegation_chain fuel rows id = walk fuel rows (get rows id) [] []
