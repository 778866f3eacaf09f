-- ===== src/Ledger/Revocation.antt =====
-- A revocation is final: no later call makes an action pass under a revoked delegation.
use openburrow.Prelude.{◌≡◌, ◌⊎◌, some, Text, Table, get, save}
use openburrow.Vocabulary.{revoked}
use openburrow.Ledger.{Delegation}

-- The rows after a call: as before, or with one row saved under the given key.
abbrev SavedAt : Table Delegation → Text → Table Delegation → Type 0
SavedAt rows k rows' = (rows' ≡ rows) ⊎ ((d : Delegation) × (rows' ≡ save rows k d))

abbrev IsRevoked : Table Delegation → Text → Type 0
IsRevoked rows k = (d : Delegation) × (get rows k ≡ some d) × (d.status ≡ revoked)
