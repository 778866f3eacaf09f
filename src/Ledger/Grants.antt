-- ===== src/Ledger/Grants.antt =====
-- What `authorize` answers: it grants what may be handed on, and what exceeds the ceiling is an error.
use openburrow.Prelude.{
  ◌+◌, ◌≤◌, ◌≡◌, refl, Bool, true, false, not, ◌&&◌, ◌||◌, Option, none, some, List, [], ◌∷◌, arith,
  Memᴰ, select-Memᴰ, Text, is_empty, is_blank, or_else, all, if◌then◌else◌, ltb, Table, get,
}
use openburrow.Authority.{allows, is_tidy}
use openburrow.Authority.Narrowing.{is_plain}
use openburrow.Ledger.{Delegation, Config, Request, FreshIds, Store, raised, no_table}
use openburrow.Ledger.Authorize.{
  authorize, hand_on, check_parent, granted_scope, ungranted, ceiling,
}
use openburrow.Ledger.Soundness.{granted_scope-Narrower}
use openburrow.Ledger.Preserved.{raise_flag-no_table}

-- The parent may be handed on from: there, within the depth bound, and transferable or overruled.
abbrev pub MayHandOn : Config → Table Delegation → Request → Option Delegation → Type 0
MayHandOn cfg rows req none = is_empty req.parent_delegation_id ≡ true
MayHandOn cfg rows req (some p) =
    (is_empty req.parent_delegation_id ≡ false)
    × (get rows req.parent_delegation_id ≡ some p)
    × (p.depth + 1 ≤ cfg.max_depth)
    × ((p.transferable || cfg.allow_redelegation) ≡ true)

not_empty : (x : Text) (xs : List Text) → Memᴰ x xs → is_empty xs ≡ false
not_empty x [] m = elim m [ ]
not_empty x (y ∷ xs) m = refl

empty_blank : (t : Text) → is_blank t ≡ false → is_empty t ≡ false
unfolding is_blank
empty_blank [] h = absurd (cc h)
empty_blank (c ∷ t) h = refl

module _ (cfg : Config) (ids : FreshIds) (req : Request) (parent : Option Delegation) where
  module _ (st : Store) (who : Text) (named : or_else cfg.human_id req.delegator.owner ≡ who)
      (human : is_blank who ≡ false) (may : MayHandOn cfg st.delegations req parent) where
    authorize-hand_on : authorize cfg ids req st ≡ hand_on cfg ids req who parent st
    unfolding authorize check_parent
    authorize-hand_on = rw (named, empty_blank who human) (go parent may)
      where
        go :
            (o : Option Delegation)
            → MayHandOn cfg st.delegations req o
            → (if is_empty req.parent_delegation_id
                then hand_on cfg ids req who none st
                else check_parent cfg ids req who (get st.delegations req.parent_delegation_id) st)
              ≡ hand_on cfg ids req who o st
        go none e = rw e
        go (some p) (e, g, d, t) =
            let deep : ltb cfg.max_depth (p.depth + 1) ≡ false = ground arith in
            let open_ : (not p.transferable && not cfg.allow_redelegation) ≡ false = ground arith in
            rw (e, g, deep, open_)

    -- With such a human and parent, and a ceiling of plain patterns and stripped denials, a request without spaces around
    -- its capabilities for any that the ceiling does not allow ends in the error of a missing table, not in the one for
    -- authority creep, and nothing is written: no delegation, no flag and no audit record.
    pub authorize-creep :
        (c : Text)
        → Memᴰ c req.requested_scope
        → all is_plain (ceiling cfg ids req parent).capabilities ≡ true
        → all is_tidy (ceiling cfg ids req parent).denials ≡ true
        → all is_tidy req.requested_scope ≡ true
        → allows (ceiling cfg ids req parent) c ≡ false
        → authorize cfg ids req st ≡ (raised no_table, st)
    unfolding hand_on
    authorize-creep c m plain dt t h =
        let scope = granted_scope cfg ids req parent in
        let kept : allows scope c ≡ false = unallowed (allows scope c) refl in
        let missing : Memᴰ c (ungranted scope req) =
          unfold ungranted in
          select-Memᴰ (λ x. not (allows scope x)) c req.requested_scope m (rw kept) in
        let some_ : is_empty (ungranted scope req) ≡ false =
          not_empty c (ungranted scope req) missing in
        rw (authorize-hand_on, some_) (raise_flag-no_table _ _ st)
      where
        unallowed : (b : Bool) → allows (granted_scope cfg ids req parent) c ≡ b → b ≡ false
        unallowed true e = absurd (cc (h, granted_scope-Narrower cfg ids req parent plain dt t c e))
        unallowed false e = refl
