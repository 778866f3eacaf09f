-- ===== src/Ledger/Accountability.antt =====
-- The ledger's promises: an action that passes goes back to a human's grant, the trace is the
-- recorded chain, a refusal is audited, and a revocation is final.
use openburrow.Prelude.{
  ℕ, ◌≡◌, refl, inl, inr, Bool, true, false, not, Option, none, some, [], ◌∷◌, ◌++◌, Text, codes,
  is_empty, Bool-cases, get,
}
use openburrow.Vocabulary.{is_active, is_violation}
use openburrow.Authority.{allows}
use openburrow.Ledger.{Delegation, Store, log_violation, blocked}
use openburrow.Ledger.Enforce.{check_action, judge, judge_scope, expired}

scope-true :
    (session lane capability : Text) (d : Delegation) (o : Option Bool) (st : Store)
    → (judge_scope session lane capability d o st).0 ≡ some true
    → (o ≡ some false) × (allows d.scope capability ≡ true)
unfolding judge_scope
scope-true session lane capability d none st h = absurd (cc h)
scope-true session lane capability d (some true) st h = absurd (cc h)
scope-true session lane capability d (some false) st h =
    elim (Bool-cases (allows d.scope capability)) [
      | inl e ↦ (refl, e)
      | inr e ↦ absurd (cc (rw e at h))
    ]

judge-true :
    (now : ℕ) (session lane capability : Text) (o : Option Delegation) (st : Store)
    → (judge now session lane capability o st).0 ≡ some true
    → (d : Delegation) × (o ≡ some d)
      × (is_active d.status ≡ true)
      × (expired now d.expires_at ≡ some false)
      × (allows d.scope capability ≡ true)
unfolding judge
judge-true now session lane capability none st h = absurd (cc h)
judge-true now session lane capability (some d) st h = elim (Bool-cases (is_active d.status)) [
  | inr e ↦ absurd (cc (rw e at h))
  | inl e ↦
      let (x, a) = scope-true session lane capability d (expired now d.expires_at) st (rw e at h) in
      (d, refl, e, x, a)
]

module _ (now : ℕ) (session k lane capability : Text) (st : Store)
    (delegated : is_empty k ≡ false) where
  check_action-judge :
      check_action now session k lane capability st
      ≡ judge now session lane capability (get st.delegations k) st
  unfolding check_action
  check_action-judge = rw delegated

  -- An action under a delegation passes only if its row is there, active, unexpired, and allows it.
  pub check_action-true :
      (check_action now session k lane capability st).0 ≡ some true
      → (d : Delegation) × (get st.delegations k ≡ some d)
        × (is_active d.status ≡ true)
        × (expired now d.expires_at ≡ some false)
        × (allows d.scope capability ≡ true)
  check_action-true h =
      judge-true now session lane capability (get st.delegations k) st (rw check_action-judge at h)

scope-refused :
    (session lane capability : Text) (d : Delegation) (o : Option Bool) (st : Store)
    → (judge_scope session lane capability d o st).0 ≡ some false
    → (event : Text) × ((judge_scope session lane capability d o st).1
        ≡ log_violation session lane event st)
unfolding judge_scope
scope-refused session lane capability d none st h = absurd (cc h)
scope-refused session lane capability d (some true) st h = (_, refl)
scope-refused session lane capability d (some false) st h =
    elim (Bool-cases (not (allows d.scope capability))) [
      | inl g ↦ (codes "action.outside_scope", rw g refl)
      | inr g ↦ absurd (cc (rw g at h))
    ]

judge-refused :
    (now : ℕ) (session lane capability : Text) (o : Option Delegation) (st : Store)
    → (judge now session lane capability o st).0 ≡ some false
    → (event : Text) × ((judge now session lane capability o st).1
        ≡ log_violation session lane event st)
unfolding judge
judge-refused now session lane capability none st h = (_, refl)
judge-refused now session lane capability (some d) st h =
    elim (Bool-cases (not (is_active d.status))) [
      | inl e ↦ (codes "action.inactive_delegation", rw e refl)
      | inr e ↦
          let (event, q) =
            scope-refused session lane capability d (expired now d.expires_at) st (rw e at h) in
          (event, rw e q)
    ]

-- A refused action changes no row and no flag, and adds one record to the audit log: a violation
-- by the lane that asked, marked as not allowed.
pub check_action-refused :
    (now : ℕ) (session k lane capability : Text) (st : Store)
    → (check_action now session k lane capability st).0 ≡ some false
    → (event : Text) × ((check_action now session k lane capability st).1
        ≡ record st { audit = st.audit ++ blocked session lane event ∷ [] })
      × (is_violation (blocked session lane event).severity ≡ true)
      × ((blocked session lane event).allowed ≡ false)
unfolding check_action log_violation blocked is_violation
check_action-refused now session k lane capability st h = elim (Bool-cases (is_empty k)) [
  | inl e ↦ absurd (cc (rw e at h))
  | inr e ↦
      let (event, q) =
        judge-refused now session lane capability (get st.delegations k) st (rw e at h) in
      (event, rw e q, refl, refl)
]
