-- ===== src/Ledger/Preserved.antt =====
-- Every operation of the ledger keeps its rows sound, whatever it answers.
use openburrow.Prelude.{
  ℕ, ◌+◌, ◌≤◌, ◌≡◌, refl, ap, ◌∙◌, inl, inr, Bool, true, false, not, Option, none, some, [], arith,
  Text, text_eq, is_empty, or_else, is_blank, is_blank-strip, Bool-cases, ltb, get, ◌&&◌,
}
use openburrow.Vocabulary.{is_active}
use openburrow.Ledger.{
  Delegation, Config, Request, FreshIds, Store, append_audit, raise_flag, log_violation, is_mapped,
  LedgerError, GovernanceFlag, raised, no_table,
}
use openburrow.Ledger.Authorize.{
  ceiling, granted_scope, ungranted, depth_of, new_delegation, write_delegation, hand_on,
  check_parent, authorize,
}
use openburrow.Ledger.Enforce.{
  mark_revoked, revoke, revoke_row, check_action, judge, judge_scope, expired,
}
use openburrow.Ledger.Soundness.{
  Linked, root, child, IsValid, IsSound, Settled, Extends-fresh, Extends-same, save-IsSound,
  granted_scope-plain, granted_scope-Narrower, granted_scope-undenied, no_denials-is_tidy,
  AsksPlain,
}

-- No flag is ever raised: the error of the missing table goes before it.
pub raise_flag-no_table :
    (e : LedgerError) (f : GovernanceFlag) (st : Store) → raise_flag e f st ≡ (raised no_table, st)
unfolding raise_flag is_mapped text_eq
raise_flag-no_table e f st = refl

module _ (cfg : Config) (ids : FreshIds) (req : Request) (st : Store) (b : Bool)
    (sound : IsSound cfg b st.delegations) (fresh : get st.delegations ids.delegation ≡ none)
    (plain : b ≡ true → AsksPlain req) where
  new-Linked :
      (parent : Option Delegation) (who : Text)
      → Settled cfg st.delegations req parent
      → Linked b st.delegations
          (new_delegation cfg ids req parent (granted_scope cfg ids req parent) who)
  unfolding new_delegation ceiling
  new-Linked none who h = root h refl refl
  new-Linked (some p) who (e, g, l) =
      let v = sound.valid req.parent_delegation_id p g in
      child e p g refl refl (λ t.
        granted_scope-Narrower cfg ids req (some p) (v.patterned t)
          (no_denials-is_tidy p.scope.denials v.undenied) (plain t).1)

  new-shallow :
      (parent : Option Delegation)
      → Settled cfg st.delegations req parent
      → depth_of parent ≤ cfg.max_depth
  unfolding depth_of
  new-shallow none h = omega arith
  new-shallow (some p) (e, g, l) = l

  new-undenied :
      (parent : Option Delegation)
      → Settled cfg st.delegations req parent
      → (granted_scope cfg ids req parent).denials ≡ []
  unfolding ceiling
  new-undenied none h = granted_scope-undenied cfg ids req none refl
  new-undenied (some p) (e, g, l) =
      granted_scope-undenied cfg ids req (some p)
        (sound.valid req.parent_delegation_id p g).undenied

  new-IsValid :
      (parent : Option Delegation) (who : Text)
      → is_blank who ≡ false
      → Settled cfg st.delegations req parent
      → IsValid cfg b st.delegations
          (new_delegation cfg ids req parent (granted_scope cfg ids req parent) who)
  unfolding new_delegation
  new-IsValid parent who a h = record {
    anchored = rw is_blank-strip a;
    shallow = new-shallow parent h;
    patterned = λ t. granted_scope-plain cfg ids req parent (plain t);
    undenied = new-undenied parent h;
    linked = new-Linked parent who h;
  }

  hand_on-IsSound :
      (parent : Option Delegation) (who : Text)
      → Settled cfg st.delegations req parent
      → IsSound cfg b (hand_on cfg ids req who parent st).1.delegations
  unfolding hand_on write_delegation
  hand_on-IsSound parent who h =
      let scope = granted_scope cfg ids req parent in
      let d = new_delegation cfg ids req parent scope who in
      let same : d.id ≡ ids.delegation = unfold new_delegation in refl in
      elim (Bool-cases (not (is_empty (ungranted scope req)))) [
        | inl e ↦ rw (e, raise_flag-no_table) sound
        | inr e ↦ elim (Bool-cases (is_blank who)) [
          | inl a ↦ rw (e, a) sound
          | inr a ↦
              rw (e, a)
                (save-IsSound cfg b st.delegations d.id d sound refl
                  (Extends-fresh st.delegations d.id d (ap (get st.delegations) same ∙ fresh))
                  (new-IsValid parent who a h))
        ]
      ]

  check_parent-IsSound :
      (parent : Option Delegation) (who : Text)
      → is_empty req.parent_delegation_id ≡ false
      → get st.delegations req.parent_delegation_id ≡ parent
      → IsSound cfg b (check_parent cfg ids req who parent st).1.delegations
  unfolding check_parent
  check_parent-IsSound none who e g = sound
  check_parent-IsSound (some p) who e g = elim (Bool-cases (ltb cfg.max_depth (p.depth + 1))) [
    | inl d ↦ rw d sound
    | inr d ↦ elim (Bool-cases (not p.transferable && not cfg.allow_redelegation)) [
      | inl t ↦ rw (d, t, raise_flag-no_table) sound
      | inr t ↦ rw (d, t) (hand_on-IsSound (some p) who (e, g, ground arith))
    ]
  ]

  -- A sound ledger stays sound under `authorize`, on each of its outcomes.
  pub authorize-IsSound : IsSound cfg b (authorize cfg ids req st).1.delegations
  unfolding authorize
  authorize-IsSound =
      let who = or_else cfg.human_id req.delegator.owner in
      elim (Bool-cases (is_empty who)) [
        | inl e ↦ rw e sound
        | inr e ↦ elim (Bool-cases (is_empty req.parent_delegation_id)) [
          | inl r ↦ rw (e, r) (hand_on-IsSound none who r)
          | inr r ↦
              rw (e, r)
                (check_parent-IsSound (get st.delegations req.parent_delegation_id) who r refl)
        ]
      ]

module _ (cfg : Config) (b : Bool) (st : Store) (sound : IsSound cfg b st.delegations) where
  revoke_row-IsSound :
      (k by reason : Text) (o : Option Delegation)
      → get st.delegations k ≡ o
      → IsSound cfg b (revoke_row by reason o st).1.delegations
  unfolding revoke_row append_audit mark_revoked
  revoke_row-IsSound k by reason none h = sound
  revoke_row-IsSound k by reason (some d) h =
      let v = sound.valid k d h in
      let here : get st.delegations d.id ≡ some d =
        ap (get st.delegations) (sound.keyed k d h) ∙ h in
      save-IsSound cfg b st.delegations d.id (mark_revoked by reason d) sound refl
        (Extends-same st.delegations d.id d (mark_revoked by reason d) here
          (record { same_id = refl; same_depth = refl; same_chain = refl; same_scope = refl }))
        (record {
          anchored = v.anchored;
          shallow = v.shallow;
          patterned = v.patterned;
          undenied = v.undenied;
          linked = relink v.linked;
        })
    where
      relink : Linked b st.delegations d → Linked b st.delegations (mark_revoked by reason d)
      relink (root e z n) = root e z n
      relink (child e p g z n w) = child e p g z n w

  pub revoke-IsSound : (k by reason : Text) → IsSound cfg b (revoke k by reason st).1.delegations
  unfolding revoke
  revoke-IsSound k by reason = revoke_row-IsSound k by reason (get st.delegations k) refl

-- A check of an action writes to the audit log alone.
pub delegations-check_action :
    (now : ℕ) (session k lane capability : Text) (st : Store)
    → (check_action now session k lane capability st).1.delegations ≡ st.delegations
unfolding check_action judge judge_scope log_violation
delegations-check_action now session k lane capability st = elim (Bool-cases (is_empty k)) [
  | inl e ↦ rw e
  | inr e ↦ rw e (judged (get st.delegations k))
]
  where
    scoped :
        (d : Delegation) (o : Option Bool)
        → (judge_scope session lane capability d o st).1.delegations ≡ st.delegations
    scoped d none = refl
    scoped d (some true) = refl
    scoped d (some false) = ground arith

    judged :
        (o : Option Delegation)
        → (judge now session lane capability o st).1.delegations ≡ st.delegations
    judged none = refl
    judged (some d) = elim (Bool-cases (not (is_active d.status))) [
      | inl e ↦ rw e
      | inr e ↦ rw e (scoped d (expired now d.expires_at))
    ]
