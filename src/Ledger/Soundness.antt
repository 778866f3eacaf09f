-- ===== src/Ledger/Soundness.antt =====
-- The ledger keeps its rows sound: every delegation names a human, stays within the depth bound,
-- and holds no more than the delegation that it was handed on from.
use openburrow.Prelude.{
  ◌+◌, ◌≤◌, ◌≡◌, refl, sym, ◌∙◌, ap, inl, inr, Bool, true, false, Option, none, some,
  some-injective, List, [], ◌∷◌, ◌++◌, arith, Text, codes, text_eq, eq_of_text_eq, is_empty,
  is_blank, all, all-select, select, map, strip, Bool-cases, Table, get, save, get-save, ◌&&◌, ◌⊎◌,
  subst,
}
use openburrow.Authority.{AuthorityScope, allows, narrow, is_tidy, sorted_set}
use openburrow.Authority.Narrowing.{is_plain, allows-narrow, allows_elim, map-strip}
use openburrow.Ledger.{Delegation, Config, Request, FreshIds}
use openburrow.Ledger.Authorize.{ceiling, granted_scope}

-- Whatever the first scope allows, the second allows.
abbrev pub Narrower : AuthorityScope → AuthorityScope → Type 0
Narrower a b = (c : Text) → allows a c ≡ true → allows b c ≡ true

-- The patterns that a request asks for are plain, and have no space around them.
abbrev pub AsksPlain : Request → Type 0
AsksPlain req = (all is_plain req.requested_scope ≡ true) × (all is_tidy req.requested_scope ≡ true)

-- A row is a root, or one step below the row that it names as its parent; where `plain` is true, every
-- request so far asked for plain patterns, and the row holds no more than its parent.
pub data Linked (plain : Bool) (rows : Table Delegation) (d : Delegation) : Type 0 where
  root : is_empty d.parent_delegation_id ≡ true → d.depth ≡ 0 → d.chain ≡ [] → Linked plain rows d
  child :
      is_empty d.parent_delegation_id ≡ false
      → (p : Delegation) → get rows d.parent_delegation_id ≡ some p
      → d.depth ≡ p.depth + 1
      → d.chain ≡ p.chain ++ p.id ∷ []
      → (plain ≡ true → Narrower d.scope p.scope)
      → Linked plain rows d

pub record IsValid (cfg : Config) (plain : Bool) (rows : Table Delegation) (d : Delegation)
    : Type 0 where
  pub anchored : is_blank d.authorized_by ≡ false
  pub shallow : d.depth ≤ cfg.max_depth
  pub patterned : plain ≡ true → all is_plain d.scope.capabilities ≡ true
  pub undenied : d.scope.denials ≡ []
  pub linked : Linked plain rows d

pub record IsSound (cfg : Config) (plain : Bool) (rows : Table Delegation) : Type 0 where
  pub keyed : (k : Text) (d : Delegation) → get rows k ≡ some d → d.id ≡ k
  pub valid : (k : Text) (d : Delegation) → get rows k ≡ some d → IsValid cfg plain rows d

-- What the later row keeps of the earlier one, as far as its children read it.
pub record SameAuthority (d e : Delegation) : Type 0 where
  pub same_id : e.id ≡ d.id
  pub same_depth : e.depth ≡ d.depth
  pub same_chain : e.chain ≡ d.chain
  pub same_scope : e.scope ≡ d.scope

pub SameAuthority-refl : (d : Delegation) → SameAuthority d d
SameAuthority-refl d = record {
  same_id = refl;
  same_depth = refl;
  same_chain = refl;
  same_scope = refl;
}

abbrev pub Extends : Table Delegation → Table Delegation → Type 0
Extends rows rows' =
    (k : Text) (d : Delegation)
    → get rows k ≡ some d
    → (e : Delegation) × (get rows' k ≡ some e) × SameAuthority d e

Linked-Extends :
    {b : Bool} {rows rows' : Table Delegation} {d : Delegation}
    → Extends rows rows'
    → Linked b rows d
    → Linked b rows' d
Linked-Extends x (root e z n) = root e z n
Linked-Extends {d = d} x (child e p g z n w) =
    let (q, h, s) = x d.parent_delegation_id p g in
    child e q h (omega (arith, s.same_depth)) (rw (s.same_chain, s.same_id) n)
      (λ t c a. rw s.same_scope (w t c a))

IsValid-Extends :
    {cfg : Config} {b : Bool} {rows rows' : Table Delegation} {d : Delegation}
    → Extends rows rows'
    → IsValid cfg b rows d
    → IsValid cfg b rows' d
IsValid-Extends x v = record {
  anchored = v.anchored;
  shallow = v.shallow;
  patterned = v.patterned;
  undenied = v.undenied;
  linked = Linked-Extends x v.linked;
}

save_split :
    (rows : Table Delegation) (k j : Text) (v d : Delegation)
    → get (save rows k v) j ≡ some d
    → ((k ≡ j) × (v ≡ d)) ⊎ (get rows j ≡ some d)
save_split rows k j v d h = elim (Bool-cases (text_eq k j)) [
  | inl e ↦ inl (eq_of_text_eq k j e, some-injective _ _ (rw (get-save, e) at h))
  | inr e ↦ inr (rw (get-save, e) at h)
]

-- Saving a row over one of the same authority, or where there was none, keeps the table sound.
pub save-IsSound :
    (cfg : Config) (b : Bool) (rows : Table Delegation) (k : Text) (v : Delegation)
    → IsSound cfg b rows
    → v.id ≡ k
    → Extends rows (save rows k v)
    → IsValid cfg b rows v
    → IsSound cfg b (save rows k v)
save-IsSound cfg b rows k v s e x w = record {
  keyed = λ j d h. elim (save_split rows k j v d h) [
    | inl (q, r) ↦ ap (λ (y : Delegation). y.id) (sym r) ∙ e ∙ q
    | inr g ↦ s.keyed j d g
  ];
  valid = λ j d h. elim (save_split rows k j v d h) [
    | inl (q, r) ↦ subst (λ y. IsValid cfg b (save rows k v) y) r (IsValid-Extends x w)
    | inr g ↦ IsValid-Extends x (s.valid j d g)
  ];
}

pub Extends-fresh :
    (rows : Table Delegation) (k : Text) (v : Delegation)
    → get rows k ≡ none
    → Extends rows (save rows k v)
Extends-fresh rows k v n j d g = elim (Bool-cases (text_eq k j)) [
  | inl e ↦ absurd (cc (n, g, eq_of_text_eq k j e))
  | inr e ↦ (d, rw (get-save, e) g, SameAuthority-refl d)
]

pub Extends-same :
    (rows : Table Delegation) (k : Text) (d v : Delegation)
    → get rows k ≡ some d
    → SameAuthority d v
    → Extends rows (save rows k v)
Extends-same rows k d v h s j e g = elim (Bool-cases (text_eq k j)) [
  | inl q ↦
      let r : d ≡ e = some-injective _ _ (sym h ∙ ap (get rows) (eq_of_text_eq k j q) ∙ g) in
      (v, rw (get-save, q), subst (λ y. SameAuthority y v) r s)
  | inr q ↦ (e, rw (get-save, q) g, SameAuthority-refl e)
]

-- What `authorize` has checked of the parent when it hands authority on.
abbrev pub Settled : Config → Table Delegation → Request → Option Delegation → Type 0
Settled cfg rows req none = is_empty req.parent_delegation_id ≡ true
Settled cfg rows req (some p) =
    (is_empty req.parent_delegation_id ≡ false)
    × (get rows req.parent_delegation_id ≡ some p)
    × (p.depth + 1 ≤ cfg.max_depth)

pub granted_scope-plain :
    (cfg : Config) (ids : FreshIds) (req : Request) (parent : Option Delegation)
    → AsksPlain req
    → all is_plain (granted_scope cfg ids req parent).capabilities ≡ true
unfolding granted_scope narrow
granted_scope-plain cfg ids req parent (h, t) =
    elim (Bool-cases
      (text_eq cfg.authority_inheritance (codes "none") && is_empty req.requested_scope)) [
        | inl e ↦ rw e
        | inr e ↦
            let s = ceiling cfg ids req parent in
            rw e (
              rw
                (map-strip (select (allows s) req.requested_scope)
                  (all-select (allows s) is_tidy req.requested_scope t))
                (all-select (allows s) is_plain req.requested_scope h))
      ]

no_denials : (xs : List Text) → xs ≡ [] → map strip (sorted_set (xs ++ [])) ≡ []
unfolding sorted_set
no_denials xs h = rw h refl

-- No scope of the ledger has denials, where the one handed on from has none.
pub granted_scope-undenied :
    (cfg : Config) (ids : FreshIds) (req : Request) (parent : Option Delegation)
    → (ceiling cfg ids req parent).denials ≡ []
    → (granted_scope cfg ids req parent).denials ≡ []
unfolding granted_scope narrow
granted_scope-undenied cfg ids req parent h =
    elim (Bool-cases
      (text_eq cfg.authority_inheritance (codes "none") && is_empty req.requested_scope)) [
        | inl e ↦ rw e
        | inr e ↦ rw e (no_denials (ceiling cfg ids req parent).denials h)
      ]

pub no_denials-is_tidy : (xs : List Text) → xs ≡ [] → all is_tidy xs ≡ true
no_denials-is_tidy xs h = rw h refl

-- The scope that is handed on allows nothing that the ceiling does not.
pub granted_scope-Narrower :
    (cfg : Config) (ids : FreshIds) (req : Request) (parent : Option Delegation)
    → all is_plain (ceiling cfg ids req parent).capabilities ≡ true
    → all is_tidy (ceiling cfg ids req parent).denials ≡ true
    → all is_tidy req.requested_scope ≡ true
    → Narrower (granted_scope cfg ids req parent) (ceiling cfg ids req parent)
unfolding granted_scope
granted_scope-Narrower cfg ids req parent h d t c a =
    elim (Bool-cases
      (text_eq cfg.authority_inheritance (codes "none") && is_empty req.requested_scope)) [
        | inl e ↦ absurd (cc ((allows_elim _ c (rw e at a)).2))
        | inr e ↦
            allows-narrow (ceiling cfg ids req parent) ids.scope req.requested_scope [] c h d t
              (rw e at a)
      ]
