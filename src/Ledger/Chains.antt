-- ===== src/Ledger/Chains.antt =====
-- What holds of the ledger over any sequence of its operations: authority goes back to a root that
-- names a human, and the walk along the parents finds the recorded chain.
use openburrow.Prelude.{
  ℕ, zero, suc, ◌+◌, ◌<◌, ◌≡◌, sym, ◌∙◌, ap, inl, inr, Bool, true, false, none, some,
  some-injective, List, [], ◌∷◌, ◌++◌, map, Memᴰ, Memᴰ-any, append_assoc, arith, Text, text_eq,
  eq_of_text_eq, is_empty, is_blank, any, Bool-cases, length, Table, get,
}
use openburrow.Ledger.{Delegation, Config, Request, FreshIds, Store, no_rows}
use openburrow.Ledger.Authorize.{authorize}
use openburrow.Ledger.Enforce.{revoke, check_action}
use openburrow.Ledger.Trace.{walk}
use openburrow.Ledger.Soundness.{Linked, root, child, IsSound, Narrower, AsksPlain}
use openburrow.Ledger.Preserved.{authorize-IsSound, revoke-IsSound, delegations-check_action}

-- A call of the ledger.
pub data Call : Type 0 where
  authorizing : FreshIds → Request → Call
  revoking : Text → Text → Text → Call
  checking : ℕ → Text → Text → Text → Text → Call

unfoldable pub perform : Config → Store → Call → Store
perform cfg st (authorizing ids req) = (authorize cfg ids req st).1
perform cfg st (revoking k by reason) = (revoke k by reason st).1
perform cfg st (checking now session k lane capability) =
    (check_action now session k lane capability st).1

unfoldable pub perform_all : Config → Store → List Call → Store
unfolding perform
perform_all cfg st [] = st
perform_all cfg st (c ∷ cs) = perform_all cfg (perform cfg st c) cs

-- `new_id` gives an identifier that no row has.
abbrev pub Fits : Store → Call → Type 0
Fits st (authorizing ids req) = get st.delegations ids.delegation ≡ none
Fits st _ = Unit

abbrev pub AllFit : Config → Store → List Call → Type 0
AllFit cfg st [] = Unit
AllFit cfg st (c ∷ cs) = Fits st c × AllFit cfg (perform cfg st c) cs

-- Each request asks for plain patterns.
abbrev AskPlain : Call → Type 0
AskPlain (authorizing ids req) = AsksPlain req
AskPlain _ = Unit

abbrev pub AllAskPlain : List Call → Type 0
AllAskPlain [] = Unit
AllAskPlain (c ∷ cs) = AskPlain c × AllAskPlain cs

-- What is shown of all rows, and where `plain` is true, of the rows of plain requests.
module _ (cfg : Config) (plain : Bool) where
  perform-IsSound :
      (st : Store) (c : Call)
      → IsSound cfg plain st.delegations
      → Fits st c
      → (plain ≡ true → AskPlain c)
      → IsSound cfg plain (perform cfg st c).delegations
  unfolding perform
  perform-IsSound st (authorizing ids req) s fresh asks =
      authorize-IsSound cfg ids req st plain s fresh asks
  perform-IsSound st (revoking k by reason) s h asks = revoke-IsSound cfg plain st s k by reason
  perform-IsSound st (checking now session k lane capability) s h asks =
      rw (delegations-check_action now session k lane capability st) s

  perform_all-IsSound :
      (st : Store) (cs : List Call)
      → IsSound cfg plain st.delegations
      → AllFit cfg st cs
      → (plain ≡ true → AllAskPlain cs)
      → IsSound cfg plain (perform_all cfg st cs).delegations
  unfolding perform_all
  perform_all-IsSound st [] s h asks = s
  perform_all-IsSound st (c ∷ cs) s (f, h) asks =
      perform_all-IsSound (perform cfg st c) cs (perform-IsSound st c s f (λ t. (asks t).0)) h
        (λ t. (asks t).1)

  no_rows-IsSound : IsSound cfg plain no_rows.delegations
  unfolding get
  no_rows-IsSound = record { keyed = λ k d h. absurd (cc h); valid = λ k d h. absurd (cc h) }

  -- From an empty ledger, any calls at all leave sound rows.
  pub reached-IsSound :
      (cs : List Call)
      → AllFit cfg no_rows cs
      → (plain ≡ true → AllAskPlain cs)
      → IsSound cfg plain (perform_all cfg no_rows cs).delegations
  reached-IsSound cs h asks = perform_all-IsSound no_rows cs no_rows-IsSound h asks

module _ (cfg : Config) (plain : Bool) (rows : Table Delegation)
    (sound : IsSound cfg plain rows) where
  -- The row at the start of the chain, with what it says of the last one.
  abbrev pub HasRoot : Delegation → Type 0
  HasRoot d =
      (k : Text) × (r : Delegation) × (get rows k ≡ some r)
      × (is_empty r.parent_delegation_id ≡ true)
      × (is_blank r.authorized_by ≡ false)
      × (plain ≡ true → Narrower d.scope r.scope)

  pub has_root :
      (n : ℕ) (k : Text) (d : Delegation)
      → d.depth ≡ n
      → get rows k ≡ some d
      → Linked plain rows d
      → HasRoot d
  has_root n k d e g (root r z c) = (k, d, g, r, (sound.valid k d g).anchored, λ t c h. h)
  has_root zero k d e g (child f p h z c w) = absurd (omega arith)
  has_root (suc n) k d e g (child f p h z c w) =
      let (j, r, gr, er, br, wr) =
        has_root n d.parent_delegation_id p (omega arith) h
          (sound.valid d.parent_delegation_id p h).linked in
      (j, r, gr, er, br, λ t c a. wr t c (w t c a))

  -- The names seen so far belong to rows further down than the row at hand.
  abbrev pub AllDeeper : ℕ → List Text → Type 0
  AllDeeper n seen =
      (s : Text) → Memᴰ s seen → (e : Delegation) × (get rows s ≡ some e) × (n < e.depth)

  unseen :
      (k : Text) (d : Delegation) (seen : List Text)
      → get rows k ≡ some d
      → AllDeeper d.depth seen
      → any (text_eq d.id) seen ≡ false
  unseen k d seen g h = elim (Bool-cases (any (text_eq d.id) seen)) [
    | inr e ↦ e
    | inl e ↦
        let (s, m, t) = Memᴰ-any (text_eq d.id) seen e in
        let (b, gb, lt) = h s m in
        let q : d ≡ b =
          some-injective _ _
            (sym g ∙ ap (get rows) (sym (sound.keyed k d g) ∙ eq_of_text_eq d.id s t) ∙ gb) in
        absurd (omega (arith, ap (λ (y : Delegation). y.depth) q))
  ]

  AllDeeper-cons :
      (k : Text) (d p : Delegation) (seen : List Text)
      → get rows k ≡ some d
      → d.depth ≡ p.depth + 1
      → AllDeeper d.depth seen
      → AllDeeper p.depth (d.id ∷ seen)
  AllDeeper-cons k d p seen g e h s (Memᴰ.head q) =
      (d, ap (get rows) (q ∙ sound.keyed k d g) ∙ g, omega arith)
  AllDeeper-cons k d p seen g e h s (Memᴰ.tail m) = let (b, gb, lt) = h s m in (b, gb, omega arith)

  abbrev pub ids : List Delegation → List Text
  ids = map (λ (d : Delegation). d.id)

  regroup :
      (a : List Text) (x y : Text) (b : List Text)
      → (a ++ x ∷ []) ++ (y ∷ b) ≡ ((a ++ x ∷ []) ++ y ∷ []) ++ b
  regroup a x y b = sym (append_assoc (a ++ x ∷ []) (y ∷ []) b)

  pub walk-chain :
      (fuel : ℕ) (k : Text) (d : Delegation) (seen : List Text) (acc : List Delegation)
      → get rows k ≡ some d
      → Linked plain rows d
      → d.depth < fuel
      → AllDeeper d.depth seen
      → (ds : List Delegation) × (walk fuel rows (some d) seen acc ≡ some ds)
        × (ids ds ≡ (d.chain ++ d.id ∷ []) ++ ids acc)
        × (length ds ≡ d.depth + 1 + length acc)
  unfolding walk
  walk-chain zero k d seen acc g l h u = absurd (omega arith)
  walk-chain (suc fuel) k d seen acc g (root e z c) h u = (
    d ∷ acc,
    rw (unseen k d seen g u, e),
    ap (λ ys. (ys ++ d.id ∷ []) ++ ids acc) (sym c),
    omega arith,
  )
  walk-chain (suc fuel) k d seen acc g (child e p gp z c w) h u =
      let (ds, run, names, size) =
        walk-chain fuel d.parent_delegation_id p (d.id ∷ seen) (d ∷ acc) gp
          (sound.valid d.parent_delegation_id p gp).linked (omega arith)
          (AllDeeper-cons k d p seen g z u) in
      (
        ds,
        rw (unseen k d seen g u, e, gp) run,
        names
            ∙ regroup p.chain p.id d.id (ids acc)
            ∙ ap (λ ys. (ys ++ d.id ∷ []) ++ ids acc) (sym c),
        omega arith,
      )
