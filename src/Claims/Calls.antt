-- ===== src/Claims/Calls.antt =====
-- Releases and expiries, and any calls in a row.
use openburrow.Prelude.{
  ℕ, ◌≡◌, refl, sym, ap, ◌∙◌, inl, inr, ◌⊎◌, Bool, false, Option, none, some, some-injective, List,
  [], ◌∷◌, Text, text_eq, Table, get, save, any, ◌&&◌, if◌then◌else◌, all, arith, true, not,
  Bool-cases, subst,
}
use openburrow.Claims.{
  Claim, is_live, is_over, release, expire, expire_claims, active_claims, Ask, claim_create,
  claim_release, release_first, expire_all, released_row, save_claim, breaks_unique,
}
use openburrow.Claims.Exclusion.{
  IsExclusive, save-IsExclusive, save_claim-some, Clear-dead, claim_create-IsExclusive,
}

-- An expiry keeps the row, or its identifier and no longer active.
Aged : Claim → Claim → Type 0
Aged b a = (a ≡ b) ⊎ ((a.id ≡ b.id) × (is_live a ≡ false))

Aged-expire : (now : ℕ) (b : Claim) → Aged b (if is_over now b then expire now b else b)
unfolding Aged expire is_live
Aged-expire now b = elim (Bool-cases (is_over now b)) [
  | inl e ↦ rw e (inr (refl, refl))
  | inr e ↦ rw e (inl refl)
]

get-expire_all :
    (now : ℕ) (rows : Table Claim) (i : Text) (a : Claim)
    → get (expire_all now rows) i ≡ some a
    → (b : Claim) × (get rows i ≡ some b) × Aged b a
unfolding get expire_all
get-expire_all now [] i a h = absurd (cc h)
get-expire_all now ((k, c) ∷ rows) i a h =
    let later = λ (e : get (expire_all now rows) i ≡ some a). get-expire_all now rows i a e in
    elim (Bool-cases (text_eq k i)) [
      | inl e ↦ rw e (c, refl, subst (Aged c) (some-injective _ _ (rw e at h)) (Aged-expire now c))
      | inr e ↦ rw e (later (rw e at h))
    ]

-- The rows after a transaction, as they were where it fails.
abbrev kept : Table Claim → Option (Table Claim) → Table Claim
kept rows none = rows
kept rows (some rows') = rows'

module _ (fnmatch : Text → Text → Bool) where
  expire_all-IsExclusive :
      (now : ℕ) (rows : Table Claim)
      → IsExclusive fnmatch rows
      → IsExclusive fnmatch (expire_all now rows)
  unfolding Aged
  expire_all-IsExclusive now rows w = record {
    keyed = λ i a h.
        let (b, g, aged) = get-expire_all now rows i a h in
        elim aged [
          | inl e ↦ ap (λ (x : Claim). x.id) e ∙ w.keyed i b g
          | inr (e, off) ↦ e ∙ w.keyed i b g
        ];
    apart = λ i j a b ha hb la lb s l.
        let (a', ga, aged) = get-expire_all now rows i a ha in
        let (b', gb, aged') = get-expire_all now rows j b hb in
        elim aged [
          | inr (e, off) ↦ absurd (cc (la, off))
          | inl e ↦ elim aged' [
            | inr (e', off) ↦ absurd (cc (lb, off))
            | inl e' ↦ w.apart i j a b (ga ∙ ap some (sym e)) (gb ∙ ap some (sym e')) la lb s l
          ]
        ];
  }

  expire_claims-IsExclusive :
      (now : ℕ) (rows : Table Claim)
      → IsExclusive fnmatch rows
      → IsExclusive fnmatch (kept rows (expire_claims now rows))
  unfolding expire_claims
  expire_claims-IsExclusive now rows w =
      let bad =
        any
          (λ (row : Text × Claim).
            is_over now row.1 && breaks_unique (expire now row.1) (expire_all now rows))
          rows in
      elim (Bool-cases bad) [ inl e ↦ rw e w | inr e ↦ rw e (expire_all-IsExclusive now rows w) ]

  released_row-IsExclusive :
      (rows : Table Claim) (c : Claim) (o : Option (Table Claim))
      → save_claim c rows ≡ o
      → IsExclusive fnmatch rows
      → IsExclusive fnmatch (save rows c.id c)
      → IsExclusive fnmatch (released_row rows o).1
  released_row-IsExclusive rows c none e w freed = w
  released_row-IsExclusive rows c (some rows') e w freed =
      subst (IsExclusive fnmatch) (sym (save_claim-some c rows rows' e)) freed

  release_first-IsExclusive :
      (now : ℕ) (target reason : Text) (cs : List Claim) (rows : Table Claim)
      → IsExclusive fnmatch rows
      → IsExclusive fnmatch (release_first now target reason cs rows).1
  unfolding release_first
  release_first-IsExclusive now target reason [] rows w = w
  release_first-IsExclusive now target reason (c ∷ cs) rows w =
      let rest = release_first-IsExclusive now target reason cs rows w in
      let freed =
        save-IsExclusive fnmatch rows (release now reason c) w
          (Clear-dead fnmatch rows (release now reason c) (unfold release is_live in refl)) in
      elim (Bool-cases (text_eq c.target target)) [
        | inl e ↦
            let o = save_claim (release now reason c) rows in
            rw e (released_row-IsExclusive rows (release now reason c) o refl w freed)
        | inr e ↦ rw e rest
      ]

-- The calls that the claims of a daemon see.
pub data Call : Type 0 where
  claiming : ℕ → Text → Text → Ask → Call
  releasing : ℕ → Text → Text → Text → Call
  listing : ℕ → Call

-- Whether a call is no forced claim.
unfoldable pub is_calm : Call → Bool
is_calm (claiming now admin fresh ask) = not ask.force
is_calm (releasing now session target reason) = true
is_calm (listing now) = true

unfoldable pub perform : (Text → Text → Bool) → Call → Table Claim → Table Claim
perform fnmatch (claiming now admin fresh ask) rows =
    (claim_create fnmatch now admin fresh ask rows).1
perform fnmatch (releasing now session target reason) rows =
    (claim_release now session target reason rows).1
perform fnmatch (listing now) rows = kept rows (expire_claims now rows)

unfoldable pub perform_all : (Text → Text → Bool) → List Call → Table Claim → Table Claim
perform_all fnmatch [] rows = rows
perform_all fnmatch (c ∷ cs) rows = perform_all fnmatch cs (perform fnmatch c rows)

module _ (fnmatch : Text → Text → Bool) where
  empty-IsExclusive : IsExclusive fnmatch []
  unfolding get
  empty-IsExclusive = record { keyed = λ i a h. absurd (cc h); apart = λ i j a b h. absurd (cc h) }

  perform-IsExclusive :
      (c : Call) (rows : Table Claim)
      → is_calm c ≡ true
      → IsExclusive fnmatch rows
      → IsExclusive fnmatch (perform fnmatch c rows)
  unfolding perform is_calm claim_release
  perform-IsExclusive (claiming now admin fresh ask) rows calm w =
      claim_create-IsExclusive fnmatch now admin fresh ask rows w (inl (ground arith))
  perform-IsExclusive (releasing now session target reason) rows calm w =
      release_first-IsExclusive fnmatch now target reason (active_claims session rows) rows w
  perform-IsExclusive (listing now) rows calm w = expire_claims-IsExclusive fnmatch now rows w

  from-IsExclusive :
      (cs : List Call) (rows : Table Claim)
      → all is_calm cs ≡ true
      → IsExclusive fnmatch rows
      → IsExclusive fnmatch (perform_all fnmatch cs rows)
  unfolding perform_all
  from-IsExclusive [] rows calm w = w
  from-IsExclusive (c ∷ cs) rows calm w =
      from-IsExclusive cs (perform fnmatch c rows) (ground arith)
        (perform-IsExclusive c rows (ground arith) w)

  -- First claim wins: after any calls of which none is a forced claim (claims, releases, and listings with their
  -- expiries), no two active claims of different lanes in a session overlap.
  pub perform_all-IsExclusive :
      (cs : List Call) → all is_calm cs ≡ true → IsExclusive fnmatch (perform_all fnmatch cs [])
  perform_all-IsExclusive cs calm = from-IsExclusive cs [] calm empty-IsExclusive
