-- ===== src/Claims/Unique.antt =====
-- The unique constraint of the claims, `uq_claim_active` of
-- packages/openburrow-core/src/openburrow/core/db/models.py, where a claim is released.
use openburrow.Prelude.{
  ℕ, ◌≡◌, refl, ap, ◌∙◌, Bool, true, false, not, ◌||◌, none, some, List, [], ◌∷◌, ◌++◌, all, Text,
  text_eq, text_eq_refl, eq_of_text_eq, some-injective, Table, get, Bool-cases, inl, inr, arith,
  ◌==◌,
}
use openburrow.Claims.{
  Claim, ClaimStatus, release, kind_index, status_index, breaks_unique, save_claim, active_claims,
  release_first, claim_release,
}

-- The row stands where another row keeps the claim from being saved.
IsTaken : Claim → Text → Claim → Type 0
IsTaken c k r =
    (text_eq k c.id ≡ false)
    × (r.session_id ≡ c.session_id)
    × (r.target ≡ c.target)
    × (r.kind ≡ c.kind)
    × (r.status ≡ c.status)

same_number : (m n : ℕ) → m ≡ n → (m == n) ≡ true
same_number m n h = ground arith

IsTaken-breaks :
    (c r : Claim) (k : Text) (rows : Table Claim)
    → get rows k ≡ some r
    → IsTaken c k r
    → breaks_unique c rows ≡ true
unfolding get breaks_unique IsTaken
IsTaken-breaks c r k [] h t = absurd (cc h)
IsTaken-breaks c r k ((j, d) ∷ rows) h t =
    let later = λ (e : get rows k ≡ some r). IsTaken-breaks c r k rows e t in
    let (other, session, target, kind, status) = t in
    elim (Bool-cases (text_eq j k)) [
      | inl e ↦
          let same : d ≡ r = some-injective _ _ (rw e at h) in
          let here : text_eq j c.id ≡ false =
            ap (λ x. text_eq x c.id) (eq_of_text_eq j k e) ∙ other in
          let by_kind =
            same_number (kind_index d.kind) (kind_index c.kind)
              (ap (λ (x : Claim). kind_index x.kind) same ∙ ap kind_index kind) in
          let by_status =
            same_number (status_index d.status) (status_index c.status)
              (ap (λ (x : Claim). status_index x.status) same ∙ ap status_index status) in
          let by_session : text_eq d.session_id c.session_id ≡ true =
            ap (λ x. text_eq x c.session_id) (ap (λ (x : Claim). x.session_id) same ∙ session)
            ∙ text_eq_refl c.session_id in
          let by_target : text_eq d.target c.target ≡ true =
            ap (λ x. text_eq x c.target) (ap (λ (x : Claim). x.target) same ∙ target)
            ∙ text_eq_refl c.target in
          rw (here, by_session, by_target, by_kind, by_status) refl
      | inr e ↦ or_true _ (later (rw e at h))
    ]
  where
    or_true : (a : Bool) {b : Bool} → b ≡ true → (a || b) ≡ true
    or_true a h = ground arith

release_first-skip :
    (now : ℕ) (target reason : Text) (before after : List Claim) (rows : Table Claim)
    → all (λ (b : Claim). not (text_eq b.target target)) before ≡ true
    → release_first now target reason (before ++ after) rows
      ≡ release_first now target reason after rows
unfolding release_first
release_first-skip now target reason [] after rows h = refl
release_first-skip now target reason (b ∷ before) after rows h =
    let off : text_eq b.target target ≡ false = ground arith in
    rw off (release_first-skip now target reason before after rows (ground arith))

-- Where a claim of the session on a resource was released before and its row is still there, the release of a later
-- claim of the same kind on it fails on the unique constraint, and the claim stays active: no row is changed.
pub claim_release-again :
    (now : ℕ) (session target reason k : Text) (c r : Claim) (before after : List Claim)
    (rows : Table Claim)
    → active_claims session rows ≡ before ++ c ∷ after
    → all (λ (b : Claim). not (text_eq b.target target)) before ≡ true
    → text_eq c.target target ≡ true
    → get rows k ≡ some r
    → text_eq k c.id ≡ false
    → r.session_id ≡ c.session_id
    → r.target ≡ c.target
    → r.kind ≡ c.kind
    → r.status ≡ ClaimStatus.released
    → claim_release now session target reason rows ≡ (none, rows)
unfolding claim_release release_first save_claim IsTaken release
claim_release-again now session target reason k c r before after rows claims others on held apart
      home same kind status =
    let broken : breaks_unique (release now reason c) rows ≡ true =
      IsTaken-breaks (release now reason c) r k rows held (apart, home, same, kind, status) in
    ap (λ cs. release_first now target reason cs rows) claims
    ∙ release_first-skip now target reason before (c ∷ after) rows others
    ∙ rw (on, broken) refl
