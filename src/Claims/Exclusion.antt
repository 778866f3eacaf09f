-- ===== src/Claims/Exclusion.antt =====
-- Claims of different lanes that are active in one session do not overlap.
use openburrow.Prelude.{
  ℕ, ◌≤◌, ◌≡◌, refl, sym, ap, ◌∙◌, subst, inl, inr, ◌⊎◌, Bool, true, false, Option, none, some,
  some-injective, List, [], ◌∷◌, ◌++◌, Memᴰ, any, select-Memᴰ, any-Memᴰ, Memᴰ-any, length, Text,
  codes, text_eq, text_eq_refl, eq_of_text_eq, text_eq_iff, is_empty, Table, get, save, get-save,
  Memᴰ-get, if◌then◌else◌, Bool-cases, arith,
}
use openburrow.Claims.{
  Claim, is_live, overlaps, release, active_claims, conflicting_claims, Ask, for_step, for_file,
  new_claim, decide, claim_create, save_claim, save_after, stored, breaks_unique, Answer, created,
  forced,
}

pub text_eq_sym : (s t : Text) → text_eq s t ≡ text_eq t s
text_eq_sym s t = ground (arith, text_eq_iff s t, text_eq_iff t s)

meets : List Text → List Text → Bool
meets xs ys = any (λ x. any (λ y. text_eq x y) ys) xs

meets_flip : (xs ys : List Text) → meets xs ys ≡ true → meets ys xs ≡ true
unfolding meets
meets_flip xs ys h =
    let (x, m, hx) = Memᴰ-any (λ a. any (λ y. text_eq a y) ys) xs h in
    let (y, n, hy) = Memᴰ-any (λ b. text_eq x b) ys hx in
    any-Memᴰ (λ b. any (λ a. text_eq b a) xs) y ys n
      (any-Memᴰ (λ a. text_eq y a) x xs m (text_eq_sym y x ∙ hy))

meets_sym : (xs ys : List Text) → meets xs ys ≡ meets ys xs
meets_sym xs ys = elim (Bool-cases (meets xs ys)) [
  | inl e ↦ e ∙ sym (meets_flip xs ys e)
  | inr e ↦ elim (Bool-cases (meets ys xs)) [
    | inl f ↦ absurd (cc (e, meets_flip ys xs f))
    | inr f ↦ e ∙ sym f
  ]
]

pub save_claim-some :
    (c : Claim) (rows rows' : Table Claim)
    → save_claim c rows ≡ some rows'
    → rows' ≡ save rows c.id c
unfolding save_claim
save_claim-some c rows rows' h = elim (Bool-cases (breaks_unique c rows)) [
  | inl e ↦ absurd (cc (rw e at h))
  | inr e ↦ sym (some-injective _ _ (rw e at h))
]

module _ (fnmatch : Text → Text → Bool) where
  pub overlaps_sym : (a b : Claim) → overlaps fnmatch a b ≡ overlaps fnmatch b a
  unfolding overlaps meets
  overlaps_sym a b = ground (
    arith,
    text_eq_sym a.target b.target,
    meets_sym (a.patterns ++ a.target ∷ []) (b.patterns ++ b.target ∷ []),
  )

  -- Rows are stored under their identifiers, and two active claims of one session and different lanes do not overlap.
  pub record IsExclusive (rows : Table Claim) : Type 0 where
    pub keyed : (i : Text) (a : Claim) → get rows i ≡ some a → a.id ≡ i
    pub apart :
        (i j : Text) (a b : Claim)
        → get rows i ≡ some a
        → get rows j ≡ some b
        → is_live a ≡ true
        → is_live b ≡ true
        → a.session_id ≡ b.session_id
        → text_eq a.lane_id b.lane_id ≡ false
        → overlaps fnmatch a b ≡ false

  -- An active claim does not overlap an active one of another lane, in the session and under another identifier.
  pub Clear : Claim → Table Claim → Type 0
  Clear c rows =
      is_live c ≡ true
      → (j : Text) (b : Claim) → get rows j ≡ some b
      → text_eq j c.id ≡ false
      → is_live b ≡ true
      → b.session_id ≡ c.session_id
      → text_eq b.lane_id c.lane_id ≡ false
      → overlaps fnmatch c b ≡ false

  conflict-mem :
      (rows : Table Claim) (c : Claim) (j : Text) (b : Claim)
      → IsExclusive rows
      → get rows j ≡ some b
      → text_eq j c.id ≡ false
      → is_live b ≡ true
      → b.session_id ≡ c.session_id
      → text_eq b.lane_id c.lane_id ≡ false
      → overlaps fnmatch c b ≡ true
      → Memᴰ b (conflicting_claims fnmatch c.session_id c rows)
  unfolding conflicting_claims active_claims
  conflict-mem rows c j b w held other live same lanes over =
      let distinct : text_eq b.id c.id ≡ false =
        ap (λ x. text_eq x c.id) (w.keyed j b held) ∙ other in
      let home : text_eq b.session_id c.session_id ≡ true = rw same (text_eq_refl c.session_id) in
      select-Memᴰ _ b _ (select-Memᴰ _ b _ (Memᴰ-get rows j b held) (rw (home, live) refl))
        (rw (distinct, lanes, over) refl)

  under-save :
      (rows : Table Claim) (c : Claim) (i : Text) (a : Claim)
      → get (save rows c.id c) i ≡ some a
      → ((i ≡ c.id) × (a ≡ c)) ⊎ ((text_eq i c.id ≡ false) × (get rows i ≡ some a))
  under-save rows c i a h =
      let e = get-save rows c.id i c in
      elim (Bool-cases (text_eq c.id i)) [
        | inl x ↦ inl (
          sym (eq_of_text_eq c.id i x),
          some-injective _ _ (sym h ∙ e ∙ ap (λ y. if y then some c else get rows i) x),
        )
        | inr x ↦
            inr (text_eq_sym i c.id ∙ x, sym (e ∙ ap (λ y. if y then some c else get rows i) x) ∙ h)
      ]

  pub save-IsExclusive :
      (rows : Table Claim) (c : Claim)
      → IsExclusive rows
      → Clear c rows
      → IsExclusive (save rows c.id c)
  unfolding Clear
  save-IsExclusive rows c w clear = record {
    keyed = λ i a h. elim (under-save rows c i a h) [
      | inl (e, f) ↦ ap (λ (x : Claim). x.id) f ∙ sym e
      | inr (e, f) ↦ w.keyed i a f
    ];
    apart = λ i j a b ha hb la lb s l. elim (under-save rows c i a ha) [
      | inl (e, f) ↦ elim (under-save rows c j b hb) [
        | inl (e', f') ↦ absurd (
            cc (
              sym l
              ∙ ap (λ (x : Claim). text_eq x.lane_id b.lane_id) (f ∙ sym f')
              ∙ text_eq_refl b.lane_id))
        | inr (e', f') ↦
            ap (λ x. overlaps fnmatch x b) f
            ∙ clear (sym (ap is_live f) ∙ la) j b f' e' lb
                (sym s ∙ ap (λ (x : Claim). x.session_id) f)
                (text_eq_sym b.lane_id c.lane_id
                  ∙ sym (ap (λ (x : Claim). text_eq x.lane_id b.lane_id) f)
                  ∙ l)
      ]
      | inr (e, f) ↦ elim (under-save rows c j b hb) [
        | inl (e', f') ↦
            overlaps_sym a b
            ∙ ap (λ x. overlaps fnmatch x a) f'
            ∙ clear (sym (ap is_live f') ∙ lb) i a f e la (s ∙ ap (λ (x : Claim). x.session_id) f')
                (sym (ap (λ (x : Claim). text_eq a.lane_id x.lane_id) f') ∙ l)
        | inr (e', f') ↦ w.apart i j a b f f' la lb s l
      ]
    ];
  }

  Clear-nil :
      (rows : Table Claim) (c : Claim)
      → IsExclusive rows
      → conflicting_claims fnmatch c.session_id c rows ≡ []
      → Clear c rows
  unfolding Clear
  Clear-nil rows c w none_found on j b held other live same lanes =
      elim (Bool-cases (overlaps fnmatch c b)) [
        | inl o ↦
            elim (subst (λ (bs : List Claim). Memᴰ b bs) none_found
              (conflict-mem rows c j b w held other live same lanes o)) [ ]
        | inr o ↦ o
      ]

  only-member : (b h : Claim) → Memᴰ b (h ∷ []) → b ≡ h
  only-member b h (Memᴰ.head e) = e
  only-member b h (Memᴰ.tail m) = elim m [ ]

  -- With the one holder released, nothing is in the way.
  Clear-released :
      (rows : Table Claim) (c h : Claim) (now : ℕ) (reason : Text)
      → IsExclusive rows
      → conflicting_claims fnmatch c.session_id c rows ≡ h ∷ []
      → Clear c (save rows h.id (release now reason h))
  unfolding Clear release is_live
  Clear-released rows c h now reason w found on j b held other live same lanes =
      elim (under-save rows (release now reason h) j b held) [
        | inl (e, f) ↦ absurd (cc (live, ap is_live f))
        | inr (e, f) ↦ elim (Bool-cases (overlaps fnmatch c b)) [
          | inl o ↦
              let m =
                subst (λ (bs : List Claim). Memᴰ b bs) found
                  (conflict-mem rows c j b w f other live same lanes o) in
              let k : j ≡ h.id =
                sym (w.keyed j b f) ∙ ap (λ (x : Claim). x.id) (only-member b h m) in
              absurd (cc (e, text_eq_refl h.id, k))
          | inr o ↦ o
        ]
      ]

  pub Clear-dead : (rows : Table Claim) (c : Claim) → is_live c ≡ false → Clear c rows
  unfolding Clear
  Clear-dead rows c off on j b held other live same lanes = absurd (cc (off, on))

  save_claim-IsExclusive :
      (rows rows' : Table Claim) (c : Claim)
      → IsExclusive rows
      → Clear c rows
      → save_claim c rows ≡ some rows'
      → IsExclusive rows'
  save_claim-IsExclusive rows rows' c w clear h =
      subst IsExclusive (sym (save_claim-some c rows rows' h)) (save-IsExclusive rows c w clear)

  stored-IsExclusive :
      (answer : Answer) (rows : Table Claim) (o : Option (Table Claim))
      → IsExclusive rows
      → ((rows' : Table Claim) → o ≡ some rows' → IsExclusive rows')
      → IsExclusive (stored answer rows o).1
  stored-IsExclusive answer rows none w f = w
  stored-IsExclusive answer rows (some rows') w f = f rows' refl

  -- A claim that may be put down without the other, which cannot stand in its way any more.
  save_after-IsExclusive :
      (rows rows' : Table Claim) (c d : Claim) (o : Option (Table Claim))
      → save_claim d rows ≡ o
      → IsExclusive (save rows d.id d)
      → Clear c (save rows d.id d)
      → save_after c o ≡ some rows'
      → IsExclusive rows'
  unfolding save_after
  save_after-IsExclusive rows rows' c d none e w clear h = absurd (cc h)
  save_after-IsExclusive rows rows' c d (some mid) e w clear h =
      let q = save_claim-some d rows mid e in
      save_claim-IsExclusive mid rows' c (subst IsExclusive (sym q) w)
        (subst (Clear c) (sym q) clear) h

  decide-IsExclusive :
      (now : ℕ) (admin : Text) (ask : Ask) (c : Claim) (rows : Table Claim) (found : List Claim)
      → IsExclusive rows
      → conflicting_claims fnmatch c.session_id c rows ≡ found
      → (ask.force ≡ false) ⊎ (length found ≤ 1)
      → IsExclusive (decide now admin ask c found rows).1
  unfolding decide
  decide-IsExclusive now admin ask c rows [] w e h =
      stored-IsExclusive (created c) rows (save_claim c rows) w
        (λ rows' h'. save_claim-IsExclusive rows rows' c w (Clear-nil rows c w e) h')
  decide-IsExclusive now admin ask c rows (holder ∷ others) w e (inl h) = rw h w
  decide-IsExclusive now admin ask c rows (holder ∷ []) w e (inr h) =
      let reason = codes "force-claimed by " ++ ask.by ++ codes ": " ++ ask.reason in
      let freed =
        save-IsExclusive rows (release now reason holder) w
          (Clear-dead rows (release now reason holder) (unfold release is_live in refl)) in
      elim (Bool-cases ask.force) [
        | inr f ↦ rw f w
        | inl f ↦ elim (Bool-cases (text_eq ask.by admin)) [
          | inr a ↦ rw (f, a) w
          | inl a ↦
              let mid = save_claim (release now reason holder) rows in
              rw (f, a)
                (stored-IsExclusive (forced c holder) rows (save_after c mid) w (λ rows' g.
                  save_after-IsExclusive rows rows' c (release now reason holder) mid refl freed
                    (unfold release in Clear-released rows c holder now reason w e) g))
        ]
      ]
  decide-IsExclusive now admin ask c rows (holder ∷ second ∷ others) w e (inr h) =
      absurd (omega (arith, h))

  session-new_claim :
      (now : ℕ) (fresh : Text) (ask : Ask) → (new_claim now fresh ask).session_id ≡ ask.session_id
  unfolding new_claim for_step for_file
  session-new_claim now fresh ask = ground arith

  -- A request for a claim that is not forced, or that meets at most one claim in its way, keeps the active claims of
  -- different lanes in a session from overlapping.
  pub claim_create-IsExclusive :
      (now : ℕ) (admin fresh : Text) (ask : Ask) (rows : Table Claim)
      → IsExclusive rows
      → (ask.force ≡ false)
        ⊎ (length (conflicting_claims fnmatch ask.session_id (new_claim now fresh ask) rows) ≤ 1)
      → IsExclusive (claim_create fnmatch now admin fresh ask rows).1
  unfolding claim_create
  claim_create-IsExclusive now admin fresh ask rows w h =
      let c = new_claim now fresh ask in
      elim (Bool-cases (is_empty ask.target)) [
        | inl e ↦ rw e w
        | inr e ↦ rw e (
            decide-IsExclusive now admin ask c rows
              (conflicting_claims fnmatch ask.session_id c rows) w
              (ap (λ x. conflicting_claims fnmatch x c rows) (session-new_claim now fresh ask)) h)
      ]
