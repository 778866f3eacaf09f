-- ===== src/Claims/Force.antt =====
-- A forced claim against more than one holder.
use openburrow.Prelude.{
  ℕ, ◌≡◌, refl, sym, ap, ◌∙◌, subst, inl, inr, Bool, true, false, not, ◌&&◌, Option, none, some,
  List, ◌∷◌, map, Memᴰ, Memᴰ-select, Text, codes, text_eq, text_eq_refl, text_eq_iff, eq_of_text_eq,
  is_empty, Table, get, save, get-save, arith, ◌++◌, Bool-cases,
}
use openburrow.Claims.{
  Claim, is_live, overlaps, release, active_claims, conflicting_claims, Ask, new_claim, for_step,
  for_file, decide, claim_create, save_claim, save_after, stored, forced,
}
use openburrow.Claims.Exclusion.{IsExclusive, text_eq_sym, save_claim-some}

live-new_claim :
    (now : ℕ) (fresh : Text) (ask : Ask)
    → (is_live (new_claim now fresh ask) ≡ true)
      × ((new_claim now fresh ask).session_id ≡ ask.session_id)
unfolding new_claim for_step for_file is_live
live-new_claim now fresh ask = (ground arith, ground arith)

-- Why a holder is released.
abbrev forcing : Ask → Text
forcing ask = codes "force-claimed by " ++ ask.by ++ codes ": " ++ ask.reason

stored-forced :
    (c holder : Claim) (rows : Table Claim) (o : Option (Table Claim))
    → (stored (forced c holder) rows o).0 ≡ forced c holder
    → o ≡ some (stored (forced c holder) rows o).1
stored-forced c holder rows none h = absurd (cc h)
stored-forced c holder rows (some rows') h = refl

saved_both :
    (c d : Claim) (rows rows' : Table Claim) (o : Option (Table Claim))
    → save_claim d rows ≡ o
    → save_after c o ≡ some rows'
    → rows' ≡ save (save rows d.id d) c.id c
unfolding save_after
saved_both c d rows rows' none e h = absurd (cc h)
saved_both c d rows rows' (some mid) e h =
    save_claim-some c mid rows' h
    ∙ ap (λ (t : Table Claim). save t c.id c) (save_claim-some d rows mid e)

decide-forced :
    (now : ℕ) (admin : Text) (ask : Ask) (c holder : Claim) (others : List Claim)
    (rows : Table Claim)
    → (decide now admin ask c (holder ∷ others) rows).0 ≡ forced c holder
    → (decide now admin ask c (holder ∷ others) rows).1
      ≡ save (save rows holder.id (release now (forcing ask) holder)) c.id c
unfolding decide
decide-forced now admin ask c holder others rows h = elim (Bool-cases ask.force) [
  | inr f ↦ absurd (cc (rw f at h))
  | inl f ↦ elim (Bool-cases (text_eq ask.by admin)) [
    | inr a ↦ absurd (cc (rw (f, a) at h))
    | inl a ↦
        let d = release now (forcing ask) holder in
        let o = save_claim d rows in
        let e = stored-forced c holder rows (save_after c o) (rw (f, a) at h) in
        rw (f, a) (unfold release in saved_both c d rows _ o refl e)
  ]
]

module _ (fnmatch : Text → Text → Bool) where
  -- What it means to be in the way.
  in_the_way :
      (rows : Table Claim) (session : Text) (c b : Claim)
      → Memᴰ b (conflicting_claims fnmatch session c rows)
      → (text_eq b.id c.id ≡ false)
        × (text_eq b.lane_id c.lane_id ≡ false)
        × (overlaps fnmatch c b ≡ true)
        × (b.session_id ≡ session)
        × (is_live b ≡ true)
  unfolding conflicting_claims active_claims
  in_the_way rows session c b m =
      let (n, h) =
        Memᴰ-select
          (λ (other : Claim).
            not (text_eq other.id c.id)
            && (not (text_eq other.lane_id c.lane_id) && overlaps fnmatch c other))
          b (active_claims session rows) m in
      let (k, g) =
        Memᴰ-select (λ (x : Claim). text_eq x.session_id session && is_live x) b
          (map (λ (row : Text × Claim). row.1) rows) n in
      (
        ground arith,
        ground arith,
        ground arith,
        eq_of_text_eq b.session_id session (ground arith),
        ground arith,
      )

  module _ (now : ℕ) (admin fresh : Text) (ask : Ask) (rows : Table Claim) (holder second : Claim)
      (others : List Claim) (some_target : is_empty ask.target ≡ false)
      (found : conflicting_claims fnmatch ask.session_id (new_claim now fresh ask) rows
        ≡ holder ∷ second ∷ others)
      (answer : (claim_create fnmatch now admin fresh ask rows).0
        ≡ forced (new_claim now fresh ask) holder) where
    rows-forced :
        (claim_create fnmatch now admin fresh ask rows).1
        ≡ save
            (save rows holder.id (release now (forcing ask) holder))
            (new_claim now fresh ask).id
            (new_claim now fresh ask)
    unfolding claim_create
    rows-forced =
        rw (some_target, found)
          (decide-forced now admin ask (new_claim now fresh ask) holder (second ∷ others) rows
            (rw (some_target, found) at answer))

    -- Where an owner's forced claim goes through against two claims or more, only the first is released: its row and that
    -- of the new claim are the only ones that change, and where the second is stored under its own identifier, it
    -- is still active and overlaps the new claim of another lane.
    pub claim_create-forced :
        get rows second.id ≡ some second
        → text_eq holder.id second.id ≡ false
        → (get (claim_create fnmatch now admin fresh ask rows).1 holder.id
            ≡ some (release now (forcing ask) holder))
          × ((k : Text)
              → text_eq holder.id k ≡ false
              → text_eq (new_claim now fresh ask).id k ≡ false
              → get (claim_create fnmatch now admin fresh ask rows).1 k ≡ get rows k)
          × (¬ IsExclusive fnmatch (claim_create fnmatch now admin fresh ask rows).1)
    claim_create-forced held two =
        let c = new_claim now fresh ask in
        let freed = release now (forcing ask) holder in
        let rows1 = save rows holder.id freed in
        let (other, _, _, _, _) =
          in_the_way rows ask.session_id c holder
            (subst (λ (bs : List Claim). Memᴰ holder bs) (sym found) (Memᴰ.head refl)) in
        let (ids, lanes, over, home, live) =
          in_the_way rows ask.session_id c second (
            subst (λ (bs : List Claim). Memᴰ second bs) (sym found) (Memᴰ.tail (Memᴰ.head refl))) in
        let (on, session) = live-new_claim now fresh ask in
        let here : get (save rows1 c.id c) c.id ≡ some c =
          rw (get-save rows1 c.id c.id c, text_eq_refl c.id) refl in
        let there : get (save rows1 c.id c) second.id ≡ some second = ground (
          arith,
          get-save rows1 c.id second.id c,
          get-save rows holder.id second.id freed,
          text_eq_iff c.id second.id,
          text_eq_iff second.id c.id,
        ) in
        (
          rw rows-forced (
              rw (get-save rows1 c.id holder.id c, text_eq_sym c.id holder.id, other)
                (rw (get-save rows holder.id holder.id freed, text_eq_refl holder.id) refl)),
          λ k apart new.
              rw rows-forced
                (rw (get-save rows1 c.id k c, new, get-save rows holder.id k freed, apart)),
          λ w.
              let w' : IsExclusive fnmatch (save rows1 c.id c) =
                subst (IsExclusive fnmatch) rows-forced w in
              cc (
                over,
                w'.apart c.id second.id c second here there on live (session ∙ sym home)
                    (text_eq_sym c.lane_id second.lane_id ∙ lanes),
              ),
        )
