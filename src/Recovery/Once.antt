-- ===== src/Recovery/Once.antt =====
-- Which checkpoints a resume uses.
use openburrow.Prelude.{
  ℕ, ◌≡◌, refl, sym, ap, ◌∙◌, subst, Bool, true, false, not, ◌&&◌, is_some, Option-cases, Option,
  none, some, List, [], ◌∷◌, ◌++◌, map, append-nil, append_assoc, Memᴰ, Text, text_eq, text_eq_refl,
  select, Memᴰ-select, Memᴰ-sort_by, sort_by-Memᴰ, select-Memᴰ, if◌then◌else◌, Bool-cases, arith,
  inl, inr,
}
use openburrow.Recovery.{
  Checkpoint, Daemon, Resume, is_unconsumed, by_sequence, unconsumed_checkpoints, consume,
  is_verified, respawn, resume_one, resume_all, reported, resume_found, resume_session,
}

-- A checkpoint that is whole and whose lane is found.
unfoldable pub is_usable : Daemon → Checkpoint → Bool
is_usable s c = is_verified s c && s.finds_lane c.lane_id

abbrev pub lanes_of : List Checkpoint → List Text
lanes_of cs = map (λ (c : Checkpoint). c.lane_id) cs

respawn-started :
    (s : Daemon) (c : Checkpoint) (r : Resume)
    → (respawn s c r).started ≡ r.started ++ c.lane_id ∷ []
unfolding respawn
respawn-started s c r = ground arith

respawn-rows : (s : Daemon) (c : Checkpoint) (r : Resume) → (respawn s c r).rows ≡ r.rows
unfolding respawn
respawn-rows s c r = ground arith

-- What one checkpoint leads to, by whether it is usable.
module _ (s : Daemon) (now : ℕ) (c : Checkpoint) (r : Resume) where
  usable-starts :
      is_usable s c ≡ true → (resume_one s now c r).started ≡ r.started ++ c.lane_id ∷ []
  unfolding resume_one is_usable
  usable-starts h = elim (Bool-cases (is_verified s c)) [
    | inl e ↦ elim (Bool-cases (s.finds_lane c.lane_id)) [
      | inl f ↦ rw (e, f) (respawn-started s c (record r { rows = consume now c.id r.rows }))
      | inr f ↦ absurd (cc (rw (e, f) at h))
    ]
    | inr e ↦ absurd (cc (rw e at h))
  ]

  usable-consumes : is_usable s c ≡ true → (resume_one s now c r).rows ≡ consume now c.id r.rows
  unfolding resume_one is_usable
  usable-consumes h = elim (Bool-cases (is_verified s c)) [
    | inl e ↦ elim (Bool-cases (s.finds_lane c.lane_id)) [
      | inl f ↦ rw (e, f) (respawn-rows s c (record r { rows = consume now c.id r.rows }))
      | inr f ↦ absurd (cc (rw (e, f) at h))
    ]
    | inr e ↦ absurd (cc (rw e at h))
  ]

  unusable-keeps :
      is_usable s c ≡ false
      → ((resume_one s now c r).started ≡ r.started) × ((resume_one s now c r).rows ≡ r.rows)
  unfolding resume_one is_usable
  unusable-keeps h = elim (Bool-cases (is_verified s c)) [
    | inl e ↦ elim (Bool-cases (s.finds_lane c.lane_id)) [
      | inl f ↦ absurd (cc (rw (e, f) at h))
      | inr f ↦ rw (e, f) (refl, refl)
    ]
    | inr e ↦ rw e (refl, refl)
  ]

resume_all-started :
    (s : Daemon) (now : ℕ) (cs : List Checkpoint) (r : Resume)
    → (resume_all s now cs r).started ≡ r.started ++ lanes_of (select (is_usable s) cs)
unfolding resume_all
resume_all-started s now [] r = sym (append-nil r.started)
resume_all-started s now (c ∷ cs) r =
    let later = resume_all-started s now cs (resume_one s now c r) in
    let rest = lanes_of (select (is_usable s) cs) in
    elim (Bool-cases (is_usable s c)) [
      | inl e ↦ rw e (
          later
          ∙ (ap (λ ls. ls ++ rest) (usable-starts s now c r e)
              ∙ append_assoc r.started (c.lane_id ∷ []) rest))
      | inr e ↦ rw e (later ∙ ap (λ ls. ls ++ rest) (unusable-keeps s now c r e).0)
    ]

consume-head :
    (now : ℕ) (id : Text) (d : Checkpoint) (rows : List Checkpoint) (c : Checkpoint) (b : Bool)
    → text_eq d.id id ≡ b
    → c ≡ (if b then record d { consumed_at = some now } else d)
    → c.consumed_at ≡ none
    → Memᴰ c (d ∷ rows) × (text_eq c.id id ≡ false)
consume-head now id d rows c true q e h = absurd (cc (ap (λ (x : Checkpoint). x.consumed_at) e, h))
consume-head now id d rows c false q e h =
    (Memᴰ.head e, ap (λ (x : Checkpoint). text_eq x.id id) e ∙ q)

-- A row that is not consumed afterwards was there before, under another identifier.
consume-Memᴰ :
    (now : ℕ) (id : Text) (rows : List Checkpoint) (c : Checkpoint)
    → Memᴰ c (consume now id rows)
    → c.consumed_at ≡ none
    → Memᴰ c rows × (text_eq c.id id ≡ false)
unfolding consume
consume-Memᴰ now id [] c m h = elim m [ ]
consume-Memᴰ now id (d ∷ rows) c (Memᴰ.head e) h =
    consume-head now id d rows c (text_eq d.id id) refl e h
consume-Memᴰ now id (d ∷ rows) c (Memᴰ.tail m) h =
    let (k, other) = consume-Memᴰ now id rows c m h in (Memᴰ.tail k, other)

resume_all-Memᴰ :
    (s : Daemon) (now : ℕ) (cs : List Checkpoint) (r : Resume) (c : Checkpoint)
    → Memᴰ c (resume_all s now cs r).rows
    → c.consumed_at ≡ none
    → Memᴰ c r.rows
      × ((d : Checkpoint) → Memᴰ d cs → is_usable s d ≡ true → text_eq c.id d.id ≡ false)
unfolding resume_all
resume_all-Memᴰ s now [] r c m h = (m, λ d k. elim k [ ])
resume_all-Memᴰ s now (b ∷ cs) r c m h =
    let (k, others) = resume_all-Memᴰ s now cs (resume_one s now b r) c m h in
    elim (Bool-cases (is_usable s b)) [
      | inl e ↦
          let (old, other) =
            consume-Memᴰ now b.id r.rows c
              (subst (λ rows. Memᴰ c rows) (usable-consumes s now b r e) k) h in
          (
            old,
            λ d n u. elim n [
              | Memᴰ.head q ↦ ap (λ (x : Checkpoint). text_eq c.id x.id) q ∙ other
              | Memᴰ.tail l ↦ others d l u
            ],
          )
      | inr e ↦ (
        subst (λ rows. Memᴰ c rows) (unusable-keeps s now b r e).1 k,
        λ d n u. elim n [
          | Memᴰ.head q ↦ absurd (cc (u, ap (is_usable s) q, e))
          | Memᴰ.tail l ↦ others d l u
        ],
      )
    ]

not_consumed : (b : Bool) (o : Option ℕ) (t : ℕ) → o ≡ some t → ¬ ((b && not (is_some o)) ≡ true)
not_consumed b none t e h = absurd (cc e)
not_consumed true (some u) t e h = absurd (cc h)
not_consumed false (some u) t e h = absurd (cc h)

unconsumed :
    (session : Text) (c : Checkpoint) → is_unconsumed session c ≡ true → c.consumed_at ≡ none
unfolding is_unconsumed
unconsumed session c h = elim (Option-cases c.consumed_at) [
  | inl e ↦ e
  | inr (t, e) ↦ absurd (not_consumed (text_eq c.session_id session) c.consumed_at t e h)
]

select-none :
    (f : Checkpoint → Bool) (cs : List Checkpoint)
    → ((c : Checkpoint) → Memᴰ c cs → f c ≡ false)
    → select f cs ≡ []
select-none f [] h = refl
select-none f (c ∷ cs) h = rw (h c (Memᴰ.head refl)) (select-none f cs (λ d m. h d (Memᴰ.tail m)))

unconsumed_checkpoints-Memᴰ :
    (session : Text) (rows : List Checkpoint) (c : Checkpoint)
    → Memᴰ c (unconsumed_checkpoints session rows)
    → Memᴰ c rows × (is_unconsumed session c ≡ true)
unfolding unconsumed_checkpoints
unconsumed_checkpoints-Memᴰ session rows c m =
    Memᴰ-select (is_unconsumed session) c rows
      (Memᴰ-sort_by by_sequence c (select (is_unconsumed session) rows) m)

Memᴰ-unconsumed_checkpoints :
    (session : Text) (rows : List Checkpoint) (c : Checkpoint)
    → Memᴰ c rows
    → is_unconsumed session c ≡ true
    → Memᴰ c (unconsumed_checkpoints session rows)
unfolding unconsumed_checkpoints
Memᴰ-unconsumed_checkpoints session rows c m h =
    sort_by-Memᴰ by_sequence c (select (is_unconsumed session) rows)
      (select-Memᴰ (is_unconsumed session) c rows m h)

-- The found checkpoints, whether there are any or not.
resume_session-rows :
    (s : Daemon) (now : ℕ) (session : Text) (r : Resume)
    → let all = resume_all s now (unconsumed_checkpoints session r.rows) (reported r) in
      ((resume_session s now session r).started ≡ all.started)
      × ((resume_session s now session r).rows ≡ all.rows)
unfolding resume_session resume_all
resume_session-rows s now session r = go (unconsumed_checkpoints session r.rows)
  where
    go :
        (cs : List Checkpoint)
        → ((resume_found s now session (reported r) cs).started
            ≡ (resume_all s now cs (reported r)).started)
          × ((resume_found s now session (reported r) cs).rows
              ≡ (resume_all s now cs (reported r)).rows)
    go [] = (refl, refl)
    go (c ∷ cs) = (refl, refl)

unless_used : (u same : Bool) → same ≡ true → (u ≡ true → same ≡ false) → u ≡ false
unless_used true same e f = absurd (cc (e, f refl))
unless_used false same e f = refl

-- Nothing is left to be used.
left-none :
    (s : Daemon) (now : ℕ) (session : Text) (r : Resume)
    → select (is_usable s) (unconsumed_checkpoints session (resume_session s now session r).rows)
      ≡ []
left-none s now session r =
    let cs = unconsumed_checkpoints session r.rows in
    select-none (is_usable s) (unconsumed_checkpoints session (resume_session s now session r).rows)
      (λ c m.
        let (there, fresh) =
          unconsumed_checkpoints-Memᴰ session (resume_session s now session r).rows c m in
        let (old, others) =
          resume_all-Memᴰ s now cs (reported r) c
            (subst (λ rows. Memᴰ c rows) (resume_session-rows s now session r).1 there)
            (unconsumed session c fresh) in
        unless_used (is_usable s c) (text_eq c.id c.id) (text_eq_refl c.id)
          (others c (Memᴰ-unconsumed_checkpoints session r.rows c old fresh)))

-- A resume calls the start of a lane once for every checkpoint of the session that is not consumed, whole, and of a
-- lane that is found, and a second resume, with any clock, calls none.
pub resume_session_once :
    (s : Daemon) (now later : ℕ) (session : Text) (r : Resume)
    → ((resume_session s now session r).started
        ≡ r.started ++ lanes_of (select (is_usable s) (unconsumed_checkpoints session r.rows)))
      × ((resume_session s later session (resume_session s now session r)).started
          ≡ (resume_session s now session r).started)
resume_session_once s now later session r =
    let after = resume_session s now session r in
    (
      (resume_session-rows s now session r).0
          ∙ resume_all-started s now (unconsumed_checkpoints session r.rows) (reported r),
      (resume_session-rows s later session after).0
          ∙ (resume_all-started s later (unconsumed_checkpoints session after.rows) (reported after)
              ∙ (ap (λ cs. after.started ++ lanes_of cs) (left-none s now session r)
                  ∙ append-nil after.started)),
    )
