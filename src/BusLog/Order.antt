-- ===== src/BusLog/Order.antt =====
-- The order of the bus log, its test for duplicates, and the rounds of a tail.
use openburrow.Prelude.{
  ℕ, zero, suc, ◌<◌, ◌≤◌, ◌≡◌, refl, sym, ◌∙◌, ap, inl, inr, Bool, true, false, ◌&&◌, some,
  some-injective, List, [], ◌∷◌, ◌++◌, Memᴰ, arith, Text, text_eq, is_empty, select, take,
  if◌then◌else◌, ltb, Bool-cases, any-append, eq_of_text_eq, none, ◌↔◌, Memᴰ-any, any-Memᴰ,
  text_eq_refl, any,
}
use openburrow.BusLog.{
  BusEvent, IsIncreasing, is_duplicate, append, stream, stream_batch, max_seq, tail_round,
}

-- Every number is above the bound, and above those before it.
abbrev pub IsRising : ℕ → List BusEvent → Type 0
IsRising m [] = Unit
IsRising m (e ∷ es) = (m < e.seq) × IsRising e.seq es

abbrev pub AllBelow : List BusEvent → ℕ → Type 0
AllBelow [] n = Unit
AllBelow (e ∷ es) n = (e.seq < n) × AllBelow es n

all_below :
    (log : List BusEvent) (n : ℕ) → ((e : BusEvent) → Memᴰ e log → e.seq < n) → AllBelow log n
all_below [] n h = tt
all_below (e ∷ es) n h = (h e (Memᴰ.head refl), all_below es n (λ x m. h x (Memᴰ.tail m)))

IsRising-snoc :
    (m : ℕ) (log : List BusEvent) (e : BusEvent)
    → m < e.seq
    → IsRising m log
    → AllBelow log e.seq
    → IsRising m (log ++ e ∷ [])
IsRising-snoc m [] e h r b = (h, tt)
IsRising-snoc m (x ∷ log) e h (r, rs) (b, bs) = (r, IsRising-snoc x.seq log e b rs bs)

-- No event that carries a hash shares it with a later event of its session.
abbrev pub IsUnique : List BusEvent → Type 0
IsUnique [] = Unit
IsUnique (e ∷ es) = (is_duplicate es e.session_id e.content_hash ≡ false) × IsUnique es

text_eq_sym : (a b : Text) → text_eq a b ≡ text_eq b a
unfolding text_eq
text_eq_sym [] [] = refl
text_eq_sym [] (b ∷ t) = refl
text_eq_sym (a ∷ s) [] = refl
text_eq_sym (a ∷ s) (b ∷ t) = ground (arith, text_eq_sym s t)

same_empty : (a b : Text) → text_eq a b ≡ true → is_empty a ≡ is_empty b
same_empty a b h = ap is_empty (eq_of_text_eq a b h)

IsUnique-snoc :
    (log : List BusEvent) (e : BusEvent)
    → IsUnique log
    → is_duplicate log e.session_id e.content_hash ≡ false
    → IsUnique (log ++ e ∷ [])
unfolding is_duplicate
IsUnique-snoc [] e u h = (ground arith, tt)
IsUnique-snoc (x ∷ log) e (ux, us) h = (
  ground (
    arith,
    any-append
        (λ (y : BusEvent).
          text_eq y.content_hash x.content_hash && text_eq y.session_id x.session_id)
        log (e ∷ []),
    text_eq_sym e.content_hash x.content_hash,
    text_eq_sym e.session_id x.session_id,
    same_empty e.content_hash x.content_hash,
  ),
  IsUnique-snoc log e us (ground arith),
)

-- An accepted append puts one event at the end of the log; the numbers of the log still rise, and no
-- content hash stands twice in a session.
pub append-keeps :
    (next_seq : List BusEvent → ℕ) (e : BusEvent) (log log' : List BusEvent)
    → IsIncreasing next_seq
    → IsRising 0 log
    → IsUnique log
    → append next_seq e log ≡ some log'
    → (x : BusEvent) × (log' ≡ log ++ x ∷ [])
      × (x.content_hash ≡ e.content_hash)
      × IsRising 0 log'
      × IsUnique log'
unfolding append
append-keeps next_seq e log log' inc rising unique h =
    elim (Bool-cases (is_duplicate log e.session_id e.content_hash)) [
      | inl d ↦ absurd (cc (rw d at h))
      | inr d ↦
          let x = record e { seq = next_seq log; summary = take 1000 e.summary } in
          let q : log' ≡ log ++ x ∷ [] = sym (some-injective _ _ (rw d at h)) in
          (
            x,
            q,
            refl,
            rw q (
                IsRising-snoc 0 log x (inc.positive log) rising
                  (all_below log (next_seq log) (inc.above log))),
            rw q (IsUnique-snoc log x unique d),
          )
    ]

-- An event is refused exactly where it carries a content hash and some event of its session has the same one, however
-- long ago that event was written.
pub append-refused :
    (next_seq : List BusEvent → ℕ) (e : BusEvent) (log : List BusEvent)
    → (append next_seq e log ≡ none) ↔ (
        (is_empty e.content_hash ≡ false)
        × ((x : BusEvent) × Memᴰ x log
            × (x.content_hash ≡ e.content_hash)
            × (x.session_id ≡ e.session_id)))
unfolding append is_duplicate
append-refused next_seq e log =
    let same = λ (x : BusEvent).
      text_eq x.content_hash e.content_hash && text_eq x.session_id e.session_id in
    (
      λ h. elim (Bool-cases (is_empty e.content_hash)) [
        | inl n ↦ absurd (cc (rw n at h))
        | inr n ↦ elim (Bool-cases (any same log)) [
          | inr a ↦ absurd (cc (rw (n, a) at h))
          | inl a ↦
              let (x, m, q) = Memᴰ-any same log a in
              (
                n,
                (
                  x,
                  m,
                  eq_of_text_eq x.content_hash e.content_hash (ground arith),
                  eq_of_text_eq x.session_id e.session_id (ground arith),
                ),
              )
        ]
      ],
      λ h.
          let (n, found) = h in
          let (x, m, c, s) = found in
          let hit : same x ≡ true =
            rw (c, s, text_eq_refl e.content_hash, text_eq_refl e.session_id) refl in
          rw (n, any-Memᴰ same x log m hit) refl,
    )

-- The events with a number above the cursor.
abbrev after : ℕ → List BusEvent → List BusEvent
after c = select (λ (e : BusEvent). ltb c e.seq)

of_session : Text → List BusEvent → List BusEvent
of_session session = select (λ (e : BusEvent). text_eq e.session_id session)

stream-after :
    (session : Text) (c : ℕ) (log : List BusEvent)
    → stream session c log ≡ after c (of_session session log)
unfolding stream of_session
stream-after session c [] = refl
stream-after session c (e ∷ log) = ground (arith, stream-after session c log)

IsRising-weaken : (m n : ℕ) (es : List BusEvent) → m ≤ n → IsRising n es → IsRising m es
IsRising-weaken m n [] h r = tt
IsRising-weaken m n (e ∷ es) h (r, rs) = (omega arith, rs)

IsRising-select :
    (p : BusEvent → Bool) (m : ℕ) (es : List BusEvent) → IsRising m es → IsRising m (select p es)
IsRising-select p m [] r = tt
IsRising-select p m (e ∷ es) (r, rs) = elim (Bool-cases (p e)) [
  | inl h ↦ rw h (r, IsRising-select p e.seq es rs)
  | inr h ↦
      rw h (IsRising-weaken m e.seq (select p es) (omega arith) (IsRising-select p e.seq es rs))
]

max_seq_bound : (c : ℕ) (es : List BusEvent) → c ≤ max_seq c es
unfolding max_seq
max_seq_bound c [] = omega arith
max_seq_bound c (e ∷ es) = ground (arith, max_seq_bound (if ltb c e.seq then e.seq else c) es)

after_all : (c : ℕ) (es : List BusEvent) → IsRising c es → after c es ≡ es
after_all c [] r = refl
after_all c (e ∷ es) (r, rs) =
    ground (arith, after_all c es (IsRising-weaken c e.seq es (omega arith) rs))

max_seq-cons :
    (c : ℕ) (e : BusEvent) (es : List BusEvent) → c < e.seq → max_seq c (e ∷ es) ≡ max_seq e.seq es
unfolding max_seq
max_seq-cons c e es h =
    let raised : (if ltb c e.seq then e.seq else c) ≡ e.seq = ground arith in
    ap (λ m. max_seq m es) raised

after-skip : (m : ℕ) (e : BusEvent) (es : List BusEvent) → e.seq ≤ m → after m (e ∷ es) ≡ after m es
after-skip m e es h = ground arith

-- A batch from the front of a rising list, and what lies above its last number.
batch_split :
    (n c : ℕ) (es : List BusEvent)
    → IsRising c es
    → take n es ++ after (max_seq c (take n es)) es ≡ es
batch_split zero c es r = unfold max_seq in after_all c es r
batch_split (suc n) c [] r = refl
batch_split (suc n) c (e ∷ es) (r, rs) =
    let m = max_seq e.seq (take n es) in
    ap (λ k. e ∷ (take n es ++ after k (e ∷ es))) (max_seq-cons c e (take n es) r)
    ∙ ap (λ ys. e ∷ (take n es ++ ys)) (after-skip m e es (max_seq_bound e.seq (take n es)))
    ∙ ap (λ ys. e ∷ ys) (batch_split n e.seq es rs)

after-after : (c m : ℕ) (es : List BusEvent) → c ≤ m → after m (after c es) ≡ after m es
after-after c m [] h = refl
after-after c m (e ∷ es) h = ground (arith, after-after c m es h)

IsRising-after : (c m : ℕ) (es : List BusEvent) → IsRising m es → IsRising c (after c es)
IsRising-after c m [] r = tt
IsRising-after c m (e ∷ es) (r, rs) = elim (Bool-cases (ltb c e.seq)) [
  | inl h ↦ rw h (ground arith, IsRising-select (λ (x : BusEvent). ltb c x.seq) e.seq es rs)
  | inr h ↦ rw h (IsRising-after c e.seq es rs)
]

-- One round of a tail over a rising log yields the first events of the stream after its cursor, and the
-- stream after its new cursor is exactly the rest: nothing is lost, and nothing is yielded twice.
pub tail_round-stream :
    (session : Text) (batch cursor : ℕ) (log : List BusEvent)
    → IsRising 0 log
    → (tail_round session batch cursor log).0
        ++ stream session (tail_round session batch cursor log).1 log
      ≡ stream session cursor log
unfolding tail_round stream_batch
tail_round-stream session batch cursor log r =
    let mine = of_session session log in
    let fresh = after cursor mine in
    let e = stream-after session cursor log in
    let rising : IsRising cursor fresh = IsRising-after cursor 0 mine (
      unfold of_session in
      IsRising-select (λ (x : BusEvent). text_eq x.session_id session) 0 log r) in
    let next = max_seq cursor (take batch fresh) in
    rw e (
      rw stream-after (
        ap (λ ys. take batch fresh ++ ys)
          (sym (after-after cursor next mine (max_seq_bound cursor (take batch fresh))))
        ∙ batch_split batch cursor fresh rising))
