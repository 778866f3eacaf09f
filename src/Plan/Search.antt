-- ===== src/Plan/Search.antt =====
-- What the walk of the cycle check keeps to, and that its fuel is enough: each white step takes one unit.
use openburrow.Prelude.{
  ℕ, zero, suc, ◌+◌, ◌≤◌, ◌<◌, ◌≡◌, refl, sym, ap, ◌∙◌, subst, true, false, Option, none, some,
  some-injective, List, [], ◌∷◌, Memᴰ, Text, text_eq, text_eq_refl, eq_of_text_eq, Table, get, save,
  get-save, Bool-cases, arith, inl, inr,
}
use openburrow.Plan.Cycle.{
  Colour, white, grey, black, neighbours, SearchAnswer, on_colour, and_then, scan, visit, roots,
}
use openburrow.Plan.Walks.{Walk, HasLoop, Grounded, extend}

abbrev pub IsOver : Option Colour → Type 0
IsOver none = Unit
IsOver (some black) = Unit
IsOver (some white) = ⊥
IsOver (some grey) = ⊥

abbrev IsWhite : Option Colour → Type 0
IsWhite (some white) = Unit
IsWhite _ = ⊥

abbrev one_if_white : Colour → ℕ
one_if_white white = 1
one_if_white grey = 0
one_if_white black = 0

abbrev pub whites : Table Colour → ℕ
whites [] = 0
whites ((n, c) ∷ rows) = one_if_white c + whites rows

whites-grey :
    (c : Table Colour) (n : Text) → get c n ≡ some white → whites (save c n grey) + 1 ≡ whites c
unfolding get save
whites-grey [] n h = absurd (cc h)
whites-grey ((j, w) ∷ rows) n h =
    let later = λ (k : get rows n ≡ some white). whites-grey rows n k in
    elim (Bool-cases (text_eq j n)) [
      | inl e ↦ rw (e, some-injective w white (rw e at h)) (omega arith)
      | inr e ↦ rw e (omega (arith, later (rw e at h)))
    ]

whites-black : (c : Table Colour) (n : Text) → whites (save c n black) ≤ whites c
unfolding save
whites-black [] n = omega arith
whites-black ((j, w) ∷ rows) n = elim (Bool-cases (text_eq j n)) [
  | inl e ↦ rw e (omega arith)
  | inr e ↦ rw e (omega (arith, whites-black rows n))
]

whites-positive : (c : Table Colour) (n : Text) → get c n ≡ some white → 0 < whites c
whites-positive c n h = omega (arith, whites-grey c n h)

module _ (g : Table (List Text)) where
  -- Every step that is black, or none of the plan's, is grounded.
  abbrev pub IsSound : Table Colour → Type 0
  IsSound c = (x : Text) → IsOver (get c x) → Grounded g x

  -- From every grey step there is a walk to the step in hand.
  abbrev IsTrail : Text → Table Colour → Type 0
  IsTrail node c = (x : Text) → get c x ≡ some grey → Walk g x node

  -- What a search without a cycle leaves: the steps that it was to search are over, and no others are grey.
  pub record Settled (todo : List Text) (c c' : Table Colour) : Type 0 where
    pub keeps : (x : Text) → IsOver (get c x) → IsOver (get c' x)
    pub greys : (x : Text) → get c' x ≡ some grey → get c x ≡ some grey
    pub over : (x : Text) → Memᴰ x todo → IsOver (get c' x)
    pub sound : IsSound c'
    pub fewer : whites c' ≤ whites c

  abbrev pub IsOk : List Text → Table Colour → SearchAnswer → Type 0
  IsOk todo c none = ⊥
  IsOk todo c (some (true, c')) = HasLoop g
  IsOk todo c (some (false, c')) = Settled todo c c'

  Settled-then :
      (n : Text) (ns : List Text) (c c1 c2 : Table Colour)
      → Settled (n ∷ []) c c1
      → Settled ns c1 c2
      → Settled (n ∷ ns) c c2
  Settled-then n ns c c1 c2 s t = record {
    keeps = λ x o. t.keeps x (s.keeps x o);
    greys = λ x e. s.greys x (t.greys x e);
    over = λ x m. elim m [
      | Memᴰ.head e ↦ t.keeps x (s.over x (Memᴰ.head e))
      | Memᴰ.tail k ↦ t.over x k
    ];
    sound = t.sound;
    fewer = omega (arith, s.fewer, t.fewer);
  }

  IsOk-before :
      (n : Text) (ns : List Text) (c c1 : Table Colour) (a : SearchAnswer)
      → Settled (n ∷ []) c c1
      → IsOk ns c1 a
      → IsOk (n ∷ ns) c a
  IsOk-before n ns c c1 none s k = k
  IsOk-before n ns c c1 (some (true, c2)) s k = k
  IsOk-before n ns c c1 (some (false, c2)) s k = Settled-then n ns c c1 c2 s k

  and_then-IsOk :
      (n : Text) (ns : List Text) (c : Table Colour) (a : SearchAnswer)
      (next : Table Colour → SearchAnswer)
      → IsOk (n ∷ []) c a
      → ((c1 : Table Colour) → Settled (n ∷ []) c c1 → IsOk ns c1 (next c1))
      → IsOk (n ∷ ns) c (and_then a next)
  and_then-IsOk n ns c none next k f = k
  and_then-IsOk n ns c (some (true, c1)) next k f = k
  and_then-IsOk n ns c (some (false, c1)) next k f = IsOk-before n ns c c1 (next c1) k (f c1 k)

  -- A step that is over needs no search.
  over-Settled : (n : Text) (c : Table Colour) → IsOver (get c n) → IsSound c → Settled (n ∷ []) c c
  over-Settled n c o sound = record {
    keeps = λ x k. k;
    greys = λ x e. e;
    over = λ x m. elim m [
      | Memᴰ.head e ↦ subst (λ y. IsOver (get c y)) (sym e) o
      | Memᴰ.tail k ↦ elim k [ ]
    ];
    sound = sound;
    fewer = omega arith;
  }

  -- A search of a white step, where the fuel is no less than the white steps.
  abbrev pub Searches : ℕ → (Text → Table Colour → SearchAnswer) → Type 0
  Searches fuel v =
      (n : Text) (c : Table Colour)
      → whites c ≤ fuel
      → get c n ≡ some white
      → IsSound c
      → IsTrail n c
      → IsOk (n ∷ []) c (v n c)

  -- The loops treat a neighbour by its colour.
  on_colour-IsOk :
      (n : Text) (ns : List Text) (c : Table Colour) (at_grey a : SearchAnswer)
      (rest : Table Colour → SearchAnswer) (o : Option Colour)
      → get c n ≡ o
      → IsSound c
      → (get c n ≡ some grey → IsOk (n ∷ ns) c at_grey)
      → (get c n ≡ some white → IsOk (n ∷ []) c a)
      → ((c1 : Table Colour) → Settled (n ∷ []) c c1 → IsOk ns c1 (rest c1))
      → IsOk (n ∷ ns) c (on_colour o at_grey (and_then a rest) (rest c))
  on_colour-IsOk n ns c at_grey a rest (some grey) e sound loop search later = loop e
  on_colour-IsOk n ns c at_grey a rest (some white) e sound loop search later =
      and_then-IsOk n ns c a rest (search e) later
  on_colour-IsOk n ns c at_grey a rest (some black) e sound loop search later =
      let settled = over-Settled n c (rw e tt) sound in
      IsOk-before n ns c c (rest c) settled (later c settled)
  on_colour-IsOk n ns c at_grey a rest none e sound loop search later =
      let settled = over-Settled n c (rw e tt) sound in
      IsOk-before n ns c c (rest c) settled (later c settled)

  module _ (fuel : ℕ) (v : Text → Table Colour → SearchAnswer) (searches : Searches fuel v) where
    scan-IsOk :
        (node : Text) (ns : List Text) (c : Table Colour)
        → ((y : Text) → Memᴰ y ns → Memᴰ y (neighbours g node))
        → whites c ≤ fuel
        → IsSound c
        → IsTrail node c
        → IsOk ns c (scan v ns c)
    unfolding scan
    scan-IsOk node [] c edge few sound trail = record {
      keeps = λ x o. o;
      greys = λ x e. e;
      over = λ x m. elim m [ ];
      sound = sound;
      fewer = omega arith;
    }
    scan-IsOk node (n ∷ ns) c edge few sound trail =
        let later = λ (c1 : Table Colour) (s : Settled (n ∷ []) c c1).
          scan-IsOk node ns c1 (λ y m. edge y (Memᴰ.tail m)) (omega (arith, few, s.fewer)) s.sound
            (λ x e. trail x (s.greys x e)) in
        let first = edge n (Memᴰ.head refl) in
        on_colour-IsOk n ns c (some (true, c)) (v n c) (scan v ns) (get c n) refl sound
          (λ e. (node, n, first, trail n e))
          (λ e. searches n c few e sound (λ x h. extend g x node n (trail x h) first)) later

    pub roots-IsOk :
        (ns : List Text) (c : Table Colour)
        → whites c ≤ fuel
        → IsSound c
        → ((x : Text) → ¬ (get c x ≡ some grey))
        → IsOk ns c (roots v ns c)
    unfolding roots
    roots-IsOk [] c few sound none_grey = record {
      keeps = λ x o. o;
      greys = λ x e. e;
      over = λ x m. elim m [ ];
      sound = sound;
      fewer = omega arith;
    }
    roots-IsOk (n ∷ ns) c few sound none_grey =
        let later = λ (c1 : Table Colour) (s : Settled (n ∷ []) c c1).
          roots-IsOk ns c1 (omega (arith, few, s.fewer)) s.sound
            (λ x e. none_grey x (s.greys x e)) in
        on_colour-IsOk n ns c (roots v ns c) (v n c) (roots v ns) (get c n) refl sound
          (λ e. absurd (none_grey n e))
          (λ e. searches n c few e sound (λ x h. absurd (none_grey x h))) later

  -- What a search of the neighbours leaves, and the step itself.
  close-Settled :
      (node : Text) (c c2 : Table Colour)
      → get c node ≡ some white
      → Settled (neighbours g node) (save c node grey) c2
      → Settled (node ∷ []) c (save c2 node black)
  close-Settled node c c2 e s =
      let same =
        λ (x : Text) (h : text_eq node x ≡ true). ap (get c) (sym (eq_of_text_eq node x h)) ∙ e in
      record {
        keeps = λ x o. elim (Bool-cases (text_eq node x)) [
          | inl h ↦ rw (get-save c2 node x black, h) tt
          | inr h ↦ rw (get-save c2 node x black, h) (s.keeps x (rw (get-save c node x grey, h) o))
        ];
        greys = λ x k. elim (Bool-cases (text_eq node x)) [
          | inl h ↦ absurd (cc (rw (get-save c2 node x black, h) at k))
          | inr h ↦
              sym (rw (get-save c node x grey, h) refl)
              ∙ s.greys x (rw (get-save c2 node x black, h) at k)
        ];
        over = λ x m. elim m [
          | Memᴰ.head h ↦ rw (get-save c2 node x black, h, text_eq_refl node) tt
          | Memᴰ.tail k ↦ elim k [ ]
        ];
        sound = λ x o. elim (Bool-cases (text_eq node x)) [
          | inl h ↦
              subst (Grounded g) (eq_of_text_eq node x h)
                (Grounded.grounded node (λ y m. s.sound y (s.over y m)))
          | inr h ↦ s.sound x (rw (get-save c2 node x black, h) at o)
        ];
        fewer = omega (arith, whites-grey c node e, s.fewer, whites-black c2 node);
      }

  close-IsOk :
      (n : Text) (c : Table Colour) (a : SearchAnswer)
      → get c n ≡ some white
      → IsOk (neighbours g n) (save c n grey) a
      → IsOk (n ∷ []) c (and_then a (λ c2. some (false, save c2 n black)))
  close-IsOk n c none e k = k
  close-IsOk n c (some (true, c2)) e k = k
  close-IsOk n c (some (false, c2)) e k = close-Settled n c c2 e k

  entered-IsSound : (n : Text) (c : Table Colour) → IsSound c → IsSound (save c n grey)
  entered-IsSound n c sound x o = elim (Bool-cases (text_eq n x)) [
    | inl h ↦ absurd (rw (get-save c n x grey, h) at o)
    | inr h ↦ sound x (rw (get-save c n x grey, h) at o)
  ]

  entered-IsTrail : (n : Text) (c : Table Colour) → IsTrail n c → IsTrail n (save c n grey)
  entered-IsTrail n c trail x k = elim (Bool-cases (text_eq n x)) [
    | inl h ↦ subst (λ y. Walk g y n) (eq_of_text_eq n x h) (Walk.here n)
    | inr h ↦ trail x (rw (get-save c n x grey, h) at k)
  ]

  pub visit-IsOk : (fuel : ℕ) → Searches fuel (visit fuel g)
  unfolding visit
  visit-IsOk zero n c few e sound trail = absurd (omega (arith, whites-positive c n e, few))
  visit-IsOk (suc fuel) n c few e sound trail =
      close-IsOk n c (scan (visit fuel g) (neighbours g n) (save c n grey)) e (
        scan-IsOk fuel (visit fuel g) (visit-IsOk fuel) n (neighbours g n) (save c n grey)
          (λ y m. m) (omega (arith, few, whites-grey c n e)) (entered-IsSound n c sound)
          (entered-IsTrail n c trail))
