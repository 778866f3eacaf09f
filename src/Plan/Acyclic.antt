-- ===== src/Plan/Acyclic.antt =====
-- What the cycle check of a plan finds: a cycle of the dependencies, or that every walk along them ends.
use openburrow.Prelude.{
  ◌≡◌, refl, sym, ◌∙◌, subst, Bool, true, false, Option, none, some, List, [], ◌∷◌, map, Memᴰ, Text,
  text_eq, eq_of_text_eq, length, Table, get, Bool-cases, arith, ◌⊎◌, inl, inr,
}
use openburrow.Plan.{Plan}
use openburrow.Plan.Cycle.{
  Colour, white, or_empty, neighbours, SearchAnswer, visit, all_white, graph, search_cycle,
  answer_of, has_cycle,
}
use openburrow.Plan.Walks.{HasLoop, Grounded, Grounded-loop}
use openburrow.Plan.Search.{whites, IsSound, IsOk, Settled, visit-IsOk, roots-IsOk}

whites-all_white : (g : Table (List Text)) → whites (all_white g) ≡ length g
unfolding all_white
whites-all_white [] = refl
whites-all_white ((n, ts) ∷ rows) = omega (arith, whites-all_white rows)

-- The first colours are white, of the nodes only.
get-all_white :
    (g : Table (List Text)) (x : Text)
    → (get (all_white g) x ≡ some white) ⊎ ((get (all_white g) x ≡ none) × (get g x ≡ none))
unfolding all_white get
get-all_white [] x = inr (refl, refl)
get-all_white ((n, ts) ∷ rows) x =
    let later = get-all_white rows x in
    elim (Bool-cases (text_eq n x)) [ inl e ↦ inl (rw e refl) | inr e ↦ rw e later ]

abbrev nodes : Table (List Text) → List Text
nodes g = map (λ (row : Text × List Text). row.0) g

no_neighbours : (g : Table (List Text)) (x y : Text) → get g x ≡ none → ¬ Memᴰ y (neighbours g x)
unfolding neighbours or_empty
no_neighbours g x y f m =
    let none_of : Memᴰ y (or_empty none) =
      subst (λ (o : Option (List Text)). Memᴰ y (or_empty o)) f m in
    elim none_of [ ]

Memᴰ-nodes :
    (g : Table (List Text)) (x : Text) → get (all_white g) x ≡ some white → Memᴰ x (nodes g)
unfolding all_white get
Memᴰ-nodes [] x h = absurd (cc h)
Memᴰ-nodes ((n, ts) ∷ rows) x h =
    let later = λ (k : get (all_white rows) x ≡ some white). Memᴰ-nodes rows x k in
    elim (Bool-cases (text_eq n x)) [
      | inl e ↦ Memᴰ.head (sym (eq_of_text_eq n x e))
      | inr e ↦ Memᴰ.tail (later (rw e at h))
    ]

first-IsSound : (g : Table (List Text)) → IsSound g (all_white g)
first-IsSound g x o = elim (get-all_white g x) [
  | inl e ↦ absurd (rw e at o)
  | inr (e, f) ↦ Grounded.grounded x (λ y m. absurd (no_neighbours g x y f m))
]

search_cycle-IsOk : (g : Table (List Text)) → IsOk g (nodes g) (all_white g) (search_cycle g)
unfolding search_cycle
search_cycle-IsOk g =
    roots-IsOk g (length g) (visit (length g) g) (visit-IsOk g (length g)) (nodes g) (all_white g)
      (omega (arith, whites-all_white g)) (first-IsSound g)
      (λ x k. elim (get-all_white g x) [
        | inl e ↦ absurd (cc (sym e ∙ k))
        | inr (e, f) ↦ absurd (cc (sym e ∙ k))
      ])

-- What an answer of the search says.
abbrev Means : Table (List Text) → Option Bool → Type 0
Means g none = ⊥
Means g (some true) = HasLoop g
Means g (some false) = ((x : Text) → Grounded g x) × ¬ HasLoop g

Settled-Grounded :
    (g : Table (List Text)) (c : Table Colour)
    → Settled g (nodes g) (all_white g) c
    → (x : Text) → Grounded g x
Settled-Grounded g c k x = elim (get-all_white g x) [
  | inl e ↦ k.sound x (k.over x (Memᴰ-nodes g x e))
  | inr (e, f) ↦ k.sound x (k.keeps x (rw e tt))
]

answer-Means :
    (g : Table (List Text)) (a : SearchAnswer)
    → IsOk g (nodes g) (all_white g) a
    → Means g (answer_of a)
answer-Means g none k = k
answer-Means g (some (true, c)) k = k
answer-Means g (some (false, c)) k =
    let all = Settled-Grounded g c k in (all, λ (x, y, m, w). Grounded-loop g x (all x) y m w)

-- One of two answers.
abbrev Answers : Table (List Text) → Option Bool → Type 0
Answers g o =
    ((o ≡ some true) × HasLoop g) ⊎ ((o ≡ some false) × ((x : Text) → Grounded g x) × ¬ HasLoop g)

Means-Answers : (g : Table (List Text)) (o : Option Bool) → Means g o → Answers g o
Means-Answers g none k = absurd k
Means-Answers g (some true) k = inl (refl, k)
Means-Answers g (some false) k = inr (refl, k.0, k.1)

-- The cycle check of a plan always comes to an answer: it reports a cycle where there is one, and where it reports
-- none every walk along the dependencies ends.
pub has_cycle-answer :
    (p : Plan)
    → ((has_cycle p ≡ some true) × HasLoop (graph p))
      ⊎ ((has_cycle p ≡ some false) × ((x : Text) → Grounded (graph p) x) × ¬ HasLoop (graph p))
unfolding has_cycle
has_cycle-answer p =
    let g = graph p in
    Means-Answers g (answer_of (search_cycle g))
      (answer-Means g (search_cycle g) (search_cycle-IsOk g))
