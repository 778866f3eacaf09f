-- ===== src/Prelude/Sorting.antt =====
-- A stable sort by an order's Boolean test, which stands for the database's `ORDER BY`.
use mathlib.Core.Path.{◌≡◌}
use mathlib.Core.Logic.{◌⊎◌, inl, inr}
use mathlib.Core.Bool.{Bool}
use mathlib.Core.List.{List, [], ◌∷◌, Memᴰ}
use openburrow.Prelude.Tests.{if◌then◌else◌, Bool-cases}

module _ {ℓ} {A : Type ℓ} (no_later : A → A → Bool) where
  abbrev pub insert_by : A → List A → List A
  insert_by t [] = t ∷ []
  insert_by t (u ∷ us) = let rest = insert_by t us in if no_later t u then t ∷ u ∷ us else u ∷ rest

  abbrev pub sort_by : List A → List A
  sort_by [] = []
  sort_by (t ∷ ts) = insert_by t (sort_by ts)

  insert_by-Memᴰ : (x t : A) (us : List A) → (x ≡ t) ⊎ Memᴰ x us → Memᴰ x (insert_by t us)
  insert_by-Memᴰ x t [] (inl e) = Memᴰ.head e
  insert_by-Memᴰ x t [] (inr m) = elim m [ ]
  insert_by-Memᴰ x t (u ∷ us) h =
      let later = λ (k : (x ≡ t) ⊎ Memᴰ x us). insert_by-Memᴰ x t us k in
      elim (Bool-cases (no_later t u)) [
        | inl e ↦ rw e (elim h [ inl q ↦ Memᴰ.head q | inr m ↦ Memᴰ.tail m ])
        | inr e ↦ rw e (elim h [
          | inl q ↦ Memᴰ.tail (later (inl q))
          | inr m ↦ elim m [ Memᴰ.head q ↦ Memᴰ.head q | Memᴰ.tail n ↦ Memᴰ.tail (later (inr n)) ]
        ])
      ]

  -- The sort keeps every element.
  pub sort_by-Memᴰ : (x : A) (ts : List A) → Memᴰ x ts → Memᴰ x (sort_by ts)
  sort_by-Memᴰ x [] m = elim m [ ]
  sort_by-Memᴰ x (t ∷ ts) (Memᴰ.head q) = insert_by-Memᴰ x t (sort_by ts) (inl q)
  sort_by-Memᴰ x (t ∷ ts) (Memᴰ.tail m) =
      insert_by-Memᴰ x t (sort_by ts) (inr (sort_by-Memᴰ x ts m))

  split : (x t : A) (us : List A) → Memᴰ x (t ∷ us) → (x ≡ t) ⊎ Memᴰ x us
  split x t us (Memᴰ.head q) = inl q
  split x t us (Memᴰ.tail m) = inr m

  Memᴰ-insert_by : (x t : A) (us : List A) → Memᴰ x (insert_by t us) → (x ≡ t) ⊎ Memᴰ x us
  Memᴰ-insert_by x t [] m = split x t [] m
  Memᴰ-insert_by x t (u ∷ us) m =
      let later = λ (k : Memᴰ x (insert_by t us)). Memᴰ-insert_by x t us k in
      elim (Bool-cases (no_later t u)) [
        | inl e ↦ split x t (u ∷ us) (rw e at m)
        | inr e ↦ elim (split x u (insert_by t us) (rw e at m)) [
          | inl q ↦ inr (Memᴰ.head q)
          | inr n ↦ elim (later n) [ inl q ↦ inl q | inr k ↦ inr (Memᴰ.tail k) ]
        ]
      ]

  -- The sort makes up no element.
  pub Memᴰ-sort_by : (x : A) (ts : List A) → Memᴰ x (sort_by ts) → Memᴰ x ts
  Memᴰ-sort_by x [] m = elim m [ ]
  Memᴰ-sort_by x (t ∷ ts) m =
      let later = λ (k : Memᴰ x (sort_by ts)). Memᴰ-sort_by x ts k in
      elim (Memᴰ-insert_by x t (sort_by ts) m) [ inl q ↦ Memᴰ.head q | inr n ↦ Memᴰ.tail (later n) ]
