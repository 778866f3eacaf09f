-- ===== src/Prelude/Rows.antt =====
-- A table of rows keyed by a text: what `Repository.get` and `Repository.save` see of the database.
use mathlib.Core.Path.{◌≡◌, refl, sym}
use mathlib.Core.Option.{Option, none, some, some-injective}
use mathlib.Core.List.{List, [], ◌∷◌, map, Memᴰ}
use mathlib.Core.Logic.{inl, inr}
use native.Mathlib.Omega.{arith}
use openburrow.Prelude.Tests.{if◌then◌else◌, Bool-cases}
use openburrow.Prelude.Texts.{Text, text_eq, text_eq_iff}

abbrev pub Table {ℓ} : Type ℓ → Type ℓ
Table V = List (Text × V)

module _ {ℓ} {V : Type ℓ} where
  -- repository.py:186, `get`
  unfoldable pub get : Table V → Text → Option V
  get [] k = none
  get ((j, v) ∷ rows) k = if text_eq j k then some v else get rows k

  -- repository.py:148, `save`: an update in place, or a new row.
  unfoldable pub save : Table V → Text → V → Table V
  save [] k v = (k, v) ∷ []
  save ((j, w) ∷ rows) k v = if text_eq j k then (j, v) ∷ rows else (j, w) ∷ save rows k v

  pub get-save :
      (rows : Table V) (k j : Text) (v : V)
      → get (save rows k v) j ≡ (if text_eq k j then some v else get rows j)
  unfolding get save
  get-save [] k j v = refl
  get-save ((i, w) ∷ rows) k j v =
      ground (arith, get-save rows k j v, text_eq_iff i k, text_eq_iff i j, text_eq_iff k j)

  -- A row that is found is among the rows.
  pub Memᴰ-get :
      (rows : Table V) (k : Text) (v : V)
      → get rows k ≡ some v
      → Memᴰ v (map (λ (row : Text × V). row.1) rows)
  unfolding get
  Memᴰ-get [] k v h = absurd (cc h)
  Memᴰ-get ((j, w) ∷ rows) k v h =
      let later = λ (e : get rows k ≡ some v). Memᴰ-get rows k v e in
      elim (Bool-cases (text_eq j k)) [
        | inl e ↦ Memᴰ.head (sym (some-injective _ _ (rw e at h)))
        | inr e ↦ Memᴰ.tail (later (rw e at h))
      ]
