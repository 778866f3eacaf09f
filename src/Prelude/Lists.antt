-- ===== src/Prelude/Lists.antt =====
-- Lists measured by native numbers, and Boolean quantifiers over lists.
use Prim.Native.Nat.{ℕ, zero, suc, ◌+◌}
use mathlib.Core.Path.{◌≡◌, refl}
use mathlib.Core.Logic.{◌⊎◌, inl, inr}
use mathlib.Core.Bool.{Bool, true, false, ◌&&◌, ◌||◌}
use mathlib.Core.List.{List, [], ◌∷◌, ◌++◌, Memᴰ}
use native.Mathlib.Omega.{arith}
use openburrow.Prelude.Tests.{if◌then◌else◌, Bool-cases}

module _ {ℓ} {A : Type ℓ} where
  abbrev pub length : List A → ℕ
  length [] = 0
  length (x ∷ xs) = suc (length xs)

  abbrev pub take : ℕ → List A → List A
  take zero xs = []
  take (suc n) [] = []
  take (suc n) (x ∷ xs) = x ∷ take n xs

  abbrev pub drop : ℕ → List A → List A
  drop zero xs = xs
  drop (suc n) [] = []
  drop (suc n) (x ∷ xs) = drop n xs

  abbrev pub any : (A → Bool) → List A → Bool
  any p [] = false
  any p (x ∷ xs) = p x || any p xs

  abbrev pub all : (A → Bool) → List A → Bool
  all p [] = true
  all p (x ∷ xs) = p x && all p xs

  -- `[x for x in xs if p(x)]`
  abbrev pub select : (A → Bool) → List A → List A
  select p [] = []
  select p (x ∷ xs) = let rest = select p xs in if p x then x ∷ rest else rest

  -- The empty list is falsy.
  abbrev pub is_empty : List A → Bool
  is_empty [] = true
  is_empty (x ∷ xs) = false

  -- `xs or ys`
  abbrev pub or_else : List A → List A → List A
  or_else [] ys = ys
  or_else (x ∷ xs) ys = x ∷ xs

  pub length-append : (xs ys : List A) → length (xs ++ ys) ≡ length xs + length ys
  length-append [] ys = omega arith
  length-append (x ∷ xs) ys = omega (arith, length-append xs ys)

  pub any-Memᴰ : (p : A → Bool) (a : A) (xs : List A) → Memᴰ a xs → p a ≡ true → any p xs ≡ true
  any-Memᴰ p a [] m h = elim m [ ]
  any-Memᴰ p a (x ∷ xs) (Memᴰ.head e) h = rw (← e, h)
  any-Memᴰ p a (x ∷ xs) (Memᴰ.tail m) h = ground (arith, any-Memᴰ p a xs m h)

  pub Memᴰ-any : (p : A → Bool) (xs : List A) → any p xs ≡ true → (a : A) × Memᴰ a xs × (p a ≡ true)
  Memᴰ-any p [] h = absurd (cc)
  Memᴰ-any p (x ∷ xs) h =
      let later = λ (t : any p xs ≡ true). Memᴰ-any p xs t in
      elim (Bool-cases (p x)) [
        | inl e ↦ (x, Memᴰ.head refl, e)
        | inr e ↦ let (a, m, pa) = later (rw e at h) in (a, Memᴰ.tail m, pa)
      ]

  pub any_congr :
      (p q : A → Bool) (xs : List A)
      → ((a : A) → p a ≡ true → q a ≡ true)
      → any p xs ≡ true
      → any q xs ≡ true
  any_congr p q xs h e = let (a, m, pa) = Memᴰ-any p xs e in any-Memᴰ q a xs m (h a pa)

  select_cases :
      (p : A → Bool) (a x : A) (xs : List A)
      → (b : Bool) → p x ≡ b
      → Memᴰ a (if b then x ∷ select p xs else select p xs)
      → ((a ≡ x) × (p a ≡ true)) ⊎ Memᴰ a (select p xs)
  select_cases p a x xs true e (Memᴰ.head q) = inl (q, rw q e)
  select_cases p a x xs true e (Memᴰ.tail m) = inr m
  select_cases p a x xs false e m = inr m

  pub Memᴰ-select :
      (p : A → Bool) (a : A) (xs : List A) → Memᴰ a (select p xs) → Memᴰ a xs × (p a ≡ true)
  Memᴰ-select p a [] m = elim m [ ]
  Memᴰ-select p a (x ∷ xs) m =
      let later = λ (n : Memᴰ a (select p xs)). Memᴰ-select p a xs n in
      elim (select_cases p a x xs (p x) refl m) [
        | inl (q, h) ↦ (Memᴰ.head q, h)
        | inr n ↦ let (k, h) = later n in (Memᴰ.tail k, h)
      ]

  pub select-Memᴰ :
      (p : A → Bool) (a : A) (xs : List A) → Memᴰ a xs → p a ≡ true → Memᴰ a (select p xs)
  select-Memᴰ p a [] m h = elim m [ ]
  select-Memᴰ p a (x ∷ xs) (Memᴰ.head q) h = rw (← q, h) (Memᴰ.head refl)
  select-Memᴰ p a (x ∷ xs) (Memᴰ.tail n) h =
      let later = select-Memᴰ p a xs n h in
      elim (Bool-cases (p x)) [ inl e ↦ rw e (Memᴰ.tail later) | inr e ↦ rw e later ]

  pub all-Memᴰ : (p : A → Bool) (a : A) (xs : List A) → all p xs ≡ true → Memᴰ a xs → p a ≡ true
  all-Memᴰ p a [] h m = elim m [ ]
  all-Memᴰ p a (x ∷ xs) h (Memᴰ.head e) = rw e (ground arith)
  all-Memᴰ p a (x ∷ xs) h (Memᴰ.tail m) = all-Memᴰ p a xs (ground arith) m

  pub any-append : (p : A → Bool) (xs ys : List A) → any p (xs ++ ys) ≡ (any p xs || any p ys)
  any-append p [] ys = refl
  any-append p (x ∷ xs) ys = ground (arith, any-append p xs ys)

  pub all-append : (p : A → Bool) (xs ys : List A) → all p (xs ++ ys) ≡ (all p xs && all p ys)
  all-append p [] ys = refl
  all-append p (x ∷ xs) ys = ground (arith, all-append p xs ys)

  pub all-select : (p q : A → Bool) (xs : List A) → all q xs ≡ true → all q (select p xs) ≡ true
  all-select p q [] h = refl
  all-select p q (x ∷ xs) h = ground (arith, all-select p q xs)
