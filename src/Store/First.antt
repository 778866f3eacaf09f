-- ===== src/Store/First.antt =====
-- The first row that a query gives, after a change of a row and after a new one.
use openburrow.Prelude.{
  ◌≡◌, refl, ap, subst, Bool, true, false, none, some, some-injective, List, [], ◌∷◌, ◌++◌,
  Bool-cases, ◌⊎◌, inl, inr,
}
use openburrow.Store.Invites.{first, update_first}

module _ {A : Type 0} (q : A → Bool) where
  -- A change that a query does not read leaves what it gives, up to the change.
  pub first-update_first :
      (p : A → Bool) (f : A → A) (xs : List A) (a : A)
      → ((x : A) → q (f x) ≡ q x)
      → first q xs ≡ some a
      → (first q (update_first p f xs) ≡ some a) ⊎ (first q (update_first p f xs) ≡ some (f a))
  unfolding first update_first
  first-update_first p f [] a blind h = absurd (cc h)
  first-update_first p f (x ∷ xs) a blind h =
      let later = λ (k : first q xs ≡ some a). first-update_first p f xs a blind k in
      elim (Bool-cases (p x)) [
        | inl e ↦ elim (Bool-cases (q x)) [
          | inl g ↦
              inr (rw (e, blind x, g) (ap (λ (y : A). some (f y)) (some-injective x a (rw g at h))))
          | inr g ↦ inl (rw (e, blind x, g) (rw g at h))
        ]
        | inr e ↦ elim (Bool-cases (q x)) [
          | inl g ↦ inl (rw (e, g) (rw g at h))
          | inr g ↦ rw (e, g) (later (rw g at h))
        ]
      ]

  -- What a query gives after a change of the row that it gives.
  pub first-update_first_same :
      (f : A → A) (xs : List A) (a : A)
      → ((x : A) → q (f x) ≡ q x)
      → first q xs ≡ some a
      → first q (update_first q f xs) ≡ some (f a)
  unfolding first update_first
  first-update_first_same f [] a blind h = absurd (cc h)
  first-update_first_same f (x ∷ xs) a blind h =
      let later = λ (k : first q xs ≡ some a). first-update_first_same f xs a blind k in
      elim (Bool-cases (q x)) [
        | inl g ↦ rw (g, blind x, g) (ap (λ (y : A). some (f y)) (some-injective x a (rw g at h)))
        | inr g ↦ rw (g, g) (later (rw g at h))
      ]

  -- A change of rows that a query does not give.
  pub first-update_first_other :
      (p : A → Bool) (f : A → A) (xs : List A)
      → ((x : A) → p x ≡ true → (q x ≡ false) × (q (f x) ≡ false))
      → first q (update_first p f xs) ≡ first q xs
  unfolding first update_first
  first-update_first_other p f [] apart = refl
  first-update_first_other p f (x ∷ xs) apart =
      let later = first-update_first_other p f xs apart in
      elim (Bool-cases (p x)) [
        | inl e ↦ rw (e, (apart x e).0, (apart x e).1) refl
        | inr e ↦ rw (e, later) refl
      ]

  pub first-append : (xs ys : List A) (a : A) → first q xs ≡ some a → first q (xs ++ ys) ≡ some a
  unfolding first
  first-append [] ys a h = absurd (cc h)
  first-append (x ∷ xs) ys a h =
      let later = λ (k : first q xs ≡ some a). first-append xs ys a k in
      elim (Bool-cases (q x)) [ inl g ↦ rw g (rw g at h) | inr g ↦ rw g (later (rw g at h)) ]

  pub first-append_none : (xs ys : List A) → first q xs ≡ none → first q (xs ++ ys) ≡ first q ys
  unfolding first
  first-append_none [] ys h = refl
  first-append_none (x ∷ xs) ys h =
      let later = λ (k : first q xs ≡ none). first-append_none xs ys k in
      elim (Bool-cases (q x)) [ inl g ↦ absurd (cc (rw g at h)) | inr g ↦ rw g (later (rw g at h)) ]

  pub first-append_apart : (xs : List A) (y : A) → q y ≡ false → first q (xs ++ y ∷ []) ≡ first q xs
  unfolding first
  first-append_apart [] y h = rw h refl
  first-append_apart (x ∷ xs) y h = rw (first-append_apart xs y h) refl

  -- What a query gives is of the query.
  pub first-true : (xs : List A) (a : A) → first q xs ≡ some a → q a ≡ true
  unfolding first
  first-true [] a h = absurd (cc h)
  first-true (x ∷ xs) a h =
      let later = λ (k : first q xs ≡ some a). first-true xs a k in
      elim (Bool-cases (q x)) [
        | inl g ↦ subst (λ (y : A). q y ≡ true) (some-injective x a (rw g at h)) g
        | inr g ↦ later (rw g at h)
      ]
