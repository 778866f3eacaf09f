-- ===== src/Authority/Patterns.antt =====
-- How the wildcard patterns of `_matches` compose.
use openburrow.Prelude.{
  ℕ, ◌-◌, ◌≡◌, refl, Bool, true, false, ◌||◌, Option, none, some, [], ◌∷◌, ◌++◌, arith, Text, codes,
  text_eq, starts_with, ends_with, drop_last, length, take, all, if◌then◌else◌, ◌==◌, Bool-cases,
  inl, inr, ap, sym, ◌∙◌, length-append, eq_of_text_eq, append_assoc, some-injective,
}
use openburrow.Authority.{matches}

-- What stands before the wildcard of a pattern.
unfoldable pub stem : Text → Option Text
stem p =
    if text_eq p (codes "*")
    then some []
    else if ends_with (codes ":*") p
    then some (drop_last 1 p)
    else if ends_with (codes "**") p
    then some (drop_last 2 p)
    else none

unfoldable pub under : Option Text → Text → Bool
under none c = false
under (some x) c = starts_with x c

pub matches-stem : (p c : Text) → matches p c ≡ (text_eq p c || under (stem p) c)
unfolding matches stem under starts_with
matches-stem p c = ground arith

pub starts_with_append : (x s : Text) → starts_with x (x ++ s) ≡ true
unfolding starts_with
starts_with_append [] s = refl
starts_with_append (a ∷ x) s = ground (arith, starts_with_append x s)

pub starts_with_trans :
    (x y z : Text) → starts_with x y ≡ true → starts_with y z ≡ true → starts_with x z ≡ true
unfolding starts_with
starts_with_trans [] y z h k = refl
starts_with_trans (a ∷ x) [] z h k = cc
starts_with_trans (a ∷ x) (b ∷ y) [] h k = cc
starts_with_trans (a ∷ x) (b ∷ y) (c ∷ z) h k = ground (arith, starts_with_trans x y z)

-- The text is not empty and its last character is `*`.
abbrev pub ends_star : Text → Bool
ends_star [] = false
ends_star (a ∷ []) = a == b'*'
ends_star (a ∷ b ∷ t) = ends_star (b ∷ t)

abbrev pub stars : Text → Bool
stars = all (λ c. c == b'*')

starts_with-stars :
    (a : ℕ) (x s : Text) → stars s ≡ true → starts_with (a ∷ x) s ≡ true → ends_star (a ∷ x) ≡ true
unfolding starts_with
starts_with-stars a x [] h k = cc
starts_with-stars a [] (c ∷ s) h k = ground arith
starts_with-stars a (b ∷ x) (c ∷ s) h k = starts_with-stars b x s (ground arith) (ground arith)

ends_star-tail : (a : ℕ) (x : Text) → ends_star (a ∷ x) ≡ false → ends_star x ≡ false
ends_star-tail a [] h = refl
ends_star-tail a (b ∷ x) h = h

-- A prefix that does not end in `*` does not reach into trailing stars.
pub starts_with-strip :
    (x u s : Text)
    → stars s ≡ true
    → ends_star x ≡ false
    → starts_with x (u ++ s) ≡ true
    → starts_with x u ≡ true
unfolding starts_with
starts_with-strip [] u s h e k = refl
starts_with-strip (a ∷ x) [] s h e k = absurd (cc (e, starts_with-stars a x s h k))
starts_with-strip (a ∷ x) (b ∷ u) s h e k =
    ground (arith, starts_with-strip x u s h (ends_star-tail a x e))

take-append : (w s : Text) → take (length w) (w ++ s) ≡ w
take-append [] s = refl
take-append (a ∷ w) s = ap (λ r. a ∷ r) (take-append w s)

pub drop_last-append : (w s : Text) → drop_last (length s) (w ++ s) ≡ w
drop_last-append w s =
    let e : length (w ++ s) - length s ≡ length w = omega (arith, length-append w s) in
    rw e (take-append w s)

pub ends_with_split : (s p : Text) → ends_with s p ≡ true → (w : Text) × (p ≡ w ++ s)
unfolding ends_with
ends_with_split s [] h = ([], sym (eq_of_text_eq s [] h))
ends_with_split s (b ∷ t) h =
    let later = λ (k : ends_with s t ≡ true). ends_with_split s t k in
    elim (Bool-cases (text_eq s (b ∷ t))) [
      | inl e ↦ ([], sym (eq_of_text_eq s (b ∷ t) e))
      | inr e ↦ let (w, q) = later (rw e at h) in (b ∷ w, ap (λ r. b ∷ r) q)
    ]

-- A pattern with a stem is that stem and one or two stars.
pub stem-append : (p x : Text) → stem p ≡ some x → (s : Text) × (stars s ≡ true) × (p ≡ x ++ s)
unfolding stem
stem-append p x h = elim (Bool-cases (text_eq p (codes "*"))) [
  | inl e ↦ (
    codes "*",
    refl,
    eq_of_text_eq p (codes "*") e ∙ ap (λ r. r ++ codes "*") (some-injective _ _ (rw e at h)),
  )
  | inr e ↦ elim (Bool-cases (ends_with (codes ":*") p)) [
    | inl f ↦
        let (w, q) = ends_with_split (codes ":*") p f in
        let r : p ≡ (w ++ codes ":") ++ codes "*" =
          q ∙ sym (append_assoc w (codes ":") (codes "*")) in
        let k : drop_last 1 p ≡ x = some-injective _ _ (rw (e, f) at h) in
        (
          codes "*",
          refl,
          r
              ∙ ap (λ y. y ++ codes "*")
                  (sym (drop_last-append (w ++ codes ":") (codes "*"))
                    ∙ ap (drop_last 1) (sym r)
                    ∙ k),
        )
    | inr f ↦ elim (Bool-cases (ends_with (codes "**") p)) [
      | inl g ↦
          let (w, q) = ends_with_split (codes "**") p g in
          let k : drop_last 2 p ≡ x = some-injective _ _ (rw (e, f, g) at h) in
          (
            codes "**",
            refl,
            q
                ∙ ap (λ y. y ++ codes "**")
                    (sym (drop_last-append w (codes "**")) ∙ ap (drop_last 2) (sym q) ∙ k),
          )
      | inr g ↦ absurd (cc (rw (e, f, g) at h))
    ]
  ]
]
