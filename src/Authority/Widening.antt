-- ===== src/Authority/Widening.antt =====
-- Where `narrow` hands on more than the scope holds: patterns with a star before the wildcard.
use openburrow.Prelude.{
  ◌≡◌, refl, true, false, ◌||◌, [], ◌∷◌, ◌++◌, none, some, arith, Text, codes, text_eq, starts_with,
  ends_with, is_blank, is_empty, append_assoc, append-nil, sym, ◌∙◌, ap,
}
use openburrow.Authority.{AuthorityScope, matches, allows, narrow, sorted_set, is_tidy}
use openburrow.Authority.Patterns.{stem, under, matches-stem, starts_with_append, drop_last-append}
use openburrow.Authority.Narrowing.{allows_intro, strip-is_tidy}

text_eq-longer : (y : Text) (a : _) (s : Text) → text_eq (y ++ a ∷ s) y ≡ false
unfolding text_eq
text_eq-longer [] a s = refl
text_eq-longer (b ∷ y) a s = ground (arith, text_eq-longer y a s)

starts_with-longer : (y : Text) (a : _) (s : Text) → starts_with (y ++ a ∷ s) y ≡ false
unfolding starts_with
starts_with-longer [] a s = refl
starts_with-longer (b ∷ y) a s = ground (arith, starts_with-longer y a s)

ends_with_append : (y : Text) → ends_with (codes "**") (y ++ codes "**") ≡ true
unfolding ends_with
ends_with_append [] = refl
ends_with_append (b ∷ y) = ground (arith, ends_with_append y)

not_nil : (y : Text) → text_eq [] (y ++ codes "**") ≡ false
unfolding text_eq
not_nil [] = refl
not_nil (b ∷ y) = refl

not_colon : (y : Text) → ends_with (codes ":*") (y ++ codes "**") ≡ false
unfolding ends_with
not_colon [] = refl
not_colon (b ∷ []) = ground arith
not_colon (b ∷ c ∷ y) = ground (arith, not_colon (c ∷ y), not_nil y)

not_star : (y : Text) → text_eq (y ++ codes "**") (codes "*") ≡ false
unfolding text_eq
not_star [] = refl
not_star (b ∷ []) = ground arith
not_star (b ∷ c ∷ y) = ground arith

-- The stem of `x**`.
stem-stars : (x : Text) → stem (x ++ codes "**") ≡ some x
unfolding stem
stem-stars x =
    rw (not_star x, not_colon x, ends_with_append x) (ap some (drop_last-append x (codes "**")))

-- The scope that grants `y***` alone.
abbrev pub triple : Text → Text → AuthorityScope
triple id y = record {
  id = id;
  capabilities = (y ++ codes "***") ∷ [];
  denials = [];
  max_depth = 1;
  expires_at = none;
  derived_from = [];
}

blank-append : (y : Text) → is_blank (y ++ codes "**") ≡ false
unfolding is_blank
blank-append [] = refl
blank-append (b ∷ y) = ground (arith, blank-append y)

nonblank : (y : Text) → is_blank y ≡ false → (is_empty y || is_blank y) ≡ false
unfolding is_blank
nonblank [] h = h
nonblank (b ∷ y) h = h

nonempty : (y : Text) → is_empty (y ++ codes "**") ≡ false
nonempty [] = refl
nonempty (b ∷ y) = refl

matches-stars :
    (x c : Text) → matches (x ++ codes "**") c ≡ (text_eq (x ++ codes "**") c || starts_with x c)
matches-stars x c = matches-stem (x ++ codes "**") c ∙ rw (stem-stars x) (unfold under in refl)

triple-eq : (y : Text) → y ++ codes "***" ≡ (y ++ codes "*") ++ codes "**"
triple-eq y = sym (append_assoc y (codes "*") (codes "**"))

not-matches-triple : (y : Text) → matches (y ++ codes "***") y ≡ false
not-matches-triple y = rw triple-eq (
    rw matches-stars
      (rw (← triple-eq y, text_eq-longer y _ (codes "**"), starts_with-longer y _ [])))

matches-triple : (y : Text) → matches (y ++ codes "***") (y ++ codes "**") ≡ true
matches-triple y =
    let e : y ++ codes "**" ≡ (y ++ codes "*") ++ codes "*" =
      sym (append_assoc y (codes "*") (codes "*")) in
    rw triple-eq (
      rw matches-stars (
        ground (
          arith,
          ap (starts_with (y ++ codes "*")) e,
          starts_with_append (y ++ codes "*") (codes "*"),
        )))

matches-stars_self : (y : Text) → matches (y ++ codes "**") y ≡ true
matches-stars_self y =
    rw matches-stars (ground (arith, ap (starts_with y) (append-nil y), starts_with_append y []))

triple-allows : (id y : Text) → allows (triple id y) (y ++ codes "**") ≡ true
triple-allows id y =
    allows_intro (triple id y) (y ++ codes "**") (rw (nonempty y, blank-append y)) refl
      (rw matches-triple)

-- A scope that grants `y***` alone does not allow `y`, for any text `y` that is not blank; where `y**` has no space around it,
-- the scope hands on `y**` when asked, and the narrowed scope allows `y`.
pub narrow_widens :
    (id fresh y : Text)
    → is_blank y ≡ false
    → is_tidy (y ++ codes "**") ≡ true
    → (allows (triple id y) y ≡ false)
      × (allows (narrow (triple id y) fresh ((y ++ codes "**") ∷ []) []) y ≡ true)
narrow_widens id fresh y h tidy = (
  unfold allows in rw (nonblank y h, not-matches-triple y),
  unfold narrow sorted_set in
      allows_intro (narrow (triple id y) fresh ((y ++ codes "**") ∷ []) []) y (nonblank y h) refl
        (rw triple-allows (rw (strip-is_tidy (y ++ codes "**") tidy) (rw matches-stars_self))),
)
