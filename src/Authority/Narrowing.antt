-- ===== src/Authority/Narrowing.antt =====
-- `AuthorityScope.narrow` hands on no more than the scope holds, and all of it that is asked for.
use openburrow.Prelude.{
  ◌≡◌, refl, ◌∙◌, ap, sym, inl, inr, Bool, true, false, not, ◌||◌, Option, none, some, List, [],
  ◌∷◌, ◌++◌, Memᴰ, arith, map, strip, Text, text_eq, text_eq_refl, eq_of_text_eq, starts_with,
  is_blank, is_empty, any, all, select, Bool-cases, any-Memᴰ, Memᴰ-any, Memᴰ-select, select-Memᴰ,
  all-Memᴰ, any-append, all-select, ◌&&◌,
}
use openburrow.Authority.{AuthorityScope, matches, allows, insert_text, sorted_set, narrow, is_tidy}
use openburrow.Authority.Patterns.{
  stem, under, matches-stem, stem-append, starts_with-strip, starts_with_trans, ends_star,
}

abbrev plain_stem : Option Text → Bool
plain_stem none = true
plain_stem (some x) = not (ends_star x)

-- What stands before the wildcard of the pattern does not itself end in a star.
unfoldable pub is_plain : Text → Bool
is_plain p = plain_stem (stem p)

under_trans :
    (o o' : Option Text) (p c x : Text)
    → o ≡ some x
    → ends_star x ≡ false
    → starts_with x p ≡ true
    → stem p ≡ o'
    → under o' c ≡ true
    → starts_with x c ≡ true
unfolding under
under_trans o none p c x q e h k u = cc
under_trans o (some y) p c x q e h k u =
    let (s, ss, r) = stem-append p y k in
    starts_with_trans x y c (starts_with-strip x y s ss e (rw r at h)) u

under-matches :
    (o : Option Text) (q p c : Text)
    → stem q ≡ o
    → plain_stem o ≡ true
    → under o p ≡ true
    → matches p c ≡ true
    → under o c ≡ true
unfolding under
under-matches none q p c e f h k = cc
under-matches (some x) q p c e f h k = elim (Bool-cases (text_eq p c)) [
  | inl t ↦ rw (eq_of_text_eq p c t) at h
  | inr t ↦
      let u : under (stem p) c ≡ true = rw (matches-stem, t) at k in
      under_trans (some x) (stem p) p c x refl (ground arith) h refl u
]

-- A pattern that covers a plainer pattern covers what that one covers.
pub matches_trans :
    (q p c : Text)
    → is_plain q ≡ true
    → matches q p ≡ true
    → matches p c ≡ true
    → matches q c ≡ true
unfolding is_plain
matches_trans q p c f h k = elim (Bool-cases (text_eq q p)) [
  | inl t ↦ rw (eq_of_text_eq q p t) k
  | inr t ↦
      let u : under (stem q) p ≡ true = rw (matches-stem, t) at h in
      rw matches-stem (rw (under-matches (stem q) q p c refl f u k) (or_true (text_eq q c)))
]
  where
    or_true : (b : Bool) → (b || true) ≡ true
    or_true true = refl
    or_true false = refl

any-insert_text :
    (f : Text → Bool) (x : Text) (xs : List Text) → any f (insert_text x xs) ≡ (f x || any f xs)
unfolding insert_text
any-insert_text f x [] = refl
any-insert_text f x (y ∷ ys) = elim (Bool-cases (text_eq x y)) [
  | inl e ↦ rw (e, eq_of_text_eq x y e) (ground arith)
  | inr e ↦ rw e (ground (arith, any-insert_text f x ys))
]

-- Sorting a set of texts keeps what stands in it.
pub any-sorted_set : (f : Text → Bool) (xs : List Text) → any f (sorted_set xs) ≡ any f xs
unfolding sorted_set
any-sorted_set f [] = refl
any-sorted_set f (x ∷ xs) =
    any-insert_text f x (sorted_set xs) ∙ ap (λ b. f x || b) (any-sorted_set f xs)

pub allows_intro :
    (s : AuthorityScope) (c : Text)
    → (is_empty c || is_blank c) ≡ false
    → any (λ d. matches d c) s.denials ≡ false
    → any (λ g. matches g c) s.capabilities ≡ true
    → allows s c ≡ true
unfolding allows
allows_intro s c b d g = rw (b, d, g)

pub allows_elim :
    (s : AuthorityScope) (c : Text)
    → allows s c ≡ true
    → ((is_empty c || is_blank c) ≡ false)
      × (any (λ d. matches d c) s.denials ≡ false)
      × (any (λ g. matches g c) s.capabilities ≡ true)
unfolding allows
allows_elim s c h = ground arith

pub strip-is_tidy : (t : Text) → is_tidy t ≡ true → strip t ≡ t
unfolding is_tidy
strip-is_tidy t h = eq_of_text_eq (strip t) t h

-- Tidy texts are stored as they are.
pub map-strip : (xs : List Text) → all is_tidy xs ≡ true → map strip xs ≡ xs
map-strip [] h = refl
map-strip (x ∷ xs) h =
    let (t, ts) = both (is_tidy x) (all is_tidy xs) h in
    rw (strip-is_tidy x t) (ap (λ ys. x ∷ ys) (map-strip xs ts))
  where
    both : (a b : Bool) → (a && b) ≡ true → (a ≡ true) × (b ≡ true)
    both a b k = ground arith

any-map :
    (f : Text → Bool) (g : Text → Text) (xs : List Text) → any f (map g xs) ≡ any (λ x. f (g x)) xs
any-map f g [] = refl
any-map f g (x ∷ xs) = ap (λ b. f (g x) || b) (any-map f g xs)

-- The denials of a narrowed scope are those of the scope, and the added ones as they are stored.
denials-narrow :
    (f : Text → Bool) (held denied : List Text)
    → all is_tidy held ≡ true
    → any f (map strip (sorted_set (held ++ denied)))
      ≡ (any f held || any (λ d. f (strip d)) denied)
denials-narrow f held denied tidy =
    any-map f strip (sorted_set (held ++ denied))
    ∙ any-sorted_set (λ d. f (strip d)) (held ++ denied)
    ∙ any-append (λ d. f (strip d)) held denied
    ∙ ap (λ b. b || any (λ d. f (strip d)) denied)
        (sym (any-map f strip held) ∙ ap (any f) (map-strip held tidy))

-- A capability that the scope granted by `narrow` allows, the narrowed scope allows too, if the narrowed scope's own
-- patterns are plain and its denials stripped, and the patterns that are asked for have no space around them.
pub allows-narrow :
    (s : AuthorityScope) (fresh : Text) (requested denied : List Text) (c : Text)
    → all is_plain s.capabilities ≡ true
    → all is_tidy s.denials ≡ true
    → all is_tidy requested ≡ true
    → allows (narrow s fresh requested denied) c ≡ true
    → allows s c ≡ true
unfolding narrow
allows-narrow s fresh requested denied c plain tidy stripped h =
    let (nonblank, undenied, granted) = allows_elim (narrow s fresh requested denied) c h in
    let kept =
      map-strip (select (allows s) requested) (all-select (allows s) is_tidy requested stripped) in
    let (p, m, pc) =
      Memᴰ-any (λ g. matches g c) (select (allows s) requested)
        (ap (any (λ g. matches g c)) (sym kept) ∙ granted) in
    let (_, held) = Memᴰ-select (allows s) p requested m in
    let (_, _, covered) = allows_elim s p held in
    let (q, n, qp) = Memᴰ-any (λ g. matches g p) s.capabilities covered in
    allows_intro s c nonblank
      (undenied_left _ (denials-narrow (λ d. matches d c) s.denials denied tidy) undenied)
      (any-Memᴰ (λ g. matches g c) q s.capabilities n
        (matches_trans q p c (all-Memᴰ is_plain q s.capabilities plain n) qp pc))
  where
    undenied_left : {a : Bool} (b : Bool) {e : Bool} → e ≡ (a || b) → e ≡ false → a ≡ false
    undenied_left {a = true} b q h = cc
    undenied_left {a = false} b q h = refl

-- What is asked for without a space around it and held is handed on, unless it is denied on the way; the scope's own
-- denials are stripped.
pub narrow-allows :
    (s : AuthorityScope) (fresh : Text) (requested denied : List Text) (c : Text)
    → all is_tidy s.denials ≡ true
    → is_tidy c ≡ true
    → Memᴰ c requested
    → allows s c ≡ true
    → any (λ d. matches (strip d) c) denied ≡ false
    → allows (narrow s fresh requested denied) c ≡ true
unfolding narrow
narrow-allows s fresh requested denied c tidy stripped m held undenied =
    let (nonblank, kept, _) = allows_elim s c held in
    allows_intro (narrow s fresh requested denied) c nonblank
      (denials-narrow (λ d. matches d c) s.denials denied tidy ∙ rw (kept, undenied) refl)
      (any-map (λ g. matches g c) strip (select (allows s) requested)
        ∙ any-Memᴰ (λ g. matches (strip g) c) c (select (allows s) requested)
            (select-Memᴰ (allows s) c requested m held)
            (rw (strip-is_tidy c stripped) (unfold matches in rw text_eq_refl)))
