-- ===== src/Authority.antt =====
-- Authority scopes: `AuthorityScope` of
-- packages/openburrow-core/src/openburrow/core/models/governance.py.
-- A scope is a list of granted patterns and a list of denied ones. Only the human-readable
-- `describe` is left out. A `BurrowModel` strips its texts when it is built (core/models/base.py), so that
-- `narrow` stores its patterns stripped; the identifiers that `new_id` draws have no spaces. The proofs are in
-- the modules below.
pub mod Patterns
pub mod Narrowing
pub mod Widening
use openburrow.Prelude.{
  ℕ, ◌-◌, Bool, true, false, ◌||◌, Option, none, List, [], ◌∷◌, ◌++◌, Text, codes, text_eq,
  starts_with, ends_with, drop_last, is_blank, is_empty, strip, any, map, select, if◌then◌else◌,
  ltb,
}

pub record AuthorityScope : Type 0 where
  pub id : Text
  pub capabilities : List Text
  pub denials : List Text
  pub max_depth : ℕ
  pub expires_at : Option ℕ
  pub derived_from : Text

-- `_matches`: exact, a bare `*`, or a wildcard on the verb or on the target.
unfoldable pub matches : Text → Text → Bool
matches pattern capability =
    if text_eq pattern capability
    then true
    else if text_eq pattern (codes "*")
    then true
    else if ends_with (codes ":*") pattern
    then starts_with (drop_last 1 pattern) capability
    else if ends_with (codes "**") pattern
    then starts_with (drop_last 2 pattern) capability
    else false

unfoldable pub allows : AuthorityScope → Text → Bool
allows s capability =
    if is_empty capability || is_blank capability
    then false
    else if any (λ denied. matches denied capability) s.denials
    then false
    else any (λ granted. matches granted capability) s.capabilities

-- Python compares strings by code points.
unfoldable pub text_lt : Text → Text → Bool
text_lt [] [] = false
text_lt [] (b ∷ t) = true
text_lt (a ∷ s) [] = false
text_lt (a ∷ s) (b ∷ t) =
    let rest = text_lt s t in if ltb a b then true else if ltb b a then false else rest

unfoldable pub insert_text : Text → List Text → List Text
insert_text x [] = x ∷ []
insert_text x (y ∷ ys) =
    let rest = insert_text x ys in
    if text_eq x y then y ∷ ys else if text_lt x y then x ∷ y ∷ ys else y ∷ rest

-- `sorted({*xs})`: in order, each once.
unfoldable pub sorted_set : List Text → List Text
sorted_set [] = []
sorted_set (x ∷ xs) = insert_text x (sorted_set xs)

-- The text is as a model stores it.
unfoldable pub is_tidy : Text → Bool
is_tidy t = text_eq (strip t) t

-- `narrow`; `fresh` is the identifier that `new_id` gives the new scope.
unfoldable pub narrow : AuthorityScope → Text → List Text → List Text → AuthorityScope
narrow s fresh requested denied = record {
  id = fresh;
  capabilities = map strip (select (allows s) requested);
  denials = map strip (sorted_set (s.denials ++ denied));
  max_depth = s.max_depth - 1;
  expires_at = none;
  derived_from = s.id;
}

unfoldable pub unrestricted : Text → AuthorityScope
unrestricted fresh = record {
  id = fresh;
  capabilities = codes "*" ∷ [];
  denials = [];
  max_depth = 10;
  expires_at = none;
  derived_from = [];
}

unfoldable pub read_only : Text → AuthorityScope
read_only fresh = record {
  id = fresh;
  capabilities = codes "read:*" ∷ [];
  denials = [];
  max_depth = 0;
  expires_at = none;
  derived_from = [];
}
