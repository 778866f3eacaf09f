-- ===== src/Claims/Glob.antt =====
-- Python's `fnmatch` on a system whose paths keep their case: `*`, `?`, and `[...]` with ranges and `!`.
use openburrow.Prelude.{
  ℕ, zero, suc, Bool, true, false, not, ◌&&◌, ◌||◌, Option, none, some, List, [], ◌∷◌, Text, length,
  is_empty, if◌then◌else◌, ◌==◌, leb,
}

pub data Token : Type 0 where
  star one : Token
  set : Bool → Text → Token  -- whether it is negated, and its body
  literal : ℕ → Token

-- A text up to the next `]`, and what follows that.
unfoldable pub close : Text → Option (Text × Text)
close [] = none
close (c ∷ s) =
    let rest = close s in
    if c == 93 then some ([], s) else elim rest [ none ↦ none | some r ↦ some (c ∷ r.0, r.1) ]

-- A `]` in the first place belongs to the body.
unfoldable pub body : Text → Option (Text × Text)
body [] = none
body (c ∷ s) =
    if c == 93 then elim (close s) [ none ↦ none | some r ↦ some (c ∷ r.0, r.1) ] else close (c ∷ s)

unfoldable pub bracket : Text → Option (Token × Text)
bracket [] = none
bracket (c ∷ s) =
    if c == 33
    then elim (body s) [ none ↦ none | some r ↦ some (set true r.0, r.1) ]
    else elim (body (c ∷ s)) [ none ↦ none | some r ↦ some (set false r.0, r.1) ]

-- The fuel is the length of the pattern.
unfoldable pub tokens : ℕ → Text → List Token
tokens zero pattern = []
tokens (suc fuel) [] = []
tokens (suc fuel) (c ∷ s) =
    let rest = λ (t : Text). tokens fuel t in
    if c == 42
    then star ∷ rest s
    else if c == 63
    then one ∷ rest s
    else if c == 91
    then elim (bracket s) [ none ↦ literal c ∷ rest s | some r ↦ r.0 ∷ rest r.1 ]
    else literal c ∷ rest s

-- The members of a set: single characters, and ranges `a-b`; an empty range has none.
unfoldable pub member : ℕ → Text → Bool
member x [] = false
member x (a ∷ []) = x == a
member x (a ∷ h ∷ []) = (x == a) || (x == h)
member x (a ∷ h ∷ b ∷ s) =
    let range = member x s in
    let single = member x (h ∷ b ∷ s) in
    if h == 45 then (leb a x && leb x b) || range else (x == a) || single

unfoldable pub fits : Token → ℕ → Bool
fits star x = true
fits one x = true
fits (set negated inside) x = if negated then not (member x inside) else member x inside
fits (literal c) x = x == c

unfoldable pub some_suffix : (Text → Bool) → Text → Bool
some_suffix p [] = p []
some_suffix p (c ∷ s) = p (c ∷ s) || some_suffix p s

unfoldable pub first_and_rest : Token → (Text → Bool) → Text → Bool
first_and_rest t p [] = false
first_and_rest t p (c ∷ s) = fits t c && p s

unfoldable pub matching : List Token → Text → Bool
matching [] s = is_empty s
matching (star ∷ ts) s = some_suffix (matching ts) s
matching (t ∷ ts) s = first_and_rest t (matching ts) s

unfoldable pub fnmatch : Text → Text → Bool
fnmatch path pattern = matching (tokens (length pattern) pattern) path
