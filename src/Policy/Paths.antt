-- ===== src/Policy/Paths.antt =====
-- The matching of paths, packages/openburrow-governance/src/openburrow/governance/policy.py.
use openburrow.Prelude.{
  ℕ, Bool, false, not, ◌&&◌, ◌||◌, Option, none, some, List, [], ◌∷◌, ◌++◌, map, Text, codes,
  text_eq, starts_with, strip, is_empty, any, drop, length, if◌then◌else◌, ◌==◌,
}

-- What is of the standard library.
pub record Outside : Type 0 where
  pub search : Text → Text → Bool  -- `_pattern_regex(pattern).search(command)`
  pub path_words : Text → List Text  -- the matches of `_PATH_TOKEN`
  pub expanduser : Text → Text
  pub resolved : Text → Text  -- `Path(...).expanduser().resolved()`
  pub fnmatch : Text → Text → Bool

-- `_normalise`
unfoldable pub normalise : Text → Text
normalise path = strip (map (λ c. if c == 92 then 47 else c) path)

-- `path.rsplit("/", 1)[-1]`
unfoldable pub last_part : Text → Text → Text
last_part part [] = part
last_part part (c ∷ cs) = if c == 47 then last_part [] cs else last_part (part ++ c ∷ []) cs

-- `path.split("/")`
unfoldable pub parts : Text → Text → List Text
parts part [] = part ∷ []
parts part (c ∷ cs) =
    let next = parts [] cs in
    let longer = parts (part ++ c ∷ []) cs in if c == 47 then part ∷ next else longer

-- `s in t`
unfoldable pub is_inside : Text → Text → Bool
is_inside s [] = is_empty s
is_inside s (c ∷ cs) = starts_with s (c ∷ cs) || is_inside s cs

-- `rstrip` of one character
unfoldable pub rstrip_char : ℕ → Text → Text
rstrip_char c [] = []
rstrip_char c (d ∷ ds) =
    let rest = rstrip_char c ds in if is_empty rest && (c == d) then [] else d ∷ rest

-- `_is_absolute`
unfoldable pub is_absolute : Text → Bool
is_absolute path = starts_with (codes "/") path || elim path [ a ∷ b ∷ rest ↦ b == 58 | _ ↦ false ]

-- `_escapes_repo`
unfoldable pub escapes_repo : Text → Bool
escapes_repo path = any (λ part. text_eq part (codes "..")) (parts [] path)

-- `path[2:] if path.startswith("./") else path`
unfoldable pub without_dot : Text → Text
without_dot path = if starts_with (codes "./") path then drop 2 path else path

abbrev forms : Text → List Text
forms [] = []
forms (c ∷ cs) =
    (c ∷ cs) ∷ (if is_empty (last_part [] (c ∷ cs)) then [] else last_part [] (c ∷ cs) ∷ [])

-- `_path_candidates`, less the repetitions, which match nothing more
unfoldable pub path_candidates : Outside → Text → List Text
path_candidates out path =
    let raw = normalise path in
    if is_empty raw
    then []
    else forms raw ++ (forms (without_dot raw) ++ forms (normalise (out.expanduser raw)))

-- The shapes of a pattern that name a directory or a file.
unfoldable pub names_it : Text → Text → Bool
names_it stem candidate =
    not (is_empty stem)
    && (text_eq candidate stem
        || (starts_with (stem ++ codes "/") candidate
            || (is_inside (codes "/" ++ (stem ++ codes "/")) (codes "/" ++ candidate)
                || text_eq (last_part [] candidate) stem)))

unfoldable pub variants : Text → List Text
variants body =
    body
    ∷ ((if starts_with (codes "**/") body then drop 3 body ∷ [] else [])
        ++ (if is_inside (codes "/") body then [] else (codes "**/" ++ body) ∷ []))

abbrev is_dot : Text → Bool
is_dot pattern = text_eq pattern (codes ".") || text_eq pattern (codes "./")

-- `_match_one_path`
unfoldable pub match_one_path : Outside → Text → Text → Bool
match_one_path out pattern candidate =
    not (is_empty pattern)
    && (not (is_empty candidate)
        && (if is_dot pattern
            then not (is_absolute candidate) && not (escapes_repo candidate)
            else names_it (rstrip_char 47 (without_dot pattern)) candidate
              || any (out.fnmatch candidate) (variants (without_dot pattern))))

unfoldable pub matches_path : Outside → Text → Text → Bool
matches_path out pattern path =
    let target = normalise pattern in
    let expanded = normalise (out.expanduser target) in
    not (is_empty target)
    && (not (is_empty path)
        && (if is_dot target
            then match_one_path out target (normalise path)
            else any (λ c. match_one_path out target c || match_one_path out expanded c)
                (path_candidates out path)))

-- `token.strip(",;:")`
abbrev is_mark : ℕ → Bool
is_mark c = (c == 44) || ((c == 59) || (c == 58))

unfoldable pub strip_marks_left : Text → Text
strip_marks_left [] = []
strip_marks_left (c ∷ cs) = if is_mark c then strip_marks_left cs else c ∷ cs

unfoldable pub strip_marks_right : Text → Text
strip_marks_right [] = []
strip_marks_right (c ∷ cs) =
    let rest = strip_marks_right cs in if is_empty rest && is_mark c then [] else c ∷ rest

-- What stands behind the first `=`.
unfoldable pub tail_of : Text → Text
tail_of [] = []
tail_of (c ∷ cs) = if c == 61 then cs else tail_of cs

abbrev has_char : ℕ → Text → Bool
has_char c t = any (λ d. c == d) t

unfoldable pub token_paths : Text → List Text
token_paths token =
    if has_char 47 token || (has_char 92 token || starts_with (codes "~") token)
    then token
      ∷ (let rest = tail_of token in
          if not (is_empty rest) && (has_char 47 rest || starts_with (codes "~") rest)
          then rest ∷ []
          else [])
    else []

unfoldable pub all_token_paths : List Text → List Text
all_token_paths [] = []
all_token_paths (w ∷ ws) =
    let token = strip_marks_right (strip_marks_left w) in
    (if is_empty token then [] else token_paths token) ++ all_token_paths ws

-- `_path_tokens`, less the repetitions
unfoldable pub path_tokens : Outside → Text → List Text
path_tokens out command = if is_empty command then [] else all_token_paths (out.path_words command)

abbrev with_slash : Text → Text
with_slash root = root ++ codes "/"

-- `_repo_relative`, where the root has no slash at its end or is the slash
unfoldable pub within_root : Outside → Text → Text → Text
within_root out root path =
    let absolute = normalise (out.resolved path) in
    let prefix = if text_eq (rstrip_char 47 root) root then with_slash root else root in
    if text_eq absolute root
    then codes "."
    else if starts_with prefix absolute
    then drop (length prefix) absolute
    else if is_absolute (normalise path)
    then absolute
    else normalise path

unfoldable pub repo_relative : Outside → Option Text → Text → Text
repo_relative out none path = path
repo_relative out (some root) path =
    if is_empty path then path else within_root out (normalise root) path
