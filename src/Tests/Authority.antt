-- ===== src/Tests/Authority.antt =====
-- Authority scopes at concrete patterns.
use openburrow.Prelude.{
  ◌≡◌, refl, true, false, none, List, [], ◌∷◌, ◌++◌, Memᴰ, Text, codes, text_eq, starts_with,
  ends_with, is_blank, strip,
}
use openburrow.Authority.{
  AuthorityScope, matches, allows, narrow, sorted_set, insert_text, text_lt, is_tidy,
}
use openburrow.Authority.Patterns.{stem}
use openburrow.Authority.Narrowing.{is_plain, matches_trans, allows-narrow, narrow-allows}
use openburrow.Authority.Widening.{triple, narrow_widens}

abbrev held : AuthorityScope
held = record {
  id = codes "s1";
  capabilities = codes "write:src/**" ∷ codes "read:*" ∷ [];
  denials = codes "write:src/secret" ∷ [];
  max_depth = 3;
  expires_at = none;
  derived_from = [];
}

abbrev asked : List Text
asked = codes "write:src/api/**" ∷ codes "exec:test" ∷ []

abbrev route : Text
route = codes "write:src/api/routes.py"

runs : Text → AuthorityScope
unfolding allows matches narrow sorted_set insert_text text_lt text_eq starts_with ends_with
    is_blank is_plain stem strip is_tidy
runs fresh = narrow held fresh asked (codes "write:src/api/keys" ∷ [])

runs-capabilities : (runs (codes "s2")).capabilities ≡ codes "write:src/api/**" ∷ []
unfolding runs
runs-capabilities = refl

runs-denials :
    (runs (codes "s2")).denials ≡ codes "write:src/api/keys" ∷ codes "write:src/secret" ∷ []
unfolding runs
runs-denials = refl

denied_wins : allows held (codes "write:src/secret") ≡ false
unfolding runs
denied_wins = refl

matches_trans_example : matches (codes "write:src/**") route ≡ true
unfolding runs
matches_trans_example =
    matches_trans (codes "write:src/**") (codes "write:src/api/**") route refl refl refl

allows-narrow_example : allows held route ≡ true
unfolding runs
allows-narrow_example =
    allows-narrow held (codes "s2") asked (codes "write:src/api/keys" ∷ []) route refl refl refl
      refl

narrow-allows_example :
    allows
      (narrow held (codes "s2") asked (codes "write:src/api/keys" ∷ []))
      (codes "write:src/api/**")
    ≡ true
unfolding runs
narrow-allows_example =
    narrow-allows held (codes "s2") asked (codes "write:src/api/keys" ∷ [])
      (codes "write:src/api/**") refl refl (Memᴰ.head refl) refl refl

narrow_widens_example :
    (allows (triple (codes "s1") (codes "write:a")) (codes "write:a") ≡ false)
    × (allows
          (narrow
            (triple (codes "s1") (codes "write:a"))
            (codes "s2")
            ((codes "write:a" ++ codes "**") ∷ [])
            [])
          (codes "write:a")
        ≡ true)
unfolding runs
narrow_widens_example = narrow_widens (codes "s1") (codes "s2") (codes "write:a") refl refl
