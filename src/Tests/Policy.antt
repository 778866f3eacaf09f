-- ===== src/Tests/Policy.antt =====
-- A policy with a role, and the commands that it allows.
use openburrow.Prelude.{
  ◌≡◌, refl, ◌↔◌, ◌⊎◌, true, false, none, [], ◌∷◌, codes, text_eq, strip, lstrip, rstrip, is_blank,
  is_space, starts_with, get,
}
use openburrow.Policy.Paths.{Outside, path_tokens, matches_path, normalise, all_token_paths}
use openburrow.Policy.{
  allow, low, high, critical, absent, listed, Override, PolicyConfig, base_role, check_rules, check,
  resolve_role, overridden, first_match, unique, denied_path_hits, is_outside, give, risk_tier,
  risk_from, risk_index, matches_command,
}
use openburrow.Policy.Precedence.{Passes, check_rules-allow, check-narrows}
use openburrow.Policy.Risk.{is_bound, IsMatched, risk_tier-greatest}

abbrev outside : Outside
outside = record {
  search = starts_with;
  path_words = λ command. [];
  expanduser = λ path. path;
  resolved = λ path. path;
  fnmatch = λ path pattern. text_eq path pattern;
}

abbrev reviewer : Override
reviewer = record {
  allowed_commands = absent;
  denied_commands = listed (codes "git push" ∷ []);
  denies = false;
}

abbrev policy : PolicyConfig
policy = record {
  enforce = true;
  default_action = allow;
  allowed_commands = [];
  denied_commands = codes "rm -rf" ∷ [];
  allowed_paths = codes "." ∷ [];
  denied_paths = codes ".env" ∷ [];
  role_overrides = (codes "reviewer", reviewer) ∷ [];
  risk_tiers =
      (low, codes "ls" ∷ []) ∷ (critical, codes "git push" ∷ []) ∷ (high, codes "git" ∷ []) ∷ [];
}

check_rules-allow_example :
    ((check_rules outside none policy (base_role policy) (codes "ls") [] []).action ≡ allow)
    ↔ Passes outside none policy (base_role policy) (codes "ls") []
check_rules-allow_example =
    check_rules-allow outside none policy (base_role policy) (codes "ls") [] []

listing : (check outside none policy (codes "ls") [] (codes "reviewer")).action ≡ allow
unfolding check check_rules resolve_role overridden first_match matches_command unique
    denied_path_hits path_tokens matches_path is_outside give strip lstrip rstrip is_blank is_space
    get text_eq starts_with normalise all_token_paths
listing = refl

check-narrows_example : (check outside none policy (codes "ls") [] []).action ≡ allow
unfolding strip lstrip rstrip is_blank is_space get text_eq
check-narrows_example =
    check-narrows outside none policy (codes "ls") [] (codes "reviewer") refl listing

risk_tier-greatest_example :
    (is_bound outside
        (codes "git push")
        policy.risk_tiers
        (risk_tier outside policy (codes "git push"))
      ≡ true)
    × ((risk_tier outside policy (codes "git push") ≡ low)
        ⊎ IsMatched outside
            (codes "git push")
            policy.risk_tiers
            (risk_tier outside policy (codes "git push")))
risk_tier-greatest_example = risk_tier-greatest outside policy (codes "git push")

pushing : risk_tier outside policy (codes "git push") ≡ critical
unfolding risk_tier risk_from risk_index matches_command strip lstrip rstrip is_blank is_space
    starts_with
pushing = refl
