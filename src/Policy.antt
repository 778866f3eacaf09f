-- ===== src/Policy.antt =====
-- The policy gate, packages/openburrow-governance/src/openburrow/governance/policy.py: the rules of a role, and the
-- verdict on a command. The paths are in Policy.Paths. Regular expressions, the home directory, the resolution of
-- symbolic links and fnmatch are arguments (Outside). Diagnostics and the texts of the reasons are left out.
pub mod Paths
pub mod Precedence
pub mod Risk
use openburrow.Prelude.{
  ℕ, Bool, true, false, not, ◌&&◌, ◌||◌, Option, none, some, List, [], ◌∷◌, ◌++◌, Text, text_eq,
  strip, is_empty, any, select, if◌then◌else◌, ltb, Table, get,
}
use openburrow.Policy.Paths.{Outside, matches_path, path_tokens, repo_relative}

pub data Action : Type 0 where
  allow deny : Action

pub data RiskTier : Type 0 where
  low medium high critical : RiskTier

-- `_RISK_INDEX`
unfoldable pub risk_index : RiskTier → ℕ
risk_index low = 0
risk_index medium = 1
risk_index high = 2
risk_index critical = 3

-- `APPROVAL_TIERS`
unfoldable pub is_approval_tier : RiskTier → Bool
is_approval_tier high = true
is_approval_tier critical = true
is_approval_tier _ = false

-- A value of an override: no such key, no list, or a list (one text is a list of one).
pub data Entry : Type 0 where
  absent malformed : Entry
  listed : List Text → Entry

pub record Override : Type 0 where
  pub allowed_commands : Entry
  pub denied_commands : Entry
  pub denies : Bool  -- default_action is "deny"

pub record PolicyConfig : Type 0 where
  pub enforce : Bool
  pub default_action : Action
  pub allowed_commands : List Text
  pub denied_commands : List Text
  pub allowed_paths : List Text
  pub denied_paths : List Text
  pub role_overrides : Table Override
  pub risk_tiers : List (RiskTier × List Text)

pub record RolePolicy : Type 0 where
  pub allowed_commands : List Text
  pub denied_commands : List Text
  pub default_action : Action

-- `dict.fromkeys`
unfoldable pub unique : List Text → List Text
unique [] = []
unique (t ∷ ts) = t ∷ select (λ u. not (text_eq t u)) (unique ts)

-- `_as_patterns`, with what stands in its place
abbrev pub patterns_or : List Text → Entry → List Text
patterns_or otherwise absent = otherwise
patterns_or otherwise malformed = otherwise
patterns_or otherwise (listed ts) = ts

abbrev added_denials : List Text → Entry → List Text
added_denials denied absent = denied
added_denials denied malformed = unique (denied ++ [])
added_denials denied (listed ts) = unique (denied ++ ts)

unfoldable pub base_role : PolicyConfig → RolePolicy
base_role p = record {
  allowed_commands = p.allowed_commands;
  denied_commands = p.denied_commands;
  default_action = p.default_action;
}

unfoldable pub overridden : PolicyConfig → Option Override → RolePolicy
overridden p none = base_role p
overridden p (some o) = record {
  allowed_commands = patterns_or p.allowed_commands o.allowed_commands;
  denied_commands = added_denials p.denied_commands o.denied_commands;
  default_action = if o.denies then deny else p.default_action;
}

unfoldable pub resolve_role : PolicyConfig → Text → RolePolicy
resolve_role p role =
    if is_empty role then base_role p else overridden p (get p.role_overrides role)

unfoldable pub matches_command : Outside → Text → Text → Bool
matches_command out pattern command =
    not (is_empty (strip pattern)) && (not (is_empty command) && out.search (strip pattern) command)

-- `_first_match`
unfoldable pub first_match : Outside → List Text → Text → Option Text
first_match out [] command = none
first_match out (p ∷ ps) command =
    if matches_command out p command then some p else first_match out ps command

pub data MatchedKind : Type 0 where
  denied_commands denied_paths allowed_paths allowed_commands default_action : MatchedKind

pub record PolicyVerdict : Type 0 where
  pub command : Text
  pub action : Action
  pub risk_tier : RiskTier
  pub matched_kind : MatchedKind
  pub matched_rule : Option Text
  pub would_require_approval : Bool
  pub path : Text
  pub role : Text
  pub hits : List Text  -- denied_paths

-- `_risk_tier`: the loop over the tiers, from the best one so far
unfoldable pub risk_from : Outside → Text → RiskTier → List (RiskTier × List Text) → RiskTier
risk_from out command best [] = best
risk_from out command best ((tier, patterns) ∷ rows) =
    risk_from out command
      (if ltb (risk_index best) (risk_index tier)
          && any (λ p. matches_command out p command) patterns
        then tier
        else best)
      rows

unfoldable pub risk_tier : Outside → PolicyConfig → Text → RiskTier
risk_tier out p command = risk_from out command low p.risk_tiers

-- `_denied_path_hits`
unfoldable pub denied_path_hits : Outside → PolicyConfig → Text → Text → List Text
denied_path_hits out p command declared = unique (
    select
      (λ rule.
        (not (is_empty declared) && matches_path out rule declared)
        || any (matches_path out rule) (path_tokens out command))
      p.denied_paths)

abbrev is_allowed : Action → Bool
is_allowed allow = true
is_allowed deny = false

-- `_verdict`
unfoldable pub give :
    Outside
    → PolicyConfig
    → Text
    → Text
    → Text
    → Action
    → MatchedKind
    → Option Text
    → List Text
    → PolicyVerdict
give out p command path role action kind rule hits = record {
  command = command;
  action = action;
  risk_tier = risk_tier out p command;
  matched_kind = kind;
  matched_rule = rule;
  would_require_approval = is_allowed action && is_approval_tier (risk_tier out p command);
  path = path;
  role = role;
  hits = hits;
}

-- The fourth step of `check`: the allowlist, then the default.
abbrev pub step_allowlist :
    Outside → PolicyConfig → Text → Text → Text → Action → Option Text → PolicyVerdict
step_allowlist out p command path role otherwise (some rule) =
    give out p command path role allow allowed_commands (some rule) []
step_allowlist out p command path role otherwise none =
    give out p command path role otherwise default_action none []

-- The third step: whether a declared path lies outside the allowed ones.
unfoldable pub is_outside : Outside → Option Text → PolicyConfig → Text → Bool
is_outside out root p declared =
    not (is_empty declared)
    && (not (is_empty p.allowed_paths)
        && not
            (any (λ rule. matches_path out rule (repo_relative out root declared)) p.allowed_paths))

abbrev pub step_paths :
    Outside
    → Option Text
    → PolicyConfig
    → RolePolicy
    → Text
    → Text
    → Text
    → List Text
    → PolicyVerdict
step_paths out root p rules command path role (hit ∷ hits) =
    give out p command path role deny denied_paths (some hit) (hit ∷ hits)
step_paths out root p rules command path role [] =
    if is_outside out root p path
    then give out p command path role deny allowed_paths none []
    else step_allowlist out p command path role rules.default_action
        (first_match out rules.allowed_commands command)

abbrev pub step_denied :
    Outside
    → Option Text
    → PolicyConfig
    → RolePolicy
    → Text
    → Text
    → Text
    → Option Text
    → PolicyVerdict
step_denied out root p rules command path role (some rule) =
    give out p command path role deny denied_commands (some rule) []
step_denied out root p rules command path role none =
    step_paths out root p rules command path role (denied_path_hits out p command path)

unfoldable pub check_rules :
    Outside → Option Text → PolicyConfig → RolePolicy → Text → Text → Text → PolicyVerdict
check_rules out root p rules command path role =
    step_denied out root p rules command path role (first_match out rules.denied_commands command)

-- `check`; no path and no role are empty texts.
unfoldable pub check : Outside → Option Text → PolicyConfig → Text → Text → Text → PolicyVerdict
check out root p command path role =
    check_rules out root p (resolve_role p (strip role)) (strip command) (strip path) (strip role)

-- The arguments that are not empty, with a space between each two
unfoldable pub join_words : List Text → Text
join_words [] = []
join_words (w ∷ ws) =
    let rest = join_words ws in
    if is_empty w then rest else (if is_empty rest then w else w ++ (32 ∷ rest))

unfoldable pub check_argv :
    Outside → Option Text → PolicyConfig → List Text → Text → Text → PolicyVerdict
check_argv out root p argv cwd role = check out root p (join_words argv) cwd role

-- `require`: none where it raises
unfoldable pub require :
    Outside → Option Text → PolicyConfig → Text → Text → Text → Option PolicyVerdict
require out root p command path role =
    let v = check out root p command path role in
    if not (is_allowed v.action) && p.enforce then none else some v
