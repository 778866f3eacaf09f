-- ===== src/Policy/Precedence.antt =====
-- Which rules a command must pass, and how a role narrows them.
use openburrow.Prelude.{
  ◌&&◌, not, ◌≡◌, refl, sym, ap, ◌∙◌, ◌↔◌, ◌⊎◌, inl, inr, Bool, true, false, ◌||◌, Option, none,
  some, List, [], ◌∷◌, ◌++◌, Text, text_eq, eq_of_text_eq, strip, is_empty, any, any-append, select,
  if◌then◌else◌, if_both, Bool-cases, get, arith,
}
use openburrow.Policy.Paths.{Outside, matches_path, path_tokens}
use openburrow.Policy.{
  Action, allow, deny, Entry, absent, malformed, listed, Override, PolicyConfig, RolePolicy, unique,
  patterns_or, added_denials, base_role, overridden, resolve_role, matches_command, first_match,
  denied_path_hits, give, is_outside, step_allowlist, step_paths, step_denied, check_rules, check,
}

-- A rule of a list matches a command.
abbrev pub is_matched : Outside → List Text → Text → Bool
is_matched out rules command = any (λ q. matches_command out q command) rules

first_match-none :
    (out : Outside) (rules : List Text) (command : Text)
    → (first_match out rules command ≡ none) ↔ (is_matched out rules command ≡ false)
unfolding first_match
first_match-none out [] command = (λ e. refl, λ e. refl)
first_match-none out (q ∷ qs) command =
    let later = first_match-none out qs command in
    elim (Bool-cases (matches_command out q command)) [
      | inl e ↦ (λ h. absurd (cc (rw e at h)), λ h. absurd (cc (rw e at h)))
      | inr e ↦ rw e later
    ]

first_match-some :
    (out : Outside) (rules : List Text) (command q : Text)
    → first_match out rules command ≡ some q
    → is_matched out rules command ≡ true
first_match-some out rules command q h = elim (Bool-cases (is_matched out rules command)) [
  | inl e ↦ e
  | inr e ↦ absurd (cc ((first_match-none out rules command).1 e, h))
]

-- The repetitions of a list decide nothing.
any-select_unequal :
    (f : Text → Bool) (t : Text) (us : List Text)
    → (f t || any f (select (λ u. not (text_eq t u)) us)) ≡ (f t || any f us)
any-select_unequal f t [] = refl
any-select_unequal f t (u ∷ us) =
    let later = any-select_unequal f t us in
    elim (Bool-cases (text_eq t u)) [
      | inl e ↦ rw (e, sym (eq_of_text_eq t u e)) (ground (arith, later))
      | inr e ↦ rw e (ground (arith, later))
    ]

any-unique : (f : Text → Bool) (ts : List Text) → any f (unique ts) ≡ any f ts
unfolding unique
any-unique f [] = refl
any-unique f (t ∷ ts) = any-select_unequal f t (unique ts) ∙ ap (λ b. f t || b) (any-unique f ts)

-- A denied path is declared, or is in the text of the command.
abbrev pub is_hit : Outside → Text → Text → Text → Bool
is_hit out command declared rule =
    (not (is_empty declared) && matches_path out rule declared)
    || any (matches_path out rule) (path_tokens out command)

select-nil : (f : Text → Bool) (ts : List Text) → (select f ts ≡ []) ↔ (any f ts ≡ false)
select-nil f [] = (λ e. refl, λ e. refl)
select-nil f (t ∷ ts) =
    let later = select-nil f ts in
    elim (Bool-cases (f t)) [
      | inl e ↦ (λ h. absurd (cc (rw e at h)), λ h. absurd (cc (rw e at h)))
      | inr e ↦ rw e later
    ]

unique-nil : (ts : List Text) → (unique ts ≡ []) ↔ (ts ≡ [])
unfolding unique
unique-nil [] = (λ e. refl, λ e. refl)
unique-nil (t ∷ ts) = (λ h. absurd (cc h), λ h. absurd (cc h))

denied_path_hits-nil :
    (out : Outside) (p : PolicyConfig) (command declared : Text)
    → (denied_path_hits out p command declared ≡ [])
      ↔ (any (is_hit out command declared) p.denied_paths ≡ false)
unfolding denied_path_hits
denied_path_hits-nil out p command declared =
    let kept = select (is_hit out command declared) p.denied_paths in
    let two = select-nil (is_hit out command declared) p.denied_paths in
    (λ h. two.0 ((unique-nil kept).0 h), λ h. (unique-nil kept).1 (two.1 h))

-- What a command passes that is allowed.
abbrev pub Passes : Outside → Option Text → PolicyConfig → RolePolicy → Text → Text → Type 0
Passes out root p rules command path =
    (is_matched out rules.denied_commands command ≡ false)
    × (any (is_hit out command path) p.denied_paths ≡ false)
    × (is_outside out root p path ≡ false)
    × ((is_matched out rules.allowed_commands command ≡ true) ⊎ (rules.default_action ≡ allow))

allow-deny : {A : Type 0} → deny ≡ allow → A
allow-deny h = absurd (cc h)

module _ (out : Outside) (root : Option Text) (p : PolicyConfig) (rules : RolePolicy)
    (command path role : Text) where
  abbrev IsPermitted : Type 0
  IsPermitted =
      (is_matched out rules.allowed_commands command ≡ true) ⊎ (rules.default_action ≡ allow)

  step_allowlist-allow :
      (o : Option Text)
      → first_match out rules.allowed_commands command ≡ o
      → ((step_allowlist out p command path role rules.default_action o).action ≡ allow)
        ↔ IsPermitted
  unfolding give
  step_allowlist-allow (some q) h =
      (λ e. inl (first_match-some out rules.allowed_commands command q h), λ e. refl)
  step_allowlist-allow none h = (
    λ e. inr e,
    λ s. elim s [
      | inl m ↦ absurd (cc (m, (first_match-none out rules.allowed_commands command).0 h))
      | inr e ↦ e
    ],
  )

  step_paths-allow :
      (hits : List Text)
      → ((step_paths out root p rules command path role hits).action ≡ allow)
        ↔ ((hits ≡ []) × (is_outside out root p path ≡ false) × IsPermitted)
  unfolding give
  step_paths-allow (hit ∷ hits) = (λ e. allow-deny e, λ (e, f, k). absurd (cc e))
  step_paths-allow [] =
      let next = step_allowlist-allow (first_match out rules.allowed_commands command) refl in
      elim (Bool-cases (is_outside out root p path)) [
        | inl e ↦ (λ h. allow-deny (rw e at h), λ (f, g, k). absurd (cc (e, g)))
        | inr e ↦ (λ h. (refl, e, next.0 (rw e at h)), λ (f, g, k). rw e (next.1 k))
      ]

  step_denied-allow :
      (o : Option Text)
      → first_match out rules.denied_commands command ≡ o
      → ((step_denied out root p rules command path role o).action ≡ allow)
        ↔ Passes out root p rules command path
  unfolding give
  step_denied-allow (some q) h = (
    λ e. allow-deny e,
    λ (d, e, f, k). absurd (cc (d, first_match-some out rules.denied_commands command q h)),
  )
  step_denied-allow none h =
      let next = step_paths-allow (denied_path_hits out p command path) in
      (
        λ e.
            let (d, f, k) = next.0 e in
            (
              (first_match-none out rules.denied_commands command).0 h,
              (denied_path_hits-nil out p command path).0 d,
              f,
              k,
            ),
        λ (d, e, f, k). next.1 ((denied_path_hits-nil out p command path).1 e, f, k),
      )

-- The gate allows a command exactly where no deny rule matches it, no denied path is in it or declared, the declared
-- path is inside the allowed ones, and either an allow rule matches or allowing is the default.
pub check_rules-allow :
    (out : Outside) (root : Option Text) (p : PolicyConfig) (rules : RolePolicy)
    (command path role : Text)
    → ((check_rules out root p rules command path role).action ≡ allow)
      ↔ Passes out root p rules command path
unfolding check_rules
check_rules-allow out root p rules command path role =
    step_denied-allow out root p rules command path role
      (first_match out rules.denied_commands command) refl

-- An override that gives no allowlist of its own.
abbrev pub keeps_allowlist : Option Override → Bool
keeps_allowlist none = true
keeps_allowlist (some o) = elim o.allowed_commands [
  | absent ↦ true
  | malformed ↦ true
  | listed ts ↦ false
]

-- Rules that allow no more than others: the deny list is longer, the allowlist the same, the default no looser.
record IsNarrower (rules base : RolePolicy) : Type 0 where
  denies :
      (f : Text → Bool) → any f rules.denied_commands ≡ false → any f base.denied_commands ≡ false
  same_allowlist : rules.allowed_commands ≡ base.allowed_commands
  looser : rules.default_action ≡ allow → base.default_action ≡ allow

added-any :
    (f : Text → Bool) (denied : List Text) (e : Entry)
    → any f (added_denials denied e) ≡ false
    → any f denied ≡ false
added-any f denied absent h = h
added-any f denied malformed h = ground (arith, any-unique f (denied ++ []), any-append f denied [])
added-any f denied (listed ts) h =
    ground (arith, any-unique f (denied ++ ts), any-append f denied ts)

kept :
    (base : List Text) (e : Entry)
    → elim e as (λ x. Bool) [ absent ↦ true | malformed ↦ true | listed ts ↦ false ] ≡ true
    → patterns_or base e ≡ base
kept base absent h = refl
kept base malformed h = refl
kept base (listed ts) h = absurd (cc h)

tightened : (b : Bool) (base : Action) → (if b then deny else base) ≡ allow → base ≡ allow
tightened true base h = allow-deny h
tightened false base h = h

overridden-IsNarrower :
    (p : PolicyConfig) (o : Option Override)
    → keeps_allowlist o ≡ true
    → IsNarrower (overridden p o) (base_role p)
unfolding overridden base_role
overridden-IsNarrower p none h = record {
  denies = λ f e. e;
  same_allowlist = refl;
  looser = λ e. e;
}
overridden-IsNarrower p (some o) h = record {
  denies = λ f. added-any f p.denied_commands o.denied_commands;
  same_allowlist = kept p.allowed_commands o.allowed_commands h;
  looser = tightened o.denies p.default_action;
}

resolve_role-IsNarrower :
    (p : PolicyConfig) (role : Text)
    → keeps_allowlist (get p.role_overrides role) ≡ true
    → IsNarrower (resolve_role p role) (base_role p)
unfolding resolve_role
resolve_role-IsNarrower p role h =
    if_both (λ r. IsNarrower r (base_role p)) (is_empty role) (base_role p)
      (overridden p (get p.role_overrides role))
      (record { denies = λ f e. e; same_allowlist = refl; looser = λ e. e })
      (overridden-IsNarrower p (get p.role_overrides role) h)

narrower-Passes :
    (out : Outside) (root : Option Text) (p : PolicyConfig) (rules base : RolePolicy)
    (command path : Text)
    → IsNarrower rules base
    → Passes out root p rules command path
    → Passes out root p base command path
narrower-Passes out root p rules base command path n (d, e, f, k) = (
  n.denies (λ q. matches_command out q command) d,
  e,
  f,
  elim k [
    | inl m ↦ inl (ap (λ ts. is_matched out ts command) (sym n.same_allowlist) ∙ m)
    | inr a ↦ inr (n.looser a)
  ],
)

-- A role whose override gives no allowlist of its own is allowed no command that the base policy does not allow too.
pub check-narrows :
    (out : Outside) (root : Option Text) (p : PolicyConfig) (command path role : Text)
    → keeps_allowlist (get p.role_overrides (strip role)) ≡ true
    → (check out root p command path role).action ≡ allow
    → (check out root p command path []).action ≡ allow
unfolding check
check-narrows out root p command path role keeps allowed =
    let c = strip command in
    let d = strip path in
    let base : resolve_role p (strip []) ≡ base_role p = (unfold resolve_role strip in refl) in
    rw base (
      (check_rules-allow out root p (base_role p) c d (strip [])).1 (
        narrower-Passes out root p (resolve_role p (strip role)) (base_role p) c d
          (resolve_role-IsNarrower p (strip role) keeps)
          ((check_rules-allow out root p (resolve_role p (strip role)) c d (strip role)).0
            allowed)))
