-- ===== src/Policy/Risk.antt =====
-- The risk tier of a command.
use openburrow.Prelude.{
  ℕ, ◌≤◌, ◌≡◌, refl, ap, ◌∙◌, ◌⊎◌, inl, inr, Bool, true, false, not, ◌&&◌, List, [], ◌∷◌, Memᴰ,
  Text, any, all, leb, ◌||◌, if◌then◌else◌, ltb, Bool-cases, arith,
}
use openburrow.Policy.Paths.{Outside}
use openburrow.Policy.{
  RiskTier, low, PolicyConfig, risk_index, matches_command, risk_from, risk_tier,
}

abbrev pub is_risky : Outside → Text → List Text → Bool
is_risky out command patterns = any (λ p. matches_command out p command) patterns

-- A tier that the policy lists with a pattern that matches.
abbrev pub IsMatched : Outside → Text → List (RiskTier × List Text) → RiskTier → Type 0
IsMatched out command rows tier =
    (patterns : List Text) × Memᴰ (tier, patterns) rows × (is_risky out command patterns ≡ true)

-- The better of two tiers.
abbrev better : Outside → Text → RiskTier → RiskTier → List Text → RiskTier
better out command best tier patterns =
    if ltb (risk_index best) (risk_index tier) && is_risky out command patterns then tier else best

module _ (out : Outside) (command : Text) (best tier : RiskTier) (patterns : List Text) where
  better-best : risk_index best ≤ risk_index (better out command best tier patterns)
  better-best =
      elim (Bool-cases (ltb (risk_index best) (risk_index tier) && is_risky out command patterns)) [
        | inl e ↦ rw e (ground arith)
        | inr e ↦ rw e (omega arith)
      ]

  better-tier :
      is_risky out command patterns ≡ true
      → risk_index tier ≤ risk_index (better out command best tier patterns)
  better-tier h =
      elim (Bool-cases (ltb (risk_index best) (risk_index tier) && is_risky out command patterns)) [
        | inl e ↦ rw e (omega arith)
        | inr e ↦ rw e (ground arith)
      ]

  better-either :
      (better out command best tier patterns ≡ best)
      ⊎ ((better out command best tier patterns ≡ tier) × (is_risky out command patterns ≡ true))
  better-either =
      elim (Bool-cases (ltb (risk_index best) (risk_index tier) && is_risky out command patterns)) [
        | inl e ↦ inr (rw e refl, ground arith)
        | inr e ↦ inl (rw e refl)
      ]

both_true : (a b : Bool) → a ≡ true → b ≡ true → (a && b) ≡ true
both_true a b e f = ground arith

implied : (a b : Bool) → (a ≡ true → b ≡ true) → (not a || b) ≡ true
implied true b f = f refl
implied false b f = refl

leb-true : (m n : ℕ) → m ≤ n → leb m n ≡ true
leb-true m n h = ground (arith, h)

risk_from-best :
    (out : Outside) (command : Text) (best : RiskTier) (rows : List (RiskTier × List Text))
    → risk_index best ≤ risk_index (risk_from out command best rows)
unfolding risk_from
risk_from-best out command best [] = omega arith
risk_from-best out command best ((tier, patterns) ∷ rows) = omega (
  arith,
  risk_from-best out command (better out command best tier patterns) rows,
  better-best out command best tier patterns,
)

-- No row with a pattern that matches ranks above a tier.
abbrev pub is_bound : Outside → Text → List (RiskTier × List Text) → RiskTier → Bool
is_bound out command rows best =
    all
      (λ (row : RiskTier × List Text).
        not (is_risky out command row.1) || leb (risk_index row.0) (risk_index best))
      rows

risk_from-bound :
    (out : Outside) (command : Text) (best : RiskTier) (rows : List (RiskTier × List Text))
    → is_bound out command rows (risk_from out command best rows) ≡ true
unfolding risk_from
risk_from-bound out command best [] = refl
risk_from-bound out command best ((t, ps) ∷ rows) =
    let better1 = better out command best t ps in
    let rest = risk_from-bound out command better1 rows in
    let above = risk_from-best out command better1 rows in
    both_true _ _
      (implied (is_risky out command ps) _
        (λ e. leb-true _ _ (omega (arith, above, better-tier out command best t ps e))))
      rest

risk_from-from :
    (out : Outside) (command : Text) (best : RiskTier) (rows : List (RiskTier × List Text))
    → (risk_from out command best rows ≡ best)
      ⊎ IsMatched out command rows (risk_from out command best rows)
unfolding risk_from
risk_from-from out command best [] = inl refl
risk_from-from out command best ((t, ps) ∷ rows) =
    elim (risk_from-from out command (better out command best t ps) rows) [
      | inl e ↦ elim (better-either out command best t ps) [
        | inl f ↦ inl (e ∙ f)
        | inr (f, h) ↦ inr (ps, Memᴰ.head (ap (λ r. (r, ps)) (e ∙ f)), h)
      ]
      | inr (patterns, m, h) ↦ inr (patterns, Memᴰ.tail m, h)
    ]

-- The risk tier of a command is the greatest of the tiers with a pattern that matches it, and low where none does.
pub risk_tier-greatest :
    (out : Outside) (p : PolicyConfig) (command : Text)
    → (is_bound out command p.risk_tiers (risk_tier out p command) ≡ true)
      × ((risk_tier out p command ≡ low)
          ⊎ IsMatched out command p.risk_tiers (risk_tier out p command))
unfolding risk_tier
risk_tier-greatest out p command =
    (risk_from-bound out command low p.risk_tiers, risk_from-from out command low p.risk_tiers)
