-- ===== src/Store/Uses.antt =====
-- How often an invitation is redeemed.
use openburrow.Prelude.{
  ℕ, ◌+◌, ◌-◌, ◌≤◌, ◌<◌, ◌≡◌, refl, sym, ◌∙◌, subst, Option, none, some, some-injective, List, [],
  ◌∷◌, Text, text_eq, eq_of_text_eq, any, is_empty, if◌then◌else◌, if_both, Bool-cases, arith, inl,
  inr,
}
use openburrow.Store.Invites.{
  RoomRole, Member, Invite, Registry, first, update_first, upsert_member, Refusal, invite_not_found,
  room_not_found, check_invite_usable, create_invite, is_for, used, redeem_usable, redeem_found,
  redeem_invite, revoked_now, revoke_invite,
}
use openburrow.Store.First.{first-update_first, first-update_first_same, first-append}

-- What is left of the uses of an invitation.
unfoldable pub budget : Invite → ℕ
budget i = if i.revoked then 0 else i.max_uses - i.uses

-- A usable invitation has a use left.
check-budget : (now : ℕ) (i : Invite) → check_invite_usable now i ≡ none → 0 < budget i
unfolding check_invite_usable budget
check-budget now i h = ground arith

used-budget : (i : Invite) → 0 < budget i → budget (used i) + 1 ≡ budget i
unfolding used budget
used-budget i h = ground arith

used-less : (i : Invite) → budget (used i) ≤ budget i
unfolding used budget
used-less i = ground arith

used-is_for : (digest : Text) (i : Invite) → is_for digest (used i) ≡ is_for digest i
unfolding used
used-is_for digest i = refl

-- The calls about invitations.
pub data InviteCall : Type 0 where
  inviting : Text → Text → ℕ → Text → RoomRole → Text → ℕ → ℕ → InviteCall
  redeeming : Text → ℕ → Text → Text → Text → InviteCall
  revoking : Text → InviteCall

-- Whether a call redeems the invitation of a digest, and what it leaves.
abbrev pub counted : Text → Text → Option Refusal × Registry → ℕ × Registry
counted digest d (o, w) = (if text_eq d digest then elim o [ none ↦ 1 | some e ↦ 0 ] else 0, w)

unfoldable pub call : Text → InviteCall → Registry → ℕ × Registry
call digest (inviting fresh d now room role by days uses) w =
    (0, create_invite fresh d now room role by days uses w)
call digest (redeeming fresh now d subject name) w =
    counted digest d (redeem_invite fresh now d subject name w)
call digest (revoking id) w = (0, (revoke_invite id w).1)

-- How often the invitation of a digest is redeemed.
unfoldable pub redemptions : Text → List InviteCall → Registry → ℕ
redemptions digest [] w = 0
redemptions digest (c ∷ cs) w = let (n, w') = call digest c w in n + redemptions digest cs w'

-- What a call leaves of an invitation, and what it takes of its uses.
abbrev Leaves : Text → Invite → ℕ × Registry → Type 0
Leaves digest i (n, w) =
    (j : Invite) × (first (is_for digest) w.invites ≡ some j) × (n + budget j ≤ budget i)

module _ (digest fresh : Text) (now : ℕ) (d subject name : Text) (w : Registry) (i : Invite) where
  -- A refusal changes nothing.
  refused-Leaves :
      first (is_for digest) w.invites ≡ some i
      → (e : Refusal) → Leaves digest i (counted digest d (some e, w))
  refused-Leaves h e = (i, h, ground arith)

  redeemed-Leaves :
      (members : List Member) (k : Invite)
      → first (is_for digest) w.invites ≡ some i
      → first (is_for d) w.invites ≡ some k
      → check_invite_usable now k ≡ none
      → Leaves digest i (
          counted digest d (
            none,
            record w { invites = update_first (is_for d) used w.invites; members = members },
          ))
  redeemed-Leaves members k h g u = elim (Bool-cases (text_eq d digest)) [
    | inl e ↦
        let same : d ≡ digest = eq_of_text_eq d digest e in
        let found : first (is_for d) w.invites ≡ some i =
          subst (λ t. first (is_for t) w.invites ≡ some i) (sym same) h in
        let one : k ≡ i = some-injective k i (sym g ∙ found) in
        let left =
          check-budget now i (subst (λ (j : Invite). check_invite_usable now j ≡ none) one u) in
        (
          used i,
          subst
              (λ t. first (is_for digest) (update_first (is_for t) used w.invites) ≡ some (used i))
              (sym same)
              (first-update_first_same (is_for digest) used w.invites i (used-is_for digest) h),
          rw e (omega (arith, used-budget i left)),
        )
    | inr e ↦
        elim (first-update_first (is_for digest) (is_for d) used w.invites i (used-is_for digest)
          h) [
            | inl f ↦ (i, f, rw e (omega arith))
            | inr f ↦ (used i, f, rw e (omega (arith, used-less i)))
          ]
  ]

  redeem_usable-Leaves :
      (k : Invite) (o : Option Refusal)
      → first (is_for digest) w.invites ≡ some i
      → first (is_for d) w.invites ≡ some k
      → check_invite_usable now k ≡ o
      → Leaves digest i (counted digest d (redeem_usable fresh now d subject name k w o))
  unfolding redeem_usable
  redeem_usable-Leaves k (some e) h g u = refused-Leaves h e
  redeem_usable-Leaves k none h g u =
      if_both (λ r. Leaves digest i (counted digest d r)) (any (text_eq k.room_id) w.rooms) _ _
        (redeemed-Leaves
          (upsert_member fresh now k.room_id subject (if is_empty name then subject else name)
            k.role w.members)
          k h g u)
        (refused-Leaves h room_not_found)

  redeem_found-Leaves :
      (o : Option Invite)
      → first (is_for digest) w.invites ≡ some i
      → first (is_for d) w.invites ≡ o
      → Leaves digest i (counted digest d (redeem_found fresh now d subject name w o))
  unfolding redeem_found
  redeem_found-Leaves none h g = refused-Leaves h invite_not_found
  redeem_found-Leaves (some k) h g = redeem_usable-Leaves k (check_invite_usable now k) h g refl

call-Leaves :
    (digest : Text) (c : InviteCall) (w : Registry) (i : Invite)
    → first (is_for digest) w.invites ≡ some i
    → Leaves digest i (call digest c w)
unfolding call
call-Leaves digest (inviting fresh d now room role by days uses) w i h =
    (i, (unfold create_invite in first-append (is_for digest) w.invites _ i h), omega arith)
call-Leaves digest (redeeming fresh now d subject name) w i h =
    unfold redeem_invite in
    redeem_found-Leaves digest fresh now d subject name w i (first (is_for d) w.invites) h refl
call-Leaves digest (revoking id) w i h =
    unfold revoke_invite in
    elim (first-update_first (is_for digest) (λ (j : Invite). text_eq j.id id) revoked_now w.invites
      i (λ j. refl) h) [
        | inl e ↦ (i, e, omega arith)
        | inr e ↦ (revoked_now i, e, unfold budget in omega arith)
      ]

-- Whatever is called, and in whatever order, an invitation is redeemed no more often than it has uses left, and not at
-- all once it is revoked.
pub redemptions-budget :
    (digest : Text) (cs : List InviteCall) (w : Registry) (i : Invite)
    → first (is_for digest) w.invites ≡ some i
    → redemptions digest cs w ≤ budget i
unfolding redemptions
redemptions-budget digest [] w i h = omega arith
redemptions-budget digest (c ∷ cs) w i h =
    let (j, found, few) = call-Leaves digest c w i h in
    omega (arith, few, redemptions-budget digest cs (call digest c w).1 j found)
