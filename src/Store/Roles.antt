-- ===== src/Store/Roles.antt =====
-- What a redemption of an invitation does to the roles of the members.
use openburrow.Prelude.{
  ℕ, ◌≡◌, refl, ap, ◌∙◌, true, false, ◌&&◌, Option, none, some, List, [], ◌∷◌, Text, text_eq,
  text_eq_iff, text_eq_refl, if◌then◌else◌, max, Bool-cases, arith, inl, inr,
}
use openburrow.Store.Invites.{
  RoomRole, role_rank, role_at_least, Member, first, is_member, elevated, seen_again, joined,
  upsert_found, upsert_member,
}
use openburrow.Store.First.{
  first-update_first_same, first-update_first_other, first-append_none, first-append_apart,
}

-- The rank of a subject in a room, 0 without a membership.
unfoldable pub rank_found : Option Member → ℕ
rank_found none = 0
rank_found (some m) = role_rank m.role

unfoldable pub rank_of : Text → Text → List Member → ℕ
rank_of room subject members = rank_found (first (is_member room subject) members)

elevated-rank :
    (role current : RoomRole)
    → role_rank (elevated role current) ≡ max (role_rank current) (role_rank role)
unfolding elevated role_at_least
elevated-rank role current = ground arith

-- One membership for another is another membership.
is_member-apart :
    (room subject r s : Text) (m : Member)
    → (text_eq r room && text_eq s subject) ≡ false
    → is_member room subject m ≡ true
    → is_member r s m ≡ false
is_member-apart room subject r s m apart h = ground (
  arith,
  text_eq_iff m.room_id room,
  text_eq_iff m.subject subject,
  text_eq_iff m.room_id r,
  text_eq_iff m.subject s,
  text_eq_iff r room,
  text_eq_iff s subject,
)

seen_again-same :
    (now : ℕ) (name : Text) (role : RoomRole) (r s : Text) (m : Member)
    → is_member r s (seen_again now name role m) ≡ is_member r s m
unfolding seen_again
seen_again-same now name role r s m = refl

module _ (fresh : Text) (now : ℕ) (room subject name : Text) (role : RoomRole)
    (members : List Member) where
  joined-is_member : is_member room subject (joined fresh now room subject name role) ≡ true
  unfolding joined
  joined-is_member = ground (arith, text_eq_refl room, text_eq_refl subject)

  upsert_found-rank :
      (o : Option Member)
      → first (is_member room subject) members ≡ o
      → rank_of room subject (upsert_found fresh now room subject name role members o)
        ≡ max (rank_of room subject members) (role_rank role)
  unfolding upsert_found rank_of rank_found first
  upsert_found-rank (some m) h =
      rw
        (
          h,
          first-update_first_same (is_member room subject) (seen_again now name role) members m
              (seen_again-same now name role room subject) h,
        )
        (unfold seen_again in elevated-rank role m.role)
  upsert_found-rank none h =
      rw
        (
          h,
          first-append_none (is_member room subject) members
              (joined fresh now room subject name role ∷ []) h,
          joined-is_member,
        )
        (unfold joined in omega arith)

  upsert_found-other :
      (o : Option Member) (r s : Text)
      → (text_eq r room && text_eq s subject) ≡ false
      → rank_of r s (upsert_found fresh now room subject name role members o) ≡ rank_of r s members
  unfolding upsert_found rank_of
  upsert_found-other (some m) r s apart = ap rank_found (
      first-update_first_other (is_member r s) (is_member room subject) (seen_again now name role)
        members
        (λ x h.
          let away = is_member-apart room subject r s x apart h in
          (away, seen_again-same now name role r s x ∙ away)))
  upsert_found-other none r s apart = ap rank_found (
      first-append_apart (is_member r s) members (joined fresh now room subject name role) (
        is_member-apart room subject r s (joined fresh now room subject name role) apart
          joined-is_member))

-- To add a member gives the subject the greater of its rank and the new role's, and leaves every other rank as it was.
pub upsert_member-rank :
    (fresh : Text) (now : ℕ) (room subject name : Text) (role : RoomRole) (members : List Member)
    (r s : Text)
    → rank_of r s (upsert_member fresh now room subject name role members) ≡ (
        if text_eq r room && text_eq s subject
        then max (rank_of r s members) (role_rank role)
        else rank_of r s members)
unfolding upsert_member
upsert_member-rank fresh now room subject name role members r s =
    elim (Bool-cases (text_eq r room && text_eq s subject)) [
      | inl e ↦
          let is_room : r ≡ room = ground (arith, text_eq_iff r room) in
          let is_subject : s ≡ subject = ground (arith, text_eq_iff s subject) in
          rw (e, is_room, is_subject)
            (upsert_found-rank fresh now room subject name role members
              (first (is_member room subject) members) refl)
      | inr e ↦ rw e (
          upsert_found-other fresh now room subject name role members
            (first (is_member room subject) members) r s e)
    ]
