-- ===== src/Store/Invites.antt =====
-- Invitations and memberships of packages/openburrow-relay/src/openburrow/relay/store.py, their roles of relay/models.py,
-- and `check_invite_usable` of relay/security.py. The hash of a token is an argument, and a room is known by its
-- identifier. The time counts seconds.
use openburrow.Prelude.{
  ℕ, ◌+◌, ◌*◌, Bool, true, false, ◌&&◌, Option, none, some, List, [], ◌∷◌, ◌++◌, Text, text_eq,
  is_empty, any, if◌then◌else◌, leb, max,
}

pub data RoomRole : Type 0 where
  viewer maintainer owner : RoomRole

-- `ROLE_RANK`
unfoldable pub role_rank : RoomRole → ℕ
role_rank viewer = 1
role_rank maintainer = 2
role_rank owner = 3

unfoldable pub role_at_least : RoomRole → RoomRole → Bool
role_at_least role required = leb (role_rank required) (role_rank role)

pub record Member : Type 0 where
  pub id : Text
  pub room_id : Text
  pub subject : Text
  pub display_name : Text
  pub role : RoomRole
  pub joined_at : ℕ
  pub last_seen_at : ℕ

pub record Invite : Type 0 where
  pub id : Text
  pub room_id : Text
  pub token_hash : Text
  pub role : RoomRole
  pub created_at : ℕ
  pub created_by : Text
  pub expires_at : ℕ
  pub max_uses : ℕ
  pub uses : ℕ
  pub revoked : Bool

pub record Registry : Type 0 where
  pub rooms : List Text
  pub members : List Member
  pub invites : List Invite

-- The first row that a query gives, and a change of it.
module _ {A : Type 0} where
  unfoldable pub first : (A → Bool) → List A → Option A
  first p [] = none
  first p (x ∷ xs) = if p x then some x else first p xs

  unfoldable pub update_first : (A → Bool) → (A → A) → List A → List A
  update_first p f [] = []
  update_first p f (x ∷ xs) = if p x then f x ∷ xs else x ∷ update_first p f xs

abbrev pub is_member : Text → Text → Member → Bool
is_member room subject m = text_eq m.room_id room && text_eq m.subject subject

-- The new role, where it ranks no lower than the old one.
unfoldable pub elevated : RoomRole → RoomRole → RoomRole
elevated role current = if role_at_least role current then role else current

unfoldable pub seen_again : ℕ → Text → RoomRole → Member → Member
seen_again now name role m = record m {
  display_name = if is_empty name then m.display_name else name;
  last_seen_at = now;
  role = elevated role m.role;
}

unfoldable pub joined : Text → ℕ → Text → Text → Text → RoomRole → Member
joined fresh now room subject name role = record {
  id = fresh;
  room_id = room;
  subject = subject;
  display_name = if is_empty name then subject else name;
  role = role;
  joined_at = now;
  last_seen_at = now;
}

unfoldable pub upsert_found :
    Text → ℕ → Text → Text → Text → RoomRole → List Member → Option Member → List Member
upsert_found fresh now room subject name role members (some m) =
    update_first (is_member room subject) (seen_again now name role) members
upsert_found fresh now room subject name role members none =
    members ++ joined fresh now room subject name role ∷ []

unfoldable pub upsert_member : Text → ℕ → Text → Text → Text → RoomRole → List Member → List Member
upsert_member fresh now room subject name role members =
    upsert_found fresh now room subject name role members (first (is_member room subject) members)

pub data Refusal : Type 0 where
  invite_not_found invite_revoked invite_expired invite_used room_not_found : Refusal

unfoldable pub check_invite_usable : ℕ → Invite → Option Refusal
check_invite_usable now i =
    if i.revoked
    then some invite_revoked
    else if leb i.expires_at now
    then some invite_expired
    else if leb i.max_uses i.uses
    then some invite_used
    else none

-- `max(1, ...)` of the days and of the uses
unfoldable pub create_invite :
    Text → Text → ℕ → Text → RoomRole → Text → ℕ → ℕ → Registry → Registry
create_invite fresh digest now room role by days uses w = record w {
  invites =
      w.invites
      ++ record {
        id = fresh;
        room_id = room;
        token_hash = digest;
        role = role;
        created_at = now;
        created_by = by;
        expires_at = now + max 1 days * 86_400;
        max_uses = max 1 uses;
        uses = 0;
        revoked = false;
      }
        ∷ [];
}

abbrev pub is_for : Text → Invite → Bool
is_for digest i = text_eq i.token_hash digest

unfoldable pub used : Invite → Invite
used i = record i { uses = i.uses + 1 }

-- The steps of `redeem_invite`, from the digest of the token; the invite that is given is the one before its use.
unfoldable pub redeem_usable :
    Text → ℕ → Text → Text → Text → Invite → Registry → Option Refusal → Option Refusal × Registry
redeem_usable fresh now digest subject name i w (some e) = (some e, w)
redeem_usable fresh now digest subject name i w none =
    if any (text_eq i.room_id) w.rooms
    then (
      none,
      record w {
        invites = update_first (is_for digest) used w.invites;
        members =
            upsert_member fresh now i.room_id subject (if is_empty name then subject else name)
              i.role w.members;
      },
    )
    else (some room_not_found, w)

unfoldable pub redeem_found :
    Text → ℕ → Text → Text → Text → Registry → Option Invite → Option Refusal × Registry
redeem_found fresh now digest subject name w none = (some invite_not_found, w)
redeem_found fresh now digest subject name w (some i) =
    redeem_usable fresh now digest subject name i w (check_invite_usable now i)

unfoldable pub redeem_invite : Text → ℕ → Text → Text → Text → Registry → Option Refusal × Registry
redeem_invite fresh now digest subject name w =
    redeem_found fresh now digest subject name w (first (is_for digest) w.invites)

abbrev pub revoked_now : Invite → Invite
revoked_now i = record i { revoked = true }

-- An unknown invite is none of the rows.
unfoldable pub revoke_invite : Text → Registry → Bool × Registry
revoke_invite id w = (
  any (λ (i : Invite). text_eq i.id id) w.invites,
  record w { invites = update_first (λ (i : Invite). text_eq i.id id) revoked_now w.invites },
)
