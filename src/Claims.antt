-- ===== src/Claims.antt =====
-- Claims on files and steps: `Claim` of packages/openburrow-core/src/openburrow/core/models/claim.py, the claims of
-- core/db/repository.py, and `claim_create` and `claim_release` of
-- packages/openburrow-daemon/src/openburrow/daemon/handlers.py.
-- The unique constraint of `ClaimRow` (core/db/models.py) is checked where a claim is saved; a violation ends the
-- transaction, and no row is changed.
-- Python's `fnmatch`, which is in Claims.Glob, is an argument: the theorems hold whichever patterns match.
pub mod Exclusion
pub mod Force
pub mod Calls
pub mod Unique
pub mod Glob
use openburrow.Prelude.{
  ℕ, ◌+◌, Bool, true, false, not, ◌&&◌, ◌||◌, Option, none, some, List, [], ◌∷◌, ◌++◌, map, Text,
  codes, text_eq, strip, starts_with, is_empty, any, select, Table, save, if◌then◌else◌, ltb, ◌==◌,
}

pub data ClaimKind : Type 0 where
  file directory step resource : ClaimKind

pub data ClaimStatus : Type 0 where
  active released expired revoked : ClaimStatus

unfoldable pub is_step : ClaimKind → Bool
is_step step = true
is_step _ = false

unfoldable pub is_tree : ClaimKind → Bool
is_tree directory = true
is_tree resource = true
is_tree _ = false

pub record Claim : Type 0 where
  pub id : Text
  pub session_id : Text
  pub lane_id : Text
  pub owner : Text
  pub kind : ClaimKind
  pub target : Text  -- resource
  pub patterns : List Text
  pub status : ClaimStatus
  pub intent : Text
  pub step_id : Text
  pub expires_at : Option ℕ
  pub released_at : Option ℕ
  pub released_reason : Text

-- The status of the row is "active".
unfoldable pub is_live : Claim → Bool
is_live c = elim c.status [ active ↦ true | _ ↦ false ]

-- `rstrip("/")`
unfoldable pub rstrip : Text → Text
rstrip [] = []
rstrip (c ∷ s) = let rest = rstrip s in if is_empty rest && (c == 47) then [] else c ∷ rest

unfoldable pub release : ℕ → Text → Claim → Claim
release now reason c = record c {
  status = released;
  released_at = some now;
  released_reason = strip reason;
}

unfoldable pub expire : ℕ → Claim → Claim
expire now c = record c {
  status = expired;
  released_at = some now;
  released_reason = codes "expired";
}

unfoldable pub active_claims : Text → Table Claim → List Claim
active_claims session rows =
    select (λ (c : Claim). text_eq c.session_id session && is_live c)
      (map (λ (row : Text × Claim). row.1) rows)

module _ (fnmatch : Text → Text → Bool) where
  unfoldable pub covers : Claim → Text → Bool
  covers c path =
      if is_empty path
      then false
      else if text_eq c.target path
      then true
      else if any (λ pattern. fnmatch path pattern) c.patterns
      then true
      else if is_tree c.kind
      then starts_with (rstrip c.target ++ codes "/") path
      else fnmatch path c.target

  unfoldable pub overlaps : Claim → Claim → Bool
  overlaps c other =
      if is_step c.kind && is_step other.kind
      then text_eq c.target other.target
      else if covers c other.target || covers other c.target
      then true
      else any
          (λ pattern.
            any (λ other_pattern. text_eq pattern other_pattern)
              (other.patterns ++ other.target ∷ []))
          (c.patterns ++ c.target ∷ [])

  unfoldable pub conflicting_claims : Text → Claim → Table Claim → List Claim
  conflicting_claims session claim rows =
      select
        (λ (other : Claim).
          not (text_eq other.id claim.id)
          && (not (text_eq other.lane_id claim.lane_id) && overlaps claim other))
        (active_claims session rows)

unfoldable pub kind_index : ClaimKind → ℕ
kind_index file = 0
kind_index directory = 1
kind_index step = 2
kind_index resource = 3

unfoldable pub status_index : ClaimStatus → ℕ
status_index active = 0
status_index released = 1
status_index expired = 2
status_index revoked = 3

-- `uq_claim_active`: another row has the same session, resource, kind and status.
unfoldable pub breaks_unique : Claim → Table Claim → Bool
unfolding kind_index status_index
breaks_unique c rows =
    any
      (λ (row : Text × Claim).
        not (text_eq row.0 c.id)
        && (text_eq row.1.session_id c.session_id
            && (text_eq row.1.target c.target
                && (kind_index row.1.kind == kind_index c.kind
                    && status_index row.1.status == status_index c.status))))
      rows

-- `Repository.save` of a claim; none is the IntegrityError.
unfoldable pub save_claim : Claim → Table Claim → Option (Table Claim)
save_claim c rows = if breaks_unique c rows then none else some (save rows c.id c)

unfoldable pub save_after : Claim → Option (Table Claim) → Option (Table Claim)
save_after c none = none
save_after c (some rows) = save_claim c rows

-- The row's time is over.
unfoldable pub is_over : ℕ → Claim → Bool
is_over now c = is_live c && elim c.expires_at [ none ↦ false | some t ↦ ltb t now ]

unfoldable pub expire_all : ℕ → Table Claim → Table Claim
expire_all now [] = []
expire_all now ((k, c) ∷ rows) =
    (k, if is_over now c then expire now c else c) ∷ expire_all now rows

-- none is the IntegrityError of the flush.
unfoldable pub expire_claims : ℕ → Table Claim → Option (Table Claim)
expire_claims now rows =
    let aged = expire_all now rows in
    if any (λ (row : Text × Claim). is_over now row.1 && breaks_unique (expire now row.1) aged) rows
    then none
    else some aged

-- The parameters of the request, once the session and the lane are found and the resource is stripped.
pub record Ask : Type 0 where
  pub session_id : Text
  pub lane_id : Text
  pub owner : Text
  pub kind : ClaimKind
  pub target : Text
  pub intent : Text
  pub ttl_seconds : ℕ
  pub force : Bool
  pub by : Text
  pub reason : Text

unfoldable pub for_step : Text → Ask → Claim
for_step fresh ask = record {
  id = fresh;
  session_id = ask.session_id;
  lane_id = ask.lane_id;
  owner = ask.owner;
  kind = step;
  target = ask.target;
  patterns = [];
  status = active;
  intent = strip ask.intent;
  step_id = ask.target;
  expires_at = none;
  released_at = none;
  released_reason = [];
}

unfoldable pub for_file : ℕ → Text → Ask → Claim
for_file now fresh ask = record {
  id = fresh;
  session_id = ask.session_id;
  lane_id = ask.lane_id;
  owner = ask.owner;
  kind = file;
  target = ask.target;
  patterns = [];
  status = active;
  intent = strip ask.intent;
  step_id = [];
  expires_at = some (now + (if ask.ttl_seconds == 0 then 1800 else ask.ttl_seconds));
  released_at = none;
  released_reason = [];
}

unfoldable pub new_claim : ℕ → Text → Ask → Claim
new_claim now fresh ask = if is_step ask.kind then for_step fresh ask else for_file now fresh ask

pub data Answer : Type 0 where
  no_resource not_admin : Answer
  not_unique : Answer  -- IntegrityError
  created : Claim → Answer
  conflict forced : Claim → Claim → Answer  -- the claim, and the holder

-- The outcome of a transaction that ends with some saves.
abbrev pub stored : Answer → Table Claim → Option (Table Claim) → Answer × Table Claim
stored answer rows none = (not_unique, rows)
stored answer rows (some rows') = (answer, rows')

-- What is done about the conflicts.
unfoldable pub decide : ℕ → Text → Ask → Claim → List Claim → Table Claim → Answer × Table Claim
decide now admin ask claim [] rows = stored (created claim) rows (save_claim claim rows)
decide now admin ask claim (holder ∷ others) rows =
    if not ask.force
    then (conflict claim holder, rows)
    else if not (text_eq ask.by admin)
    then (not_admin, rows)
    else stored (forced claim holder) rows (
        save_after claim (
          save_claim
            (release now (codes "force-claimed by " ++ ask.by ++ codes ": " ++ ask.reason) holder)
            rows))

unfoldable pub claim_create :
    (Text → Text → Bool) → ℕ → Text → Text → Ask → Table Claim → Answer × Table Claim
claim_create fnmatch now admin fresh ask rows =
    if is_empty ask.target
    then (no_resource, rows)
    else let claim = new_claim now fresh ask in
      decide now admin ask claim (conflicting_claims fnmatch ask.session_id claim rows) rows

abbrev pub released_row : Table Claim → Option (Table Claim) → Option Bool × Table Claim
released_row rows none = (none, rows)
released_row rows (some rows') = (some true, rows')

-- `claim_release`, on the active claims: the first on the resource is released; the answer none is the IntegrityError.
unfoldable pub release_first :
    ℕ → Text → Text → List Claim → Table Claim → Option Bool × Table Claim
release_first now target reason [] rows = (some false, rows)
release_first now target reason (c ∷ cs) rows =
    let rest = release_first now target reason cs rows in
    if text_eq c.target target
    then released_row rows (save_claim (release now reason c) rows)
    else rest

unfoldable pub claim_release : ℕ → Text → Text → Text → Table Claim → Option Bool × Table Claim
claim_release now session target reason rows =
    release_first now target reason (active_claims session rows) rows
