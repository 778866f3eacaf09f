-- ===== src/Store.antt =====
-- The relay's store of events, packages/openburrow-relay/src/openburrow/relay/store.py: `_normalise_event`,
-- `append_events` and `tail_events`. Invitations and memberships are in the module Invites.
-- The lane and the summary of an event are left out.
-- A table is the list of its rows, in the order of their insertion. A payload is known by its size, a text by its code
-- points once the source has stripped it. The database is PostgreSQL.
pub mod Replay
pub mod Invites
pub mod First
pub mod Roles
pub mod Uses
use openburrow.Prelude.{
  ℕ, sort_by, zero, suc, ◌+◌, ◌-◌, Bool, true, false, not, ◌&&◌, ◌||◌, Option, none, some, List, [],
  ◌∷◌, ◌++◌, Text, text_eq, length, is_empty, any, select, take, Table, get, if◌then◌else◌, ltb,
  leb, min, max,
}
use openburrow.Authority.{text_lt}
use openburrow.Hub.{seen_seq}

pub data Payload : Type 0 where
  not_an_object not_serialisable : Payload
  encoded : ℕ → Payload  -- the size in bytes

pub record RawEvent : Type 0 where
  pub origin_repo : Text
  pub origin_seq : Option ℕ  -- none where it is absent or no number, 0 where it is not positive
  pub event_type : Text
  pub payload : Payload
  pub occurred_at : Option ℕ
  pub session_id : Option Text

pub record RelayEvent : Type 0 where
  pub id : Text
  pub room_id : Text
  pub origin_repo : Text
  pub origin_seq : ℕ
  pub event_type : Text
  pub session_id : Option Text
  pub size : ℕ
  pub occurred_at : ℕ
  pub received_at : ℕ

pub data Rejection : Type 0 where
  batch_too_large missing_origin_repo missing_origin_seq non_positive_origin_seq
        missing_event_type :
      Rejection
  payload_not_an_object payload_not_serialisable payload_too_large invalid_occurred_at : Rejection

pub data Normalised : Type 0 where
  row : RelayEvent → Normalised
  rejected : Rejection → Normalised

abbrev pub max_payload : ℕ
max_payload = 131_072

abbrev pub max_events : ℕ
max_events = 500

-- The steps of `_normalise_event`, in their order.
unfoldable pub dated : ℕ → Text → Text → RawEvent → ℕ → ℕ → Option ℕ → Normalised
dated now room id raw seq size none = rejected invalid_occurred_at
dated now room id raw seq size (some at) = row record {
  id = id;
  room_id = room;
  origin_repo = raw.origin_repo;
  origin_seq = seq;
  event_type = raw.event_type;
  session_id = raw.session_id;
  size = size;
  occurred_at = at;
  received_at = now;
}

unfoldable pub sized : ℕ → Text → Text → RawEvent → ℕ → Payload → Normalised
sized now room id raw seq not_an_object = rejected payload_not_an_object
sized now room id raw seq not_serialisable = rejected payload_not_serialisable
sized now room id raw seq (encoded n) =
    if ltb max_payload n
    then rejected payload_too_large
    else dated now room id raw seq n raw.occurred_at

unfoldable pub numbered : ℕ → Text → Text → RawEvent → Option ℕ → Normalised
numbered now room id raw none = rejected missing_origin_seq
numbered now room id raw (some zero) = rejected non_positive_origin_seq
numbered now room id raw (some (suc n)) =
    if is_empty raw.event_type
    then rejected missing_event_type
    else sized now room id raw (suc n) raw.payload

unfoldable pub normalise_event : ℕ → Text → Text → RawEvent → Normalised
normalise_event now room id raw =
    if is_empty raw.origin_repo
    then rejected missing_origin_repo
    else numbered now room id raw raw.origin_seq

-- `uq_relay_event_origin`
unfoldable pub same_origin : RelayEvent → RelayEvent → Bool
same_origin a b =
    text_eq a.room_id b.room_id
    && (text_eq a.origin_repo b.origin_repo
        && (leb a.origin_seq b.origin_seq && leb b.origin_seq a.origin_seq))

pub record AppendResult : Type 0 where
  pub accepted_events : List RelayEvent
  pub duplicates : ℕ
  pub rejections : List Rejection  -- rejected

unfoldable pub accepted : AppendResult → ℕ
accepted r = length r.accepted_events

-- `total`
unfoldable pub total : AppendResult → ℕ
unfolding accepted
total r = accepted r + r.duplicates + length r.rejections

-- The rejected events of a batch, and the rows of the others; `fresh` gives the identifiers.
abbrev pub sort_in :
    Normalised → List Rejection × List RelayEvent → List Rejection × List RelayEvent
sort_in (rejected e) (bad, rows) = (e ∷ bad, rows)
sort_in (row r) (bad, rows) = (bad, r ∷ rows)

unfoldable pub sort_out :
    ℕ → (ℕ → Text) → Text → ℕ → List RawEvent → List Rejection × List RelayEvent
sort_out now fresh room i [] = ([], [])
sort_out now fresh room i (raw ∷ raws) =
    sort_in (normalise_event now room (fresh i) raw) (sort_out now fresh room (i + 1) raws)

-- `INSERT ... ON CONFLICT DO NOTHING`, with the rows that it inserts
unfoldable pub insert_rows : List RelayEvent → List RelayEvent → List RelayEvent × List RelayEvent
insert_rows [] table = ([], table)
insert_rows (r ∷ rows) table =
    let skipped = insert_rows rows table in
    let (more, table') = insert_rows rows (table ++ r ∷ []) in
    if any (same_origin r) table then skipped else (r ∷ more, table')

unfoldable pub append_rows :
    List Rejection → List RelayEvent → List RelayEvent → AppendResult × List RelayEvent
append_rows bad rows table =
    let (more, table') = insert_rows rows table in
    (
      record { accepted_events = more; duplicates = length rows - length more; rejections = bad },
      table',
    )

unfoldable pub append_events :
    ℕ → (ℕ → Text) → Text → List RawEvent → List RelayEvent → AppendResult × List RelayEvent
append_events now fresh room raws table =
    if ltb max_events (length raws)
    then (record { accepted_events = []; duplicates = 0; rejections = batch_too_large ∷ [] }, table)
    else let (bad, rows) = sort_out now fresh room 0 raws in append_rows bad rows table

unfoldable pub is_of_session : Option Text → RelayEvent → Bool
is_of_session none e = true
is_of_session (some s) e = elim e.session_id [ none ↦ false | some t ↦ text_eq t s ]

unfoldable pub is_of_types : List Text → RelayEvent → Bool
is_of_types types e = is_empty types || any (text_eq e.event_type) types

-- The order by origin and number.
unfoldable pub is_ordered : RelayEvent → RelayEvent → Bool
is_ordered a b =
    if text_eq a.origin_repo b.origin_repo
    then leb a.origin_seq b.origin_seq
    else text_lt a.origin_repo b.origin_repo

unfoldable pub clamp_limit : ℕ → ℕ
clamp_limit limit = max 1 (min limit 2000)

unfoldable pub is_wanted : Text → Option Text → List Text → RelayEvent → Bool
is_wanted room session types e =
    text_eq e.room_id room && (is_of_session session e && is_of_types types e)

unfoldable pub page : Text → ℕ → Option Text → List Text → List RelayEvent → List RelayEvent
page room limit session types table =
    take (clamp_limit limit) (sort_by is_ordered (select (is_wanted room session types) table))

-- With a threshold for any origin, the CASE of the query compares the text of the origin with truth values, which
-- PostgreSQL refuses: none is that error.
unfoldable pub tail_events :
    Text → Table ℕ → ℕ → Option Text → List Text → List RelayEvent → Option (List RelayEvent)
tail_events room [] limit session types table = some (page room limit session types table)
tail_events room (s ∷ since) limit session types table = none
