-- ===== src/BusLog.antt =====
-- The append-only bus log: `BusEventLog` of
-- packages/openburrow-core/src/openburrow/core/db/repository.py.
-- The row's own identifier and its JSON payload are left out. The database gives each new row its
-- sequence number; it is the parameter `next_seq`, of which only `IsIncreasing` is supposed.
pub mod Order
use openburrow.Prelude.{
  ℕ, ◌<◌, ◌≤◌, Bool, true, false, not, ◌&&◌, Option, none, some, List, [], ◌∷◌, ◌++◌, Memᴰ, Text,
  text_eq, is_empty, any, select, take, if◌then◌else◌, ltb, leb, length,
}
use openburrow.Vocabulary.{TrustBoundary}

pub record BusEvent : Type 0 where
  pub seq : ℕ
  pub event_type : Text
  pub session_id : Text
  pub thread_id : Text
  pub lane_id : Text
  pub task_id : Text
  pub task_state : Text
  pub trust_boundary : TrustBoundary
  pub summary : Text
  pub correlation_id : Text
  pub content_hash : Text

-- The database's numbers begin at 1, and the next one lies above those of the rows that are there.
pub record IsIncreasing (next_seq : List BusEvent → ℕ) : Type 0 where
  pub positive : (log : List BusEvent) → 0 < next_seq log
  pub above : (log : List BusEvent) (e : BusEvent) → Memᴰ e log → e.seq < next_seq log

-- The query for a row of the session with the same content hash.
unfoldable pub is_duplicate : List BusEvent → Text → Text → Bool
is_duplicate log session hash =
    not (is_empty hash)
    && any (λ (e : BusEvent). text_eq e.content_hash hash && text_eq e.session_id session) log

-- `append`: none is `BusError`. The event is given with no number yet.
unfoldable pub append : (List BusEvent → ℕ) → BusEvent → List BusEvent → Option (List BusEvent)
append next_seq e log =
    if is_duplicate log e.session_id e.content_hash
    then none
    else some (log ++ record e { seq = next_seq log; summary = take 1000 e.summary } ∷ [])

-- Rows are kept in the order of their numbers, which is the order of writing.
unfoldable pub stream : Text → ℕ → List BusEvent → List BusEvent
stream session since = select (λ (e : BusEvent). text_eq e.session_id session && ltb since e.seq)

-- `limit(n)`, for n > 0
unfoldable pub stream_batch : Text → ℕ → ℕ → List BusEvent → List BusEvent
stream_batch session since n log = take n (stream session since log)

unfoldable pub max_seq : ℕ → List BusEvent → ℕ
max_seq m [] = m
max_seq m (e ∷ es) = max_seq (if ltb m e.seq then e.seq else m) es

unfoldable pub latest_seq : Text → List BusEvent → ℕ
latest_seq session log = max_seq 0 (select (λ (e : BusEvent). text_eq e.session_id session) log)

unfoldable pub replay : Text → List BusEvent → List BusEvent
replay session log = stream session 0 log

-- One round of `tail`: the batch that it yields, and the cursor after it.
unfoldable pub tail_round : Text → ℕ → ℕ → List BusEvent → List BusEvent × ℕ
unfolding max_seq
tail_round session batch cursor log =
    let events = stream_batch session cursor batch log in (events, max_seq cursor events)
