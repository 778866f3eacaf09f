-- ===== src/Hub.antt =====
-- The relay's hub, packages/openburrow-relay/src/openburrow/relay/hub.py: `Connection` with its outbound queue here, the
-- indexes of `Hub` in the module Members.
-- A frame of the application is known by a text. The queue is that of asyncio, which a capacity of 0 leaves unbounded.
-- Metrics, logs, and the subject, role and opening time of a connection, which no operation reads, are left out.
pub mod Members
pub mod Bounds
pub mod Caps
pub mod Notice
use openburrow.Prelude.{
  ℕ, zero, suc, ◌+◌, Bool, true, false, not, ◌&&◌, Option, none, some, List, [], ◌∷◌, ◌++◌, Text,
  text_eq, length, Table, get, save, if◌then◌else◌, ltb, leb,
}

pub data Frame : Type 0 where
  event : Text → Frame
  lag : ℕ → Table ℕ → Frame  -- the frames dropped, and where to resume
  sentinel : Frame  -- None

pub record Connection : Type 0 where
  pub id : Text
  pub kind : Text
  pub room : Text
  pub member : Text
  pub capacity : ℕ  -- queue.maxsize
  pub queue : List Frame
  pub sent : ℕ
  pub dropped : ℕ
  pub lagged : Bool  -- _lagged
  pub notice_queued : Bool  -- _lag_notice_queued
  pub closed : Bool
  pub last_seq : Table ℕ

unfoldable pub seen_seq : Option ℕ → ℕ
seen_seq none = 0
seen_seq (some n) = n

unfoldable pub note_seq : Text → ℕ → Connection → Connection
unfolding seen_seq
note_seq repo seq c =
    if ltb (seen_seq (get c.last_seq repo)) seq
    then record c { last_seq = save c.last_seq repo seq }
    else c

-- `asyncio.Queue.full`
unfoldable pub is_full : Connection → Bool
is_full c = ltb 0 c.capacity && leb c.capacity (length c.queue)

-- `put_nowait`, where it does not raise
unfoldable pub put : Frame → Connection → Connection
put f c = record c { queue = c.queue ++ f ∷ [] }

-- `_lag_frame`
unfoldable pub lag_frame : Connection → Frame
lag_frame c = lag c.dropped c.last_seq

-- The frame at the head of the queue makes room for a notice.
unfoldable pub evict : List Frame → Connection → Connection
evict [] c = c
evict (sentinel ∷ rest) c = record c { queue = rest ++ sentinel ∷ [] }
evict (f ∷ rest) c =
    let c' = record c { queue = rest; dropped = c.dropped + 1 } in
    record c' { queue = rest ++ lag_frame c' ∷ []; notice_queued = true; lagged = false }

-- `_make_room_for_notice`
unfoldable pub make_room_for_notice : Connection → Connection
make_room_for_notice c = if c.notice_queued then c else evict c.queue c

-- `_enqueue`
unfoldable pub enqueue : Frame → Connection → Bool × Connection
enqueue f c =
    if is_full c
    then (false, make_room_for_notice (record c { dropped = c.dropped + 1; lagged = true }))
    else (true, put f c)

-- One round of `pump`: what was sent, if anything, and whether the loop goes on.
pub data Round : Type 0 where
  waits ends : Round
  sends : Frame → Round

-- A notice takes the place of the frame where one is due.
unfoldable pub due : Frame → Connection → Frame × Connection
due f c =
    if c.lagged && not c.notice_queued
    then (lag_frame c, record c { lagged = false; notice_queued = true })
    else (f, c)

-- `send` succeeds, or times out or fails, which ends the loop.
unfoldable pub send_frame : Bool → Frame × Connection → Round × Connection
send_frame true (f, c) = (sends f, record c { sent = c.sent + 1; notice_queued = false })
send_frame false (f, c) = (ends, c)

unfoldable pub take_frame : Bool → List Frame → Connection → Round × Connection
take_frame ok [] c = (waits, c)
take_frame ok (sentinel ∷ rest) c = (ends, record c { queue = rest })
take_frame ok (f ∷ rest) c = send_frame ok (due f (record c { queue = rest }))

unfoldable pub pump_round : Bool → Connection → Round × Connection
pump_round ok c = if c.closed then (ends, c) else take_frame ok c.queue c
