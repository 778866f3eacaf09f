-- ===== src/Hub/Bounds.antt =====
-- An outbound queue never outgrows its capacity.
use openburrow.Prelude.{
  ℕ, ◌+◌, ◌≤◌, ◌<◌, ◌≡◌, refl, Bool, true, false, not, ◌||◌, Option, none, some, List, [], ◌∷◌,
  Text, text_eq, length, length-append, if_both, Bool-cases, arith, inl, inr,
}
use openburrow.Hub.{
  Frame, event, lag, sentinel, Connection, note_seq, is_full, put, lag_frame, evict,
  make_room_for_notice, enqueue, due, send_frame, take_frame, pump_round, Round, ends,
}
use openburrow.Hub.Members.{Publication, offer, noted, is_excluded, wake}

-- A capacity of 0 is no bound.
abbrev pub IsBounded : Connection → Type 0
IsBounded c = 0 < c.capacity → length c.queue ≤ c.capacity

-- The queue of `d` is at most as long as that of `c`, for the same capacity.
abbrev IsShorter : Connection → Connection → Type 0
IsShorter d c = (d.capacity ≡ c.capacity) × (length d.queue ≤ length c.queue)

Shorter-IsBounded : (d c : Connection) → IsShorter d c → IsBounded c → IsBounded d
Shorter-IsBounded d c (e, l) b h = omega (arith, b (omega arith))

put-IsBounded : (f : Frame) (c : Connection) → is_full c ≡ false → IsBounded (put f c)
unfolding is_full put
put-IsBounded f c h pos = let e = length-append c.queue (f ∷ []) in ground arith

evict-IsShorter :
    (fs : List Frame) (c : Connection) → length fs ≤ length c.queue → IsShorter (evict fs c) c
unfolding evict lag_frame
evict-IsShorter [] c h = (refl, omega arith)
evict-IsShorter (sentinel ∷ rest) c h = (refl, omega (arith, length-append rest (sentinel ∷ [])))
evict-IsShorter (event t ∷ rest) c h =
    (refl, omega (arith, length-append rest (lag (c.dropped + 1) c.last_seq ∷ [])))
evict-IsShorter (lag n s ∷ rest) c h =
    (refl, omega (arith, length-append rest (lag (c.dropped + 1) c.last_seq ∷ [])))

make_room-IsShorter : (c : Connection) → IsShorter (make_room_for_notice c) c
unfolding make_room_for_notice
make_room-IsShorter c =
    if_both (λ d. IsShorter d c) c.notice_queued c (evict c.queue c) (refl, omega arith)
      (evict-IsShorter c.queue c (omega arith))

enqueue-IsBounded : (f : Frame) (c : Connection) → IsBounded c → IsBounded (enqueue f c).1
unfolding enqueue
enqueue-IsBounded f c b =
    let d = record c { dropped = c.dropped + 1; lagged = true } in
    elim (Bool-cases (is_full c)) [
      | inr e ↦ rw e (put-IsBounded f c e)
      | inl e ↦ rw e (Shorter-IsBounded (make_room_for_notice d) d (make_room-IsShorter d) b)
    ]

noted-IsShorter : (o : Option (Text × ℕ)) (c : Connection) → IsShorter (noted o c) c
unfolding noted note_seq
noted-IsShorter none c = (refl, omega arith)
noted-IsShorter (some (repo, seq)) c = (ground arith, ground arith)

pub offer-IsBounded : (p : Publication) (c : Connection) → IsBounded c → IsBounded (offer p c).1
unfolding offer
offer-IsBounded p c b =
    elim (Bool-cases (not (text_eq c.kind p.kind) || (c.closed || is_excluded p.exclude c.id))) [
      | inl e ↦ rw e b
      | inr e ↦ rw e (
          enqueue-IsBounded p.frame (noted p.origin c)
            (Shorter-IsBounded (noted p.origin c) c (noted-IsShorter p.origin c) b))
    ]

pub wake-IsBounded : (c : Connection) → IsBounded c → IsBounded (wake c)
unfolding wake
wake-IsBounded c b = elim (Bool-cases (is_full c)) [
  | inl e ↦ rw e b
  | inr e ↦ rw e (put-IsBounded sentinel c e)
]

due-IsShorter : (f : Frame) (c : Connection) → IsShorter (due f c).1 c
unfolding due
due-IsShorter f c = (ground arith, ground arith)

send-IsShorter : (ok : Bool) (f : Frame) (c : Connection) → IsShorter (send_frame ok (due f c)).1 c
unfolding send_frame
send-IsShorter true f c = due-IsShorter f c
send-IsShorter false f c = due-IsShorter f c

take-IsShorter :
    (ok : Bool) (fs : List Frame) (c : Connection)
    → length fs ≤ length c.queue
    → IsShorter (take_frame ok fs c).1 c
unfolding take_frame
take-IsShorter ok [] c h = (refl, omega arith)
take-IsShorter ok (sentinel ∷ rest) c h = (refl, omega arith)
take-IsShorter ok (event t ∷ rest) c h =
    let (e, l) = send-IsShorter ok (event t) (record c { queue = rest }) in (e, omega (arith, l, h))
take-IsShorter ok (lag n s ∷ rest) c h =
    let (e, l) = send-IsShorter ok (lag n s) (record c { queue = rest }) in (e, omega (arith, l, h))

pub pump_round-IsBounded :
    (ok : Bool) (c : Connection) → IsBounded c → IsBounded (pump_round ok c).1
unfolding pump_round
pump_round-IsBounded ok c b =
    if_both (λ (r : Round × Connection). IsBounded r.1) c.closed (ends, c) (take_frame ok c.queue c)
      b
      (Shorter-IsBounded (take_frame ok c.queue c).1 c (take-IsShorter ok c.queue c (omega arith))
        b)
