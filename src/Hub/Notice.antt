-- ===== src/Hub/Notice.antt =====
-- Where a lag notice of the hub sends its client, packages/openburrow-relay/src/openburrow/relay/hub.py.
use openburrow.Prelude.{
  ℕ, ◌+◌, ◌≤◌, ◌≡◌, refl, ap, ◌∙◌, Bool, true, false, not, ◌||◌, some, List, [], ◌∷◌, ◌++◌, Text,
  text_eq, text_eq_refl, Table, get, get-save, if◌then◌else◌, ltb, Bool-cases, arith, inl, inr,
}
use openburrow.Hub.{
  Frame, event, lag, Connection, seen_seq, note_seq, is_full, evict, lag_frame,
  make_room_for_notice, enqueue,
}
use openburrow.Hub.Members.{Publication, offer, noted, is_excluded}

-- Where a connection resumes.
abbrev resume_point : Connection → Text → ℕ
resume_point c repo = seen_seq (get c.last_seq repo)

noted-resume_point :
    (repo : Text) (seq : ℕ) (c : Connection) → seq ≤ resume_point (note_seq repo seq c) repo
unfolding note_seq seen_seq
noted-resume_point repo seq c = elim (Bool-cases (ltb (seen_seq (get c.last_seq repo)) seq)) [
  | inl e ↦ rw (e, get-save c.last_seq repo repo seq, text_eq_refl repo) (omega arith)
  | inr e ↦ rw e (ground arith)
]

note_seq-queue :
    (repo : Text) (seq : ℕ) (c : Connection)
    → ((note_seq repo seq c).queue ≡ c.queue)
      × ((note_seq repo seq c).notice_queued ≡ c.notice_queued)
      × ((note_seq repo seq c).capacity ≡ c.capacity)
unfolding note_seq
note_seq-queue repo seq c = (ground arith, ground arith, ground arith)

-- What is taken from the head of the queue leaves a notice with the resume point of the connection.
evict-notice :
    (c : Connection) (t : Text) (rest : List Frame)
    → c.notice_queued ≡ false
    → c.queue ≡ event t ∷ rest
    → (make_room_for_notice c).queue ≡ rest ++ lag (c.dropped + 1) c.last_seq ∷ []
unfolding make_room_for_notice evict lag_frame
evict-notice c t rest n q = go c c.notice_queued c.queue n q
  where
    go :
        (c : Connection) (b : Bool) (fs : List Frame)
        → b ≡ false
        → fs ≡ event t ∷ rest
        → (if b then c else evict fs c).queue ≡ rest ++ lag (c.dropped + 1) c.last_seq ∷ []
    go c b fs e f = rw (e, f) refl

if-true : {A : Type 0} (b : Bool) (x y : A) → b ≡ true → (if b then x else y) ≡ x
if-true b x y e = rw e refl

if-false : {A : Type 0} (b : Bool) (x y : A) → b ≡ false → (if b then x else y) ≡ y
if-false b x y e = rw e refl

-- The connection that noted an event and dropped it.
abbrev dropped_event : Text → ℕ → Connection → Connection
dropped_event repo seq c =
    let n = note_seq repo seq c in record n { dropped = n.dropped + 1; lagged = true }

note_seq-is_full :
    (repo : Text) (seq : ℕ) (c : Connection) → is_full (note_seq repo seq c) ≡ is_full c
unfolding note_seq is_full
note_seq-is_full repo seq c = ground arith

note_seq-dropped :
    (repo : Text) (seq : ℕ) (c : Connection) → (note_seq repo seq c).dropped ≡ c.dropped
unfolding note_seq
note_seq-dropped repo seq c = ground arith

offer-full :
    (p : Publication) (c : Connection) (repo : Text) (seq : ℕ)
    → p.origin ≡ some (repo, seq)
    → (not (text_eq c.kind p.kind) || (c.closed || is_excluded p.exclude c.id)) ≡ false
    → is_full c ≡ true
    → offer p c ≡ (false, make_room_for_notice (dropped_event repo seq c))
unfolding offer
offer-full p c repo seq o on full =
    if-false _ _ _ on
    ∙ (ap (λ origin. enqueue p.frame (noted origin c)) o
        ∙ (unfold noted enqueue in if-true _ _ _ (note_seq-is_full repo seq c ∙ full)))

-- An event of an origin that is published to a full open connection of its kind, with an event at the head of its queue
-- and no notice queued, is dropped, and the notice that takes the place of the head sends the client to a resume point
-- that is not below the number of the dropped event.
pub offer-lag :
    (p : Publication) (c : Connection) (repo t : Text) (seq : ℕ) (rest : List Frame)
    → p.origin ≡ some (repo, seq)
    → text_eq c.kind p.kind ≡ true
    → (c.closed || is_excluded p.exclude c.id) ≡ false
    → is_full c ≡ true
    → c.notice_queued ≡ false
    → c.queue ≡ event t ∷ rest
    → ((offer p c).0 ≡ false)
      × (resume : Table ℕ) × ((offer p c).1.queue ≡ rest ++ lag (c.dropped + 2) resume ∷ [])
      × (seq ≤ seen_seq (get resume repo))
offer-lag p c repo t seq rest o kind on full quiet q =
    let d = dropped_event repo seq c in
    let (same, quiet', sized) = note_seq-queue repo seq c in
    let sent = offer-full p c repo seq o (rw kind on) full in
    let left = evict-notice d t rest (quiet' ∙ quiet) (same ∙ q) in
    (
      ap (λ r. r.0) sent,
      d.last_seq,
      ap (λ r. r.1.queue) sent
          ∙ (left
              ∙ ap (λ n. rest ++ lag n d.last_seq ∷ [])
                  (omega (arith, note_seq-dropped repo seq c))),
      noted-resume_point repo seq c,
    )
