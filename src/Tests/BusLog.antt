-- ===== src/Tests/BusLog.antt =====
-- A bus log of three events.
use openburrow.Prelude.{
  ℕ, suc, ◌+◌, ◌≡◌, ◌↔◌, refl, false, none, is_empty, List, [], ◌∷◌, ◌++◌, Memᴰ, arith, Text, codes,
  text_eq,
}
use openburrow.Vocabulary.{intra_repo}
use openburrow.BusLog.{BusEvent, is_duplicate, append, stream, tail_round}
use openburrow.BusLog.Order.{append-refused, tail_round-stream}

abbrev event : ℕ → Text → Text → BusEvent
event n session hash = record {
  seq = n;
  event_type = codes "task.working";
  session_id = session;
  thread_id = [];
  lane_id = [];
  task_id = [];
  task_state = [];
  trust_boundary = intra_repo;
  summary = [];
  correlation_id = [];
  content_hash = hash;
}

abbrev numbered : List BusEvent → ℕ
numbered [] = 1
numbered (e ∷ es) = suc (e.seq + numbered es)

abbrev log : List BusEvent
log =
    event 1 (codes "a") (codes "x")
    ∷ event 2 (codes "b") (codes "x")
    ∷ event 5 (codes "a") (codes "y")
    ∷ []

repeated : append numbered (event 0 (codes "a") (codes "y")) log ≡ none
unfolding append is_duplicate text_eq
repeated = refl

append-refused_example : (append numbered (event 0 (codes "a") (codes "y")) log ≡ none) ↔ (
    (is_empty (codes "y") ≡ false)
    × ((x : BusEvent) × Memᴰ x log × (x.content_hash ≡ codes "y") × (x.session_id ≡ codes "a")))
append-refused_example = append-refused numbered (event 0 (codes "a") (codes "y")) log

tail_round-stream_example :
    (tail_round (codes "a") 1 0 log).0 ++ stream (codes "a") (tail_round (codes "a") 1 0 log).1 log
    ≡ stream (codes "a") 0 log
tail_round-stream_example = tail_round-stream (codes "a") 1 0 log (omega arith)
