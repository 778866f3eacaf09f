-- ===== src/Negotiation/Messages.antt =====
-- The messages that a run delivers, beside the moves of its transcript.
use openburrow.Prelude.{ℕ, zero, suc, ◌-◌, ◌≡◌, refl, List, [], ◌∷◌, ◌++◌, Text}
use openburrow.Negotiation.{
  cap_reached, performative_eq, Move, add_move, PerformativeMessage, build_performative_message,
}
use openburrow.Negotiation.Driver.{
  ResponderReply, Driver, Surroundings, Talk, take_turn, pass_on, loop, opened, run,
}
use openburrow.Negotiation.Rounds.{
  refused, closed, goes_on, loop-Round, moves-take_turn, same-Ending, same-escalate_and_finish,
  turn_move,
}

-- Each message carries the move at its place.
abbrev pub Carries : List PerformativeMessage → List Move → Type 0
Carries [] [] = Unit
Carries [] (m ∷ ms) = ⊥
Carries (p ∷ ps) [] = ⊥
Carries (p ∷ ps) (m ∷ ms) =
    (p.id ≡ m.message_id)
    × (p.sender_lane ≡ m.lane_id)
    × (p.intent ≡ m.performative)
    × Carries ps ms

Carries-snoc :
    (ps : List PerformativeMessage) (ms : List Move) (p : PerformativeMessage) (m : Move)
    → Carries ps ms
    → (p.id ≡ m.message_id) × (p.sender_lane ≡ m.lane_id) × (p.intent ≡ m.performative)
    → Carries (ps ++ p ∷ []) (ms ++ m ∷ [])
Carries-snoc [] [] p m c (a, b, d) = (a, b, d, tt)
Carries-snoc [] (n ∷ ms) p m c h = absurd c
Carries-snoc (q ∷ ps) [] p m c h = absurd c
Carries-snoc (q ∷ ps) (n ∷ ms) p m (a, b, d, c) h = (a, b, d, Carries-snoc ps ms p m c h)

module _ (dr : Driver) (env : Surroundings) where
  take_turn-Carries :
      (reply : ResponderReply) (s : Talk)
      → Carries s.delivered s.exchange.moves
      → Carries (take_turn env reply s).delivered (take_turn env reply s).exchange.moves
  take_turn-Carries reply s c = rw (moves-take_turn dr env reply s) (
      unfold take_turn in
      Carries-snoc s.delivered s.exchange.moves _ (turn_move dr env reply s) c (refl, refl, refl))

module _ (dr : Driver) (env : Surroundings) where
  loop-Carries :
      (rounds : ℕ) (s : Talk)
      → Carries s.delivered s.exchange.moves
      → Carries (loop dr env rounds s).delivered (loop dr env rounds s).exchange.moves
  loop-Carries zero s c =
      let (em, ed) = same-escalate_and_finish dr env (cap_reached dr.max_exchanges) s in
      unfold loop in rw (em, ed) c
  loop-Carries (suc rounds) s c =
      let later = λ (reply : ResponderReply).
        loop-Carries rounds (pass_on reply (take_turn env reply s))
          (unfold pass_on in take_turn-Carries dr env reply s c) in
      elim (loop-Round dr env rounds s) [
        | refused why e ↦
            let (em, ed) = same-escalate_and_finish dr env why s in rw e (rw (em, ed) c)
        | closed reply v end ↦
            let (em, ed) =
              same-Ending dr env reply (take_turn env reply s) (loop dr env (suc rounds) s) end in
            rw (em, ed) (take_turn-Carries dr env reply s c)
        | goes_on reply v e ↦ rw e (later reply)
      ]

-- The messages that a run delivers and the moves of its transcript correspond one to one, in order: each
-- message has the id, the sender and the performative of its move.
pub run-Carries :
    (dr : Driver) (env : Surroundings) (a b topic : Text) (refs : List Text) (opening : Text)
    → Carries
        (run dr env a b topic refs opening).delivered
        (run dr env a b topic refs opening).exchange.moves
run-Carries dr env a b topic refs opening =
    unfold run in
    loop-Carries dr env (dr.max_exchanges - 1) (opened dr env a b topic refs opening)
      (unfold opened add_move build_performative_message performative_eq in (refl, refl, refl, tt))
