-- ===== src/Negotiation/Positions.antt =====
-- The positions that `positions_from_moves` reads off a transcript.
use openburrow.Prelude.{
  ◌≡◌, refl, ◌∙◌, ap, inl, inr, false, List, [], ◌∷◌, Text, text_eq, eq_of_text_eq, select,
  Bool-cases, arith,
}
use openburrow.Negotiation.{
  Move, NegotiationPosition, apply_move, positions_from, positions_from_moves, no_position,
}

-- The position that the moves of one lane lead to.
abbrev pub stance : List Move → NegotiationPosition → NegotiationPosition
stance [] p = p
stance (m ∷ ms) p = stance ms (apply_move m p)

abbrev pub made_by : Text → List Move → List Move
made_by lane ms = select (λ (m : Move). text_eq m.lane_id lane) ms

lane-apply_move : (m : Move) (p : NegotiationPosition) → (apply_move m p).lane_id ≡ p.lane_id
unfolding apply_move
lane-apply_move m p = ground arith

positions_from-made_by :
    (ms : List Move) (a b : Text) (p q : NegotiationPosition)
    → p.lane_id ≡ a
    → q.lane_id ≡ b
    → text_eq a b ≡ false
    → positions_from ms p q ≡ (stance (made_by a ms) p, stance (made_by b ms) q)
unfolding positions_from
positions_from-made_by [] a b p q ea eb h = refl
positions_from-made_by (m ∷ ms) a b p q ea eb h =
    let held = ap (text_eq m.lane_id) ea in
    let other = ap (text_eq m.lane_id) eb in
    let later = λ (p' q' : NegotiationPosition). positions_from-made_by ms a b p' q' in
    elim (Bool-cases (text_eq m.lane_id a)) [
      | inl x ↦
          let y : text_eq m.lane_id b ≡ false =
            ap (λ l. text_eq l b) (eq_of_text_eq m.lane_id a x) ∙ h in
          rw (held ∙ x, x, y) (later (apply_move m p) q (lane-apply_move m p ∙ ea) eb h)
      | inr x ↦ elim (Bool-cases (text_eq m.lane_id b)) [
        | inl y ↦
            rw (held ∙ x, other ∙ y, x, y)
              (later p (apply_move m q) ea (lane-apply_move m q ∙ eb) h)
        | inr y ↦ rw (held ∙ x, other ∙ y, x, y) (later p q ea eb h)
      ]
    ]

-- For two different lanes, the positions are those that each lane's own moves lead to, in order, from the
-- empty position.
positions_from_moves-made_by :
    (ms : List Move) (a b : Text)
    → text_eq a b ≡ false
    → positions_from_moves ms a b
      ≡ (stance (made_by a ms) (no_position a), stance (made_by b ms) (no_position b))
unfolding positions_from_moves
positions_from_moves-made_by ms a b h =
    positions_from-made_by ms a b (no_position a) (no_position b) refl refl h
