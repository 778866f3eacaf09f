-- ===== src/Negotiation/Transcript.antt =====
-- The transcript of a negotiation: its length, whose turn it is, and that each move may answer the
-- one before.
use openburrow.Prelude.{
  ℕ, zero, suc, ◌-◌, ◌≤◌, ◌≡◌, refl, sym, ◌∙◌, ap, inr, ◌⊎◌, true, Option, none, some, List, [],
  ◌∷◌, ◌++◌, append_assoc, append-nil, arith, Text, text_eq, text_eq_iff, text_eq_refl, length,
  if◌then◌else◌, subst,
}
use openburrow.Negotiation.{Performative, propose, validate_reply, Move, Exchange}
use openburrow.Negotiation.Driver.{
  ResponderReply, Driver, Surroundings, Talk, NegotiationResult, other_lane, take_turn, pass_on,
  loop, opened, run,
}
use openburrow.Negotiation.Rounds.{
  refused, closed, goes_on, loop-Round, moves-take_turn, lanes-take_turn, same-Ending,
  same-escalate_and_finish, turn_move, opener, moves-opened,
}

-- The lanes take turns, and each performative may answer the one before it.
abbrev pub IsExchange : Text → Text → Option Performative → List Move → Type 0
IsExchange x y previous [] = Unit
IsExchange x y previous (m ∷ ms) =
    (m.lane_id ≡ x)
    × (validate_reply previous m.performative ≡ true)
    × IsExchange y x (some m.performative) ms

-- Who speaks next, from the two lanes and the current one.
abbrev other : Text → Text → Text → Text
other a b x = if text_eq x b then a else b

other_twice : (a b x : Text) → (x ≡ a) ⊎ (x ≡ b) → other a b (other a b x) ≡ x
other_twice a b x h =
    ground (arith, h, text_eq_iff x b, text_eq_iff a b, text_eq_iff b b, text_eq_iff x a)

other_lanes : (a b x : Text) → (other a b x ≡ a) ⊎ (other a b x ≡ b)
other_lanes a b x = ground arith

abbrev moves_of : NegotiationResult → List Move
moves_of r = r.exchange.moves

other_self : (a b : Text) → other a b b ≡ a
other_self a b = rw text_eq_refl refl

module _ (dr : Driver) (env : Surroundings) (a b : Text) where
  -- The result adds a legal exchange of at most as many moves as there are rounds.
  abbrev Adds : ℕ → Talk → NegotiationResult → Type 0
  Adds rounds s r =
      (ms : List Move) × (moves_of r ≡ s.exchange.moves ++ ms)
      × IsExchange s.current_lane (other a b s.current_lane) (some s.previous) ms
      × (length ms ≤ rounds)

  abbrev Seated : Talk → Type 0
  Seated s =
      (s.exchange.lane_a ≡ a)
      × (s.exchange.lane_b ≡ b)
      × ((s.current_lane ≡ a) ⊎ (s.current_lane ≡ b))

  other_lane-other :
      (ex : Exchange) (x : Text) → ex.lane_a ≡ a → ex.lane_b ≡ b → other_lane ex x ≡ other a b x
  unfolding other_lane
  other_lane-other ex x la lb =
      ap (λ y. if text_eq x ex.lane_b then y else ex.lane_b) la
      ∙ ap (λ y. if text_eq x y then a else y) lb

  next_lane :
      (reply : ResponderReply) (s : Talk)
      → Seated s
      → (pass_on reply (take_turn env reply s)).current_lane ≡ other a b s.current_lane
  unfolding pass_on
  next_lane reply s (la, lb, on) =
      let (ta, tb) = lanes-take_turn dr env reply s in
      unfold take_turn in
      other_lane-other (take_turn env reply s).exchange s.current_lane (ta ∙ la) (tb ∙ lb)

  pass_on-Seated :
      (reply : ResponderReply) (s : Talk)
      → Seated s
      → Seated (pass_on reply (take_turn env reply s))
  pass_on-Seated reply s (la, lb, on) =
      let (ta, tb) = lanes-take_turn dr env reply s in
      let e = next_lane reply s (la, lb, on) in
      (unfold pass_on in ta ∙ la, unfold pass_on in tb ∙ lb, rw e (other_lanes a b s.current_lane))

  Adds-more :
      (rounds : ℕ) (s : Talk) (reply : ResponderReply) (r : NegotiationResult)
      → Seated s
      → validate_reply (some s.previous) reply.performative ≡ true
      → Adds rounds (pass_on reply (take_turn env reply s)) r
      → Adds (suc rounds) s r
  Adds-more rounds s reply r seat v (ms, e, x, n) =
      let m = turn_move dr env reply s in
      let (la, lb, on) = seat in
      let spoken : IsExchange (other a b s.current_lane) s.current_lane (some reply.performative)
          ms =
        subst (λ y. IsExchange (other a b s.current_lane) y (some reply.performative) ms)
          (other_twice a b s.current_lane on)
          (subst (λ y. IsExchange y (other a b y) (some reply.performative) ms)
            (next_lane reply s seat) (unfold pass_on in x)) in
      let passed : (pass_on reply (take_turn env reply s)).exchange.moves ++ ms
          ≡ (s.exchange.moves ++ m ∷ []) ++ ms =
        unfold pass_on in ap (λ ys. ys ++ ms) (moves-take_turn dr env reply s) in
      (
        m ∷ ms,
        e ∙ passed ∙ append_assoc s.exchange.moves (m ∷ []) ms,
        (refl, v, spoken),
        omega arith,
      )

  loop-Adds : (rounds : ℕ) (s : Talk) → Seated s → Adds rounds s (loop dr env rounds s)
  loop-Adds zero s seat = (
    [],
    unfold loop in ((same-escalate_and_finish dr env _ s).0 ∙ sym (append-nil s.exchange.moves)),
    tt,
    omega arith,
  )
  loop-Adds (suc rounds) s seat =
      let later = λ (reply : ResponderReply).
        loop-Adds rounds (pass_on reply (take_turn env reply s)) (pass_on-Seated reply s seat) in
      elim (loop-Round dr env rounds s) [
        | refused why e ↦ (
          [],
          ap moves_of e
              ∙ (same-escalate_and_finish dr env why s).0
              ∙ sym (append-nil s.exchange.moves),
          tt,
          omega arith,
        )
        | closed reply v end ↦ (
          turn_move dr env reply s ∷ [],
          (same-Ending dr env reply (take_turn env reply s) (loop dr env (suc rounds) s) end).0
              ∙ moves-take_turn dr env reply s,
          (refl, v, tt),
          omega arith,
        )
        | goes_on reply v e ↦ rw e (
            Adds-more rounds s reply (loop dr env rounds (pass_on reply (take_turn env reply s)))
              seat v (later reply))
      ]

-- The first move of a run is a proposal of lane a, and then lanes b and a take turns: each move may answer the
-- one before it, and there are at most `max_exchanges` of them, where that is at least 1.
pub run-IsExchange :
    (dr : Driver) (env : Surroundings) (a b topic : Text) (refs : List Text) (opening : Text)
    → 1 ≤ dr.max_exchanges
    → IsExchange a b none (run dr env a b topic refs opening).exchange.moves
      × (length (run dr env a b topic refs opening).exchange.moves ≤ dr.max_exchanges)
unfolding opener
run-IsExchange dr env a b topic refs opening h =
    let s = opened dr env a b topic refs opening in
    let (ms, e, x, n) =
      loop-Adds dr env a b (dr.max_exchanges - 1) s (unfold opened in (refl, refl, inr refl)) in
    let m = opener dr env a b topic refs opening in
    let all : (run dr env a b topic refs opening).exchange.moves ≡ m ∷ ms =
      unfold run in (e ∙ ap (λ ys. ys ++ ms) (moves-opened dr env a b topic refs opening)) in
    let spoken : IsExchange b a (some propose) ms =
      subst (λ y. IsExchange b y (some propose) ms) (other_self a b) (unfold opened in x) in
    rw all ((refl, unfold validate_reply in refl, spoken), omega arith)
