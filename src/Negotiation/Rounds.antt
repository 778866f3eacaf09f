-- ===== src/Negotiation/Rounds.antt =====
-- One round of a negotiation's loop, and how it can end.
use openburrow.Prelude.{
  ℕ, suc, ◌≡◌, refl, sym, inl, inr, Bool, true, false, not, ◌&&◌, some, List, [], ◌∷◌, ◌++◌,
  some-injective, arith, Text, leb, Bool-cases, Option-cases, take,
}
use openburrow.Negotiation.{
  declined, illegal_move, propose, accept, reject, withdraw, performative_eq, validate_reply,
  Reason, rejected_after, unchanged_after, NegotiationOutcome, Move, Exchange, resolve, add_move,
  escalate, PerformativeMessage, build_performative_message,
}
use openburrow.Negotiation.Driver.{
  ResponderReply, Driver, Surroundings, Talk, NegotiationResult, finish, escalate_and_finish,
  take_turn, verdict, pass_on, loop, opened, is_stuck,
}

pub moves-add_move : (m : Move) (ex : Exchange) → (add_move m ex).moves ≡ ex.moves ++ m ∷ []
unfolding add_move
moves-add_move m ex = ground arith

lanes-add_move :
    (m : Move) (ex : Exchange)
    → ((add_move m ex).lane_a ≡ ex.lane_a) × ((add_move m ex).lane_b ≡ ex.lane_b)
unfolding add_move
lanes-add_move m ex = (ground arith, ground arith)

pub moves-finish :
    (dr : Driver) (a e : Bool) (t : Text) (bs : List PerformativeMessage) (s : Talk) (ex : Exchange)
    → (finish dr a e t bs s ex).exchange.moves ≡ ex.moves
unfolding finish
moves-finish dr a e t bs s ex = ground arith

-- How a turn can end the loop.
pub data Ending (dr : Driver) (env : Surroundings) (reply : ResponderReply) (s : Talk)
    (r : NegotiationResult) : Type 0 where
  accepted :
      performative_eq reply.performative accept ≡ true
      → r
        ≡ finish dr true false reply.summary [] s
            (resolve NegotiationOutcome.agreed s.current_lane true s.exchange)
      → Ending dr env reply s r
  withdrawn :
      performative_eq reply.performative withdraw ≡ true
      → r
        ≡ finish dr false false [] [] s
            (resolve NegotiationOutcome.abandoned s.current_lane false s.exchange)
      → Ending dr env reply s r
  halted : (why : Reason) → r ≡ escalate_and_finish dr env why s → Ending dr env reply s r

module _ (dr : Driver) (env : Surroundings) where
  pub verdict-Ending :
      (reply : ResponderReply) (s : Talk) (r : NegotiationResult)
      → verdict dr env reply s ≡ some r
      → Ending dr env reply s r
  unfolding verdict
  verdict-Ending reply s r h = elim (Bool-cases (performative_eq reply.performative accept)) [
    | inl a ↦ accepted a (sym (some-injective _ _ (rw a at h)))
    | inr a ↦ elim (Bool-cases (performative_eq reply.performative withdraw)) [
      | inl w ↦ withdrawn w (sym (some-injective _ _ (rw (a, w) at h)))
      | inr w ↦
          elim (Bool-cases
            (performative_eq reply.performative reject && leb dr.escalate_after s.turns)) [
              | inl j ↦
                  halted (rejected_after s.current_lane s.turns)
                    (sym (some-injective _ _ (rw (a, w, j) at h)))
              | inr j ↦ elim (Bool-cases (leb dr.escalate_after s.turns && is_stuck s.exchange)) [
                | inl k ↦
                    halted (unchanged_after s.turns)
                      (sym (some-injective _ _ (rw (a, w, j, k) at h)))
                | inr k ↦ absurd (cc (rw (a, w, j, k) at h))
              ]
            ]
    ]
  ]

  pub same-escalate_and_finish :
      (why : Reason) (s : Talk)
      → ((escalate_and_finish dr env why s).exchange.moves ≡ s.exchange.moves)
        × ((escalate_and_finish dr env why s).delivered ≡ s.delivered)
  unfolding escalate_and_finish escalate finish
  same-escalate_and_finish why s = (ground arith, refl)

  -- Whatever ends the loop after a turn, the moves and the deliveries are those of the turn.
  pub same-Ending :
      (reply : ResponderReply) (s : Talk) (r : NegotiationResult)
      → Ending dr env reply s r
      → (r.exchange.moves ≡ s.exchange.moves) × (r.delivered ≡ s.delivered)
  unfolding finish resolve
  same-Ending reply s r (accepted h e) = rw e (ground arith, refl)
  same-Ending reply s r (withdrawn h e) = rw e (ground arith, refl)
  same-Ending reply s r (halted why e) = rw e (same-escalate_and_finish why s)

  abbrev pub turn_move : ResponderReply → Talk → Move
  turn_move reply s = record {
    message_id = env.fresh s.turns;
    lane_id = s.current_lane;
    performative = reply.performative;
    summary = reply.summary;
    refs = reply.refs;
    requested_change = reply.requested_change;
  }

  pub moves-take_turn :
      (reply : ResponderReply) (s : Talk)
      → (take_turn env reply s).exchange.moves ≡ s.exchange.moves ++ turn_move reply s ∷ []
  unfolding take_turn
  moves-take_turn reply s = moves-add_move (turn_move reply s) s.exchange

  pub lanes-take_turn :
      (reply : ResponderReply) (s : Talk)
      → ((take_turn env reply s).exchange.lane_a ≡ s.exchange.lane_a)
        × ((take_turn env reply s).exchange.lane_b ≡ s.exchange.lane_b)
  unfolding take_turn
  lanes-take_turn reply s = lanes-add_move (turn_move reply s) s.exchange

-- What one round of the loop comes to.
pub data Round (dr : Driver) (env : Surroundings) (rounds : ℕ) (s : Talk) (r : NegotiationResult)
    : Type 0 where
  refused : (why : Reason) → r ≡ escalate_and_finish dr env why s → Round dr env rounds s r
  closed :
      (reply : ResponderReply)
      → validate_reply (some s.previous) reply.performative ≡ true
      → Ending dr env reply (take_turn env reply s) r
      → Round dr env rounds s r
  goes_on :
      (reply : ResponderReply)
      → validate_reply (some s.previous) reply.performative ≡ true
      → r ≡ loop dr env rounds (pass_on reply (take_turn env reply s))
      → Round dr env rounds s r

module _ (dr : Driver) (env : Surroundings) where
  pub loop-Round : (rounds : ℕ) (s : Talk) → Round dr env rounds s (loop dr env (suc rounds) s)
  unfolding loop
  loop-Round rounds s =
      let reply = env.respond s.turns s.current_lane s.last_message in
      elim (Bool-cases (not reply.engaged)) [
        | inl e ↦ refused (declined s.current_lane) (rw e)
        | inr e ↦ elim (Bool-cases (validate_reply (some s.previous) reply.performative)) [
          | inr v ↦ refused (illegal_move s.current_lane reply.performative) (rw (e, v))
          | inl v ↦ elim (Option-cases (verdict dr env reply (take_turn env reply s))) [
            | inl n ↦ goes_on reply v (rw (e, v, n))
            | inr (r, n) ↦
                closed reply v
                  (rw (e, v, n) (verdict-Ending dr env reply (take_turn env reply s) r n))
          ]
        ]
      ]

-- The move that opens a run.
unfoldable pub opener : Driver → Surroundings → Text → Text → Text → List Text → Text → Move
unfolding build_performative_message
opener dr env a b topic refs opening = record {
  message_id = env.fresh 0;
  lane_id = a;
  performative = propose;
  summary = take 200 opening;
  refs = refs;
  requested_change = [];
}

pub moves-opened :
    (dr : Driver) (env : Surroundings) (a b topic : Text) (refs : List Text) (opening : Text)
    → (opened dr env a b topic refs opening).exchange.moves
      ≡ opener dr env a b topic refs opening ∷ []
unfolding opened add_move build_performative_message performative_eq opener
moves-opened dr env a b topic refs opening = refl
