-- ===== src/Tests/Negotiation.antt =====
-- A negotiation in which lane b counters and lane a accepts.
use openburrow.Prelude.{
  ℕ, ◌≤◌, ◌≡◌, refl, none, ◌==◌, true, if◌then◌else◌, List, [], ◌∷◌, Text, codes, text_eq, length,
  arith,
}
use openburrow.Negotiation.{
  Performative, propose, counter, accept, Move, performative_eq, performative_replies,
  validate_reply,
}
use openburrow.Negotiation.Driver.{
  ResponderReply, Driver, Surroundings, new_driver, run, verdict, take_turn, loop, opened,
  other_lane, finish, pass_on,
}
use openburrow.Negotiation.Transcript.{IsExchange, run-IsExchange}
use openburrow.Negotiation.Messages.{Carries, run-Carries}
use openburrow.Negotiation.Outcomes.{Outcome, run-Outcome}

abbrev answer : ResponderReply → ResponderReply → ℕ → ResponderReply
answer first later turn = if turn == 1 then first else later

abbrev saying : Performative → Text → ResponderReply
saying p t = record {
  performative = p;
  summary = t;
  refs = [];
  requested_change = [];
  body = [];
  engaged = true;
}

abbrev env : Surroundings
env = record {
  respond =
      λ turn lane message. answer (saying counter (codes "y")) (saying accept (codes "ok")) turn;
  fresh = λ turn. turn ∷ [];
  has_escalator = true;
}

abbrev driver : Driver
unfolding new_driver
driver = new_driver 6 4 true

settled : (run driver env (codes "a") (codes "b") (codes "t") [] (codes "x")).agreement ≡ true
unfolding run loop opened verdict take_turn new_driver finish validate_reply performative_eq
    performative_replies other_lane text_eq pass_on
settled = refl

run-IsExchange_example :
    IsExchange
      (codes "a")
      (codes "b")
      none
      (run driver env (codes "a") (codes "b") (codes "t") [] (codes "x")).exchange.moves
    × (length (run driver env (codes "a") (codes "b") (codes "t") [] (codes "x")).exchange.moves
        ≤ driver.max_exchanges)
unfolding new_driver
run-IsExchange_example =
    run-IsExchange driver env (codes "a") (codes "b") (codes "t") [] (codes "x") (omega arith)

run-Carries_example :
    Carries
      (run driver env (codes "a") (codes "b") (codes "t") [] (codes "x")).delivered
      (run driver env (codes "a") (codes "b") (codes "t") [] (codes "x")).exchange.moves
run-Carries_example = run-Carries driver env (codes "a") (codes "b") (codes "t") [] (codes "x")

run-Outcome_example :
    Outcome env (run driver env (codes "a") (codes "b") (codes "t") [] (codes "x"))
run-Outcome_example = run-Outcome driver env (codes "a") (codes "b") (codes "t") [] (codes "x")

abbrev said : Text → Performative → Text → Move
said lane p t = record {
  message_id = [];
  lane_id = lane;
  performative = p;
  summary = t;
  refs = [];
  requested_change = [];
}

abbrev moves : List Move
moves =
    said (codes "a") propose (codes "x")
    ∷ said (codes "b") counter (codes "y")
    ∷ said (codes "a") accept (codes "ok")
    ∷ []
