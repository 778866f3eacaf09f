-- ===== src/Negotiation/Driver.antt =====
-- `NegotiationDriver` of packages/openburrow-acp/src/openburrow/acp/negotiation.py.
-- What the lanes answer is the parameter `respond`, which may depend on the turn; deliveries and
-- broadcasts are kept in order.
use openburrow.Prelude.{
  ℕ, zero, suc, ◌+◌, ◌-◌, Bool, true, false, not, ◌&&◌, Option, none, some, List, [], ◌∷◌, ◌++◌,
  Text, text_eq, or_else, take, length, if◌then◌else◌, leb, min, max, drop,
}
use openburrow.Negotiation.{
  Performative, propose, accept, reject, inform, withdraw, performative_eq, validate_reply, pending,
  agreed, escalated, abandoned, Reason, declined, illegal_move, rejected_after, unchanged_after,
  cap_reached, Move, Exchange, resolve, add_move, escalate, PerformativeMessage,
  build_performative_message,
}

pub record ResponderReply : Type 0 where
  pub performative : Performative
  pub summary : Text
  pub refs : List Text
  pub requested_change : Text
  pub body : Text
  pub engaged : Bool

-- The driver's settings after its constructor, and the surroundings of a run.
pub record Driver : Type 0 where
  pub max_exchanges : ℕ
  pub escalate_after : ℕ
  pub escalate_to_humans : Bool

pub record Surroundings : Type 0 where
  pub respond : ℕ → Text → PerformativeMessage → ResponderReply
  pub fresh : ℕ → Text
  pub has_escalator : Bool

-- `__init__`
unfoldable pub new_driver : ℕ → ℕ → Bool → Driver
new_driver most after humans = record {
  max_exchanges = max 1 most;
  escalate_after = max 1 (min after (max 1 most));
  escalate_to_humans = humans;
}

-- The variables of the loop.
pub record Talk : Type 0 where
  pub exchange : Exchange
  pub delivered : List PerformativeMessage
  pub previous : Performative
  pub current_lane : Text
  pub last_message : PerformativeMessage
  pub turns : ℕ

pub record NegotiationResult : Type 0 where
  pub exchange : Exchange
  pub agreement : Bool  -- agreed
  pub escalation : Bool  -- escalated
  pub resolution : Text
  pub delivered : List PerformativeMessage
  pub broadcasts : List PerformativeMessage

-- The lane that speaks after the given one.
unfoldable pub other_lane : Exchange → Text → Text
other_lane ex lane = if text_eq lane ex.lane_b then ex.lane_a else ex.lane_b

-- `_finish`
unfoldable pub finish :
    Driver → Bool → Bool → Text → List PerformativeMessage → Talk → Exchange → NegotiationResult
finish dr agreement escalation resolution broadcasts s ex = record {
  exchange = if escalation && dr.escalate_to_humans then record ex { outcome = escalated } else ex;
  agreement = agreement;
  escalation = escalation;
  resolution = resolution;
  delivered = s.delivered;
  broadcasts = broadcasts;
}

-- `escalate_and_finish`; the body of the broadcast is the reason, which its text renders.
unfoldable pub escalate_and_finish : Driver → Surroundings → Reason → Talk → NegotiationResult
unfolding escalate finish
escalate_and_finish dr env reason s =
    let ex = escalate [] reason s.exchange in
    let notice =
      build_performative_message (env.fresh 0) inform [] [] ex.topic [] ex.contested_refs [] in
    finish dr false true [] (if env.has_escalator then notice ∷ [] else []) s ex

same_move : Move → Move → Bool
unfolding performative_eq text_eq
same_move r e = performative_eq r.performative e.performative && text_eq r.summary e.summary

stuck_four : List Move → Bool
unfolding same_move
stuck_four (a ∷ b ∷ c ∷ d ∷ []) = same_move c a && same_move d b
stuck_four _ = false

-- `_is_stuck`, on the last four moves
unfoldable pub is_stuck : Exchange → Bool
unfolding stuck_four
is_stuck ex = stuck_four (drop (length ex.moves - 4) ex.moves)

-- A legal reply is delivered, entered in the transcript, and counted.
unfoldable pub take_turn : Surroundings → ResponderReply → Talk → Talk
unfolding build_performative_message other_lane
take_turn env reply s =
    let message =
      build_performative_message (env.fresh s.turns) reply.performative s.current_lane
        (other_lane s.exchange s.current_lane) s.exchange.topic (or_else reply.body reply.summary)
        reply.refs reply.requested_change in
    record s {
      exchange =
          add_move
            record {
              message_id = message.id;
              lane_id = s.current_lane;
              performative = reply.performative;
              summary = reply.summary;
              refs = reply.refs;
              requested_change = reply.requested_change;
            }
            s.exchange;
      delivered = s.delivered ++ message ∷ [];
      last_message = message;
      turns = s.turns + 1;
    }

-- The terminal moves, and the early escalations; none goes on.
unfoldable pub verdict : Driver → Surroundings → ResponderReply → Talk → Option NegotiationResult
unfolding resolve
verdict dr env reply s =
    if performative_eq reply.performative accept
    then some
        (finish dr true false reply.summary [] s (resolve agreed s.current_lane true s.exchange))
    else if performative_eq reply.performative withdraw
    then some (finish dr false false [] [] s (resolve abandoned s.current_lane false s.exchange))
    else if performative_eq reply.performative reject && leb dr.escalate_after s.turns
    then some (escalate_and_finish dr env (rejected_after s.current_lane s.turns) s)
    else if leb dr.escalate_after s.turns && is_stuck s.exchange
    then some (escalate_and_finish dr env (unchanged_after s.turns) s)
    else none

unfoldable pub pass_on : ResponderReply → Talk → Talk
unfolding other_lane
pass_on reply s = record s {
  previous = reply.performative;
  current_lane = other_lane s.exchange s.current_lane;
}

abbrev pub settle : Option NegotiationResult → NegotiationResult → NegotiationResult
settle (some result) rest = result
settle none rest = rest

-- The loop; the rounds left are `max_exchanges - turns`, so that its test is the match.
unfoldable pub loop : Driver → Surroundings → ℕ → Talk → NegotiationResult
loop dr env zero s = escalate_and_finish dr env (cap_reached dr.max_exchanges) s
loop dr env (suc rounds) s =
    let reply = env.respond s.turns s.current_lane s.last_message in
    let next = take_turn env reply s in
    let rest = loop dr env rounds (pass_on reply next) in
    if not reply.engaged
    then escalate_and_finish dr env (declined s.current_lane) s
    else if not (validate_reply (some s.previous) reply.performative)
    then escalate_and_finish dr env (illegal_move s.current_lane reply.performative) s
    else settle (verdict dr env reply next) rest

-- The opening: lane a proposes.
unfoldable pub opened : Driver → Surroundings → Text → Text → Text → List Text → Text → Talk
unfolding add_move
opened dr env lane_a lane_b topic contested opening =
    let opener =
      build_performative_message (env.fresh 0) propose lane_a lane_b topic opening contested [] in
    record {
      exchange =
          add_move
            record {
              message_id = opener.id;
              lane_id = lane_a;
              performative = propose;
              summary = take 200 opening;
              refs = contested;
              requested_change = [];
            }
            record {
              lane_a = lane_a;
              lane_b = lane_b;
              topic = topic;
              contested_refs = contested;
              moves = [];
              outcome = pending;
              collision_avoided = false;
              resolved_by = [];
              escalation_message_id = [];
              escalations = [];
              ended = false;
              max_exchanges = dr.max_exchanges;
            };
      delivered = opener ∷ [];
      previous = propose;
      current_lane = lane_b;
      last_message = opener;
      turns = 1;
    }

unfoldable pub run :
    Driver → Surroundings → Text → Text → Text → List Text → Text → NegotiationResult
unfolding loop opened
run dr env lane_a lane_b topic contested opening =
    loop dr env (dr.max_exchanges - 1) (opened dr env lane_a lane_b topic contested opening)
