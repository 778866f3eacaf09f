-- ===== src/Negotiation.antt =====
-- ACP negotiations: `Performative` of packages/openburrow-core/src/openburrow/core/models/enums.py,
-- `NegotiationExchange` of core/models/message.py, and
-- packages/openburrow-acp/src/openburrow/acp/performatives.py.
-- An exchange keeps the reasons of its escalations as a list, where the source appends their texts
-- to the description; `ended` says that `ended_at` is set.
pub mod Driver
pub mod Rounds
pub mod Messages
pub mod Transcript
pub mod Outcomes
pub mod Positions
use openburrow.Prelude.{
  ℕ, Bool, true, false, not, ◌&&◌, ◌||◌, Option, none, some, List, [], ◌∷◌, ◌++◌, Text, text_eq,
  is_empty, any, length, if◌then◌else◌, leb, ltb, ◌==◌,
}

pub data Performative : Type 0 where
  propose counter accept reject inform withdraw : Performative

abbrev rank : Performative → ℕ
rank propose = 0
rank counter = 1
rank accept = 2
rank reject = 3
rank inform = 4
rank withdraw = 5

unfoldable pub performative_eq : Performative → Performative → Bool
performative_eq p q = rank p == rank q

-- `PERFORMATIVE_REPLIES`
unfoldable pub performative_replies : Performative → List Performative
performative_replies propose = accept ∷ reject ∷ counter ∷ withdraw ∷ []
performative_replies counter = accept ∷ reject ∷ counter ∷ withdraw ∷ []
performative_replies accept = inform ∷ []
performative_replies reject = propose ∷ inform ∷ []
performative_replies inform = propose ∷ counter ∷ inform ∷ []
performative_replies withdraw = propose ∷ inform ∷ []

-- `validate_reply`: whether it returns without raising.
unfoldable pub validate_reply : Option Performative → Performative → Bool
unfolding performative_eq performative_replies
validate_reply none reply = performative_eq reply propose || performative_eq reply inform
validate_reply (some previous) reply = any (performative_eq reply) (performative_replies previous)

pub data NegotiationOutcome : Type 0 where
  pending agreed rejected escalated timed_out abandoned : NegotiationOutcome

-- Why an exchange was escalated.
pub data Reason : Type 0 where
  declined : Text → Reason
  illegal_move : Text → Performative → Reason
  rejected_after : Text → ℕ → Reason
  unchanged_after : ℕ → Reason
  cap_reached : ℕ → Reason

pub record Move : Type 0 where
  pub message_id : Text
  pub lane_id : Text
  pub performative : Performative
  pub summary : Text
  pub refs : List Text
  pub requested_change : Text

pub record Exchange : Type 0 where
  pub lane_a : Text
  pub lane_b : Text
  pub topic : Text
  pub contested_refs : List Text
  pub moves : List Move
  pub outcome : NegotiationOutcome
  pub collision_avoided : Bool
  pub resolved_by : Text
  pub escalation_message_id : Text
  pub escalations : List Reason
  pub ended : Bool
  pub max_exchanges : ℕ

unfoldable pub exchange_count : Exchange → ℕ
exchange_count ex = length ex.moves

unfoldable pub resolve : NegotiationOutcome → Text → Bool → Exchange → Exchange
resolve outcome by avoided ex = record ex {
  outcome = outcome;
  collision_avoided = avoided;
  resolved_by = by;
  ended = true;
}

unfoldable pub add_move : Move → Exchange → Exchange
unfolding resolve exchange_count performative_eq
add_move m ex =
    let ex' = record ex { moves = ex.moves ++ m ∷ [] } in
    if performative_eq m.performative accept
    then resolve agreed m.lane_id false ex'
    else if performative_eq m.performative reject && leb ex'.max_exchanges (exchange_count ex')
    then resolve rejected m.lane_id false ex'
    else ex'

unfoldable pub escalate : Text → Reason → Exchange → Exchange
escalate message_id reason ex = record ex {
  outcome = escalated;
  escalation_message_id = message_id;
  escalations = ex.escalations ++ reason ∷ [];
  ended = true;
}

-- The message that carries a performative: blocking, and asking for a reply, for a proposal.
pub record PerformativeMessage : Type 0 where
  pub id : Text
  pub sender_lane : Text
  pub recipients : List Text
  pub broadcast : Bool
  pub subject : Text
  pub body : Text
  pub intent : Performative
  pub blocking : Bool
  pub requires_reply : Bool
  pub refs : List Text
  pub requested_change : Text

unfoldable pub build_performative_message :
    Text → Performative → Text → Text → Text → Text → List Text → Text → PerformativeMessage
unfolding performative_eq
build_performative_message fresh performative sender recipient topic body refs change =
    let blocking = performative_eq performative propose || performative_eq performative counter in
    record {
      id = fresh;
      sender_lane = sender;
      recipients = if is_empty recipient then [] else recipient ∷ [];
      broadcast = is_empty recipient;
      subject = topic;
      body = body;
      intent = performative;
      blocking = blocking;
      requires_reply = blocking;
      refs = refs;
      requested_change = change;
    }

-- One lane's stance.
pub record NegotiationPosition : Type 0 where
  pub lane_id : Text
  pub proposal : Text
  pub refs : List Text
  pub accepted : Bool
  pub rejected_by_lane : Bool  -- rejected

unfoldable pub apply_move : Move → NegotiationPosition → NegotiationPosition
unfolding performative_eq
apply_move m p =
    if performative_eq m.performative propose || performative_eq m.performative counter
    then record p { proposal = m.summary; refs = m.refs }
    else if performative_eq m.performative accept
    then record p { accepted = true }
    else if performative_eq m.performative reject
    then record p { rejected_by_lane = true }
    else p

unfoldable pub positions_from :
    List Move
    → NegotiationPosition
    → NegotiationPosition
    → NegotiationPosition × NegotiationPosition
unfolding apply_move
positions_from [] a b = (a, b)
positions_from (m ∷ ms) a b =
    positions_from ms (if text_eq m.lane_id a.lane_id then apply_move m a else a) (
      if text_eq m.lane_id a.lane_id
      then b
      else if text_eq m.lane_id b.lane_id
      then apply_move m b
      else b)

abbrev pub no_position : Text → NegotiationPosition
no_position lane = record {
  lane_id = lane;
  proposal = [];
  refs = [];
  accepted = false;
  rejected_by_lane = false;
}

-- `positions_from_moves`
unfoldable pub positions_from_moves :
    List Move → Text → Text → NegotiationPosition × NegotiationPosition
unfolding positions_from
positions_from_moves ms lane_a lane_b = positions_from ms (no_position lane_a) (no_position lane_b)
