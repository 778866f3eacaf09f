-- ===== src/Negotiation/Outcomes.antt =====
-- How a negotiation ends.
use openburrow.Prelude.{
  ℕ, zero, suc, ◌-◌, ◌≡◌, refl, Bool, true, false, List, [], ◌∷◌, arith, Text, if◌then◌else◌,
}
use openburrow.Negotiation.{
  agreed, abandoned, escalated, Reason, cap_reached, rejected_after, unchanged_after, resolve,
  escalate, PerformativeMessage, build_performative_message, illegal_move, declined,
}
use openburrow.Negotiation.Driver.{
  ResponderReply, Driver, Surroundings, Talk, NegotiationResult, finish, escalate_and_finish,
  take_turn, verdict, pass_on, loop, opened, run,
}
use openburrow.Negotiation.Rounds.{
  Ending, accepted, withdrawn, halted, refused, closed, goes_on, loop-Round,
}

-- An agreement, an abandonment, or an escalation that is broadcast once to every lane.
pub data Outcome (env : Surroundings) (r : NegotiationResult) : Type 0 where
  by_agreement :
      r.exchange.outcome ≡ agreed
      → (r.agreement ≡ true) × (r.escalation ≡ false) × (r.exchange.collision_avoided ≡ true)
      → r.broadcasts ≡ []
      → Outcome env r
  by_withdrawal :
      r.exchange.outcome ≡ abandoned
      → (r.agreement ≡ false) × (r.escalation ≡ false) × (r.exchange.collision_avoided ≡ false)
      → r.broadcasts ≡ []
      → Outcome env r
  by_escalation :
      r.exchange.outcome ≡ escalated
      → (r.agreement ≡ false) × (r.escalation ≡ true)
      → (notice : PerformativeMessage)
      → (notice.broadcast ≡ true) × (r.broadcasts ≡ (if env.has_escalator then notice ∷ [] else []))
      → Outcome env r

module _ (dr : Driver) (env : Surroundings) where
  escalate-Outcome : (why : Reason) (s : Talk) → Outcome env (escalate_and_finish dr env why s)
  unfolding escalate_and_finish finish escalate build_performative_message
  escalate-Outcome why s = by_escalation (ground arith) (refl, refl) _ (refl, refl)

  Ending-Outcome :
      (reply : ResponderReply) (s : Talk) (r : NegotiationResult)
      → Ending dr env reply s r
      → Outcome env r
  Ending-Outcome reply s r (accepted h e) =
      rw e (unfold finish resolve in by_agreement refl (refl, refl, refl) refl)
  Ending-Outcome reply s r (withdrawn h e) =
      rw e (unfold finish resolve in by_withdrawal refl (refl, refl, refl) refl)
  Ending-Outcome reply s r (halted why e) = rw e (escalate-Outcome why s)

  loop-Outcome : (rounds : ℕ) (s : Talk) → Outcome env (loop dr env rounds s)
  loop-Outcome zero s = unfold loop in escalate-Outcome (cap_reached dr.max_exchanges) s
  loop-Outcome (suc rounds) s =
      let later =
        λ (reply : ResponderReply). loop-Outcome rounds (pass_on reply (take_turn env reply s)) in
      elim (loop-Round dr env rounds s) [
        | refused why e ↦ rw e (escalate-Outcome why s)
        | closed reply v end ↦
            Ending-Outcome reply (take_turn env reply s) (loop dr env (suc rounds) s) end
        | goes_on reply v e ↦ rw e (later reply)
      ]

-- A run ends agreed, with the collision avoided, or abandoned, both without a broadcast, or it ends escalated, and then
-- exactly one broadcast goes to the session where there is an escalator.
pub run-Outcome :
    (dr : Driver) (env : Surroundings) (a b topic : Text) (refs : List Text) (opening : Text)
    → Outcome env (run dr env a b topic refs opening)
run-Outcome dr env a b topic refs opening =
    unfold run in loop-Outcome dr env (dr.max_exchanges - 1) (opened dr env a b topic refs opening)

-- The same driver with the setting `escalate_to_humans` as given.
abbrev pub with_humans : Bool → Driver → Driver
with_humans x dr = record dr { escalate_to_humans = x }

module _ (dr : Driver) (env : Surroundings) (x : Bool) where
  same_escalation :
      (why : Reason) (s : Talk)
      → escalate_and_finish (with_humans x dr) env why s ≡ escalate_and_finish dr env why s
  unfolding escalate_and_finish finish escalate
  same_escalation why s = ground arith

  same_verdict :
      (reply : ResponderReply) (s : Talk)
      → verdict (with_humans x dr) env reply s ≡ verdict dr env reply s
  unfolding verdict finish
  same_verdict reply s =
      rw
        (
          same_escalation (rejected_after s.current_lane s.turns) s,
          same_escalation (unchanged_after s.turns) s,
        )
        refl

  same_loop : (rounds : ℕ) (s : Talk) → loop (with_humans x dr) env rounds s ≡ loop dr env rounds s
  unfolding loop
  same_loop zero s = same_escalation (cap_reached dr.max_exchanges) s
  same_loop (suc rounds) s =
      let reply = env.respond s.turns s.current_lane s.last_message in
      let next = take_turn env reply s in
      rw
        (
          same_escalation (declined s.current_lane) s,
          same_escalation (illegal_move s.current_lane reply.performative) s,
          same_verdict reply next,
          same_loop rounds (pass_on reply next),
        )
        refl

-- The setting `escalate_to_humans` makes no difference to a run.
run-humans :
    (dr : Driver) (env : Surroundings) (a b topic : Text) (refs : List Text) (opening : Text)
    (x : Bool)
    → run (with_humans x dr) env a b topic refs opening ≡ run dr env a b topic refs opening
run-humans dr env a b topic refs opening x =
    unfold run opened in
    same_loop dr env x (dr.max_exchanges - 1) (opened dr env a b topic refs opening)
