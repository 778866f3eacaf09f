-- ===== src/Tests/Plan.antt =====
-- A plan of three steps, and one with a cycle.
use openburrow.Prelude.{
  ◌≡◌, refl, true, false, none, some, List, [], ◌∷◌, ◌⊎◌, Memᴰ, Text, codes, text_eq, save, get,
}
use openburrow.Plan.{find_step, StepStatus, pending, done, PlanStep, Plan}
use openburrow.Plan.Cycle.{
  graph, has_cycle, search_cycle, roots, scan, visit, all_white, graph_of, neighbours, or_empty,
}
use openburrow.Plan.Walks.{HasLoop, Grounded}
use openburrow.Plan.Acyclic.{has_cycle-answer}
use openburrow.Plan.Descendants.{Waits, descendants, descend, waiting_for, push_all, each}
use openburrow.Plan.Cascade.{AllWait, descendants-Waits}

abbrev step : Text → StepStatus → List Text → PlanStep
step id status deps = record {
  id = id;
  plan_id = codes "p";
  depends_on = deps;
  parent_step_id = [];
  order = 0;
  status = status;
  owner_lane = [];
  original_owner_lane = [];
  claimed_at = none;
  started_at = none;
  ended_at = none;
}

abbrev plan : List PlanStep → Plan
plan steps = record { id = codes "p"; version = 1; steps = steps; history = [] }

abbrev waiting : PlanStep
waiting = step (codes "b") pending (codes "a" ∷ [])

abbrev line : Plan
line = plan (
    step (codes "a") done [] ∷ waiting ∷ step (codes "c") pending (codes "b" ∷ codes "z" ∷ []) ∷ [])

abbrev ring : Plan
ring =
    plan
      (step (codes "a") pending (codes "b" ∷ []) ∷ step (codes "b") pending (codes "a" ∷ []) ∷ [])

line-has_cycle : has_cycle line ≡ some false
unfolding has_cycle search_cycle roots scan visit all_white graph_of neighbours or_empty text_eq
    save find_step get
line-has_cycle = refl

ring-has_cycle : has_cycle ring ≡ some true
unfolding has_cycle search_cycle roots scan visit all_white graph_of neighbours or_empty text_eq
    save find_step get
ring-has_cycle = refl

has_cycle-answer_example :
    ((has_cycle ring ≡ some true) × HasLoop (graph ring))
    ⊎ ((has_cycle ring ≡ some false)
        × ((x : Text) → Grounded (graph ring) x)
        × ¬ HasLoop (graph ring))
has_cycle-answer_example = has_cycle-answer ring

abbrev third : PlanStep
third = step (codes "c") pending (codes "a" ∷ codes "b" ∷ [])

abbrev fan : Plan
fan = plan (third ∷ waiting ∷ [])

-- The step that waits for two others is listed twice.
fan-descendants : descendants (codes "a") fan ≡ some (third ∷ waiting ∷ third ∷ [])
unfolding descendants descend waiting_for push_all each text_eq
fan-descendants = refl

descendants-Waits_example :
    (all : List PlanStep) × (descendants (codes "a") fan ≡ some all)
    × AllWait fan.steps (codes "a") all
    × ((codes "b" ≡ codes "a") ⊎ ((s : PlanStep) × Memᴰ s all × (codes "b" ≡ s.id)))
unfolding text_eq
descendants-Waits_example =
    descendants-Waits (codes "a") (codes "b") fan
      (Waits.behind (codes "a") waiting Waits.itself (Memᴰ.tail (Memᴰ.head refl)) refl)
