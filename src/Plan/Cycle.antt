-- ===== src/Plan/Cycle.antt =====
-- `has_cycle` and `validate_references` of packages/openburrow-core/src/openburrow/core/models/plan.py.
-- The walk has fuel, none is a walk that ran out of it: Plan.Acyclic shows that one unit for each node is enough.
use openburrow.Prelude.{
  ℕ, zero, suc, Bool, true, false, not, ◌&&◌, Option, none, some, is_some, List, [], ◌∷◌, ◌++◌,
  Text, length, is_empty, map, select, Table, get, save, if◌then◌else◌,
}
use openburrow.Plan.{PlanStep, Plan, mem, ids, find_step}

pub data Colour : Type 0 where
  white grey black : Colour

-- The dependencies of each step that are steps of the plan.
unfoldable pub graph_of : List PlanStep → List PlanStep → Table (List Text) → Table (List Text)
graph_of known [] g = g
graph_of known (s ∷ ss) g =
    graph_of known ss (save g s.id (select (λ d. is_some (find_step d known)) s.depends_on))

-- `graph.get(node, [])`
unfoldable pub or_empty : Option (List Text) → List Text
or_empty none = []
or_empty (some ts) = ts

unfoldable pub neighbours : Table (List Text) → Text → List Text
neighbours g node = or_empty (get g node)

-- What a walk answers, with the colours it leaves.
abbrev pub SearchAnswer : Type 0
SearchAnswer = Option (Bool × Table Colour)

-- The loop over the neighbours, by the colour of each.
abbrev pub on_colour : Option Colour → SearchAnswer → SearchAnswer → SearchAnswer → SearchAnswer
on_colour (some grey) at_grey at_white otherwise = at_grey
on_colour (some white) at_grey at_white otherwise = at_white
on_colour (some black) at_grey at_white otherwise = otherwise
on_colour none at_grey at_white otherwise = otherwise

-- The loop goes on where no cycle was found.
abbrev pub and_then : SearchAnswer → (Table Colour → SearchAnswer) → SearchAnswer
and_then none next = none
and_then (some (true, c)) next = some (true, c)
and_then (some (false, c)) next = next c

unfoldable pub scan : (Text → Table Colour → SearchAnswer) → List Text → Table Colour → SearchAnswer
scan visit [] c = some (false, c)
scan visit (n ∷ ns) c =
    on_colour (get c n) (some (true, c)) (and_then (visit n c) (scan visit ns)) (scan visit ns c)

unfoldable pub visit : ℕ → Table (List Text) → Text → Table Colour → SearchAnswer
visit zero g node c = none
visit (suc fuel) g node c =
    and_then (scan (visit fuel g) (neighbours g node) (save c node grey))
      (λ c'. some (false, save c' node black))

-- `any` over the nodes
unfoldable pub roots :
    (Text → Table Colour → SearchAnswer) → List Text → Table Colour → SearchAnswer
roots visit [] c = some (false, c)
roots visit (n ∷ ns) c =
    on_colour (get c n) (roots visit ns c) (and_then (visit n c) (roots visit ns))
      (roots visit ns c)

unfoldable pub all_white : Table (List Text) → Table Colour
all_white [] = []
all_white ((n, ts) ∷ rows) = (n, white) ∷ all_white rows

abbrev pub answer_of : SearchAnswer → Option Bool
answer_of none = none
answer_of (some (b, c)) = some b

abbrev pub graph : Plan → Table (List Text)
graph p = graph_of p.steps p.steps []

unfoldable pub search_cycle : Table (List Text) → SearchAnswer
search_cycle g =
    roots (visit (length g) g) (map (λ (row : Text × List Text). row.0) g) (all_white g)

unfoldable pub has_cycle : Plan → Option Bool
has_cycle p = answer_of (search_cycle (graph p))

pub data Problem : Type 0 where
  unknown_step : Text → Text → Problem
  unknown_parent : Text → Text → Problem
  dependency_cycle : Problem

unfoldable pub step_problems : List Text → PlanStep → List Problem
step_problems known s =
    map (unknown_step s.id) (select (λ d. not (mem d known)) s.depends_on)
    ++ (if not (is_empty s.parent_step_id) && not (mem s.parent_step_id known)
        then unknown_parent s.id s.parent_step_id ∷ []
        else [])

unfoldable pub all_problems : List Text → List PlanStep → List Problem
all_problems known [] = []
all_problems known (s ∷ ss) = step_problems known s ++ all_problems known ss

abbrev cycle_problem : Option Bool → List Problem
cycle_problem (some true) = dependency_cycle ∷ []
cycle_problem _ = []

unfoldable pub validate_references : Plan → List Problem
validate_references p = all_problems (ids p.steps) p.steps ++ cycle_problem (has_cycle p)
