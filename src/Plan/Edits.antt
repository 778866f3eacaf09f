-- ===== src/Plan/Edits.antt =====
-- The edits of a plan, packages/openburrow-core/src/openburrow/core/models/plan.py: `snapshot`, `add_step`,
-- `remove_step`, `rollback`. The dump of a step into JSON and its validation are arguments.
use openburrow.Prelude.{
  ℕ, zero, suc, ◌+◌, Bool, true, false, not, Option, none, some, List, [], ◌∷◌, ◌++◌, map, Text,
  text_eq, length, select, if◌then◌else◌, ◌==◌,
}
use openburrow.Plan.{PlanStep, Plan, Snapshot, find_step}

unfoldable pub snapshot : Plan → Plan
snapshot p = record p {
  history = p.history ++ record { version = p.version; steps = p.steps } ∷ [];
  version = p.version + 1;
}

-- `if not step.order`
abbrev placed : ℕ → ℕ → ℕ
placed zero count = count
placed (suc n) count = suc n

unfoldable pub add_step : Bool → PlanStep → Plan → Plan
unfolding snapshot
add_step announce s p =
    let q = if announce then snapshot p else p in
    record q {
      steps = q.steps ++ record s { plan_id = q.id; order = placed s.order (length q.steps) } ∷ [];
    }

-- `list.remove`, which removes one entry
unfoldable pub remove_one : Text → List Text → List Text
remove_one t [] = []
remove_one t (x ∷ xs) = if text_eq t x then xs else x ∷ remove_one t xs

unfoldable pub forget : Text → PlanStep → PlanStep
forget id s = record s { depends_on = remove_one id s.depends_on }

unfoldable pub drop_step : Text → List PlanStep → List PlanStep
drop_step id ss = map (forget id) (select (λ (s : PlanStep). not (text_eq s.id id)) ss)

abbrev remove_found : Text → Plan → Option PlanStep → Bool × Plan
remove_found id p none = (false, p)
remove_found id p (some s) = (true, record (snapshot p) { steps = drop_step id p.steps })

unfoldable pub remove_step : Text → Plan → Bool × Plan
remove_step id p = remove_found id p (find_step id p.steps)

-- The last snapshot of a version.
unfoldable pub find_version : ℕ → List Snapshot → Option Snapshot
find_version v [] = none
find_version v (s ∷ ss) =
    let later = find_version v ss in
    elim later [ none ↦ if v == s.version then some s else none | some t ↦ some t ]

-- `model_validate` of each dumped step, none where it raises
unfoldable pub validate_all : (PlanStep → Option PlanStep) → List PlanStep → Option (List PlanStep)
validate_all reread [] = some []
validate_all reread (s ∷ ss) =
    let later = validate_all reread ss in
    elim (reread s) [ none ↦ none | some t ↦ elim later [ none ↦ none | some ts ↦ some (t ∷ ts) ] ]

pub data Rollback : Type 0 where
  not_found raised : Rollback
  restored : Plan → Rollback

abbrev restore : ℕ → Plan → Option (List PlanStep) → Rollback
restore v p none = raised
restore v p (some ss) = restored (record p { steps = ss; version = v })

abbrev rollback_found : (PlanStep → Option PlanStep) → ℕ → Plan → Option Snapshot → Rollback
rollback_found reread v p none = not_found
rollback_found reread v p (some s) = restore v p (validate_all reread s.steps)

unfoldable pub rollback : (PlanStep → Option PlanStep) → ℕ → Plan → Rollback
rollback reread v p = rollback_found reread v p (find_version v p.history)
