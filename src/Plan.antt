-- ===== src/Plan.antt =====
-- Plans and plan steps, packages/openburrow-core/src/openburrow/core/models/plan.py, with StepStatus of
-- core/models/enums.py: the changes of a step and the questions that a plan answers. Its cycle check is in Plan.Cycle,
-- its edits in Plan.Edits.
-- The fields that no method reads are left out, and so are the titles, the free text and `updated_at`.
pub mod Cycle
pub mod Walks
pub mod Search
pub mod Acyclic
pub mod Ready
pub mod Descendants
pub mod Cascade
pub mod Edits
use openburrow.Prelude.{
  ℕ, Bool, true, false, not, ◌&&◌, ◌||◌, Option, none, some, List, [], ◌∷◌, ◌++◌, Text, text_eq,
  length, is_empty, any, all, map, select, if◌then◌else◌,
}

pub data StepStatus : Type 0 where
  pending claimed in_progress blocked review done failed skipped : StepStatus

pub record PlanStep : Type 0 where
  pub id : Text
  pub plan_id : Text
  pub depends_on : List Text
  pub parent_step_id : Text
  pub order : ℕ
  pub status : StepStatus
  pub owner_lane : Text
  pub original_owner_lane : Text
  pub claimed_at : Option ℕ
  pub started_at : Option ℕ
  pub ended_at : Option ℕ

unfoldable pub is_pending : StepStatus → Bool
is_pending pending = true
is_pending _ = false

unfoldable pub is_done : PlanStep → Bool
is_done s = elim s.status [ done ↦ true | skipped ↦ true | _ ↦ false ]

unfoldable pub is_owned : PlanStep → Bool
is_owned s = not (is_empty s.owner_lane)

-- `not self.original_owner_lane`
abbrev or_text : Text → Text → Text
or_text [] t = t
or_text (x ∷ xs) t = x ∷ xs

unfoldable pub claim : ℕ → Text → PlanStep → PlanStep
claim now lane s = record s {
  original_owner_lane = or_text s.original_owner_lane lane;
  owner_lane = lane;
  claimed_at = some now;
  status = if is_pending s.status then claimed else s.status;
}

abbrev or_time : Option ℕ → ℕ → Option ℕ
or_time none now = some now
or_time (some t) now = some t

unfoldable pub start : ℕ → PlanStep → PlanStep
start now s = record s { status = in_progress; started_at = or_time s.started_at now }

unfoldable pub complete : ℕ → PlanStep → PlanStep
complete now s = record s { status = done; ended_at = some now }

unfoldable pub fail : ℕ → PlanStep → PlanStep
fail now s = record s { status = failed; ended_at = some now }

unfoldable pub handoff : ℕ → Text → PlanStep → PlanStep
handoff now lane s = record s {
  original_owner_lane = or_text s.original_owner_lane s.owner_lane;
  owner_lane = lane;
  claimed_at = some now;
}

pub record Snapshot : Type 0 where
  pub version : ℕ
  pub steps : List PlanStep

pub record Plan : Type 0 where
  pub id : Text
  pub version : ℕ
  pub steps : List PlanStep
  pub history : List Snapshot

abbrev pub mem : Text → List Text → Bool
mem t ts = any (text_eq t) ts

-- `step`
unfoldable pub find_step : Text → List PlanStep → Option PlanStep
find_step id [] = none
find_step id (s ∷ ss) = if text_eq s.id id then some s else find_step id ss

abbrev pub ids : List PlanStep → List Text
ids ss = map (λ (s : PlanStep). s.id) ss

unfoldable pub done_ids : Plan → List Text
done_ids p = ids (select is_done p.steps)

unfoldable pub ready_steps : Plan → List PlanStep
ready_steps p =
    select
      (λ (s : PlanStep).
        is_pending s.status
        && (is_empty s.owner_lane && all (λ d. mem d (done_ids p)) s.depends_on))
      p.steps

unfoldable pub may_wait : StepStatus → Bool
may_wait pending = true
may_wait blocked = true
may_wait _ = false

unfoldable pub blocked_steps : Plan → List PlanStep
blocked_steps p =
    select (λ (s : PlanStep). may_wait s.status && any (λ d. not (mem d (done_ids p))) s.depends_on)
      p.steps

unfoldable pub is_complete : Plan → Bool
is_complete p = not (is_empty p.steps) && all is_done p.steps
