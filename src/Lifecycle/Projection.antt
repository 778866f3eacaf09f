-- ===== src/Lifecycle/Projection.antt =====
-- The task table against the bus log: which operations of the manager keep the row of a task and
-- the last event about it in step, and which do not.
use openburrow.Prelude.{
  ℕ, ◌≡◌, refl, sym, ◌∙◌, ap, inl, inr, true, false, Option, none, some, some-injective, List, [],
  ◌∷◌, ◌++◌, arith, Text, codes, text_eq, text_eq_refl, or_else, if◌then◌else◌, Bool-cases, get,
  save, get-save,
}
use openburrow.BusLog.{BusEvent, is_duplicate, append}
use openburrow.Lifecycle.{
  TaskState, working, input_required, canceled, rejected, value, Task, Attempt, done, illegal,
  task_after, transition, moved, can_transition, state_eq, block_on_input, block_on_auth, unblock,
  complete, fail,
}
use openburrow.Lifecycle.Manager.{
  Services, Message, World, Outcome, returned, content_hash, task_event, emit, save_task, persist,
  persisting, start, announce_input, request_input, request_auth, resume, complete_task, fail_task,
  cancel, reject,
}

-- What the log says last of a task.
unfoldable pub last_state : List BusEvent → Text → Option Text
last_state [] k = none
last_state (e ∷ es) k = elim (last_state es k) [
  | some s ↦ some s
  | none ↦ if text_eq e.task_id k then some e.task_state else none
]

last_state-append :
    (log : List BusEvent) (e : BusEvent) (k : Text)
    → last_state (log ++ e ∷ []) k
      ≡ (if text_eq e.task_id k then some e.task_state else last_state log k)
unfolding last_state
last_state-append [] e k = refl
last_state-append (x ∷ log) e k = ground (arith, last_state-append log e k)

-- For each row, the last event about the task carries the row's state.
pub record IsProjected (w : World) : Type 0 where
  pub agrees :
      (k : Text) (t : Task) → get w.tasks k ≡ some t → last_state w.log k ≡ some (value t.state)

-- The methods of the manager that change a task's state, but for `request_input`.
pub data Order : Type 0 where
  begin : Text → Order
  hold : Text → Text → Order
  go_on : Text → Order
  finish : Text → List Text → Order
  give_up : Text → Order
  call_off : Text → Order
  turn_down : Text → Order

unfoldable pub manage : Services → ℕ → Order → Task → World → Outcome × World
manage sv now (begin note) t = start sv now note t
manage sv now (hold reason approval) t = request_auth sv now reason approval t
manage sv now (go_on note) t = resume sv now note t
manage sv now (finish summary artifacts) t = complete_task sv now summary artifacts t
manage sv now (give_up error) t = fail_task sv now error t
manage sv now (call_off reason) t = cancel sv now reason t
manage sv now (turn_down reason) t = reject sv now reason t

-- The change of the task object that each of them makes first.
unfoldable pub ordered : ℕ → Order → Task → Attempt
ordered now (begin note) t = transition now working note t
ordered now (hold reason approval) t = block_on_auth now reason approval t
ordered now (go_on note) t = unblock now note t
ordered now (finish summary artifacts) t = complete now summary artifacts t
ordered now (give_up error) t = fail now error t
ordered now (call_off reason) t = transition now canceled reason t
ordered now (turn_down reason) t = transition now rejected reason t

module _ (sv : Services) where
  -- The event about the task as it is now is no duplicate.
  abbrev pub IsNews : ℕ → Task → World → Type 0
  IsNews now t w =
      is_duplicate w.log t.session_id (content_hash sv (record t { updated_at = now })) ≡ false

  last_state-emit :
      (event_type summary correlation : Text) (t : Task) (w : World) (k : Text)
      → is_duplicate w.log t.session_id (content_hash sv t) ≡ false
      → last_state (emit sv event_type summary correlation t w).log k
        ≡ (if text_eq t.id k then some (value t.state) else last_state w.log k)
  unfolding emit append task_event
  last_state-emit event_type summary correlation t w k h =
      rw (h, emit) (last_state-append w.log _ k)

  pub tasks-emit :
      (event_type summary correlation : Text) (t : Task) (w : World)
      → (emit sv event_type summary correlation t w).tasks ≡ w.tasks
  unfolding emit
  tasks-emit event_type summary correlation t w = ground arith

  module _ (now : ℕ) (event_type summary correlation : Text) where
    persist-IsProjected :
        (t : Task) (w : World)
        → IsNews now t w
        → IsProjected w
        → IsProjected (persist sv now event_type summary correlation t w).1
    unfolding persist save_task
    persist-IsProjected t w news p =
        let t' = record t { updated_at = now } in
        let saved = record w { tasks = save w.tasks t.id t' } in
        record {
          agrees = λ k u g.
              let g' : get (save w.tasks t.id t') k ≡ some u =
                ap (λ rows. get rows k) (sym (tasks-emit event_type summary correlation t' saved))
                ∙ g in
              last_state-emit event_type summary correlation t' saved k news
              ∙ elim (Bool-cases (text_eq t.id k)) [
                | inl e ↦ rw e (
                    ap (λ (x : Task). some (value x.state))
                      (some-injective _ _ (rw (get-save, e) at g')))
                | inr e ↦ rw e (p.agrees k u (rw (get-save, e) at g'))
              ];
        }

    persisting-IsProjected :
        (a : Attempt) (w : World)
        → IsNews now (task_after a) w
        → IsProjected w
        → IsProjected (persisting sv now event_type summary correlation a w).1
    unfolding persisting
    persisting-IsProjected (done t) w news p = persist-IsProjected t w news p
    persisting-IsProjected (illegal t) w news p = p

  -- Where the event is no duplicate, each of these methods, raising or not, leaves every row with the
  -- state that the last event about its task carries.
  pub manage-IsProjected :
      (now : ℕ) (o : Order) (t : Task) (w : World)
      → IsNews now (task_after (ordered now o t)) w
      → IsProjected w
      → IsProjected (manage sv now o t w).1
  unfolding manage ordered start request_auth resume complete_task fail_task cancel reject
  manage-IsProjected now (begin note) t w n p = persisting-IsProjected now _ _ _ _ w n p
  manage-IsProjected now (hold reason approval) t w n p = persisting-IsProjected now _ _ _ _ w n p
  manage-IsProjected now (go_on note) t w n p = persisting-IsProjected now _ _ _ _ w n p
  manage-IsProjected now (finish summary artifacts) t w n p =
      persisting-IsProjected now _ _ _ _ w n p
  manage-IsProjected now (give_up error) t w n p = persisting-IsProjected now _ _ _ _ w n p
  manage-IsProjected now (call_off reason) t w n p = persisting-IsProjected now _ _ _ _ w n p
  manage-IsProjected now (turn_down reason) t w n p = persisting-IsProjected now _ _ _ _ w n p

  -- Where the event is a duplicate, `_persist` still saves the row, the log stays as it was, and the caller sees success.
  persist-duplicate :
      (now : ℕ) (event_type summary correlation : Text) (t : Task) (w : World)
      → is_duplicate w.log t.session_id (content_hash sv (record t { updated_at = now })) ≡ true
      → (get (persist sv now event_type summary correlation t w).1.tasks t.id
          ≡ some (record t { updated_at = now }))
        × ((persist sv now event_type summary correlation t w).1.log ≡ w.log)
        × ((persist sv now event_type summary correlation t w).0
            ≡ returned (record t { updated_at = now }))
  unfolding persist save_task emit append task_event
  persist-duplicate now event_type summary correlation t w h =
      (rw (h, emit) (rw (get-save, text_eq_refl t.id)), rw (h, emit), refl)

  block_on_input-moved :
      (now : ℕ) (message_id reason : Text) (t : Task)
      → t.state ≡ working
      → block_on_input now message_id reason t
        ≡ done (
            moved now input_required
              (or_else reason (codes "waiting on a reply"))
              (record t { pending_message_id = message_id }))
  unfolding block_on_input transition
  block_on_input-moved now message_id reason t h = rw (not_yet t.state h, may t.state h)
    where
      not_yet : (s : TaskState) → s ≡ working → state_eq input_required s ≡ false
      not_yet s e = rw e (unfold state_eq in refl)

      may : (s : TaskState) → s ≡ working → can_transition s input_required ≡ true
      may s e = rw e (unfold can_transition in refl)

  -- `request_input` on a task at work whose row is saved as it stands: the task object is blocked and the last
  -- event says `input_required`, but the row still says `working`.
  pub request_input-unsaved :
      (now : ℕ) (message : Message) (reason : Text) (t : Task) (w : World)
      → t.state ≡ working
      → get w.tasks t.id ≡ some t
      → IsNews now (record t { state = input_required }) w
      → (u : Task) × ((request_input sv now message reason t w).0 ≡ returned u)
        × (u.state ≡ input_required)
        × (get (request_input sv now message reason t w).1.tasks t.id ≡ some t)
        × (last_state (request_input sv now message reason t w).1.log t.id
            ≡ some (value input_required))
  unfolding request_input announce_input
  request_input-unsaved now message reason t w h g news =
      let text = or_else reason message.subject in
      let u =
        moved now input_required (or_else text (codes "waiting on a reply"))
          (record t { pending_message_id = message.id }) in
      let w' = record w { messages = save w.messages message.id message } in
      let e = block_on_input-moved now message.id text t h in
      (
        u,
        rw e,
        unfold moved in refl,
        rw e (rw tasks-emit g),
        rw e (
            unfold moved content_hash in
            last_state-emit (codes "task.input_required") text message.id u w' t.id news
            ∙ rw (text_eq_refl t.id)),
      )
