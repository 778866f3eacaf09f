-- ===== src/Lifecycle/Deadlines.antt =====
-- What a sweep of the deadlines does to a session's tasks.
use openburrow.Prelude.{
  ℕ, sort_by-Memᴰ, Memᴰ-sort_by, ◌≡◌, refl, sym, ap, ◌∙◌, subst, inl, inr, ◌⊎◌, Bool, true, false,
  not, ◌&&◌, some, List, [], ◌∷◌, ◌++◌, map, Memᴰ, Memᴰ-get, Memᴰ-select, select, select-Memᴰ, Text,
  codes, text_eq, text_eq_refl, get, save, get-save, if◌then◌else◌, Bool-cases, arith, or_else,
  is_some, ◌-◌, ◌<◌,
}
use openburrow.Lifecycle.{
  working, input_required, unblock, transition, moved, can_transition, task_transitions, state_eq,
  failed, value, is_terminal, Task, done,
}
use openburrow.Lifecycle.Absorbing.{fail-open}
use openburrow.Lifecycle.Projection.{tasks-emit}
use openburrow.Lifecycle.Manager.{
  Services, World, returned, fail_task, persisting, persist, save_task, emit,
}
use openburrow.Lifecycle.Timeouts.{
  by_submission, no_later, open_tasks, has_timed_out, Sweep, swept, aborted, added, after_fail,
  sweep_tasks, enforce_timeouts, limit_or, deadline_for, anchor, past,
}

module _ (sv : Services) (now : ℕ) where
  -- Failing an op task returns, and saves a failed row.
  fail_row :
      (error : Text) (t : Task) (w : World)
      → is_terminal t.state ≡ false
      → (u : Task) × (v : World) × (fail_task sv now error t w ≡ (returned u, v))
        × (u.state ≡ failed)
        × (v.tasks ≡ save w.tasks t.id u)
  unfolding fail_task persisting persist save_task
  fail_row error t w op =
      let (u, e, same, state, ended, why) = fail-open now error t op in
      let u' = record u { updated_at = now } in
      let saved = record w { tasks = save w.tasks u.id u' } in
      let v = emit sv (codes "task.failed") error [] u' saved in
      (
        u',
        record v { notices = v.notices ++ (u.id, u.state) ∷ [] },
        rw e refl,
        state,
        tasks-emit sv (codes "task.failed") error [] u' saved ∙ ap (λ k. save w.tasks k u') same,
      )

  -- All tasks of the list are open.
  abbrev AllOpen : List Task → Type 0
  AllOpen ts = (t : Task) → Memᴰ t ts → is_terminal t.state ≡ false

  abbrev IsFailed : Text → World → Type 0
  IsFailed i w = (u : Task) × (get w.tasks i ≡ some u) × (u.state ≡ failed)

  -- One step of a sweep: a task is passed over, or failed.
  data Step (t : Task) (ts : List Task) (w : World) : Type 0 where
    passed :
        has_timed_out sv now t ≡ false
        → sweep_tasks sv now (t ∷ ts) w ≡ sweep_tasks sv now ts w
        → Step t ts w
    struck :
        (u : Task) (v : World)
        → has_timed_out sv now t ≡ true
        → u.state ≡ failed
        → v.tasks ≡ save w.tasks t.id u
        → sweep_tasks sv now (t ∷ ts) w ≡ added u (sweep_tasks sv now ts v)
        → Step t ts w

  step : (t : Task) (ts : List Task) (w : World) → is_terminal t.state ≡ false → Step t ts w
  unfolding sweep_tasks after_fail
  step t ts w op =
      let (u, v, e, state, rows) =
        fail_row (codes "timed out in state '" ++ value t.state ++ codes "'") t w op in
      elim (Bool-cases (has_timed_out sv now t)) [
        | inl h ↦ struck u v h state rows (rw (h, e) refl)
        | inr h ↦ passed h (rw h refl)
      ]

  world-added : (u : Task) (r : Sweep × World) → (added u r).1 ≡ r.1
  unfolding added
  world-added u (swept ts, w) = refl
  world-added u (aborted, w) = refl

  -- No sweep of op tasks is ended by an error.
  sweep-ends :
      (ts : List Task) (w : World)
      → AllOpen ts
      → (us : List Task) × ((sweep_tasks sv now ts w).0 ≡ swept us)
  unfolding sweep_tasks added
  sweep-ends [] w op = ([], refl)
  sweep-ends (t ∷ ts) w op =
      let later = λ (v : World). sweep-ends ts v (λ x m. op x (Memᴰ.tail m)) in
      elim (step t ts w (op t (Memᴰ.head refl))) [
        | passed h e ↦ rw e (later w)
        | struck u v h state rows e ↦
            let (us, f) = later v in
            (
              u ∷ us,
              ap (λ (r : Sweep × World). r.0) e ∙ swept-added u (sweep_tasks sv now ts v) us f,
            )
      ]
    where
      swept-added :
          (u : Task) (r : Sweep × World) (us : List Task)
          → r.0 ≡ swept us
          → (added u r).0 ≡ swept (u ∷ us)
      swept-added u (swept ts, w) us f =
          ap (λ s. elim s [ swept xs ↦ swept (u ∷ xs) | aborted ↦ aborted ]) f
      swept-added u (aborted, w) us f = absurd (cc f)

  failed-save :
      (i j : Text) (u : Task) (w v : World)
      → u.state ≡ failed
      → v.tasks ≡ save w.tasks j u
      → IsFailed i w ⊎ (text_eq j i ≡ true)
      → IsFailed i v
  failed-save i j u w v state rows h =
      let e = ap (λ t. get t i) rows ∙ get-save w.tasks j i u in
      elim (Bool-cases (text_eq j i)) [
        | inl x ↦ (u, e ∙ ap (λ y. if y then some u else get w.tasks i) x, state)
        | inr x ↦ elim h [
          | inl (z, f, s) ↦ (z, e ∙ ap (λ y. if y then some u else get w.tasks i) x ∙ f, s)
          | inr y ↦ absurd (cc (x, y))
        ]
      ]

  -- A row that is failed, or whose task is in the list and past its deadline, is failed in the end.
  sweep-fails :
      (ts : List Task) (w : World) (i : Text)
      → AllOpen ts
      → IsFailed i w ⊎ ((t : Task) × Memᴰ t ts × (t.id ≡ i) × (has_timed_out sv now t ≡ true))
      → IsFailed i (sweep_tasks sv now ts w).1
  sweep-fails [] w i op (inl f) = unfold sweep_tasks in f
  sweep-fails [] w i op (inr (t, m, rest, late)) = elim m [ ]
  sweep-fails (t ∷ ts) w i op h =
      let Task_late = (x : Task) × Memᴰ x ts × (x.id ≡ i) × (has_timed_out sv now x ≡ true) in
      let later = λ (v : World) (k : IsFailed i v ⊎ Task_late).
        sweep-fails ts v i (λ x m. op x (Memᴰ.tail m)) k in
      elim (step t ts w (op t (Memᴰ.head refl))) [
        | passed q e ↦
            subst (λ (r : Sweep × World). IsFailed i r.1) (sym e)
              (later w (elim h [
                | inl f ↦ inl f
                | inr (x, m, ids, late) ↦ elim m [
                  | Memᴰ.head y ↦ absurd (cc (q, late, ap (has_timed_out sv now) y))
                  | Memᴰ.tail n ↦ inr (x, n, ids, late)
                ]
              ]))
        | struck u v q state rows e ↦
            subst (IsFailed i)
              (sym (ap (λ (r : Sweep × World). r.1) e ∙ world-added u (sweep_tasks sv now ts v)))
              (later v (elim h [
                | inl f ↦ inl (failed-save i t.id u w v state rows (inl f))
                | inr (x, m, ids, late) ↦ elim m [
                  | Memᴰ.head y ↦ inl (
                      failed-save i t.id u w v state rows (
                        inr (
                          ap (text_eq t.id) (sym ids ∙ ap (λ (z : Task). z.id) y)
                          ∙ text_eq_refl t.id)))
                  | Memᴰ.tail n ↦ inr (x, n, ids, late)
                ]
              ]))
      ]

  -- A sweep of a session always ends without an error, and every open task of the session that is past its deadline,
  -- and that stands under its identifier, is then failed.
  pub enforce_timeouts-fails :
      (session : Text) (w : World)
      → ((us : List Task) × ((enforce_timeouts sv now session w).0 ≡ swept us))
        × ((i : Text) (t : Task)
            → get w.tasks i ≡ some t
            → t.id ≡ i
            → t.session_id ≡ session
            → is_terminal t.state ≡ false
            → has_timed_out sv now t ≡ true
            → (u : Task) × (get (enforce_timeouts sv now session w).1.tasks i ≡ some u)
              × (u.state ≡ failed))
  unfolding enforce_timeouts open_tasks by_submission
  enforce_timeouts-fails session w =
      let by_time = λ (x : Task) (y : Task). no_later x.submitted_at y.submitted_at in
      let wanted = λ (x : Task). text_eq x.session_id session && not (is_terminal x.state) in
      let rows = map (λ (row : Text × Task). row.1) w.tasks in
      let all_open : AllOpen (open_tasks session w.tasks) = λ x m. not-true (
        and-right (text_eq x.session_id session) (not (is_terminal x.state))
          (Memᴰ-select wanted x rows (Memᴰ-sort_by by_time x (select wanted rows) m)).1) in
      (
        sweep-ends (open_tasks session w.tasks) w all_open,
        λ i t held ids home op late.
            let here : Memᴰ t (open_tasks session w.tasks) =
              sort_by-Memᴰ by_time t (select wanted rows) (
                select-Memᴰ wanted t rows (Memᴰ-get w.tasks i t held)
                  (rw (home, text_eq_refl session, op) refl)) in
            sweep-fails (open_tasks session w.tasks) w i all_open (inr (t, here, ids, late)),
      )
    where
      not-true : {b : Bool} → not b ≡ true → b ≡ false
      not-true h = ground arith

      and-right : (a b : Bool) → (a && b) ≡ true → b ≡ true
      and-right a b h = ground arith

  blocked-unblock :
      (note : Text) (t : Task)
      → t.state ≡ input_required
      → (u : Task) × (unblock now note t ≡ done u)
        × (u.state ≡ working)
        × (u.started_at ≡ (if not (is_some t.started_at) then some now else t.started_at))
        × (u.timeout_s ≡ t.timeout_s)
  unfolding unblock transition moved can_transition task_transitions state_eq
  blocked-unblock note t e = (
    moved now working (or_else note (codes "unblocked")) (record t { pending_message_id = [] }),
    rw e refl,
    refl,
    refl,
    refl,
  )

  late-working :
      (u : Task) (s : ℕ)
      → u.state ≡ working
      → u.started_at ≡ some s
      → limit_or u.timeout_s sv.task_timeout < now - s
      → has_timed_out sv now u ≡ true
  unfolding has_timed_out deadline_for anchor past
  late-working u s e began old = rw (e, began) (ground arith)

  -- A task that waited for input, and started longer ago than a working task may take, is past its deadline at the
  -- moment at which it is unblocked.
  pub unblock-late :
      (note : Text) (t : Task) (s : ℕ)
      → t.state ≡ input_required
      → t.started_at ≡ some s
      → limit_or t.timeout_s sv.task_timeout < now - s
      → (u : Task) × (unblock now note t ≡ done u)
        × (u.state ≡ working)
        × (has_timed_out sv now u ≡ true)
  unblock-late note t s e began old =
      let (u, same, state, start, limit) = blocked-unblock note t e in
      let from : u.started_at ≡ some s =
        start ∙ ap (λ o. if not (is_some o) then some now else o) began in
      (
        u,
        same,
        state,
        late-working u s state from
            (subst (λ l. limit_or l sv.task_timeout < now - s) (sym limit) old),
      )
