-- ===== src/Ownership/Creation.antt =====
-- `task_add` and `task_create` of src/tboard.c keep the memory sound: a task that is not added is
-- freed, and one that is added is counted, recorded and in a ready queue.
use mathlib.Core.Path.{subst}
use jam_tboard.Common.{
  ℕ, suc, ◌<◌, ◌≡◌, refl, ap, ◌∙◌, Bool, true, false, Option, none, some, ℤ, pos, eq_ℤ, arith, inl,
  inr, Option-cases, if◌then◌else◌,
}
use jam_tboard.Task.{Ptr, Function, Task, Desc, task_initialized, task_id_nonblocking, max_tasks}
use jam_tboard.Env.{Env}
use jam_tboard.Env.Laws.{HashLaws}
use jam_tboard.Board.{Board, pure, load_task, alloc_task, free_task}
use jam_tboard.Counter.Bounds.{add_concurrent_cases}
use jam_tboard.Create.{
  new_task, enter_task, task_add, create_context, destroy_context, discard_task, start_task,
  task_create,
}
use jam_tboard.Ownership.Defs.{
  short, IsTallied, Held, with_task, Sound, Returns, returns, Returns-bind, Returns-mono, queued,
  awaited, mailed, roots,
}
use jam_tboard.Ownership.Frame.{coros-Sound}
use jam_tboard.Ownership.Record.{history_record_exec-Returns, count_execution-Returns}
use jam_tboard.Ownership.Tasks.{
  store_task-Returns, settle_task-Returns, free_task-Returns, task_place-Returns,
  alloc_task-Returns,
}

-- `p` is a new root task in hand, not counted and with no history entry.
abbrev pub entering : Ptr → Held → Held
entering p h = record (with_task p h) { pending = short 1; new = some p }

abbrev pub counted_in : Ptr → Held → Held
counted_in p h = record (with_task p h) { pending = short 0; new = some p }

module _ {env : Env} where
  -- What `task_add` leaves: the task belongs to the board, or is where it was.
  abbrev pub Added : Held → Ptr → Task → Bool → Board env → Type 0
  Added h p x true u = Sound h u
  Added h p x false u = Sound (entering p h) u × (u.tasks p ≡ some x)

  count-Sound :
      {h : Held} {t : Board env} (n : ℕ)
      → Sound h t
      → h.pending ≡ short 1
      → t.task_count ≡ pos n
      → n < max_tasks
      → Sound (record h { pending = short 0 }) (record t { task_count = pos (suc n) })
  unfolding queued awaited mailed roots
  count-Sound {t} n s ep at lt = record {
    once = s.once;
    mailed_once = s.mailed_once;
    fresh_task = s.fresh_task;
    fresh_remote = s.fresh_remote;
    older = s.older;
    called = s.called;
    counted =
        let (m, c, k, le) = subst (λ z. IsTallied z t.task_count (roots t)) ep s.counted in
        (suc n, refl, ground arith, omega arith);
    recorded = s.recorded;
    tabled = s.tabled;
    listed = s.listed;
    fresh_hist = s.fresh_hist;
  }

  enter_task-Returns :
      HashLaws env
      → {h : Held} {t : Board env} (p : Ptr) (x : Task) → h.pending ≡ short 0
      → h.new ≡ none
      → Sound (counted_in p h) t
      → t.tasks p ≡ some x
      → Returns (λ added u. Added h p x added u) (enter_task p t)
  unfolding enter_task load_task
  enter_task-Returns hash {h} p x ep en s at =
      let y : Task = record x {
        cpu_time = 0;
        yields = 0;
        status = task_initialized;
        hist = none;
      } in
      rw at (
        Returns-bind (store_task-Returns s y at refl (λ e. absurd (ground arith)))
          λ _ u1 (s1, made).
            let at1 : u1.tasks p ≡ some y = ap (λ w. w.tasks p) made ∙ ground arith in
            rw at1 (
              Returns-bind (history_record_exec-Returns hash s1 y) λ e u2 (s2, same, entry).
                let at2 : u2.tasks p ≡ some y = ap (λ f. f p) same.tasks ∙ at1 in
                Returns-bind
                  (settle_task-Returns s2 (record y { hist = some e }) at2 refl refl
                    (e, entry.0, refl, entry.1))
                  λ _ u3 (s3, made3).
                    Returns-bind (count_execution-Returns s3 (ap (λ w. w.hists e) made3 ∙ entry.1))
                      λ _ u4 (s4, same4).
                        Returns-bind
                          (task_place-Returns s4 {h' = h} {x = record y { hist = some e }}
                            (ap (λ f. f p) same4.tasks ∙ ap (λ w. w.tasks p) made3 ∙ ground arith)
                            (λ a. omega arith) refl ep en)
                          λ _ u5 r. returns r.0))

  pub task_add-Returns :
      HashLaws env
      → {h : Held} {t : Board env} (p : Ptr) (x : Task) → h.pending ≡ short 0
      → h.new ≡ none
      → Sound (entering p h) t
      → t.tasks p ≡ some x
      → Returns (λ added u. Added h p x added u) (task_add (some p) t)
  unfolding task_add
  task_add-Returns hash {h} {t} p x ep en s at =
      let (n, c, _, _) = s.counted in
      elim (add_concurrent_cases t n c) [
        | inl (lt, e) ↦
            let full : eq_ℤ (pos (suc n)) (pos 0) ≡ false = ground arith in
            rw (e, full) (enter_task-Returns hash {h = h} p x ep en (count-Sound n s refl c lt) at)
        | inr (ge, e) ↦ rw e (returns (s, at))
      ]

  -- A task that cannot be used is freed; nothing else has changed.
  pub discard-Returns :
      {h : Held} {t : Board env} (p : Ptr) (x : Task)
      → h.pending ≡ short 0
      → h.new ≡ none
      → x.parent ≡ none
      → Sound (entering p h) t
      → t.tasks p ≡ some x
      → Returns (λ _ u. Sound h u) (free_task p t)
  discard-Returns {h} p x ep en up s at =
      Returns-mono
        (free_task-Returns s {h' = h} at (λ a. rw up (omega arith)) refl (rw (ep, up) refl)
          (λ a ne e. ground arith))
        (λ _ u r. r.0)

  start_task-Returns :
      HashLaws env
      → {h : Held} {t : Board env} (p : Ptr) (x : Task) (c : Option Ptr) → h.pending ≡ short 0
      → h.new ≡ none
      → x.parent ≡ none
      → Sound (entering p h) t
      → t.tasks p ≡ some x
      → Returns (λ _ u. Sound h u) (start_task p c t)
  unfolding start_task load_task discard_task destroy_context
  start_task-Returns hash {h} p x none ep en up s at =
      Returns-bind (discard-Returns p x ep en up s at) (λ _ u r. returns r)
  start_task-Returns hash {h} p x (some c) ep en up s at =
      let y : Task = record x { ctx = c } in
      rw at (
        Returns-bind (store_task-Returns s y at refl (λ e. absurd (ground arith)))
          λ _ u1 (s1, made).
            Returns-bind
              (task_add-Returns hash p y ep en s1 (ap (λ w. w.tasks p) made ∙ ground arith))
              λ added u2 r. finish added u2 r)
    where
      y : Task
      y = record x { ctx = c }

      finish :
          (added : Bool) (u : Board env)
          → Added h p y added u
          → Returns (λ _ v. Sound h v) ((if added then pure true else discard_task c p) u)
      finish true u r = returns r
      finish false u (s2, at2) =
          Returns-bind (discard-Returns p y ep en up (coros-Sound _ s2) at2) (λ _ v z. returns z)

  -- A new object, with its context made or not, keeps the memory sound up to its own entry.
  pub create_context-Returns :
      {h : Held} {t : Board env} (desc : Desc)
      → Sound h t
      → Returns (λ _ u. Sound h u × (u.tasks ≡ t.tasks)) (create_context desc t)
  unfolding create_context
  create_context-Returns {t} desc s = elim (Option-cases (env.mco_create desc t.coros)) [
    | inl e ↦ rw (e, create_context) (returns (s, refl))
    | inr ((c, k), e) ↦ rw (e, create_context) (returns (coros-Sound k s, refl))
  ]

  pub alloc_root-Returns :
      {h : Held} {t : Board env} (x : Task)
      → h.pending ≡ short 0
      → h.new ≡ none
      → x.parent ≡ none
      → Sound h t
      → Returns (λ p u. Sound (entering p h) u × (u.tasks p ≡ some x)) (alloc_task x t)
  alloc_root-Returns {h} {t} x ep en up s =
      Returns-mono
        (alloc_task-Returns {h' = entering t.next h} s x (λ a. rw up (omega arith)) refl
          (rw (ep, up) refl) (λ q e. absurd (cc)) (λ e. absurd (ground arith))
          (λ a ne e. rw en refl))
        (λ p u (s1, is, made). rw is (s1, ap (λ w. w.tasks t.next) made ∙ ground arith))

  -- Creating a task keeps the memory sound, whether or not the context is made and the task is added.
  pub task_create-Returns :
      HashLaws env
      → {h : Held} {t : Board env} (fn : Function) (type : ℤ) (args : Option Ptr) (size : ℕ)
      → h.pending ≡ short 0
      → h.new ≡ none
      → Sound h t
      → Returns (λ _ u. Sound h u) (task_create fn type args size t)
  unfolding task_create
  task_create-Returns hash fn type args size ep en s =
      let x : Task = new_task env task_id_nonblocking type fn args size in
      Returns-bind (alloc_root-Returns x ep en refl s) λ p u (s1, at).
        Returns-bind (create_context-Returns x.desc s1)
          λ c v (s2, same). start_task-Returns hash p x c ep en refl s2 (ap (λ f. f p) same ∙ at)
