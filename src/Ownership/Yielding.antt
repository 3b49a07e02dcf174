-- ===== src/Ownership/Yielding.antt =====
-- A task that has yielded: the middle part of a round of `executor` in src/executor.c.
use jam_tboard.Common.{
  ℕ, ◌+◌, ◌<◌, ◌≡◌, refl, sym, ap, ◌∙◌, true, false, none, some, ℤ, hit, count, total-update, arith,
  inl, inr, ◌==◌, Bool-cases, ==_iff, eq_ℤ, int32,
}
use jam_tboard.Task.{Ptr, Task, primary_exec}
use jam_tboard.Env.{Env}
use jam_tboard.Env.Laws.{CoroLaws}
use jam_tboard.Queue.{Queue}
use jam_tboard.Board.{Board, load_task, load_hist, signal}
use jam_tboard.Executor.Fetch.{Exec, Slot, primary, secondary}
use jam_tboard.Executor.{
  count_yield, put_back, reinsert_at, reinsert, issue_local, issue_remote, after_yield, on_yield,
}
use jam_tboard.Ownership.Defs.{
  Held, with_task, with_remote, Sound, IsRecorded, KnowsStored, Returns, returns, Returns-bind,
  Returns-mono, queued,
}
use jam_tboard.Ownership.Frame.{
  SameMemory, Sound-queues, coros-Sound, count-insert_tail, count-insert_head,
}
use jam_tboard.Ownership.Memory.{live-lt-next, Shifts-refl}
use jam_tboard.Ownership.Record.{SameTasks, store_hist-Returns}
use jam_tboard.Ownership.Tasks.{store_task-Returns, task_place-Returns, alloc_task-Returns}
use jam_tboard.Ownership.Remotes.{remote_task_place-Returns, alloc_remote-Returns}

-- The queue that a task was taken from is one of the board's.
abbrev pub IsSlot : ℕ → Slot → Type 0
IsSlot sqs primary = Unit {0}
IsSlot sqs (secondary i) = i < sqs

count-put_back :
    (type : ℤ) (a p : Ptr) (q : Queue Ptr) → count a (put_back type p q) ≡ count a q + hit p a
unfolding put_back
count-put_back type a p q = ground (arith, count-insert_tail a p q, count-insert_head a p q)

module _ {env : Env} where
  reinsert_at-SameMemory :
      (args : Exec) (slot : Slot) (type : ℤ) (p : Ptr) (t : Board env)
      → SameMemory t (reinsert_at args slot type p t)
  unfolding reinsert_at signal
  reinsert_at-SameMemory args primary type p t = ground arith
  reinsert_at-SameMemory args (secondary i) type p t = ground arith

  queued-reinsert_at :
      (args : Exec) (slot : Slot) (type : ℤ) (p : Ptr) (t : Board env) (a : Ptr)
      → IsSlot t.sqs slot
      → queued (reinsert_at args slot type p t) a ≡ queued t a + hit p a
  unfolding queued reinsert_at signal
  queued-reinsert_at args primary type p t a ok = elim (Bool-cases (eq_ℤ args.type primary_exec)) [
    | inl e ↦ rw e (omega (arith, count-put_back type a p t.pqueue))
    | inr e ↦ rw e (omega (arith, count-put_back type a p t.pqueue))
  ]
  queued-reinsert_at args (secondary i) type p t a ok =
      let grown = total-update (count a) t.sqs t.squeue i (put_back type p (t.squeue i)) ok in
      elim (Bool-cases (eq_ℤ args.type primary_exec)) [
        | inl e ↦ rw e (omega (arith, count-put_back type a p (t.squeue i), grown))
        | inr e ↦ rw e (omega (arith, count-put_back type a p (t.squeue i), grown))
      ]

  module _ {h : Held} {t : Board env} (p : Ptr) (x : Task) (s : Sound (with_task p h) t)
      (at : t.tasks p ≡ some x) where
    -- Back in the queue that it came from.
    pub reinsert-Returns :
        (args : Exec) (slot : Slot)
        → IsSlot t.sqs slot
        → Returns (λ _ u. Sound h u) (reinsert args slot p t)
    unfolding reinsert load_task
    reinsert-Returns args slot ok = rw at (
        returns (
          Sound-queues s (reinsert_at-SameMemory args slot x.type p t)
            (λ a. omega (arith, queued-reinsert_at args slot x.type p t a ok)) refl refl refl))

    issue_local-Returns :
        (laws : CoroLaws env) (c : Ptr)
        → h.new ≡ none
        → env.mco_get_bytes_stored c t.coros ≡ env.sizeof_task
        → ((y : Task) (k : env.Coros) → env.mco_pop_task c t.coros ≡ some (y, k) → IsRecorded t y)
        → Returns (λ _ u. Sound h u) (issue_local p c t)
    unfolding issue_local
    issue_local-Returns laws c en stored issued =
        let (y, k, popped) = laws.pop_task_some c t.coros stored in
        rw popped (
          Returns-bind
            (alloc_task-Returns {h' = with_task t.next h} (coros-Sound k s)
              (record y { parent = some p }) (λ a. omega arith) refl (Shifts-refl h.pending 0)
              (λ q e. ground (arith, live-lt-next s p x at)) (λ _. issued y k popped) (λ a ne e. e))
            λ sub u (s1, is, made).
              Returns-mono
                (task_place-Returns s1 {p = sub} {x = record y { parent = some p }}
                  (rw (made, is) (ground arith)) (λ a. ground (arith, is)) refl refl refl)
                (λ _ v r. r.0))

  -- The issuing task waits for a blocking remote task, and else is ready again.
  issue_remote-Returns :
      CoroLaws env
      → {h : Held} {t : Board env} (p : Ptr) (x : Task) → Sound (with_task p h) t
      → t.tasks p ≡ some x
      → (args : Exec) (slot : Slot) (c : Ptr) → IsSlot t.sqs slot
      → env.mco_get_bytes_stored c t.coros ≡ env.sizeof_remote_task
      → Returns (λ _ u. Sound h u) (issue_remote args slot p c t)
  unfolding issue_remote
  issue_remote-Returns laws {h} {t} p x s at args slot c ok stored =
      let (y, k, popped) = laws.pop_remote_some c t.coros stored in
      rw popped (elim (Bool-cases y.blocking) [
        | inl e ↦ rw e (
            Returns-bind
              (alloc_remote-Returns (coros-Sound k s) {h' = with_remote t.next h}
                (record y { calling_task = some p; blocking = true }) refl (λ a. omega arith)
                (λ a. refl) refl refl)
              λ r u (s1, is, made).
                Returns-bind
                  (remote_task_place-Returns {h' = h} s1 r true (λ a. ground (arith, is)) refl refl
                    refl refl)
                  λ _ v z. returns z.0)
        | inr e ↦ rw e (
            Returns-bind
              (alloc_remote-Returns (coros-Sound k s) {h' = with_remote t.next (with_task p h)}
                (record y { calling_task = some p; blocking = false }) refl (λ a. omega arith)
                (λ a. refl) refl refl)
              λ r u (s1, is, made).
                Returns-bind
                  (remote_task_place-Returns {h' = with_task p h} s1 r true
                    (λ a. ground (arith, is)) refl refl refl refl)
                  λ _ v (s2, same, size).
                    reinsert-Returns p x s2 (ap (λ f. f p) same ∙ ap (λ w. w.tasks p) made ∙ at)
                      args slot (rw (size, made) ok))
      ])

  -- The dispatch on the bytes that the coroutine has stored.
  dispatch-Returns :
      CoroLaws env
      → {h : Held} {t : Board env} (p : Ptr) (x : Task) → Sound (with_task p h) t
      → t.tasks p ≡ some x
      → h.new ≡ none
      → (args : Exec) (slot : Slot) (c : Ptr) → IsSlot t.sqs slot
      → KnowsStored t c
      → Returns (λ _ u. Sound h u) (after_yield args slot p c t)
  unfolding after_yield
  dispatch-Returns laws {t} p x s at en args slot c ok issued =
      let stored : ℕ = env.mco_get_bytes_stored c t.coros in
      elim (Bool-cases (stored == env.sizeof_task)) [
        | inl e ↦
            rw e (
              issue_local-Returns p x s at laws c en ((==_iff _ _).0 e) (issued ((==_iff _ _).0 e)))
        | inr e ↦ elim (Bool-cases (stored == env.sizeof_remote_task)) [
          | inl f ↦ rw (e, f) (issue_remote-Returns laws p x s at args slot c ok ((==_iff _ _).0 f))
          | inr f ↦ rw (e, f) (reinsert-Returns p x s at args slot ok)
        ]
      ]

  count_yield-Returns :
      {h : Held} {t : Board env} (x : Task)
      → Sound h t
      → IsRecorded t x
      → Returns (λ _ u. Sound h u × SameTasks t u) (count_yield x t)
  unfolding count_yield load_hist
  count_yield-Returns x s (q, d, is, there) =
      rw (is, there) (Returns-mono (store_hist-Returns s _ there) (λ _ u r. (r.0, r.1)))

  -- When a task has yielded, whichever of the three kinds of yield it is, the handler returns
  -- without a fault and the memory is sound without the task in hand. Conditions: the laws of
  -- the coroutine library; the memory is sound with the task in hand and no entry is missing;
  -- the slot is a queue of the board; and a task object in the task's storage has its history
  -- entry.
  pub on_yield-Returns :
      CoroLaws env
      → {h : Held} {t : Board env} (p : Ptr) (x : Task) → Sound (with_task p h) t
      → t.tasks p ≡ some x
      → h.new ≡ none
      → (args : Exec) (slot : Slot) → IsSlot t.sqs slot
      → KnowsStored t x.ctx
      → Returns (λ _ u. Sound h u) (on_yield args slot p t)
  unfolding on_yield load_task
  on_yield-Returns laws {t} p x s at en args slot ok issued =
      let recorded = s.recorded p x at (ground arith) in
      let y : Task = record x { yields = int32 (x.yields + 1) } in
      rw at (
        Returns-bind (store_task-Returns s y at refl (λ _. recorded)) λ _ u (s1, made).
          Returns-bind (count_yield-Returns x s1 (rw made recorded)) λ _ v (s2, same).
            dispatch-Returns laws p y s2
              (ap (λ f. f p) same.tasks ∙ ap (λ w. w.tasks p) made ∙ ground arith) en args slot
              x.ctx (rw (same.sqs, made) ok)
              (λ size z k e.
                let still = same.coros ∙ ap (λ w. w.coros) made in
                let (q, d, is, there) =
                  issued (ap (env.mco_get_bytes_stored x.ctx) (sym still) ∙ size) z k
                    (ap (env.mco_pop_task x.ctx) (sym still) ∙ e) in
                let (d', there') = same.kept q d (rw made there) in (q, d', is, there')))
