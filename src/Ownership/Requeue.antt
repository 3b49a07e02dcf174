-- ===== src/Ownership/Requeue.antt =====
-- A task that has yielded without a request to wait for is in the queue that it was taken from, in
-- `executor` of src/executor.c.
use mathlib.Core.Path.{subst}
use jam_tboard.Common.{
  ℕ, ◌+◌, ◌≡◌, ◌≢◌, ◌⊎◌, sym, refl, ap, ◌∙◌, false, none, some, ℤ, update, arith, inl, inr, ◌==◌,
  Bool-cases, Option-cases, eq_ℤ, int32,
}
use jam_tboard.Task.{Ptr, Task, primary_exec, priority_exec}
use jam_tboard.Env.{Env}
use jam_tboard.Env.Laws.{CoroLaws}
use jam_tboard.Queue.{Queue, queue_insert_head, queue_insert_tail}
use jam_tboard.Board.{Board, load_task, load_hist, store_hist, signal}
use jam_tboard.Executor.Fetch.{Exec, Slot, primary, secondary}
use jam_tboard.Executor.{count_yield, put_back, reinsert_at, reinsert, after_yield, on_yield}
use jam_tboard.Ownership.Defs.{Held, with_task, Sound, KnowsStored, Returns}
use jam_tboard.Ownership.Only.{Only, faults, only, Only-bind, Returns-Only}
use jam_tboard.Ownership.Yielding.{IsSlot, on_yield-Returns}
use jam_tboard.Coroutines.Likes.{Only-mono, expect-Only, load_task-Only, store_task-Only}

-- At the head for a priority task, else at the tail.
abbrev pub IsPutBack : ℤ → Ptr → (before after : Queue Ptr) → Type 0
IsPutBack type p before after =
    ((type ≡ priority_exec) × (after ≡ queue_insert_head p before))
    ⊎ ((type ≢ priority_exec) × (after ≡ queue_insert_tail p before))

apart : (a b : ℕ) → a ≢ b → (a == b) ≡ false
apart a b ne = ground (arith, ne)

put_back-IsPutBack : (type : ℤ) (p : Ptr) (q : Queue Ptr) → IsPutBack type p q (put_back type p q)
unfolding put_back
put_back-IsPutBack type p q = elim (Bool-cases (eq_ℤ type priority_exec)) [
  | inl e ↦ rw e (inl (ground arith, refl))
  | inr e ↦ rw e (inr (ground arith, refl))
]

module _ {env : Env} where
  -- The task is in this queue again, and the others are as they were.
  abbrev pub IsBack : Slot → ℤ → Ptr → Board env → Board env → Type 0
  IsBack primary type p t u = IsPutBack type p t.pqueue u.pqueue × (u.squeue ≡ t.squeue)
  IsBack (secondary i) type p t u =
      (u.pqueue ≡ t.pqueue)
      × ((q : Queue Ptr) × IsPutBack type p (t.squeue i) q × (u.squeue ≡ update t.squeue i q))

  reinsert_at-IsBack :
      (args : Exec) (slot : Slot) (type : ℤ) (p : Ptr) (t : Board env)
      → IsBack slot type p t (reinsert_at args slot type p t)
  unfolding reinsert_at signal
  reinsert_at-IsBack args primary type p t = elim (Bool-cases (eq_ℤ args.type primary_exec)) [
    | inl e ↦ rw e (put_back-IsPutBack type p t.pqueue, refl)
    | inr e ↦ rw e (put_back-IsPutBack type p t.pqueue, refl)
  ]
  reinsert_at-IsBack args (secondary i) type p t =
      let q = put_back type p (t.squeue i) in
      elim (Bool-cases (eq_ℤ args.type primary_exec)) [
        | inl e ↦ rw e (refl, (q, put_back-IsPutBack type p (t.squeue i), refl))
        | inr e ↦ rw e (refl, (q, put_back-IsPutBack type p (t.squeue i), refl))
      ]

  -- The same queues, coroutines and tasks.
  record SameQueues (t u : Board env) : Type 0 where
    pqueue : u.pqueue ≡ t.pqueue
    squeue : u.squeue ≡ t.squeue
    coros : u.coros ≡ t.coros
    tasks : u.tasks ≡ t.tasks

  store_hist-SameQueues :
      (h : Ptr) (e : _) (t : Board env) → Only (λ _ u. SameQueues t u) (store_hist h e t)
  unfolding store_hist
  store_hist-SameQueues h e t = elim (Option-cases (t.hists h)) [
    | inl at ↦ rw (at, store_hist) faults
    | inr (d, at) ↦
        rw (at, store_hist)
          (only (record { pqueue = refl; squeue = refl; coros = refl; tasks = refl }))
  ]

  count_yield-SameQueues :
      (x : Task) (t : Board env) → Only (λ _ u. SameQueues t u) (count_yield x t)
  unfolding count_yield load_hist
  count_yield-SameQueues x t = Only-bind (expect-Only x.hist t) λ h u (_, is).
      rw is (
        Only-bind (expect-Only (t.hists h) t)
          λ e v (_, same). rw same (store_hist-SameQueues h _ t))

  reinsert-IsBack :
      (args : Exec) (slot : Slot) (p : Ptr) (x : Task) (t : Board env)
      → t.tasks p ≡ some x
      → Only (λ _ u. IsBack slot x.type p t u) (reinsert args slot p t)
  unfolding reinsert load_task
  reinsert-IsBack args slot p x t at = rw at (only (reinsert_at-IsBack args slot x.type p t))

  -- Nothing that the executor takes for a request is stored.
  abbrev pub AsksNothing : Board env → Ptr → Type 0
  AsksNothing t c =
      (env.mco_get_bytes_stored c t.coros ≢ env.sizeof_task)
      × (env.mco_get_bytes_stored c t.coros ≢ env.sizeof_remote_task)

  IsBack-same :
      (slot : Slot) (type : ℤ) (p : Ptr) (t u v : Board env)
      → u.pqueue ≡ t.pqueue
      → u.squeue ≡ t.squeue
      → IsBack slot type p u v
      → IsBack slot type p t v
  IsBack-same primary type p t u v e f (put, rest) = (rw (← e) put, rest ∙ f)
  IsBack-same (secondary i) type p t u v e f (rest, (q, put, at)) =
      (rest ∙ e, (q, rw (← f) put, rw (← f) at))

  on_yield-IsBack :
      (t : Board env) (p : Ptr) (x : Task)
      → t.tasks p ≡ some x
      → (args : Exec) (slot : Slot) → AsksNothing t x.ctx
      → Only (λ _ u. IsBack slot x.type p t u) (on_yield args slot p t)
  unfolding on_yield after_yield
  on_yield-IsBack t p x at args slot (no_task, no_remote) =
      Only-bind (load_task-Only p t) λ y u (there, is). rw is (
        let same : y ≡ x = cc in
        Only-bind (store_task-Only p (record y { yields = int32 (y.yields + 1) }) t) λ _ v (_, put).
          Only-bind (count_yield-SameQueues y v) λ _ w m.
            let coros : w.coros ≡ t.coros = m.coros ∙ ap (λ b. b.coros) put in
            let stored : env.mco_get_bytes_stored y.ctx w.coros
                ≡ env.mco_get_bytes_stored x.ctx t.coros =
              ap (λ b. env.mco_get_bytes_stored b.ctx w.coros) same
              ∙ ap (env.mco_get_bytes_stored x.ctx) coros in
            let small : (env.mco_get_bytes_stored y.ctx w.coros == env.sizeof_task) ≡ false =
              apart _ _ λ e. no_task (sym stored ∙ e) in
            let other : (env.mco_get_bytes_stored y.ctx w.coros == env.sizeof_remote_task) ≡ false =
              apart _ _ λ e. no_remote (sym stored ∙ e) in
            rw (small, other)
              (Only-mono
                (reinsert-IsBack args slot p (record y { yields = int32 (y.yields + 1) }) w
                  (ap (λ f. f p) (m.tasks ∙ ap (λ b. b.tasks) put) ∙ ground arith))
                λ _ z back.
                  subst (λ b. IsBack slot b.type p t z) same
                    (IsBack-same slot y.type p t w z (m.pqueue ∙ ap (λ b. b.pqueue) put)
                      (m.squeue ∙ ap (λ b. b.squeue) put) back)))

  -- When a task has yielded with nothing in its storage that asks for a task or a remote
  -- task, the handler returns without a fault, the memory is sound without the task in hand,
  -- and the task is in the queue that it was taken from again, at the head if it is a
  -- priority task and else at the tail, with the other queues as they were. Conditions: the
  -- laws of the coroutine library; the memory is sound with the task in hand and no entry is
  -- missing; and the slot is a queue of the board.
  pub on_yield-Requeues :
      CoroLaws env
      → {h : Held} {t : Board env} (p : Ptr) (x : Task) → Sound (with_task p h) t
      → t.tasks p ≡ some x
      → h.new ≡ none
      → (args : Exec) (slot : Slot) → IsSlot t.sqs slot
      → KnowsStored t x.ctx
      → AsksNothing t x.ctx
      → Returns (λ _ u. Sound h u × IsBack slot x.type p t u) (on_yield args slot p t)
  on_yield-Requeues laws {t = t} p x s at en args slot ok issued plain =
      Returns-Only (on_yield-Returns laws p x s at en args slot ok issued)
        (on_yield-IsBack t p x at args slot plain)
