-- ===== src/Ownership/Whole.antt =====
-- A whole round of `executor` in src/executor.c.
use jam_tboard.Common.{ℕ, ◌≡◌, refl, ap, ◌∙◌, Option, none, some, arith}
use jam_tboard.Task.{Ptr, Task, task_running}
use jam_tboard.Env.{Env}
use jam_tboard.Env.Laws.{HashLaws, CoroLaws}
use jam_tboard.Board.{Board, M, load_task, and_then, ◌>>◌}
use jam_tboard.Executor.Fetch.{Exec, Slot, fetch}
use jam_tboard.Sequencer.{task_sequencer}
use jam_tboard.Executor.{begin, finish, executor_round}
use jam_tboard.Ownership.Defs.{
  short, Held, with_task, Sound, Returns, returns, Returns-bind, Returns-mono,
}
use jam_tboard.Ownership.Only.{Returns-Only}
use jam_tboard.Ownership.Size.Operations.{finish-Keeps}
use jam_tboard.Ownership.Tasks.{store_task-Returns}
use jam_tboard.Ownership.Yielding.{IsSlot}
use jam_tboard.Ownership.Fetching.{IsExec, Fetched, fetch-Fetched}
use jam_tboard.Ownership.Responding.{CallersWait, task_sequencer-Returns}
use jam_tboard.Ownership.Rounds.{HasRun, finish-Returns}

module _ {env : Env} where
  -- What is asked of the run of a task that begins on this board: it comes back with the task still in
  -- the executor's hand.
  abbrev pub Resumes : Held → (Ptr → M env (Unit {0})) → Ptr → Board env → Type 0
  Resumes h resume p t =
      (u : Board env)
      → begin p t ≡ some (tt, u)
      → Returns
          (λ _ v.
            Sound (with_task p h) v
            × (v.sqs ≡ u.sqs)
            × ((y : Task) × (v.tasks p ≡ some y) × HasRun v y))
          (resume p u)

  Returns-known :
      {A : Type 0} {P : A → Board env → Type 0} {r : Option (A × Board env)}
      → Returns P r
      → Returns (λ a u. P a u × (r ≡ some (a, u))) r
  Returns-known (returns p) = returns (p, refl)

  pub begin-Returns :
      (h : Held) {t : Board env} (p : Ptr) (x : Task)
      → h.new ≡ none
      → Sound (with_task p h) t
      → t.tasks p ≡ some x
      → Returns
          (λ _ u.
            Sound (with_task p h) u
            × (u.sqs ≡ t.sqs)
            × (u.tasks p ≡ some (record x { status = task_running })))
          (begin p t)
  unfolding begin load_task
  begin-Returns h p x en s at = rw at (
      Returns-mono
        (store_task-Returns s (record x { status = task_running }) at refl
          (λ _. s.recorded p x at (ground arith)))
        λ _ u (s1, made). (s1, ap (λ w. w.sqs) made, ap (λ w. w.tasks p) made ∙ ground arith))

  module _ (hash : HashLaws env) (coro : CoroLaws env) {h : Held} (debts : (a : Ptr) → h.debt a ≡ 0)
      (settled : h.pending ≡ short 0) (en : h.new ≡ none) (resume : Ptr → M env (Unit {0}))
      (args : Exec) (start end : ℕ) where
    -- What an executor does with a task that it has fetched.
    pub run-Returns :
        {t : Board env} (p : Ptr) (x : Task) (slot : Slot)
        → Sound (with_task p h) t
        → IsSlot t.sqs slot
        → t.tasks p ≡ some x
        → Resumes h resume p t
        → Returns
            (λ _ u. Sound h u × (u.sqs ≡ t.sqs))
            ((begin p >> (resume p >> finish args slot p start end)) t)
    run-Returns p x slot s ok at runs =
        Returns-bind (Returns-known (begin-Returns h p x en s at)) λ _ u ((s1, same1, at1), is).
          Returns-bind (runs u is) λ _ v (s2, same2, (y, at2, run)).
            Returns-mono
              (Returns-Only
                (finish-Returns hash coro args slot p y start end debts settled en
                  (rw (same2, same1) ok) s2 at2 run)
                (finish-Keeps args slot p start end v.sqs v refl))
              λ _ w (s3, same3). (s3, same3 ∙ same2 ∙ same1)

    -- Whatever is ready, a whole round of an executor returns without a fault and keeps the
    -- memory sound. Conditions: the laws of the coroutine library and the hash table; no
    -- task in debt, no count pending and no entry missing; the executor is the primary one
    -- or its queue exists; the callers of blocking remote tasks have empty storage with
    -- room for a struct; and the run of the task that this round fetches, if any, on the
    -- board where it begins, gives the task back, stopped as `HasRun` says, with the memory
    -- sound and as many secondary queues.
    pub executor_round-Returns :
        (t : Board env)
        → IsExec t.sqs args
        → CallersWait t
        → Sound h t
        → ((u v : Board env) (p : Ptr) (slot : Slot)
            → task_sequencer t ≡ some (tt, u)
            → fetch args u ≡ (some (p, slot), v)
            → Resumes h resume p v)
        → Returns (λ _ u. Sound h u) (executor_round resume start end args t)
    unfolding executor_round
    executor_round-Returns t ok wait s runs =
        Returns-bind (Returns-known (task_sequencer-Returns coro s debts wait))
          λ _ u ((s1, same), is).
            go u (fetch args u) (fetch-Fetched s1 debts args (rw same ok))
              λ p slot v e. runs u v p slot is e
      where
        go :
            (u : Board env) (f : Option (Ptr × Slot) × Board env)
            → Fetched h u f
            → ((p : Ptr) (slot : Slot) (v : Board env)
                → f ≡ (some (p, slot), v)
                → Resumes h resume p v)
            → Returns
                (λ _ v. Sound h v)
                (and_then (some f) λ next. elim next [
                  | none ↦ λ w. some (tt, w)
                  | some (p, slot) ↦ (begin p >> (resume p >> finish args slot p start end))
                ])
        go u (none, v) s1 runs = returns s1
        go u (some (p, slot), v) (s1, ok1, (x, at, from)) runs =
            Returns-mono (run-Returns p x slot s1 ok1 at (runs p slot v refl)) λ _ w k. k.0
