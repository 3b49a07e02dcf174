-- ===== src/Ownership/Rounds.antt =====
-- The round of `executor` in src/executor.c after a task has had the processor.
use jam_tboard.Common.{
  ℕ, ◌≡◌, refl, sym, ap, ◌∙◌, ◌⊎◌, inl, inr, none, some, arith, int32, ◌+◌, ◌-◌, ◌%◌, ◌^◌,
}
use jam_tboard.Task.{Ptr, Task, dead, suspended}
use jam_tboard.Env.{Env}
use jam_tboard.Env.Laws.{HashLaws, CoroLaws}
use jam_tboard.Board.{Board, load_task}
use jam_tboard.Executor.Fetch.{Exec, Slot}
use jam_tboard.Executor.{finish, after_resume}
use jam_tboard.Ownership.Defs.{
  short, Held, with_task, Sound, HasRoom, KnowsStored, Returns, Returns-bind,
}
use jam_tboard.Ownership.Tasks.{store_task-Returns}
use jam_tboard.Ownership.Ending.{on_dead-Returns, task_elsewhere}
use jam_tboard.Ownership.Yielding.{IsSlot, on_yield-Returns}

-- What a run of the task `x` has left in the coroutine library: it has stopped by a yield or for
-- good; a blocking task that it asks for is in the history; its parent's storage is empty.
pub record HasRun {env : Env} (t : Board env) (x : Task) : Type 0 where
  pub stopped : (env.mco_status x.ctx t.coros ≡ suspended) ⊎ (env.mco_status x.ctx t.coros ≡ dead)
  pub issued : KnowsStored t x.ctx
  pub waiting : (q : Ptr) (y : Task) → x.parent ≡ some q → t.tasks q ≡ some y → HasRoom t y

module _ {env : Env} where
  after_resume-Returns :
      HashLaws env
      → CoroLaws env
      → {h : Held} {t : Board env} (args : Exec) (slot : Slot) (p : Ptr) (x : Task)
      → ((a : Ptr) → h.debt a ≡ 0)
      → h.pending ≡ short 0
      → h.new ≡ none
      → IsSlot t.sqs slot
      → Sound (with_task p h) t
      → t.tasks p ≡ some x
      → HasRun t x
      → Returns (λ _ u. Sound h u) (after_resume (env.mco_status x.ctx t.coros) args slot p t)
  unfolding after_resume
  after_resume-Returns hash coro args slot p x debts settled en ok s at run = elim run.stopped [
    | inl e ↦ rw e (on_yield-Returns coro p x s at en args slot ok run.issued)
    | inr e ↦ rw e (on_dead-Returns hash coro p x debts settled s at run.waiting)
  ]

  -- After a task has run, the rest of the round returns without a fault, and the memory is
  -- sound with the task no longer in the executor's hand: it is back in a ready queue, waits
  -- for a task or a remote task, or has been freed. Conditions: the laws of the coroutine
  -- library and the hash table; no task in debt, no count pending and no entry missing; the
  -- slot is a queue of the board; the memory is sound with the task in hand; and the run has
  -- left what `HasRun` says.
  pub finish-Returns :
      HashLaws env
      → CoroLaws env
      → {h : Held} {t : Board env} (args : Exec) (slot : Slot) (p : Ptr) (x : Task) (start end : ℕ)
      → ((a : Ptr) → h.debt a ≡ 0)
      → h.pending ≡ short 0
      → h.new ≡ none
      → IsSlot t.sqs slot
      → Sound (with_task p h) t
      → t.tasks p ≡ some x
      → HasRun t x
      → Returns (λ _ u. Sound h u) (finish args slot p start end t)
  unfolding finish load_task
  finish-Returns hash coro {t} args slot p x start end debts settled en ok s at run =
      let y : Task = record x { cpu_time = int32 (x.cpu_time + (end + 2 ^ 64 - start) % 2 ^ 64) } in
      rw at (
        Returns-bind (store_task-Returns s y at refl (λ _. s.recorded p x at (ground arith)))
          λ _ u (s1, made).
            after_resume-Returns hash coro args slot p y debts settled en (rw made ok) s1
              (ap (λ w. w.tasks p) made ∙ ground arith)
              (record {
                stopped = rw made run.stopped;
                issued = λ size z k e. rw made (
                    run.issued (ap (λ w. env.mco_get_bytes_stored x.ctx w.coros) (sym made) ∙ size)
                      z k (rw made at e));
                waiting = λ q z up there. rw made (
                    run.waiting q z up
                      (sym (task_elsewhere t (some y) made (s.older p q x at up)) ∙ there));
              }))
