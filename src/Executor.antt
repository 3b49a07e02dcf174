-- ===== src/Executor.antt =====
-- src/executor.c: one round of `executor`, in the parts between which other threads may run. What
-- a task does while it has the processor is `resume`, given from outside.
pub mod Fetch
use jam_tboard.Common.{
  ℕ, suc, ◌+◌, ◌-◌, ◌%◌, ◌^◌, Bool, true, false, not, Option, none, some, ℤ, eq_ℤ, int32, pos, ◌==◌,
  update, if◌then◌else◌,
}
use jam_tboard.Task.{
  Ptr, Task, RemoteTask, Cond, CoroState, pcond, scond, dead, normal, running, suspended,
  task_bytes, primary_exec, priority_exec, task_running, task_completed,
}
use jam_tboard.Env.{Env}
use jam_tboard.Queue.{Queue, queue_insert_head, queue_insert_tail}
use jam_tboard.Board.{
  Board, M, pure, ◌>>=◌, ◌>>◌, modify, expect, load_task, store_task, alloc_task, free_task,
  load_remote, alloc_remote, load_hist, store_hist, signal,
}
use jam_tboard.Counter.{tboard_deinc_concurrent}
use jam_tboard.History.{history_record_exec}
use jam_tboard.Place.{task_place, remote_task_place}
use jam_tboard.Create.{destroy_context}
use jam_tboard.Destroy.{free_sized, release_task}
use jam_tboard.Sequencer.{task_sequencer}
use Fetch.{Exec, Slot, primary, secondary, fetch}

-- A priority task goes to the head, for REINSERT_PRIORITY_AT_HEAD is 1.
unfoldable pub put_back : ℤ → Ptr → Queue Ptr → Queue Ptr
put_back type p q = if eq_ℤ type priority_exec then queue_insert_head p q else queue_insert_tail p q

module _ {env : Env} where
  open env use {real, real_add, mco_status, mco_pop_task, mco_pop_remote, mco_get_bytes_stored}

  abbrev with_coros : {A : Type 0} → Board env → Option (A × env.Coros) → Option (A × Board env)
  with_coros t none = none
  with_coros t (some (a, k)) = some (a, record t { coros = k })

  -- An operation of the coroutine library that must succeed, as `assert` demands.
  abbrev pub on_coros : {A : Type 0} → (env.Coros → Option (A × env.Coros)) → M env A
  on_coros f t = with_coros t (f t.coros)

  -- `task->hist->yields++`
  unfoldable pub count_yield : Task → M env (Unit {0})
  count_yield task = do
    h ← expect task.hist
    e ← load_hist h
    store_hist h (record e { yields = real_add e.yields (real (pos 1)) })

  -- Puts a task back into the queue that it was taken from.
  unfoldable pub reinsert_at : Exec → Slot → ℤ → Ptr → Board env → Board env
  reinsert_at args primary type p t =
      let t' = record t { pqueue = put_back type p t.pqueue } in
      if eq_ℤ args.type primary_exec then signal pcond t' else t'
  reinsert_at args (secondary i) type p t =
      let t' = record t { squeue = update t.squeue i (put_back type p (t.squeue i)) } in
      if eq_ℤ args.type primary_exec then signal (scond i) t' else t'

  unfoldable pub reinsert : Exec → Slot → Ptr → M env (Unit {0})
  reinsert args slot p = do task ← load_task p; modify (reinsert_at args slot task.type p)

  -- The task asked for a blocking local task.
  unfoldable pub issue_local : Ptr → Ptr → M env (Unit {0})
  issue_local p c = do
    subtask ← on_coros (mco_pop_task c)
    sub ← alloc_task (record subtask { parent = some p })
    task_place sub

  -- The task asked for a remote task.
  unfoldable pub issue_remote : Exec → Slot → Ptr → Ptr → M env (Unit {0})
  issue_remote args slot p c = do
    rtask ← on_coros (mco_pop_remote c)
    r ← alloc_remote (record rtask { calling_task = some p })
    remote_task_place (some r) true
    if rtask.blocking then pure tt else reinsert args slot p

  -- What a yield asks for is told by the size of what the coroutine has stored.
  unfoldable pub after_yield : Exec → Slot → Ptr → Ptr → M env (Unit {0})
  after_yield args slot p c t =
      (if mco_get_bytes_stored c t.coros == env.sizeof_task
          then issue_local p c
          else if mco_get_bytes_stored c t.coros == env.sizeof_remote_task
          then issue_remote args slot p c
          else reinsert args slot p)
        t

  unfoldable pub on_yield : Exec → Slot → Ptr → M env (Unit {0})
  on_yield args slot p = do
    task ← load_task p
    store_task p (record task { yields = int32 (task.yields + 1) })
    count_yield task
    after_yield args slot p task.ctx

  -- Gives a finished blocking task's object to its parent, and makes the parent ready again.
  unfoldable pub wake_parent : Ptr → Task → M env (Unit {0})
  wake_parent parent task = do
    waiting ← load_task parent
    λ t. elim (env.mco_push waiting.ctx (task_bytes task) t.coros) [
      | none ↦ none
      | some k ↦ task_place parent (record t { coros = k })
    ]

  unfoldable pub leave : Option Ptr → Task → M env (Unit {0})
  leave none task = modify tboard_deinc_concurrent
  leave (some parent) task = wake_parent parent task

  unfoldable pub on_dead : Ptr → M env (Unit {0})
  on_dead p = do
    task ← load_task p
    h ← history_record_exec (record task { status = task_completed })
    let ended = record task { status = task_completed; hist = some h }
    store_task p ended
    leave ended.parent ended
    release_task p ended

  -- A task with any other status is lost.
  unfoldable pub after_resume : CoroState → Exec → Slot → Ptr → M env (Unit {0})
  after_resume suspended args slot p = on_yield args slot p
  after_resume dead args slot p = on_dead p
  after_resume normal args slot p = pure tt
  after_resume running args slot p = pure tt

  -- After `mco_resume` has come back: `start` and `end` are the clock before and after.
  unfoldable pub finish : Exec → Slot → Ptr → (start end : ℕ) → M env (Unit {0})
  finish args slot p start end = do
    task ← load_task p
    store_task p
        (record task { cpu_time = int32 (task.cpu_time + (end + 2 ^ 64 - start) % 2 ^ 64) })
    λ t. after_resume (mco_status task.ctx t.coros) args slot p t

  unfoldable pub begin : Ptr → M env (Unit {0})
  begin p = do task ← load_task p; store_task p (record task { status = task_running })

  -- One round of the loop. `resume` is the run of the task that was fetched.
  unfoldable pub executor_round :
      (resume : Ptr → M env (Unit {0})) (start end : ℕ) → Exec → M env (Unit {0})
  executor_round resume start end args = do
    task_sequencer
    next ← (λ t. some (fetch args t))
    elim next [
      | none ↦ pure tt
      | some (p, slot) ↦ do begin p; resume p; finish args slot p start end
    ]
