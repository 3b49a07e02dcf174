-- ===== src/Create.antt =====
-- `task_add` and `task_create` of src/tboard.c.
use jam_tboard.Common.{ℕ, Bool, true, false, Option, none, some, ℤ, pos, eq_ℤ, if◌then◌else◌}
use jam_tboard.Task.{Ptr, null, Function, Desc, Task, task_initialized, task_id_nonblocking}
use jam_tboard.Env.{Env}
use jam_tboard.Board.{
  Board, M, pure, ◌>>=◌, ◌>>◌, modify, load_task, store_task, alloc_task, free_task,
}
use jam_tboard.Counter.{tboard_add_concurrent}
use jam_tboard.History.{history_record_exec, count_execution}
use jam_tboard.Place.{task_place}

-- A task object as `calloc` and the first assignments leave it.
abbrev pub new_task : Env → ℤ → ℤ → Function → Option Ptr → ℕ → Task
new_task env id type fn args size = record {
  id = id;
  status = task_initialized;
  type = type;
  cpu_time = 0;
  yields = 0;
  fn = fn;
  ctx = null;
  desc = record (env.mco_desc_init fn.fn 0) { user_data = args };
  data_size = size;
  hist = none;
  parent = none;
}

module _ {env : Env} where
  -- What `task_add` does once the count has been raised.
  unfoldable pub enter_task : Ptr → M env Bool
  enter_task p = do
    task ← load_task p
    store_task p (record task { cpu_time = 0; yields = 0; status = task_initialized; hist = none })
    fresh ← load_task p
    h ← history_record_exec fresh
    store_task p (record fresh { hist = some h })
    count_execution h
    task_place p
    pure true

  unfoldable pub task_add : Option Ptr → M env Bool
  task_add none = pure false
  task_add (some p) = do
    room ← (λ t. some (tboard_add_concurrent t))
    if eq_ℤ room (pos 0) then pure false else enter_task p

  -- `mco_create`: the new context, if there is one.
  unfoldable pub create_context : Desc → M env (Option Ptr)
  create_context desc t = elim (env.mco_create desc t.coros) [
    | none ↦ some (none, t)
    | some (c, k) ↦ some (some c, record t { coros = k })
  ]

  unfoldable pub destroy_context : Ptr → Board env → Board env
  destroy_context c t = record t { coros = env.mco_destroy c t.coros }

  -- The task cannot be used after all.
  unfoldable pub discard_task : Ptr → Ptr → M env Bool
  discard_task c p = do modify (destroy_context c); free_task p; pure false

  unfoldable pub start_task : Ptr → Option Ptr → M env Bool
  start_task p none = free_task p >> pure false
  start_task p (some c) = do
    task ← load_task p
    store_task p (record task { ctx = c })
    added ← task_add (some p)
    if added then pure true else discard_task c p

  unfoldable pub task_create : Function → ℤ → Option Ptr → ℕ → M env Bool
  task_create fn type args size = do
    let task = new_task env task_id_nonblocking type fn args size
    p ← alloc_task task
    res ← create_context task.desc
    start_task p res
