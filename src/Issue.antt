-- ===== src/Issue.antt =====
-- `blocking_task_create` and `remote_task_create` of src/tboard.c, which run in a coroutine: each
-- in two parts, up to its yield and after it. `running` is what `mco_running` returns.
use Prim.Native.String.{String, len}
use jam_tboard.Common.{ℕ, Bool, true, false, Option, none, some, ℤ, ltb, ◌==◌, if◌then◌else◌}
use jam_tboard.Task.{
  Ptr, Function, Task, RemoteTask, Stored, task_bytes, remote_bytes, max_msg_length,
  task_initialized, task_completed, task_id_blocking,
}
use jam_tboard.Env.{Env}
use jam_tboard.Board.{Board, M, pure, ◌>>=◌, ◌>>◌}
use jam_tboard.History.{history_record_exec, count_execution}
use jam_tboard.Create.{new_task, create_context}

abbrev pub new_remote : String → Option Ptr → ℕ → Bool → RemoteTask
new_remote message args size blocking = record {
  status = task_initialized;
  message = message;
  payload = args;
  data_size = size;
  calling_task = none;
  blocking = blocking;
}

module _ {env : Env} where
  open env use {mco_push, mco_get_bytes_stored, mco_pop_task, mco_pop_remote}

  abbrev stored : Board env → Option env.Coros → Option (Bool × Board env)
  stored t none = some (false, t)
  stored t (some k) = some (true, record t { coros = k })

  -- `mco_push` with its result.
  unfoldable pub push : Ptr → Stored → M env Bool
  push c item t = stored t (mco_push c item t.coros)

  unfoldable pub push_context : Ptr → Task → Option Ptr → M env Bool
  push_context c task none = pure false
  push_context c task (some ctx) = push c (task_bytes (record task { ctx = ctx }))

  -- The result is whether `blocking_task_create` goes on to yield; else it returns false.
  unfoldable pub blocking_issue : Option Ptr → Function → ℤ → Option Ptr → ℕ → M env Bool
  blocking_issue none fn type args size = pure false
  blocking_issue (some c) fn type args size = do
    let task = new_task env task_id_blocking type fn args size
    h ← history_record_exec task
    count_execution h
    res ← create_context task.desc
    push_context c (record task { hist = some h }) res

  abbrev completed_task : Board env → Option (Task × env.Coros) → Option (Bool × Board env)
  completed_task t none = some (false, t)
  completed_task t (some (task, k)) = some (task.status == task_completed, record t { coros = k })

  -- What `blocking_task_create` returns once it has control again.
  unfoldable pub blocking_result : Ptr → M env Bool
  blocking_result c t =
      if mco_get_bytes_stored c t.coros == env.sizeof_task
      then completed_task t (mco_pop_task c t.coros)
      else some (false, t)

  -- The result is whether `remote_task_create` goes on to yield; else it returns false.
  unfoldable pub remote_issue : Option Ptr → String → Option Ptr → ℕ → Bool → M env Bool
  remote_issue none message args size blocking = pure false
  remote_issue (some c) message args size blocking =
      if ltb max_msg_length (len message)
      then pure false
      else push c (remote_bytes (new_remote message args size blocking))

  abbrev completed_remote : Board env → Option (RemoteTask × env.Coros) → Option (Bool × Board env)
  completed_remote t none = some (false, t)
  completed_remote t (some (rtask, k)) =
      some (rtask.status == task_completed, record t { coros = k })

  -- What `remote_task_create` returns once it has control again.
  unfoldable pub remote_result : Ptr → Bool → M env Bool
  remote_result c false t = some (true, t)
  remote_result c true t =
      if mco_get_bytes_stored c t.coros == env.sizeof_remote_task
      then completed_remote t (mco_pop_remote c t.coros)
      else some (false, t)
