-- ===== src/Counter.antt =====
-- The count of concurrent tasks: `tboard_get_concurrent` to `tboard_add_concurrent` of
-- src/tboard.c. Each is one critical section under `cmutex`.
pub mod Bounds
use jam_tboard.Common.{ℕ, ℤ, pos, inc, dec, ltb_ℤ, if◌then◌else◌}
use jam_tboard.Task.{max_tasks}
use jam_tboard.Env.{Env}
use jam_tboard.Board.{Board}

module _ {env : Env} where
  unfoldable pub tboard_get_concurrent : Board env → ℤ
  tboard_get_concurrent t = t.task_count

  unfoldable pub tboard_inc_concurrent : Board env → Board env
  tboard_inc_concurrent t = record t { task_count = inc t.task_count }

  unfoldable pub tboard_deinc_concurrent : Board env → Board env
  tboard_deinc_concurrent t = record t { task_count = dec t.task_count }

  -- The returned value is zero when no task may be added.
  unfoldable pub tboard_add_concurrent : Board env → ℤ × Board env
  tboard_add_concurrent t =
      if ltb_ℤ t.task_count (pos max_tasks)
      then (inc t.task_count, record t { task_count = inc t.task_count })
      else (pos 0, t)
