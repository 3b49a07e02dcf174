-- ===== src/Counter/Bounds.antt =====
-- What the count of concurrent tasks of src/tboard.c promises.
use jam_tboard.Common.{ℕ, suc, ◌≤◌, ◌<◌, ◌≡◌, ◌⊎◌, pos, inc, arith}
use jam_tboard.Task.{max_tasks}
use jam_tboard.Env.{Env}
use jam_tboard.Board.{Board}
use jam_tboard.Counter.{tboard_add_concurrent}

module _ {env : Env} where
  -- On a board whose count is not negative: below MAX_TASKS the count grows by one and is
  -- returned, which is never zero; from MAX_TASKS on zero is returned and the board is as
  -- before.
  pub add_concurrent_cases :
      (t : Board env) (n : ℕ)
      → t.task_count ≡ pos n
      → ((n < max_tasks)
          × (tboard_add_concurrent t ≡ (pos (suc n), record t { task_count = pos (suc n) })))
        ⊎ ((max_tasks ≤ n) × (tboard_add_concurrent t ≡ (pos 0, t)))
  unfolding tboard_add_concurrent inc
  add_concurrent_cases t n e = ground arith
