-- ===== src/Place/Order.antt =====
-- Which task `executor` takes after `task_place` (src/tboard.c) has placed one.
use jam_tboard.Common.{◌≡◌, refl, some}
use jam_tboard.Task.{Ptr, Task, primary_exec, priority_exec}
use jam_tboard.Env.{Env}
use jam_tboard.Queue.{queue_insert_head, queue_peek_front, queue_pop_head}
use jam_tboard.Board.{Board, load_task, signal}
use jam_tboard.Place.{place, place_primary, task_place}
use jam_tboard.Executor.Fetch.{Exec, fetch, primary, pop_primary}
use jam_tboard.Ownership.Defs.{Returns, returns}

module _ {env : Env} where
  -- Once a live priority task has been placed, the primary executor's next fetch takes it
  -- from the primary queue, ahead of all that was ready, and leaves the primary queue as it
  -- was before.
  pub priority_first :
      (t : Board env) (p : Ptr) (x : Task) (args : Exec)
      → t.tasks p ≡ some x
      → x.type ≡ priority_exec
      → args.type ≡ primary_exec
      → Returns
          (λ _ u. fetch args u ≡ (some (p, primary), record u { pqueue = t.pqueue }))
          (task_place p t)
  unfolding task_place load_task place place_primary fetch pop_primary queue_insert_head
      queue_peek_front queue_pop_head signal
  priority_first t p x args at type prim = rw (at, type) (returns (rw prim refl))
