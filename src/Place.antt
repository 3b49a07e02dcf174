-- ===== src/Place.antt =====
-- Placing tasks in ready queues and remote tasks in message queues: `task_place` and
-- `remote_task_place` of src/tboard.c. Each is one critical section.
pub mod Order
use jam_tboard.Common.{
  ℕ, suc, ◌%◌, Bool, Option, none, some, ℤ, leb_ℤ, eq_ℤ, ◌==◌, update, ◌||◌, if◌then◌else◌,
}
use jam_tboard.Task.{Ptr, pcond, scond, msg_cond, primary_exec, priority_exec}
use jam_tboard.Env.{Env}
use jam_tboard.Queue.{queue_insert_head, queue_insert_tail}
use jam_tboard.Board.{Board, M, pure, ◌>>=◌, modify, load_task, signal}

module _ {env : Env} where
  unfoldable pub place_primary : ℤ → Ptr → Board env → Board env
  place_primary type p t = signal pcond (record t {
    pqueue =
        if eq_ℤ type priority_exec
        then queue_insert_head p t.pqueue
        else queue_insert_tail p t.pqueue;
  })

  -- `j` is the secondary queue chosen; the primary executor is woken too
  -- (SIGNAL_PRIMARY_ON_NEW_SECONDARY_TASK is 1).
  unfoldable pub place_secondary : ℕ → Ptr → Board env → Board env
  place_secondary j p t = signal pcond (
      signal (scond j) (record t {
        squeue = update t.squeue j (queue_insert_tail p (t.squeue j));
        draws = suc t.draws;
      }))

  unfoldable pub place : ℤ → Ptr → Board env → Board env
  place type p t =
      if leb_ℤ type primary_exec || (t.sqs == 0)
      then place_primary type p t
      else place_secondary (env.rand t.draws % t.sqs) p t

  unfoldable pub task_place : Ptr → M env (Unit {0})
  task_place p = do task ← load_task p; modify (place task.type p)

  unfoldable pub remote_task_place : Option Ptr → Bool → M env (Unit {0})
  remote_task_place none send = pure tt
  remote_task_place (some r) send = modify λ t.
      if send
      then signal msg_cond (record t { msg_sent = queue_insert_tail r t.msg_sent })
      else signal pcond (record t { msg_recv = queue_insert_tail r t.msg_recv })
