-- ===== src/Lifecycle.antt =====
-- `tboard_create`, `tboard_start`, `tboard_kill` and `tboard_destroy` of src/tboard.c, less what
-- they do with threads and mutexes.
pub mod Waking
use jam_tboard.Common.{
  ℕ, zero, suc, ◌+◌, Bool, true, false, Option, none, some, List, [], ◌∷◌, pos, leb, ◌==◌, update,
  if◌then◌else◌,
}
use jam_tboard.Task.{
  Ptr, Cond, pcond, scond, tcond, msg_cond, max_secondaries, primary_exec, secondary_exec,
}
use jam_tboard.Env.{Env}
use jam_tboard.Queue.{Queue, queue_init, queue_peek_front, queue_pop_head}
use jam_tboard.Board.{Board, M, pure, get, ◌>>=◌, ◌>>◌, modify, signal}
use jam_tboard.Destroy.{task_destroy, remote_task_destroy}
use jam_tboard.History.{history_destroy}
use jam_tboard.Executor.Fetch.{Exec}

module _ (env : Env) where
  -- A new board in a process that has handed out the addresses below `next`.
  unfoldable pub new_board : ℕ → Ptr → env.Coros → Board env
  new_board secondary_queues next coros = record {
    pqueue = queue_init;
    squeue = λ _. queue_init;
    msg_sent = queue_init;
    msg_recv = queue_init;
    sqs = secondary_queues;
    task_count = pos 0;
    exec_hist = env.hash_empty;
    shutdown = 0;
    status = 0;
    tasks = λ _. none;
    remotes = λ _. none;
    hists = λ _. none;
    next = next;
    coros = coros;
    draws = 0;
    signals = [];
    freed = [];
  }

  -- `none` is a failed assertion: the number of queues, and that the two structs differ in size.
  unfoldable pub tboard_create : ℕ → Ptr → env.Coros → Option (Board env)
  unfolding new_board
  tboard_create secondary_queues next coros =
      if leb secondary_queues max_secondaries
      then (if env.sizeof_remote_task == env.sizeof_task
          then none
          else some (new_board secondary_queues next coros))
      else none

unfoldable pub secondary_executors : (rounds i : ℕ) → List Exec
secondary_executors zero i = []
secondary_executors (suc rounds) i =
    record { type = secondary_exec; num = i } ∷ secondary_executors rounds (suc i)

module _ {env : Env} where
  -- The executors that `tboard_start` creates threads for, and the board after it.
  unfoldable pub tboard_start : Board env → List Exec × Board env
  tboard_start t =
      if t.status == 0
      then (
        record { type = primary_exec; num = 0 } ∷ secondary_executors t.sqs 0,
        record t { status = 1 },
      )
      else ([], t)

  signal_secondaries : (rounds i : ℕ) → Board env → Board env
  signal_secondaries zero i t = t
  signal_secondaries (suc rounds) i t = signal_secondaries rounds (suc i) (signal (scond i) t)

  -- The cancellations that `tboard_kill` asks for are signals and the mark `shutdown`.
  unfoldable pub tboard_kill : Board env → Bool × Board env
  unfolding signal_secondaries
  tboard_kill t =
      if t.status == 0
      then (false, t)
      else (true, signal_secondaries t.sqs 0 (signal pcond (record t { shutdown = 1 })))

  -- The loop that empties a queue: `put` sets the queue, and `destroy` is called on what an entry
  -- points to.
  unfoldable pub drain :
      (put : Queue Ptr → Board env → Board env) (destroy : Option Ptr → M env (Unit {0}))
      → Queue Ptr
      → M env (Unit {0})
  drain put destroy [] = pure tt
  drain put destroy (p ∷ q) = do modify (put q); destroy (some p); drain put destroy q

  abbrev pub put_primary : Queue Ptr → Board env → Board env
  put_primary q t = record t { pqueue = q }

  abbrev pub put_secondary : ℕ → Queue Ptr → Board env → Board env
  put_secondary i q t = record t { squeue = update t.squeue i q }

  abbrev pub put_sent : Queue Ptr → Board env → Board env
  put_sent q t = record t { msg_sent = q }

  abbrev pub put_recv : Queue Ptr → Board env → Board env
  put_recv q t = record t { msg_recv = q }

  unfoldable pub drain_secondaries : (rounds i : ℕ) → M env (Unit {0})
  drain_secondaries zero i = pure tt
  drain_secondaries (suc rounds) i = do
    t ← get
    drain (put_secondary i) task_destroy (t.squeue i)
    drain_secondaries rounds (suc i)

  -- The queues are emptied in this order.
  unfoldable pub drain_queues : M env (Unit {0})
  drain_queues = do
    t ← get
    drain_secondaries t.sqs 0
    t ← get
    drain put_primary task_destroy t.pqueue
    t ← get
    drain put_sent remote_task_destroy t.msg_sent
    t ← get
    drain put_recv remote_task_destroy t.msg_recv

  -- After the executors have been joined, and up to the `free` of the board itself.
  unfoldable pub tboard_destroy : M env (Unit {0})
  tboard_destroy = do modify (signal tcond); drain_queues; modify (signal msg_cond); history_destroy
