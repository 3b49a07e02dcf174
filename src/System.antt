-- ===== src/System.antt =====
-- The threads of the program together: the executors that `tboard_start` of src/tboard.c creates,
-- the controller's threads, and callers from outside. A step is what a thread does between two
-- points where the others may come in; the run of a task and what its executor then does with it
-- are one step, in which what others do is part of the run.
pub mod Reachable
pub mod Runs
use jam_tboard.Common.{ℕ, ◌+◌, Bool, Option, none, some, List, [], ◌∷◌, ℤ, hit, total, update}
use jam_tboard.Task.{Ptr, Function}
use jam_tboard.Env.{Env}
use jam_tboard.Board.{Board, M, ◌>>◌}
use jam_tboard.Create.{task_create}
use jam_tboard.Processor.{Msg, msg_processor}
use jam_tboard.Controller.{mqtt_othread}
use jam_tboard.Sequencer.{task_sequencer}
use jam_tboard.Executor.Fetch.{Exec, Slot, primary, fetch}
use jam_tboard.Executor.{begin, finish}

-- An executor's thread: without a task, or with the one that it has taken from a queue.
pub data Thread : Type 0 where
  idle : Exec → Thread
  holding : Exec → Ptr → Slot → Thread

-- The executors are the threads below `count`.
pub record State (env : Env) : Type 0 where
  pub board : Board env
  pub count : ℕ
  pub threads : ℕ → Thread

-- `take`, `handle` and `work` are the parts of an executor's round; `handle` needs no task. The
-- others are calls from outside: a task is created, a message of the controller is processed, and
-- the controller is given a remote task.
pub data Action (env : Env) : Type 0 where
  create : Function → ℤ → Option Ptr → ℕ → Action env
  process : Msg → Action env
  exchange : Action env
  handle : Action env
  take : ℕ → Action env
  work : ℕ → (Ptr → M env (Unit {0})) → (start end : ℕ) → Action env

module _ {env : Env} where
  abbrev pub on_board : {A : Type 0} → State env → Option (A × Board env) → Option (State env)
  on_board s none = none
  on_board s (some (a, u)) = some (record s { board = u })

  abbrev pub set_thread : ℕ → Thread → State env → State env
  set_thread i th s = record s { threads = update s.threads i th }

  abbrev pub taken : ℕ → Exec → State env → Option (Ptr × Slot) × Board env → State env
  taken i e s (none, u) = record s { board = u }
  taken i e s (some (p, slot), u) = set_thread i (holding e p slot) (record s { board = u })

  -- A thread that has a task takes no other one.
  abbrev pub take_by : ℕ → Thread → State env → Option (State env)
  take_by i (idle e) s = some (taken i e s (fetch e s.board))
  take_by i (holding e p slot) s = some s

  abbrev pub work_by :
      ℕ → (Ptr → M env (Unit {0})) → (start end : ℕ) → Thread → State env → Option (State env)
  work_by i resume start end (idle e) s = some s
  work_by i resume start end (holding e p slot) s =
      on_board (set_thread i (idle e) s)
        ((begin p >> (resume p >> finish e slot p start end)) s.board)

  unfoldable pub perform : Action env → State env → Option (State env)
  perform (create fn type args size) s = on_board s (task_create fn type args size s.board)
  perform (process msg) s = on_board s (msg_processor msg s.board)
  perform exchange s = on_board s (mqtt_othread s.board)
  perform handle s = on_board s (task_sequencer s.board)
  perform (take i) s = take_by i (s.threads i) s
  perform (work i resume start end) s = work_by i resume start end (s.threads i) s
