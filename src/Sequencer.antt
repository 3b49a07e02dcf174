-- ===== src/Sequencer.antt =====
-- src/sequencer.c: the task sequencer, which each executor runs before it fetches a task.
pub mod Search
use jam_tboard.Common.{Option, none, some, if◌then◌else◌, Bool, true, false}
use jam_tboard.Task.{Ptr, remote_bytes}
use jam_tboard.Env.{Env}
use jam_tboard.Queue.{queue_peek_front, queue_pop_head}
use jam_tboard.Board.{
  Board, M, pure, ◌>>=◌, ◌>>◌, modify, expect, load_task, load_remote, free_remote,
}
use jam_tboard.Place.{task_place}
use jam_tboard.Destroy.{free_sized}

module _ {env : Env} where
  abbrev pushed : Board env → Option env.Coros → Option (Unit {0} × Board env)
  pushed t none = none
  pushed t (some k) = some (tt, record t { coros = k })

  -- `mco_push` under `assert`.
  unfoldable pub push_remote : Ptr → Ptr → M env (Unit {0})
  push_remote c r = do
    rtask ← load_remote r
    λ t. pushed t (env.mco_push c (remote_bytes rtask) t.coros)

  unfoldable pub return_remote : Ptr → Ptr → M env (Unit {0})
  return_remote p r = do task ← load_task p; push_remote task.ctx r; task_place p

  unfoldable pub handle_msg_recv : Option Ptr → M env (Unit {0})
  handle_msg_recv none = pure tt
  handle_msg_recv (some r) = do
    rtask ← load_remote r
    if rtask.blocking
        then (do p ← expect rtask.calling_task; return_remote p r)
        else modify (free_sized rtask.data_size rtask.payload)

  unfoldable pub respond : Option Ptr → M env (Unit {0})
  respond none = pure tt
  respond (some r) = handle_msg_recv (some r) >> free_remote r

  -- The part under `msg_mutex`, with its own look at the queue.
  unfoldable pub sequencer_section : M env (Unit {0})
  sequencer_section t =
      let (entry, rest) = queue_pop_head t.msg_recv in respond entry (record t { msg_recv = rest })

  -- Another thread may empty the queue between the first look and the section.
  unfoldable pub task_sequencer : M env (Unit {0})
  task_sequencer t = elim (queue_peek_front t.msg_recv) [
    | none ↦ some (tt, t)
    | some _ ↦ sequencer_section t
  ]
