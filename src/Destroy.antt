-- ===== src/Destroy.antt =====
-- `task_destroy` and `remote_task_destroy` of src/tboard.c.
use jam_tboard.Common.{ℕ, zero, suc, Option, none, some, ltb, if◌then◌else◌}
use jam_tboard.Task.{Ptr, Task}
use jam_tboard.Env.{Env}
use jam_tboard.Board.{
  Board, M, pure, fault, ◌>>=◌, ◌>>◌, modify, load_task, free_task, load_remote, free_remote,
  free_data,
}
use jam_tboard.Create.{destroy_context}

module _ {env : Env} where
  -- Frees a block that its owner marked as allocated by a size above 0.
  unfoldable pub free_sized : ℕ → Option Ptr → Board env → Board env
  free_sized size none t = t
  free_sized size (some d) t = if ltb 0 size then free_data d t else t

  -- The last part of `task_destroy`: arguments, coroutine, object.
  unfoldable pub release_task : Ptr → Task → M env (Unit {0})
  release_task p task = do
    modify (free_sized task.data_size task.desc.user_data)
    modify (destroy_context task.ctx)
    free_task p

  -- The recursion follows the parents; `fuel` bounds its depth.
  unfoldable pub destroy_chain : ℕ → Option Ptr → M env (Unit {0})
  destroy_chain fuel none = pure tt
  destroy_chain zero (some p) = fault
  destroy_chain (suc fuel) (some p) = do
    task ← load_task p
    destroy_chain fuel task.parent
    release_task p task

  unfoldable pub task_destroy : Option Ptr → M env (Unit {0})
  task_destroy p t = destroy_chain t.next p t

  unfoldable pub remote_task_destroy : Option Ptr → M env (Unit {0})
  remote_task_destroy none = pure tt
  remote_task_destroy (some r) = do
    rtask ← load_remote r
    if rtask.blocking then task_destroy rtask.calling_task else pure tt
    modify (free_sized rtask.data_size rtask.payload)
    free_remote r
