-- ===== src/Processor.antt =====
-- src/processor.c: messages from the controller. `msg->data` is given as the task object that it
-- points to.
use jam_tboard.Common.{ℕ, Bool, true, false, Option, none, some, ℤ, pos, eq_ℤ, if◌then◌else◌}
use jam_tboard.Task.{
  Ptr, null, Task, primary_exec, secondary_exec, task_initialized, task_id_remote_issued,
}
use jam_tboard.Env.{Env}
use jam_tboard.Board.{M, pure, ◌>>=◌, ◌>>◌, load_task, store_task, alloc_task}
use jam_tboard.Create.{create_context, task_add, discard_task}

abbrev pub task_exec : ℤ
task_exec = pos 0

abbrev pub task_schedule : ℤ
task_schedule = pos 1

-- `msg_t`.
pub record Msg : Type 0 where
  pub type : ℤ
  pub subtype : ℤ
  pub has_side_effects : Bool
  pub task : Task
  pub user_data : Option Ptr
  pub ud_allocd : ℕ

-- The task object that TASK_EXEC copies from a message and fills in.
abbrev pub message_task : Env → Msg → Task
message_task env msg = record msg.task {
  status = task_initialized;
  id = task_id_remote_issued;
  parent = none;
  cpu_time = 0;
  type = if msg.has_side_effects then primary_exec else secondary_exec;
  desc = record (env.mco_desc_init msg.task.fn.fn 0) { user_data = msg.user_data };
  data_size = msg.ud_allocd;
}

-- What `mco_create` stores through its first argument: NULL if it fails.
abbrev pub context_or_null : Option Ptr → Ptr
context_or_null none = null
context_or_null (some c) = c

module _ {env : Env} where
  -- The requirements of this part are missing, and so is the code.
  unfoldable pub bid_processing : M env Bool
  bid_processing = pure false

  unfoldable pub data_processor : Msg → M env Bool
  data_processor msg = pure false

  unfoldable pub exec_message : Msg → M env Bool
  exec_message msg = do
    let task = message_task env msg
    p ← alloc_task task
    res ← create_context task.desc
    made ← load_task p
    store_task p (record made { ctx = context_or_null res })
    added ← task_add (some p)
    if added then pure true else discard_task (context_or_null res) p

  unfoldable pub msg_processor : Msg → M env Bool
  msg_processor msg =
      if eq_ℤ msg.type task_exec
      then exec_message msg
      else if eq_ℤ msg.type task_schedule
      then (if eq_ℤ msg.subtype primary_exec then bid_processing else pure false)
      else pure false
