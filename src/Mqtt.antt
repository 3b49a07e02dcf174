-- ===== src/Mqtt.antt =====
-- src/dummy_MQTT.c and src/dummy_MQTT.h: a controller's side of the program, with its message
-- pool, its queue of messages to the task board, and its counts.
pub mod Blocks
pub mod Parse
pub mod Tasks
pub mod Arithmetic
pub mod Wire
pub mod Rounds
pub mod Replies
pub mod Mailbox
pub mod Shutdown
use jam_tboard.Common.{
  ℕ, suc, ◌+◌, Bool, true, false, Option, none, some, List, [], ◌∷◌, ℤ, pos, int32, update, Bytes,
  codes, if◌then◌else◌, ltb,
}
use jam_tboard.Task.{Ptr, null, Function, Desc, Task, RemoteTask}
use jam_tboard.Env.{Env}
use jam_tboard.Queue.{
  Queue, queue_init, queue_insert_head, queue_insert_tail, queue_peek_front, queue_pop_head,
}
use jam_tboard.Board.{Board, free_data}
use jam_tboard.Destroy.{free_sized}
use jam_tboard.Processor.{Msg, task_exec, msg_processor}
use jam_tboard.Controller.{mqtt_othread}
use Blocks.{Block, text, arithmetic, reply}
use Parse.{Request, print_text, spawn_task, do_math, parse}

-- The functions of the tasks that a controller can ask for.
abbrev pub mqtt_print_message_fn : Function
mqtt_print_message_fn = record { fn = 1; fn_name = "MQTT_Print_Message" }

abbrev pub mqtt_spawn_task_fn : Function
mqtt_spawn_task_fn = record { fn = 2; fn_name = "MQTT_Spawn_Task" }

abbrev pub mqtt_do_math_fn : Function
mqtt_do_math_fn = record { fn = 3; fn_name = "MQTT_Do_Math" }

-- The globals, with the board that the threads work on, at the address `self`, and the contents of
-- the blocks that messages point to.
pub record Mqtt (env : Env) : Type 0 where
  pub pool : Queue Bytes
  pub inbox : Queue Msg
  pub imsg_sent : ℕ
  pub imsg_recv : ℕ
  pub omsg_sent : ℕ
  pub omsg_recv : ℕ
  pub spawned : ℕ
  pub blocks : Ptr → Option (Block env)
  pub self : Ptr
  pub board : Board env

-- `struct MQTT_data`
pub record MqttData : Type 0 where
  pub imsg_sent : ℕ
  pub imsg_recv : ℕ
  pub omsg_sent : ℕ
  pub omsg_recv : ℕ

-- `MQTT_Increment` on the value that a counter has.
abbrev pub mqtt_increment : ℕ → ℕ
mqtt_increment n = int32 (n + 1)

-- A task object that `calloc` has cleared, with its function.
abbrev pub blank_task : Function → Task
blank_task fn = record {
  id = pos 0;
  status = 0;
  type = pos 0;
  cpu_time = 0;
  yields = 0;
  fn = fn;
  ctx = null;
  desc = record { func = 0; user_data = none };
  data_size = 0;
  hist = none;
  parent = none;
}

abbrev pub new_msg : Function → Bool → Option Ptr → ℕ → Msg
new_msg fn effects user_data size = record {
  type = task_exec;
  subtype = pos 0;
  has_side_effects = effects;
  task = blank_task fn;
  user_data = user_data;
  ud_allocd = size;
}

module _ {env : Env} where
  unfoldable pub mqtt_init : Mqtt env → Mqtt env
  mqtt_init m = record m { pool = queue_init; inbox = queue_init }

  unfoldable pub mqtt_send : Bytes → Mqtt env → Mqtt env
  mqtt_send message m = record m { pool = queue_insert_head message m.pool }

  -- `calloc` for a task's arguments, with what is written there.
  abbrev pub alloc_block : Block env → Mqtt env → Mqtt env
  alloc_block b m = record m {
    blocks = update m.blocks m.board.next (some b);
    board = record m.board { next = suc m.board.next };
  }

  -- The message to the task board that a request becomes, inserted and counted.
  unfoldable pub insert_request : Request env → Mqtt env → Mqtt env
  insert_request (print_text s size) m =
      let m' = alloc_block (text s) m in
      record m' {
        inbox =
            queue_insert_tail (new_msg mqtt_print_message_fn false (some m.board.next) size)
              m.inbox;
        imsg_recv = mqtt_increment m.imsg_recv;
      }
  insert_request spawn_task m = record m {
    inbox = queue_insert_tail (new_msg mqtt_spawn_task_fn true (some m.self) 0) m.inbox;
    imsg_recv = mqtt_increment m.imsg_recv;
  }
  insert_request (do_math a operator b) m =
      let m' = alloc_block (arithmetic a b operator) m in
      record m' {
        inbox = queue_insert_tail (new_msg mqtt_do_math_fn false (some m.board.next) 24) m.inbox;
        imsg_recv = mqtt_increment m.imsg_recv;
      }

  abbrev pub received : Mqtt env → Option (Option (Request env)) → Option (Mqtt env)
  received m none = none
  received m (some none) = some m
  received m (some (some r)) = some (insert_request r m)

  -- A message that C gives no meaning to has no result.
  unfoldable pub mqtt_recv : Mqtt env → Option (Mqtt env)
  mqtt_recv m =
      let (entry, rest) = queue_pop_head m.pool in
      elim entry [
        | none ↦ some m
        | some message ↦ received (record m { pool = rest }) (parse message)
      ]

  -- After `msg_processor`: MQTT_ADD_BACK_TO_QUEUE_ON_FAILURE is 1.
  abbrev pub processed : Mqtt env → Msg → Option (Bool × Board env) → Option (Mqtt env)
  processed m msg none = none
  processed m msg (some (true, t)) = some (record m { board = t })
  processed m msg (some (false, t)) =
      some (record m { inbox = queue_insert_tail msg m.inbox; board = t })

  -- One round of the loop of `MQTT_ithread`, less the wait for a message.
  unfoldable pub mqtt_ithread : Mqtt env → Option (Mqtt env)
  mqtt_ithread m =
      let (ihead, rest) = queue_pop_head m.inbox in
      elim ihead [
        | none ↦ (elim (queue_peek_front m.pool) [ none ↦ some m | some _ ↦ mqtt_recv m ])
        | some msg ↦ processed (record m { inbox = rest }) msg (msg_processor msg m.board)
      ]

  -- The counts that `MQTT_othread` changes, with its board.
  abbrev pub handed_over : Mqtt env → Option (Option Bool × Board env) → Option (Mqtt env)
  handed_over m none = none
  handed_over m (some (none, t)) = some (record m { board = t })
  handed_over m (some (some false, t)) =
      some (record m { omsg_recv = mqtt_increment m.omsg_recv; board = t })
  handed_over m (some (some true, t)) = some (record m {
    omsg_recv = mqtt_increment m.omsg_recv;
    omsg_sent = mqtt_increment m.omsg_sent;
    board = t;
  })

  abbrev pub replied : Mqtt env → Option (Ptr → Option (Block env)) → Option (Mqtt env)
  replied m none = none
  replied m (some blocks) = handed_over (record m { blocks = blocks }) (mqtt_othread m.board)

  -- The controller's arithmetic is on the data of the remote task that it is given.
  abbrev pub out_to : Mqtt env → Option RemoteTask → Option (Mqtt env)
  out_to m none = none
  out_to m (some rtask) = replied m (reply rtask m.blocks)

  unfoldable pub mqtt_out : Mqtt env → Option (Mqtt env)
  mqtt_out m = elim (queue_peek_front m.board.msg_sent) [
    | none ↦ handed_over m (mqtt_othread m.board)
    | some r ↦ out_to m (m.board.remotes r)
  ]

  unfoldable pub mqtt_kill : Mqtt env → MqttData
  mqtt_kill m = record {
    imsg_sent = m.imsg_sent;
    imsg_recv = m.imsg_recv;
    omsg_sent = m.omsg_sent;
    omsg_recv = m.omsg_recv;
  }

  unfoldable pub free_messages : Queue Msg → Board env → Board env
  free_messages [] t = t
  free_messages (msg ∷ q) t = free_messages q (free_sized msg.ud_allocd msg.user_data t)

  -- After the two threads have been joined.
  unfoldable pub mqtt_destroy : Mqtt env → Mqtt env
  unfolding free_messages
  mqtt_destroy m = record m { board = free_messages m.inbox m.board; inbox = []; pool = [] }
