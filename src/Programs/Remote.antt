-- ===== src/Programs/Remote.antt =====
-- src/legacy_tests/test7_blocking_remote_tasks.c, in which tasks ask the controller for remote tasks
-- and a thread plays the controller, with CONTINUOUSLY_ISSUE at 1. A function that yields is cut
-- there, with its local variables as a state.
pub mod Commands
use Prim.Native.String.{String}
use jam_tboard.Common.{
  ℕ, suc, ◌+◌, ◌*◌, ◌/◌, ◌%◌, Bool, true, false, Option, none, some, List, [], ◌∷◌, ◌++◌, pos,
  int32, ltb, ◌==◌, Bytes, codes, if◌then◌else◌,
}
use jam_tboard.Task.{Ptr, Function, primary_exec}
use jam_tboard.Env.{Env}
use jam_tboard.Board.{Board, free_data}
use jam_tboard.Create.{task_create}
use jam_tboard.Issue.{remote_issue, remote_result}
use jam_tboard.Tokens.{space}
use jam_tboard.Mqtt.{Mqtt, mqtt_send}

abbrev pub remote_task_fn : Function
remote_task_fn = record { fn = 21; fn_name = "remote_task" }

-- The globals that the program counts in, with the controller and its task board.
pub record Remote (env : Env) : Type 0 where
  pub imessages_sent : ℕ
  pub omessages_sent : ℕ
  pub omessages_recv : ℕ
  pub completion_count : ℕ
  pub task_count : ℕ
  pub task_gen_complete : Bool
  pub max_task_reached : ℕ
  pub mqtt : Mqtt env

-- What a function comes to: a yield, in a state, or its end.
pub data Pause (S : Type 0) : Type 0 where
  paused : S → Pause S
  returned : Pause S

-- Where `remote_task` has yielded: for a text that it has allocated, or for arithmetic on a struct
-- of its own.
pub data Asking : Type 0 where
  printing : Ptr → Asking
  computing : Asking

-- Where `remote_task_gen` has yielded: after an attempt that failed, or a task that was created.
pub data Generating : Type 0 where
  retrying : (i : ℕ) (n : Ptr) (unable_to_create_task_count : ℕ) → Generating
  generated : (i : ℕ) → Generating

-- What `%d` writes for a number below 1000.
unfoldable pub decimal : ℕ → Bytes
decimal n =
    if ltb n 10
    then (48 + n) ∷ []
    else if ltb n 100
    then (48 + n / 10) ∷ (48 + n % 10) ∷ []
    else (48 + n / 100) ∷ (48 + n / 10 % 10) ∷ (48 + n % 10) ∷ []

-- `operators[opn]`
abbrev pub operator_at : ℕ → ℕ
operator_at opn =
    if opn == 0 then b'+' else if opn == 1 then b'-' else if opn == 2 then b'/' else b'*'

-- The message for a command; the four numbers are what the calls of `rand` return.
unfoldable pub command : (r0 r1 r2 r3 : ℕ) → Bytes
command r0 r1 r2 r3 =
    if r0 % 3 == 0
    then codes "print 'hello world!'" ++ 10 ∷ []
    else if r0 % 3 == 1
    then codes "math"
      ++ space ∷ (decimal (r2 % 500) ++ space ∷ operator_at (r1 % 4) ∷ space ∷ decimal (r3 % 500))
    else codes "spawn"

unfoldable pub increment_msg_count : ℕ → ℕ
increment_msg_count n = int32 (n + 1)

module _ {env : Env} where
  abbrev pub board_of : Remote env → Board env
  board_of g = g.mqtt.board

  abbrev pub with_board : Board env → Remote env → Remote env
  with_board t g = record g { mqtt = record g.mqtt { board = t } }

  unfoldable pub increment_completions : Remote env → Remote env
  increment_completions g = record g { completion_count = int32 (g.completion_count + 1) }

  -- One round of its loop.
  unfoldable pub generate_mqtt_message : (r0 r1 r2 r3 : ℕ) → Remote env → Remote env
  generate_mqtt_message r0 r1 r2 r3 g = record g {
    imessages_sent = increment_msg_count g.imessages_sent;
    mqtt = mqtt_send (command r0 r1 r2 r3) g.mqtt;
  }

  -- The end of `remote_task`, after remote_task_create has returned.
  unfoldable pub remote_task_end : Asking → Bool → Remote env → Remote env
  remote_task_end asking res g =
      let g' = record g { omessages_recv = increment_msg_count g.omessages_recv } in
      if res
      then increment_completions g'
      else (elim asking [ printing p ↦ with_board (free_data p (board_of g)) g' | computing ↦ g' ])

  abbrev asked :
      Asking → Remote env → Option (Bool × Board env) → Option (Pause Asking × Remote env)
  asked asking g none = none
  asked asking g (some (true, t)) = some (paused asking, with_board t g)
  asked asking g (some (false, t)) = some (returned, remote_task_end asking false (with_board t g))

  -- `calloc` for the text.
  abbrev pub bumped : Remote env → Remote env
  bumped g = with_board (record (board_of g) { next = suc (board_of g).next }) g

  -- `running` is the coroutine, `mathing` the address of the struct, and `r` what `rand` returns.
  unfoldable pub remote_task :
      (running mathing r : ℕ) → Remote env → Option (Pause Asking × Remote env)
  remote_task running mathing r g =
      let g' = record g { omessages_sent = increment_msg_count g.omessages_sent } in
      if r % 2 == 0
      then (let p = (board_of g).next in
          let g1 = bumped g' in
          asked (printing p) g1
            (remote_issue (some running) "print" (some p) 12 false (board_of g1)))
      else asked computing g'
          (remote_issue (some running) "math" (some mathing) 0 true (board_of g'))

  abbrev answered : Asking → Remote env → Option (Bool × Board env) → Option (Remote env)
  answered asking g none = none
  answered asking g (some (res, t)) = some (remote_task_end asking res (with_board t g))

  -- After the yield in remote_task_create.
  unfoldable pub remote_task_resume : ℕ → Asking → Remote env → Option (Remote env)
  remote_task_resume running (printing p) g =
      answered (printing p) g (remote_result running false (board_of g))
  remote_task_resume running computing g =
      answered computing g (remote_result running true (board_of g))

  abbrev pub tried :
      ℕ → Ptr → ℕ → Remote env → Option (Bool × Board env) → Option (Pause Generating × Remote env)
  tried i n failed g none = none
  tried i n failed g (some (true, t)) =
      some (paused (generated i), record (with_board t g) { task_count = int32 (g.task_count + 1) })
  tried i n failed g (some (false, t)) =
      if ltb 30 failed
      then some (returned, record (with_board (free_data n t) g) { task_gen_complete = true })
      else some (
        paused (retrying i n failed),
        record (with_board t g) { max_task_reached = int32 (g.max_task_reached + 1) },
      )

  unfoldable pub try_to_create : ℕ → Ptr → ℕ → Remote env → Option (Pause Generating × Remote env)
  try_to_create i n failed g =
      tried i n failed g (task_create remote_task_fn primary_exec (some n) 4 (board_of g))

  -- The loop has no end, for the tasks are issued continuously.
  unfoldable pub remote_task_gen : ℕ → Remote env → Option (Pause Generating × Remote env)
  remote_task_gen i g = try_to_create i (board_of g).next 0 (bumped g)

  unfoldable pub remote_task_gen_resume :
      Generating → Remote env → Option (Pause Generating × Remote env)
  remote_task_gen_resume (retrying i n failed) g = try_to_create i n (failed + 1) g
  remote_task_gen_resume (generated i) g = remote_task_gen (int32 (i + 1)) g
