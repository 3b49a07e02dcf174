-- ===== src/Turns.antt =====
-- What a task does from one stop to the next: the switch to its coroutine in src/executor.c, its
-- calls of src/tboard.c and src/include/minicoro.h's yield, each a step of its own.
use Prim.Native.String.{String}
use jam_tboard.Common.{ℕ, zero, suc, ◌+◌, Bool, true, false, Option, none, some, ℤ, if◌then◌else◌}
use jam_tboard.Task.{Ptr, Function}
use jam_tboard.Env.{Env}
use jam_tboard.Board.{Board, M, pure, fault, ◌>>=◌, ◌>>◌, modify, load_task}
use jam_tboard.Create.{task_create}
use jam_tboard.Issue.{blocking_issue, blocking_result, remote_issue, remote_result}

-- The call that a coroutine gives control back from when it is resumed, if it waits in one.
pub data Call : Type 0 where
  no_call in_blocking in_remote : Call

-- What is left of a task's turn. The code of a task is not known: a turn is any tree of its calls. The
-- call of task_create goes on with its result; the two others go on in the same turn if they fail.
pub data Turn : Type 0 where
  ends yields : Turn
  creates : Function → ℤ → Option Ptr → ℕ → (Bool → Turn) → Turn
  blocks : Function → ℤ → Option Ptr → ℕ → Turn → Turn
  asks : String → Option Ptr → ℕ → Bool → Turn → Turn

pub data Next : Type 0 where
  goes_on : Turn → Next
  stops : Call → Next

-- At most as many calls as this one after another.
unfoldable pub depth : Turn → ℕ
depth (creates fn type args size rest) = suc (depth (rest true) + depth (rest false))
depth (blocks fn type args size rest) = suc (depth rest)
depth (asks message args size blocking rest) = suc (depth rest)
depth ends = 0
depth yields = 0

module _ {env : Env} where
  abbrev pub switched : Ptr → Board env → Option env.Coros → Option ((Ptr × Bool) × Board env)
  switched c t none = some ((c, false), t)
  switched c t (some k) = some ((c, true), record t { coros = k })

  -- `mco_resume` on a task's coroutine; it does nothing to one that is not suspended.
  unfoldable pub switch_to : Ptr → M env (Ptr × Bool)
  switch_to p = do task ← load_task p; λ t. switched task.ctx t (env.mco_resume task.ctx t.coros)

  -- What the call returns that the coroutine waits in.
  unfoldable pub come_back : Call → Ptr → M env Bool
  come_back no_call c = pure true
  come_back in_blocking c = blocking_result c
  come_back in_remote c = remote_result c true

  -- The coroutine goes on in the call; `none` if it could not be resumed.
  unfoldable pub go_on : Call → Ptr × Bool → M env (Option Bool)
  go_on call (c, false) = pure none
  go_on call (c, true) = do done ← come_back call c; pure (some done)

  unfoldable pub resume_task : Ptr → Call → M env (Option Bool)
  resume_task p call = do switch ← switch_to p; go_on call switch

  -- `mco_yield`, and the return of the coroutine's function.
  unfoldable pub yield_now : Ptr → Board env → Board env
  yield_now c t = record t { coros = env.mco_yield c t.coros }

  unfoldable pub end_now : Ptr → Board env → Board env
  end_now c t = record t { coros = env.mco_return c t.coros }

  abbrev pub stop_in : Ptr → Call → M env Next
  stop_in c call = modify (yield_now c) >> pure (stops call)

  unfoldable pub tick : Ptr → Turn → M env Next
  tick c ends = modify (end_now c) >> pure (stops no_call)
  tick c yields = stop_in c no_call
  tick c (creates fn type args size rest) = do
    made ← task_create fn type args size
    pure (goes_on (rest made))
  tick c (blocks fn type args size rest) = do
    issued ← blocking_issue (some c) fn type args size
    if issued then stop_in c in_blocking else pure (goes_on rest)
  tick c (asks message args size blocking rest) = do
    issued ← remote_issue (some c) message args size blocking
    if issued then stop_in c (if blocking then in_remote else no_call) else pure (goes_on rest)

  abbrev pub carry : (Turn → M env (Unit {0})) → Next → M env (Unit {0})
  carry run (stops call) = pure tt
  carry run (goes_on rest) = run rest

  -- The fuel is the number of calls.
  unfoldable pub run_turn : ℕ → Ptr → Turn → M env (Unit {0})
  run_turn zero c turn = fault
  run_turn (suc n) c turn = do next ← tick c turn; carry (run_turn n c) next

  unfoldable pub run_resumed : (Bool → Turn) → Ptr → Option Bool → M env (Unit {0})
  run_resumed turns c none = pure tt
  run_resumed turns c (some done) = run_turn (suc (depth (turns done))) c (turns done)

  -- A whole turn of the task that waits in a call; the turn depends on what the call returns.
  unfoldable pub take_turn : Call → (Bool → Turn) → Ptr → M env (Unit {0})
  take_turn call turns p = do
    task ← load_task p
    back ← resume_task p call
    run_resumed turns task.ctx back
