-- ===== src/Coroutines/Defs.antt =====
-- The roles of coroutines, and the invariant that says which one each coroutine has.
use jam_tboard.Common.{◌≡◌, ◌≤◌, ◌⊎◌, Bool, true, false, Option, none, some}
use jam_tboard.Task.{
  Ptr, null, Task, RemoteTask, Stored, task_bytes, remote_bytes, CoroState, dead, running,
  suspended,
}
use jam_tboard.Env.{Env}
use jam_tboard.Turns.{Call, no_call, in_blocking, in_remote}
use jam_tboard.Env.Views.{Cell, new_cell, CoroViews}
use jam_tboard.Board.{History, Board}
use jam_tboard.Ownership.Answering.{Answerable}

-- What a task waits for.
pub data Wait : Type 0 where
  on_task on_remote : Wait

-- Where the coroutine of a task is: at a plain yield, at its start or at its end; at work; at the
-- yield of `blocking_task_create`, with the new task, whose context is given, in its storage; at the
-- yield of `remote_task_create`, with a blocking remote task or another one in its storage; at one of
-- these yields with what it stored taken; and there with the answer in its storage.
pub data Spot : Type 0 where
  clear active asking passing : Spot
  issuing : Ptr → Spot
  asleep woken : Wait → Spot

-- A coroutine runs a task, or is the context of a new task in the storage of another coroutine.
pub data Role : Type 0 where
  unused : Role
  serves : Ptr → Spot → Role
  spare : Ptr → Role

abbrev pub call_for : Wait → Call
call_for on_task = in_blocking
call_for on_remote = in_remote

abbrev pub call_of : Role → Call
call_of unused = no_call
call_of (spare c) = no_call
call_of (serves a clear) = no_call
call_of (serves a active) = no_call
call_of (serves a passing) = no_call
call_of (serves a asking) = in_remote
call_of (serves a (issuing d)) = in_blocking
call_of (serves a (asleep w)) = call_for w
call_of (serves a (woken w)) = call_for w

abbrev pub InState : Spot → CoroState → Type 0
InState clear state = (state ≡ suspended) ⊎ (state ≡ dead)
InState active state = state ≡ running
InState _ state = state ≡ suspended

abbrev pub HasRemote : Bool → Option Stored → Type 0
HasRemote blocking o =
    (y : RemoteTask) × (o ≡ some (remote_bytes y)) × (y.blocking ≡ blocking) × Answerable y

-- What waits for an answer to the task at an address: its blocking task or remote task.
pub data Asks (tasks : Ptr → Option Task) (remotes : Ptr → Option RemoteTask) (a : Ptr)
    : Wait → Type 0 where
  by_task :
      (b : Ptr) (y : Task) → tasks b ≡ some y → y.parent ≡ some a → Asks tasks remotes a on_task
  by_remote :
      (r : Ptr) (y : RemoteTask)
      → remotes r ≡ some y
      → y.blocking ≡ true
      → y.calling_task ≡ some a
      → Asks tasks remotes a on_remote

-- A task's history entry is there.
abbrev pub IsIn : {env : Env} → (Ptr → Option (History env)) → Task → Type 0
IsIn {env} hists x = (h : Ptr) × (e : History env) × (x.hist ≡ some h) × (hists h ≡ some e)

module _ {env : Env} where
  abbrev pub Stores : (Ptr → Option (History env)) → Spot → Option Stored → Type 0
  Stores H asking o = HasRemote true o
  Stores H passing o = HasRemote false o
  Stores H (issuing d) o =
      (y : Task) × (o ≡ some (task_bytes y)) × (y.ctx ≡ d) × (y.parent ≡ none) × IsIn H y
  Stores H (woken on_task) o = (y : Task) × (o ≡ some (task_bytes y))
  Stores H (woken on_remote) o = (y : RemoteTask) × (o ≡ some (remote_bytes y))
  Stores H _ o = o ≡ none

  abbrev pub Fills : (Ptr → Option (History env)) → Role → Cell → Type 0
  Fills H unused cell = Unit {0}
  Fills H (spare c) cell = cell ≡ new_cell
  Fills H (serves a s) cell = (cell.made ≡ true) × InState s cell.state × Stores H s cell.stored

  pub record Tenants (coro : CoroViews env) (roles : Ptr → Role) (t : Board env) : Type 0 where
    pub filled : (c : Ptr) → Fills t.hists (roles c) (coro.view t.coros c)
    -- A context that is issued is kept for the task that issues it.
    pub kept : (c a d : Ptr) → roles c ≡ serves a (issuing d) → roles d ≡ spare c
    -- Each live task has its own coroutine, if any.
    pub served :
        (a : Ptr) (x : Task)
        → t.tasks a ≡ some x
        → (x.ctx ≡ null) ⊎ ((s : Spot) × (roles x.ctx ≡ serves a s))
    -- What waits to answer a task waits for a live one, and that one is asleep.
    pub asked :
        (a : Ptr) (w : Wait)
        → Asks t.tasks t.remotes a w
        → (x : Task) × (t.tasks a ≡ some x) × (roles x.ctx ≡ serves a (asleep w))
    pub answers : (r : Ptr) (y : RemoteTask) → t.remotes r ≡ some y → Answerable y
    pub fresh_task : (a : Ptr) → t.next ≤ a → t.tasks a ≡ none
    pub fresh_remote : (r : Ptr) → t.next ≤ r → t.remotes r ≡ none
