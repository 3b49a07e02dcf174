-- ===== src/Coroutines/Rounds.antt =====
-- What an executor of src/executor.c does with a task that it has fetched, the task's turn included.
use mathlib.Core.Path.{subst}
use jam_tboard.Common.{Option, ℕ, ◌≡◌, Bool, none, some}
use jam_tboard.Task.{Ptr, Task, task_running}
use jam_tboard.Env.{Env}
use jam_tboard.Env.Laws.{HashLaws}
use jam_tboard.Env.Views.{CoroViews}
use jam_tboard.Board.{Board, ◌>>◌}
use jam_tboard.Executor.Fetch.{Exec, Slot}
use jam_tboard.Executor.{begin, finish}
use jam_tboard.Turns.{Call, Turn, take_turn}
use jam_tboard.Ownership.Defs.{
  short, Held, with_task, Sound, Returns, returns, Returns-bind, Returns-mono,
}
use jam_tboard.Ownership.Only.{Returns-Only}
use jam_tboard.Ownership.Whole.{Resumes, begin-Returns}
use jam_tboard.Ownership.Yielding.{IsSlot}
use jam_tboard.Coroutines.Defs.{Role, Tenants}
use jam_tboard.Coroutines.Frame.{Alike-Tenants}
use jam_tboard.Coroutines.Placing.{begin-Likes}
use jam_tboard.Coroutines.Whole.{finish-InOrder}
use jam_tboard.Coroutines.Stopping.{StoppedAt-HasRun}
use jam_tboard.Coroutines.Turning.{IsProper}
use jam_tboard.Coroutines.Turn.{ReadyAt, take_turn-StoppedAt}

module _ {env : Env} where
  Returns-at :
      {A : Type 0} {P : A → Board env → Type 0} {r : Option (A × Board env)} {a : A} {u : Board env}
      → r ≡ some (a, u)
      → Returns P r
      → P a u
  Returns-at {P = P} {a = a} {u = u} e (returns {a = b} {u = v} p) =
      let same_result : b ≡ a = cc in
      let same_board : v ≡ u = cc in subst (λ w. P w u) same_result (subst (P b) same_board p)

  -- Whatever calls a task makes in its turn, an executor that has fetched it resumes it, lets
  -- it run until it stops and sees to it, without a fault; the turn comes to its end within
  -- its fuel, the memory is sound with the task no longer in hand, and each coroutine has a
  -- role again as `Tenants` says. Conditions: nothing else happens meanwhile; the laws of the
  -- hash table and, in more detail, of the coroutine library; no task in debt, no count
  -- pending and no entry missing; each coroutine has a role, the slot is a queue of the
  -- board, and the memory is sound with the task in hand; the task is live, and its coroutine
  -- is at the call that it is resumed in and waits for no answer, or it has none; and what
  -- the task asks of a controller can be answered.
  pub run_task-InOrder :
      HashLaws env
      → (coro : CoroViews env) {h : Held} → ((a : Ptr) → h.debt a ≡ 0)
      → h.pending ≡ short 0
      → h.new ≡ none
      → {roles : Ptr → Role} {t : Board env} → Tenants coro roles t
      → (args : Exec) (slot : Slot) (p : Ptr) (x : Task) (start end : ℕ) (call : Call)
        (turns : Bool → Turn)
      → IsSlot t.sqs slot
      → Sound (with_task p h) t
      → t.tasks p ≡ some x
      → ReadyAt roles p x call
      → ((done : Bool) → IsProper (turns done))
      → Returns
          (λ _ u. Sound h u × ((roles' : Ptr → Role) × Tenants coro roles' u))
          ((begin p >> (take_turn call turns p >> finish args slot p start end)) t)
  run_task-InOrder hash coro {h} debts settled en {roles} {t} T args slot p x start end call turns
        ok s at ready proper =
      Returns-bind (Returns-Only (begin-Returns h p x en s at) (begin-Likes p t))
        λ _ u ((s1, same1, at1), m).
          Returns-bind
            (take_turn-StoppedAt hash coro debts settled en p (record x { status = task_running })
              call turns proper s1 (Alike-Tenants m T) at1 ready)
            λ _ v (s2, same2, (roles', y, T2, at2, stop)).
              Returns-mono
                (finish-InOrder hash coro debts settled en T2 args slot p y start end
                  (rw (same2, same1) ok) s2 at2 stop)
                λ _ w ((s3, (roles'', T3, left)), handed). (s3, (roles'', T3))

  -- A task's turn is a run as an executor's round asks for.
  pub take_turn-Resumes :
      HashLaws env
      → (coro : CoroViews env) (h : Held) → ((a : Ptr) → h.debt a ≡ 0)
      → h.pending ≡ short 0
      → h.new ≡ none
      → {roles : Ptr → Role} {t : Board env} → Tenants coro roles t
      → (p : Ptr) (x : Task) (call : Call) (turns : Bool → Turn) → Sound (with_task p h) t
      → t.tasks p ≡ some x
      → ReadyAt roles p x call
      → ((done : Bool) → IsProper (turns done))
      → Resumes h (take_turn call turns) p t
  take_turn-Resumes hash coro h debts settled en T p x call turns s at ready proper u is =
      let ((s1, same1, at1), m) =
        Returns-at is (Returns-Only (begin-Returns h p x en s at) (begin-Likes p _)) in
      Returns-mono
        (take_turn-StoppedAt hash coro debts settled en p (record x { status = task_running }) call
          turns proper s1 (Alike-Tenants m T) at1 ready)
        λ _ v (s2, same2, (roles', y, T2, at2, stop)).
          (s2, same2, (y, at2, StoppedAt-HasRun coro T2 p y at2 stop))
