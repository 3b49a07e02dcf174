-- ===== src/System/Runs.antt =====
-- What the threads do from `tboard_create` and `tboard_start` to `tboard_destroy` of src/tboard.c.
use mathlib.Core.Path.{subst}
use jam_tboard.Common.{
  ℕ, zero, suc, ◌+◌, ◌<◌, ◌≤◌, ◌≡◌, refl, sym, ap, Option, none, some, List, [], ◌∷◌, length,
  total-eq-zero, arith,
}
use jam_tboard.Task.{Ptr, primary_exec}
use jam_tboard.Env.{Env}
use jam_tboard.Env.Laws.{HashLaws, CoroLaws}
use jam_tboard.Board.{Board}
use jam_tboard.Executor.Fetch.{Exec}
use jam_tboard.Lifecycle.{
  secondary_executors, tboard_create, tboard_start, tboard_destroy, new_board,
}
use jam_tboard.Lifecycle.Waking.{length-secondary_executors}
use jam_tboard.Ownership.Defs.{nothing, Sound, Returns, queued}
use jam_tboard.Ownership.Frame.{Sound-queues, Sound-hands}
use jam_tboard.Ownership.Beginning.{new_board-Sound}
use jam_tboard.Ownership.Shutdown.{tboard_destroy-Returns}
use jam_tboard.System.{Thread, idle, State, Action, perform}
use jam_tboard.System.Reachable.{holds, IsThread, IsSafe, Fits, Goes, goes, perform-IsSafe}

-- The thread that was created at each place, without a task.
abbrev pub thread_at : List Exec → ℕ → Thread
thread_at [] i = idle (record { type = primary_exec; num = 0 })
thread_at (e ∷ es) zero = idle e
thread_at (e ∷ es) (suc i) = thread_at es i

secondary-IsThread :
    (rounds i sqs j : ℕ)
    → rounds + i ≤ sqs
    → j < rounds
    → IsThread sqs (thread_at (secondary_executors rounds i) j)
unfolding secondary_executors
secondary-IsThread zero i sqs j le lt = absurd (omega arith)
secondary-IsThread (suc rounds) i sqs zero le lt = λ e. omega arith
secondary-IsThread (suc rounds) i sqs (suc j) le lt =
    secondary-IsThread rounds (suc i) sqs j (omega arith) (omega arith)

executors-IsThread :
    (sqs i : ℕ)
    → i < suc (length (secondary_executors sqs 0))
    → IsThread sqs
        (thread_at (record { type = primary_exec; num = 0 } ∷ secondary_executors sqs 0) i)
executors-IsThread sqs zero lt = λ e. absurd (ground arith)
executors-IsThread sqs (suc j) lt =
    secondary-IsThread sqs 0 sqs j (omega arith) (omega (arith, length-secondary_executors sqs 0))

idle_at : (a : Ptr) (es : List Exec) (i : ℕ) → holds a (thread_at es i) ≡ 0
idle_at a [] i = refl
idle_at a (e ∷ es) zero = refl
idle_at a (e ∷ es) (suc i) = idle_at a es i

module _ {env : Env} where
  -- The threads that a start of the board creates.
  abbrev pub launched : Board env → State env
  launched t =
      let (executors, u) = tboard_start t in
      record { board = u; count = length executors; threads = thread_at executors }

  -- The actions lead from one state to the other, each with what it needs.
  pub data Runs : State env → List (Action env) → State env → Type 0 where
    done : {s : State env} → Runs s [] s
    step :
        {s u v : State env} {a : Action env} {rest : List (Action env)}
        → Fits a s
        → perform a s ≡ some u
        → Runs u rest v
        → Runs s (a ∷ rest) v

  Goes-some :
      {P : State env → Type 0} {o : Option (State env)} {u : State env}
      → o ≡ some u
      → Goes P o
      → P u
  Goes-some {P} e (goes p) = subst P (ground arith) p

  created-is :
      (n : ℕ) (next : Ptr) (k : env.Coros) (t : Board env)
      → tboard_create env n next k ≡ some t
      → t ≡ new_board env n next k
  unfolding tboard_create
  created-is n next k t made = ground (arith, made)

  abbrev pub AllIdle : State env → Type 0
  AllIdle s = (i : ℕ) → i < s.count → (e : Exec) × (s.threads i ≡ idle e)

  module _ (hash : HashLaws env) (coro : CoroLaws env) where
    Runs-IsSafe : {s v : State env} {acts : List (Action env)} → Runs s acts v → IsSafe s → IsSafe v
    Runs-IsSafe done safe = safe
    Runs-IsSafe (step fit e rest) safe =
        Runs-IsSafe rest (Goes-some e (perform-IsSafe hash coro _ _ safe fit))

    launched-IsSafe : (t : Board env) → Sound nothing t → t.status ≡ 0 → IsSafe (launched t)
    unfolding tboard_start queued
    launched-IsSafe t s e = rw e (record {
      sound =
          Sound-queues s (ground arith)
            (λ a. omega (
              arith,
              total-eq-zero (holds a) _ _ (λ i lt.
                  idle_at a (record { type = primary_exec; num = 0 } ∷ secondary_executors t.sqs 0)
                    i),
            ))
            refl refl refl;
      placed = executors-IsThread t.sqs;
    })

    -- An all idle state holds nothing.
    idle-Sound : {s : State env} → IsSafe s → AllIdle s → Sound nothing s.board
    idle-Sound {s} safe all =
        Sound-hands safe.sound
          (λ a.
            omega (
              arith,
              total-eq-zero (holds a) s.count s.threads (λ i lt. ap (holds a) (all i lt).1),
            ))
          refl refl refl

    module _ (n : ℕ) (next : Ptr) (k : env.Coros) (t : Board env)
        (made : tboard_create env n next k ≡ some t) (acts : List (Action env)) (v : State env)
        (run : Runs (launched t) acts v) where
      -- In every state that the threads of a new, started board reach, by whatever
      -- sequence of actions that have what they need, the memory is sound for the tasks
      -- that the executors hold, and each executor's queue and the queue that its task
      -- was taken from exist. Conditions: the laws of the coroutine library and the hash
      -- table.
      pub run-IsSafe : IsSafe v
      unfolding new_board
      run-IsSafe =
          let new = created-is n next k t made in
          Runs-IsSafe run (
            launched-IsSafe t (subst (Sound nothing) (sym new) (new_board-Sound hash n next k))
              (ap (λ u. u.status) new))

      -- However the executors that a start of a new board creates, the controller's
      -- thread and the callers from outside take their turns, once no executor holds a
      -- task, destroying the board returns without a fault and without running out of
      -- fuel, and leaves no task, no remote task and no history entry allocated.
      -- Conditions: the laws of the coroutine library and the hash table, and what the
      -- actions need, as `Fits` says: every live remote task can be answered when the
      -- controller is given one, the callers of blocking remote tasks have empty storage
      -- with room for a struct when a response is handled, executors that exist, and,
      -- where a task is worked on, that its run from this state on gives it back in the
      -- executor's hand as `Resumes` says.
      pub run-destroy :
          AllIdle v
          → Returns
              (λ _ u.
                ((p : Ptr) → u.tasks p ≡ none)
                × ((r : Ptr) → u.remotes r ≡ none)
                × ((h : Ptr) → u.hists h ≡ none))
              (tboard_destroy v.board)
      run-destroy all = tboard_destroy-Returns v.board (idle-Sound run-IsSafe all)
