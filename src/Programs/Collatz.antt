-- ===== src/Programs/Collatz.antt =====
-- src/legacy_tests/test2_Collatz.c, which tests the 3x+1 conjecture with one task for each number,
-- as its macros are set: ALLOC_N and ISSUE_PRIORITY_TASKS are 1, the other switches 0. A function
-- that yields is cut there, with its local variables as a state.
pub mod Steps
pub mod Attempts
use jam_tboard.Common.{
  ℕ, suc, ◌+◌, ◌*◌, ◌/◌, ◌%◌, ◌^◌, Bool, true, false, ◌&&◌, Option, none, some, List, ℤ, pos,
  negsuc, int32, ltb, leb_ℤ, eq_ℤ, ◌==◌, update, if◌then◌else◌,
}
use jam_tboard.Task.{Ptr, Function, priority_exec, primary_exec, secondary_exec}
use jam_tboard.Env.{Env}
use jam_tboard.Board.{History, Board, free_data}
use jam_tboard.Create.{task_create}
use jam_tboard.History.{signed32, history_print_records}
use jam_tboard.Lifecycle.{tboard_create, tboard_start, tboard_kill}
use jam_tboard.Executor.Fetch.{Exec}

abbrev pub collatz_iterations : ℕ
collatz_iterations = 100000

abbrev pub secondary_task_fn : Function
secondary_task_fn = record { fn = 11; fn_name = "secondary_task" }

abbrev pub primary_task_fn : Function
primary_task_fn = record { fn = 10; fn_name = "primary_task" }

abbrev pub priority_task_fn : Function
priority_task_fn = record { fn = 12; fn_name = "priority_task" }

-- The globals, with the board, and what the numbers that were allocated for tasks hold.
pub record Collatz (env : Env) : Type 0 where
  pub completion_count : ℕ
  pub task_count : ℕ
  pub yield_count : env.Real
  pub priority_count : ℕ
  pub primary_task_complete : Bool
  pub max_tasks_reached : ℕ
  pub numbers : Ptr → Option ℤ
  pub board : Board env

-- A function that has yielded, or has returned.
pub data Turn (S : Type 0) : Type 0 where
  yields : S → Turn S
  ended : Turn S

-- Where `primary_task` has yielded: after an attempt that failed, after a task that was created,
-- or at its end.
pub data Primary : Type 0 where
  trying : (i : ℕ) (n : Ptr) (unable_to_create_task_count : ℕ) → Primary
  created : (i : ℕ) → Primary
  ending : Primary

-- The next value of `x`, a `long`, which must not overflow.
unfoldable pub next_x : ℕ → Option ℕ
next_x x =
    if x % 2 == 0 then some (x / 2) else if ltb (3 * x + 1) (2 ^ 63) then some (3 * x + 1) else none

module _ {env : Env} where
  unfoldable pub increment_completion_count : Collatz env → Collatz env
  increment_completion_count g = record g { completion_count = int32 (g.completion_count + 1) }

  unfoldable pub read_completion_count : Collatz env → ℕ
  read_completion_count g = g.completion_count

  -- `yield_count++`, on a `double`.
  abbrev pub count_yielded : Collatz env → Collatz env
  count_yielded g = record g { yield_count = env.real_add g.yield_count (env.real (pos 1)) }

  abbrev stepped : ℕ → Collatz env → Option ℕ → Option (Turn (ℕ × ℕ) × Collatz env)
  stepped i g none = none
  stepped i g (some x) = some (yields (x, int32 (i + 1)), g)

  -- From the test of the loop to the next yield, or to the end.
  unfoldable pub secondary_loop : ℕ → ℕ → Collatz env → Option (Turn (ℕ × ℕ) × Collatz env)
  secondary_loop x i g =
      if x == 1 then some (ended, increment_completion_count g) else stepped i g (next_x x)

  unfoldable pub secondary_task : ℤ → Collatz env → Option (Turn (ℕ × ℕ) × Collatz env)
  secondary_task (negsuc n) g = some (ended, g)
  secondary_task (pos x) g =
      if ltb 1 x then secondary_loop x 0 g else some (ended, increment_completion_count g)

  unfoldable pub secondary_resume : ℕ × ℕ → Collatz env → Option (Turn (ℕ × ℕ) × Collatz env)
  secondary_resume (x, i) g = secondary_loop x i (count_yielded g)

  -- After an attempt to create a task for the number at `n`.
  abbrev pub attempted :
      ℕ → Ptr → ℕ → Collatz env → Option (Bool × Board env) → Option (Turn Primary × Collatz env)
  attempted i n failed g none = none
  attempted i n failed g (some (true, t)) =
      some (yields (created i), record g { task_count = int32 (g.task_count + 1); board = t })
  attempted i n failed g (some (false, t)) =
      if ltb 30 failed
      then some (ended, record g { primary_task_complete = true; board = free_data n t })
      else some (
        yields (trying i n failed),
        record g { max_tasks_reached = int32 (g.max_tasks_reached + 1); board = t },
      )

  unfoldable pub attempt : ℕ → Ptr → ℕ → Collatz env → Option (Turn Primary × Collatz env)
  attempt i n failed g =
      attempted i n failed g (task_create secondary_task_fn secondary_exec (some n) 4 g.board)

  -- `calloc` for a number, and the number written there.
  abbrev pub alloc_number : ℤ → Collatz env → Collatz env
  alloc_number i g = record g {
    numbers = update g.numbers g.board.next (some i);
    board = record g.board { next = suc g.board.next };
  }

  -- From the test of the `for` loop to the next yield.
  unfoldable pub primary_loop : ℕ → Collatz env → Option (Turn Primary × Collatz env)
  primary_loop i g =
      if ltb i collatz_iterations
      then attempt i g.board.next 0 (alloc_number (pos i) g)
      else some (yields ending, g)

  unfoldable pub primary_task : Collatz env → Option (Turn Primary × Collatz env)
  primary_task g = primary_loop 0 (record g { primary_task_complete = false })

  unfoldable pub primary_resume : Primary → Collatz env → Option (Turn Primary × Collatz env)
  primary_resume (trying i n failed) g = attempt i n (failed + 1) (count_yielded g)
  primary_resume (created i) g = primary_loop (i + 1) (count_yielded g)
  primary_resume ending g = some (ended, record (count_yielded g) { primary_task_complete = true })

  abbrev prioritised : Collatz env → Option (Bool × Board env) → Option (Collatz env)
  prioritised g none = none
  prioritised g (some (true, t)) =
      some (record g { priority_count = int32 (g.priority_count + 1); board = t })
  prioritised g (some (false, t)) = some (record g { board = t })

  -- One round of its loop. The number is passed as a pointer, which is NULL for 0.
  unfoldable pub priority_task_creator : Collatz env → Option (Collatz env)
  priority_task_creator g =
      let args = if g.priority_count == 0 then none else some g.priority_count in
      prioritised g (task_create priority_task_fn priority_exec args 0 g.board)

  -- What is reported once the board has been killed: the tasks that are left, and the history.
  abbrev reported :
      Collatz env
      → Option (List (History env) × Board env)
      → Option (Option (ℤ × List (History env)) × Collatz env)
  reported g none = none
  reported g (some (records, t)) = some (some (t.task_count, records), record g { board = t })

  unfoldable pub kill_and_report :
      Collatz env → Option (Option (ℤ × List (History env)) × Collatz env)
  kill_and_report g = reported g (history_print_records (tboard_kill g.board).1)

  -- One round of the loop of the thread; there is a report when it ends.
  unfoldable pub check_completion :
      Collatz env → Option (Option (ℤ × List (History env)) × Collatz env)
  check_completion g =
      if g.primary_task_complete && leb_ℤ (signed32 g.task_count) (signed32 g.completion_count)
      then kill_and_report g
      else some (none, g)

  -- The same for the thread that looks every ten seconds whether another task has completed;
  -- otherwise `last_completion` is what it has read.
  unfoldable pub tboard_killer :
      ℤ → Collatz env → Option (Option (ℤ × List (History env)) × Collatz env)
  tboard_killer last_completion g =
      if eq_ℤ (signed32 (read_completion_count g)) last_completion
      then kill_and_report g
      else some (none, g)

  -- The globals at the start.
  abbrev pub initial : Board env → Collatz env
  initial t = record {
    completion_count = 0;
    task_count = 0;
    yield_count = env.real (pos 0);
    priority_count = 0;
    primary_task_complete = false;
    max_tasks_reached = 0;
    numbers = λ _. none;
    board = t;
  }

  abbrev entered : List Exec → Option (Bool × Board env) → Option (List Exec × Collatz env)
  entered executors none = none
  entered executors (some (added, t)) = some (executors, initial t)

  abbrev started : Option (Board env) → Option (List Exec × Collatz env)
  started none = none
  started (some t) =
      let (executors, u) = tboard_start t in
      entered executors (task_create primary_task_fn primary_exec none 0 u)

  -- `main` up to the joins, less its own threads.
  unfoldable pub main : Ptr → env.Coros → Option (List Exec × Collatz env)
  main next coros = started (tboard_create env 10 next coros)
